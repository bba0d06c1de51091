-- ===== src/Raft/VoteLaws.antt =====
-- mit6.824/src/raft/raft.go: when `RequestVote` grants a vote.
use distribute_system_lab.Prelude.{
  ℕ, ◌+◌, ◌-◌, ◌≡◌, ◌≤◌, ◌<◌, ◌↔◌, refl, sym, ap, ◌∙◌, ◌⊎◌, inl, inr, Bool, true, false, Bool-cases,
  Option, none, some, arith, length, get_elem?, ltb, leb, ltb→lt, ltb→le, subst, List, ◌==◌,
  if◌then◌else◌,
}
use distribute_system_lab.Raft.State.{Raft, LogEntry, Codec, persist}
use distribute_system_lab.Raft.Vote.{
  RequestVoteArgs, RequestVoteReply, voted_other, latest, log_newer, update_term, grant_vote,
  vote_in_term, request_vote,
}

free_vote : (v : Option ℕ) (c : ℕ) → (voted_other v c ≡ false) ↔ ((v ≡ none) ⊎ (v ≡ some c))
free_vote none c = ((λ q. inl refl), λ x. refl)
free_vote (some v) c = (
  (λ q. inr (ground (arith, q))),
  λ x. elim x [ inl e ↦ absurd (ground (arith, e)) | inr e ↦ ground (arith, e) ],
)

module _ {A : Type 0} where
  -- The candidate's log ends in a newer term, or in the same term and is as long at least.
  abbrev pub UpToDate : List (LogEntry A) → LogEntry A → RequestVoteArgs → Type 0
  UpToDate log last args =
      (last.term_idx < args.last_log_term)
      ⊎ ((last.term_idx ≡ args.last_log_term) × (length log ≤ args.last_log_index + 1))

  -- The term is new, or it is the peer's own and the peer has voted for no other in it.
  abbrev pub MayVote : Raft A → RequestVoteArgs → Type 0
  MayVote rf args =
      (rf.current_term < args.term)
      ⊎ ((rf.current_term ≡ args.term)
          × ((rf.voted_for ≡ none) ⊎ (rf.voted_for ≡ some args.candidate_id)))

  log_newer_lem :
      (rf : Raft A) (last : LogEntry A) (args : RequestVoteArgs)
      → latest rf ≡ some last
      → (newer : Bool) × (log_newer rf args ≡ some newer)
        × ((newer ≡ true) ↔ UpToDate rf.log last args)
  unfolding log_newer
  log_newer_lem rf last args e = (
    (if ltb last.term_idx args.last_log_term
        then true
        else if args.last_log_term == last.term_idx
        then leb (length rf.log) (args.last_log_index + 1)
        else false),
    rw e refl,
    ground arith,
  )

  module _ (g : Codec A) where
    -- The tests of the handler after it has taken over the term.
    abbrev Grants : Raft A → LogEntry A → RequestVoteArgs → Type 0
    Grants rf last args =
        (rf.current_term ≤ args.term)
        × (voted_other rf.voted_for args.candidate_id ≡ false)
        × UpToDate rf.log last args

    vote_in_term_lem :
        (rf : Raft A) (args : RequestVoteArgs) (t : ℕ) (last : LogEntry A)
        → latest rf ≡ some last
        → (rf' : Raft A) × (reply : RequestVoteReply) × (vote_in_term g rf args t
            ≡ some (rf', reply))
          × (reply.term ≡ t)
          × ((reply.vote_granted ≡ true) ↔ Grants rf last args)
    unfolding vote_in_term
    vote_in_term_lem rf args t last e =
        let (newer, en, iff) = log_newer_lem rf last args e in
        elim (Bool-cases (ltb args.term rf.current_term)) [
          | inl old ↦ (
            rf,
            record { term = t; vote_granted = false },
            ground (arith, old),
            refl,
            ((λ q. absurd (ground (arith, q))), λ x. absurd (ground (arith, x.0, old))),
          )
          | inr current ↦ elim (Bool-cases (voted_other rf.voted_for args.candidate_id)) [
            | inl other ↦ (
              rf,
              record { term = t; vote_granted = false },
              rw (current, other) refl,
              refl,
              ((λ q. absurd (ground (arith, q))), λ x. absurd (ground (arith, x.1, other))),
            )
            | inr free ↦ elim (Bool-cases newer) [
              | inl yes_newer ↦ (
                grant_vote g rf args.candidate_id,
                record { term = t; vote_granted = true },
                rw (current, free, en, yes_newer) refl,
                refl,
                ((λ q. (ground (arith, current), free, iff.0 yes_newer)), λ x. refl),
              )
              | inr not_newer ↦ (
                rf,
                record { term = t; vote_granted = false },
                rw (current, free, en, not_newer) refl,
                refl,
                (
                  (λ q. absurd (ground (arith, q))),
                  λ x. absurd (ground (arith, iff.1 x.2, not_newer)),
                ),
              )
            ]
          ]
        ]

    -- `Grants` in terms of the state before the term is taken over.
    update_term-Grants :
        (rf : Raft A) (args : RequestVoteArgs) (last : LogEntry A)
        → (latest (update_term g rf args.term).0 ≡ latest rf)
          × (Grants (update_term g rf args.term).0 last args
              ↔ (MayVote rf args × UpToDate rf.log last args))
    unfolding update_term persist
    update_term-Grants rf args last = elim (Bool-cases (ltb rf.current_term args.term)) [
      | inl newer ↦
          let log : (update_term g rf args.term).0.log ≡ rf.log = ground (arith, newer) in
          let term : (update_term g rf args.term).0.current_term ≡ args.term =
            ground (arith, newer) in
          let vote : (update_term g rf args.term).0.voted_for ≡ none = ground (arith, newer) in
          (
            ap (λ l. get_elem? l (length l - 1)) log,
            (
              (λ x. (
                inl (ltb→lt rf.current_term args.term newer),
                subst (λ l. UpToDate l last args) log x.2,
              )),
              λ x. (
                omega (arith, term),
                ap (λ v. voted_other v args.candidate_id) vote,
                subst (λ l. UpToDate l last args) (sym log) x.1,
              ),
            ),
          )
      | inr same ↦
          let whole : (update_term g rf args.term).0 ≡ rf = ground (arith, same) in
          rw whole (
            refl,
            (
              (λ x. (
                inr (
                  omega (arith, x.0, ltb→le rf.current_term args.term same),
                  (free_vote rf.voted_for args.candidate_id).0 x.1,
                ),
                x.2,
              )),
              λ x. elim (x.0) [
                | inl lt ↦ absurd (ground (arith, lt, same))
                | inr (eq, free) ↦
                    (omega (arith, eq), (free_vote rf.voted_for args.candidate_id).1 free, x.1)
              ],
            ),
          )
    ]

    -- A peer whose log is not empty answers every request for its vote, with the term that it had.
    -- It grants the vote if and only if the request's term is newer than its own, or is its own and
    -- it has voted for no other candidate, and the candidate's log is up to date: its last entry is
    -- of a newer term, or of the same term and the log is as long at least.
    pub request_vote_lem :
        (rf : Raft A) (args : RequestVoteArgs) (last : LogEntry A)
        → latest rf ≡ some last
        → (rf' : Raft A) × (reply : RequestVoteReply) × (request_vote g rf args ≡ some (rf', reply))
          × (reply.term ≡ rf.current_term)
          × ((reply.vote_granted ≡ true) ↔ (MayVote rf args × UpToDate rf.log last args))
    unfolding request_vote
    request_vote_lem rf args last e =
        let (kept, iff) = update_term-Grants rf args last in
        let (rf', reply, run, term, granted) =
          vote_in_term_lem (update_term g rf args.term).0 args rf.current_term last (kept ∙ e) in
        (rf', reply, run, term, ((λ q. iff.0 (granted.0 q)), λ x. granted.1 (iff.1 x)))
