-- ===== src/Raft/Cluster/Safety.antt =====
-- mit6.824/src/raft/raft.go: what holds of every cluster that peers over blank disks come to.
use distribute_system_lab.Prelude.{
  ℕ, ◌+◌, ◌≡◌, ◌≢◌, ◌≤◌, ◌<◌, refl, sym, ap, ◌∙◌, ◌⊎◌, inl, inr, Bool, true, false, Option, none,
  some, arith, count, get_elem?, ℕ_discrete, ◌==◌, ==_iff, ◌&&◌, if◌then◌else◌,
}
use distribute_system_lab.Raft.State.{Raft, Codec}
use distribute_system_lab.Raft.Disk.{Inv, Kept}
use distribute_system_lab.Raft.Vote.{RequestVoteArgs}
use distribute_system_lab.Raft.Candidate.{has_majority}
use distribute_system_lab.Raft.Quorum.{is_vote_for}
use distribute_system_lab.Raft.Node.{Node, Routine, campaigning}
use distribute_system_lab.Raft.Cluster.{Call, idle, asked, replied, received, Cluster}
use distribute_system_lab.Raft.Cluster.Ballots.{
  upto, count-upto_le, count-upto_lt, ==-refl, ==-apart,
}

-- Who voted for whom in which term.
abbrev pub Votes : Type 0
Votes = ℕ → ℕ → Option ℕ

abbrev pub Grows : Votes → Votes → Type 0
Grows votes votes' = (v t c : ℕ) → votes v t ≡ some c → votes' v t ≡ some c

abbrev pub is_granted : Call → Bool
is_granted idle = false
is_granted (asked args) = false
is_granted (replied reply) = reply.vote_granted
is_granted (received reply) = reply.vote_granted

abbrev pub is_counted : Call → Bool
is_counted idle = false
is_counted (asked args) = false
is_counted (replied reply) = false
is_counted (received reply) = reply.vote_granted

counted-granted : (call : Call) → is_counted call ≡ true → is_granted call ≡ true
counted-granted (received reply) h = h
counted-granted idle h = h
counted-granted (asked args) h = absurd (ground (arith, h))
counted-granted (replied reply) h = absurd (ground (arith, h))

abbrev pub counted_votes : ℕ → (ℕ → ℕ → ℕ → Call) → ℕ → ℕ → ℕ
counted_votes n calls c t = count is_counted (upto (λ v. calls v c t) n)

abbrev pub votes_for : ℕ → Votes → ℕ → ℕ → ℕ
votes_for n votes c t = count (is_vote_for c) (upto (λ v. votes v t) n)

-- A granted reply is a vote; a request carries its round; nobody calls itself.
pub record CallOk (votes : Votes) (v c t : ℕ) (call : Call) : Type 0 where
  pub vote : is_granted call ≡ true → votes v t ≡ some c
  pub request :
      (args : RequestVoteArgs) → call ≡ asked args → (args.term ≡ t) × (args.candidate_id ≡ c)
  pub not_self : v ≡ c → call ≡ idle

-- The votes after peer `i` has come to the state `rf`.
unfoldable pub cast : {A : Type 0} → Votes → ℕ → Raft A → Votes
cast votes i rf v t = if i == v && t == rf.current_term then rf.voted_for else votes v t

vote_of : (vote : Option ℕ) (c : ℕ) → is_vote_for c vote ≡ true → vote ≡ some c
vote_of none c h = absurd (ground (arith, h))
vote_of (some v) c h = ap some ((==_iff v c).0 h)

module _ {A : Type 0} (g : Codec A) (n : ℕ) where
  pub record NodeOk (votes : Votes) (i : ℕ) (m : Node A) : Type 0 where
    pub inv : Inv g m.rf
    pub peers : m.rf.peers ≡ n
    pub me : m.rf.me ≡ i
    pub now : votes i m.rf.current_term ≡ m.rf.voted_for
    pub later : (t : ℕ) → m.rf.current_term < t → votes i t ≡ none

  -- A candidate voted for itself, and has counted no vote that it was not given.
  abbrev pub RoundOk : Votes → (ℕ → ℕ → ℕ → Call) → ℕ → Routine A → Type 0
  RoundOk votes calls i pc =
      (args : RequestVoteArgs) (k : ℕ)
      → pc ≡ campaigning args k
      → (args.candidate_id ≡ i)
        × (votes i args.term ≡ some i)
        × (k ≤ 1 + counted_votes n calls i args.term)

  pub record Safe (votes : Votes) (cl : Cluster A) : Type 0 where
    pub nodes : (i : ℕ) → NodeOk votes i (cl.nodes i)
    pub calls : (v c t : ℕ) → CallOk votes v c t (cl.calls v c t)
    pub rounds : (i : ℕ) → RoundOk votes cl.calls i (cl.nodes i).routine
    pub won :
        (j c t : ℕ)
        → get_elem? cl.won j ≡ some (c, t)
        → has_majority n (votes_for n votes c t) ≡ true

  pub cast-now :
      (votes : Votes) (i : ℕ) (rf : Raft A) → cast votes i rf i rf.current_term ≡ rf.voted_for
  unfolding cast
  cast-now votes i rf = rw (==-refl i, ==-refl rf.current_term) refl

  cast-other :
      (votes : Votes) (i v t : ℕ) (rf : Raft A)
      → (i ≢ v) ⊎ (t ≢ rf.current_term)
      → cast votes i rf v t ≡ votes v t
  unfolding cast
  cast-other votes i v t rf (inl h) = rw (==-apart i v h) refl
  cast-other votes i v t rf (inr h) = ground (arith, ==-apart t rf.current_term h)

  pub cast-Grows :
      (votes : Votes) (i : ℕ) (m : Node A) (rf : Raft A)
      → NodeOk votes i m
      → Kept g m.rf rf
      → Grows votes (cast votes i rf)
  cast-Grows votes i m rf ok k v t c h = elim (ℕ_discrete i v) [
    | no a ↦ cast-other votes i v t rf (inl a) ∙ h
    | yes e ↦ elim (ℕ_discrete t rf.current_term) [
      | no a ↦ cast-other votes i v t rf (inr a) ∙ h
      | yes f ↦
          let h' : votes i rf.current_term ≡ some c =
            ap (λ x. votes x rf.current_term) e ∙ ap (votes v) (sym f) ∙ h in
          let back : cast votes i rf v t ≡ rf.voted_for =
            ap (λ x. cast votes i rf x t) (sym e)
            ∙ ap (cast votes i rf i) f
            ∙ cast-now votes i rf in
          back ∙ elim (ℕ_discrete m.rf.current_term rf.current_term) [
            | yes q ↦ k.vote_kept c q (sym ok.now ∙ ap (votes i) q ∙ h')
            | no q ↦
                absurd (ground (arith, ok.later rf.current_term (omega (arith, k.term_le, q)), h'))
          ]
    ]
  ]

  pub cast-NodeOk :
      (votes : Votes) (i : ℕ) (m m' : Node A)
      → NodeOk votes i m
      → Kept g m.rf m'.rf
      → NodeOk (cast votes i m'.rf) i m'
  cast-NodeOk votes i m m' ok k = record {
    inv = k.inv;
    peers = k.peers ∙ ok.peers;
    me = k.me ∙ ok.me;
    now = cast-now votes i m'.rf;
    later = λ t h.
        cast-other votes i i t m'.rf (inr (λ e. omega (arith, e, h)))
        ∙ ok.later t (omega (arith, k.term_le, h));
  }

  pub NodeOk-other :
      (votes : Votes) (i v : ℕ) (rf : Raft A) (m : Node A)
      → i ≢ v
      → NodeOk votes v m
      → NodeOk (cast votes i rf) v m
  NodeOk-other votes i v rf m a ok = record {
    inv = ok.inv;
    peers = ok.peers;
    me = ok.me;
    now = cast-other votes i v m.rf.current_term rf (inl a) ∙ ok.now;
    later = λ t h. cast-other votes i v t rf (inl a) ∙ ok.later t h;
  }

  pub CallOk-Grows :
      {votes votes' : Votes} {v c t : ℕ} {call : Call}
      → Grows votes votes'
      → CallOk votes v c t call
      → CallOk votes' v c t call
  CallOk-Grows {v = v} {c} {t} gr ok = record {
    vote = λ h. gr v t c (ok.vote h);
    request = ok.request;
    not_self = ok.not_self;
  }

  pub RoundOk-Grows :
      {votes votes' : Votes} (calls calls' : ℕ → ℕ → ℕ → Call) (i : ℕ) {pc : Routine A}
      → Grows votes votes'
      → ((v t : ℕ) → is_counted (calls v i t) ≡ true → is_counted (calls' v i t) ≡ true)
      → RoundOk votes calls i pc
      → RoundOk votes' calls' i pc
  RoundOk-Grows calls calls' i gr more ok args k e =
      let (a, b, c) = ok args k e in
      (
        a,
        gr i args.term i b,
        omega (
          arith,
          c,
          count-upto_le is_counted is_counted (λ v. calls v i args.term) (λ v. calls' v i args.term)
              n (λ v l. more v args.term),
        ),
      )

  pub majority-Grows :
      {votes votes' : Votes} (c t : ℕ)
      → Grows votes votes'
      → has_majority n (votes_for n votes c t) ≡ true
      → has_majority n (votes_for n votes' c t) ≡ true
  unfolding has_majority
  majority-Grows {votes} {votes'} c t gr h = ground (
    arith,
    h,
    count-upto_le (is_vote_for c) (is_vote_for c) (λ v. votes v t) (λ v. votes' v t) n
        (λ v l e. rw (gr v t c (vote_of (votes v t) c e)) (==-refl c)),
  )

  -- The votes that a candidate has counted were cast for it, and so was its own.
  pub counted-votes_for :
      (votes : Votes) (calls : ℕ → ℕ → ℕ → Call) (c t : ℕ)
      → c < n
      → ((v : ℕ) → CallOk votes v c t (calls v c t))
      → votes c t ≡ some c
      → counted_votes n calls c t < votes_for n votes c t
  counted-votes_for votes calls c t l ok own =
      count-upto_lt is_counted (is_vote_for c) (λ v. calls v c t) (λ v. votes v t) c n l
        (λ v l' h. rw ((ok v).vote (counted-granted (calls v c t) h)) (==-refl c))
        (ap is_counted ((ok c).not_self refl)) (rw own (==-refl c))
