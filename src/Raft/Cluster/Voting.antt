-- ===== src/Raft/Cluster/Voting.antt =====
-- mit6.824/src/raft/raft.go: a handled request and a received reply keep a cluster safe.
use distribute_system_lab.Prelude.{
  ℕ, ◌≡◌, refl, sym, ap, subst, ◌∙◌, true, false, some, >>=-eq-some, arith, ==_iff,
}
use distribute_system_lab.Raft.State.{Codec}
use distribute_system_lab.Raft.Disk.{Kept}
use distribute_system_lab.Raft.Vote.{RequestVoteArgs, request_vote}
use distribute_system_lab.Raft.Leader.{IntSort}
use distribute_system_lab.Raft.Node.{
  Node, Routine, following, campaigning, elected, beating, leading, terminated,
}
use distribute_system_lab.Raft.Kept.Vote.{request_vote-Kept}
use distribute_system_lab.Raft.Cluster.{
  Call, idle, asked, replied, received, Cluster, put_node, put_call, round_of, is_round, handle,
}
use distribute_system_lab.Raft.Cluster.Rounds.{Fresh}
use distribute_system_lab.Raft.Cluster.Counting.{request_vote-granted}
use distribute_system_lab.Raft.Cluster.Ballots.{put_node_all, put_call_all}
use distribute_system_lab.Raft.Cluster.Safety.{
  Votes, is_counted, CallOk, cast, NodeOk, RoundOk, Safe, cast-now, cast-Grows, cast-NodeOk,
  NodeOk-other, CallOk-Grows, RoundOk-Grows, majority-Grows,
}

-- A call that is put in the place of one that is not counted takes no counted vote away.
pub put_call-counted :
    (calls : ℕ → ℕ → ℕ → Call) (v c t : ℕ) (x : Call)
    → is_counted (calls v c t) ≡ false
    → (v' c' t' : ℕ) → is_counted (calls v' c' t') ≡ true
    → is_counted (put_call calls v c t x v' c' t') ≡ true
put_call-counted calls v c t x h =
    put_call_all (λ v' c' t' y. is_counted (calls v' c' t') ≡ true → is_counted y ≡ true) calls v c
      t x (λ v' c' t' e. e) (λ e. absurd (ground (arith, h, e)))

pub round_campaigning :
    {A : Type 0} (pc : Routine A) (t : ℕ)
    → is_round (round_of pc) t ≡ true
    → (args : RequestVoteArgs) × (k : ℕ) × (pc ≡ campaigning args k) × (args.term ≡ t)
round_campaigning following t h = absurd (ground (arith, h))
round_campaigning (campaigning args k) t h = (args, k, refl, (==_iff args.term t).0 h)
round_campaigning elected t h = absurd (ground (arith, h))
round_campaigning beating t h = absurd (ground (arith, h))
round_campaigning (leading sent) t h = absurd (ground (arith, h))
round_campaigning terminated t h = absurd (ground (arith, h))

module _ {A : Type 0} (g : Codec A) (s : IntSort) (n : ℕ) where
  pub moved-NodeOk :
      (votes : Votes) (cl : Cluster A) (i : ℕ) (m : Node A)
      → Safe g n votes cl
      → Kept g (cl.nodes i).rf m.rf
      → (k : ℕ) → NodeOk g n (cast votes i m.rf) k (put_node cl.nodes i m k)
  moved-NodeOk votes cl i m safe k =
      put_node_all (NodeOk g n (cast votes i m.rf)) cl.nodes i m
        (λ j a. NodeOk-other g n votes i j m.rf (cl.nodes j) a (safe.nodes j))
        (cast-NodeOk g n votes i (cl.nodes i) m (safe.nodes i) k)

  pub Fresh-RoundOk :
      (votes : Votes) (calls : ℕ → ℕ → ℕ → Call) (i : ℕ) (m : Node A)
      → NodeOk g n votes i m
      → Fresh g m
      → RoundOk g n votes calls i m.routine
  Fresh-RoundOk votes calls i m ok fresh args k e =
      let (one, term, vote, who) = fresh args k e in
      (who ∙ ok.me, ap (votes i) term ∙ ok.now ∙ vote ∙ ap some ok.me, omega (arith, one))

  handle_asked-Safe :
      (votes : Votes) (cl : Cluster A) (v c t : ℕ) (args : RequestVoteArgs) {cl' : Cluster A}
      → Safe g n votes cl
      → cl.calls v c t ≡ asked args
      → handle g s cl v c t (asked args) ≡ some cl'
      → (votes' : Votes) × Safe g n votes' cl'
  unfolding handle
  handle_asked-Safe votes cl v c t args safe at h =
      let ((rf, reply), e, h') = >>=-eq-some (request_vote g (cl.nodes v).rf args) _ h in
      let m : Node A = record (cl.nodes v) { rf = rf } in
      let kept = request_vote-Kept g (cl.nodes v).rf args (safe.nodes v).inv e in
      let grows = cast-Grows g n votes v (cl.nodes v) rf (safe.nodes v) kept in
      let votes' = cast votes v rf in
      let ok = safe.calls v c t in
      let calls' = put_call cl.calls v c t (replied reply) in
      let more = put_call-counted cl.calls v c t (replied reply) (ap is_counted at) in
      let answered : CallOk votes' v c t (replied reply) = record {
        vote = λ q.
            let (term, vote) = request_vote-granted g (cl.nodes v).rf args e q in
            ap (votes' v) (sym (ok.request args at).0 ∙ sym term)
            ∙ cast-now g n votes v rf
            ∙ vote
            ∙ ap some (ok.request args at).1;
        request = λ a q. absurd (ground (arith, q));
        not_self = λ q. absurd (ground (arith, at, ok.not_self q));
      } in
      (
        votes',
        subst (Safe g n votes') (ground (arith, h')) (record {
          nodes = moved-NodeOk votes cl v m safe kept;
          calls =
              put_call_all (CallOk votes') cl.calls v c t (replied reply)
                (λ v' c' t'. CallOk-Grows g n grows (safe.calls v' c' t')) answered;
          rounds =
              put_node_all (λ k (p : Node A). RoundOk g n votes' calls' k p.routine) cl.nodes v m
                (λ k a.
                  RoundOk-Grows g n cl.calls calls' k grows (λ v' t'. more v' k t') (safe.rounds k))
                (RoundOk-Grows g n cl.calls calls' v grows (λ v' t'. more v' v t') (safe.rounds v));
          won = λ j c' t' q. majority-Grows g n c' t' grows (safe.won j c' t' q);
        }),
      )

  handle_call-Safe :
      (votes : Votes) (cl : Cluster A) (v c t : ℕ) (call : Call) {cl' : Cluster A}
      → Safe g n votes cl
      → cl.calls v c t ≡ call
      → handle g s cl v c t call ≡ some cl'
      → (votes' : Votes) × Safe g n votes' cl'
  unfolding handle
  handle_call-Safe votes cl v c t (asked args) safe at h =
      handle_asked-Safe votes cl v c t args safe at h
  handle_call-Safe votes cl v c t idle safe at h = absurd (ground (arith, h))
  handle_call-Safe votes cl v c t (replied r) safe at h = absurd (ground (arith, h))
  handle_call-Safe votes cl v c t (received r) safe at h = absurd (ground (arith, h))

  pub handle-Safe :
      (votes : Votes) (cl : Cluster A) (v c t : ℕ) {cl' : Cluster A}
      → Safe g n votes cl
      → handle g s cl v c t (cl.calls v c t) ≡ some cl'
      → (votes' : Votes) × Safe g n votes' cl'
  handle-Safe votes cl v c t safe h = handle_call-Safe votes cl v c t (cl.calls v c t) safe refl h
