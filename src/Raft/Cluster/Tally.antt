-- ===== src/Raft/Cluster/Tally.antt =====
-- mit6.824/src/raft/raft.go: a received reply keeps a cluster safe, also when it wins a round.
use distribute_system_lab.Prelude.{
  ℕ, zero, suc, ◌+◌, ◌≡◌, ◌<◌, refl, sym, ap, subst, ◌∙◌, inl, inr, Bool, true, false, Bool-cases,
  List, ◌∷◌, some, >>=-eq-some, arith, get_elem?, if◌then◌else◌,
}
use distribute_system_lab.Raft.State.{Raft, Codec}
use distribute_system_lab.Raft.Vote.{RequestVoteArgs, RequestVoteReply}
use distribute_system_lab.Raft.Candidate.{has_majority}
use distribute_system_lab.Raft.Leader.{IntSort}
use distribute_system_lab.Raft.Node.{Node, campaigning, step, vote_reply}
use distribute_system_lab.Raft.Kept.Steps.{step-Kept}
use distribute_system_lab.Raft.Cluster.{
  Call, idle, asked, replied, received, Cluster, put_call, round_of, is_round, wins, receive,
}
use distribute_system_lab.Raft.Cluster.Counting.{
  Counts, gave_way, refused, granted, won, vote_reply-Counts,
}
use distribute_system_lab.Raft.Cluster.Ballots.{
  count-upto_lt, put_node_all, put_call_all, put_call-same,
}
use distribute_system_lab.Raft.Cluster.Safety.{
  Votes, is_granted, is_counted, counted_votes, votes_for, CallOk, cast, NodeOk, RoundOk, Safe,
  cast-Grows, cast-NodeOk, CallOk-Grows, RoundOk-Grows, majority-Grows, counted-votes_for,
}
use distribute_system_lab.Raft.Cluster.Voting.{
  put_call-counted, round_campaigning, moved-NodeOk, Fresh-RoundOk,
}

module _ {A : Type 0} (g : Codec A) (s : IntSort) (n : ℕ) where
  -- A granted reply that is received is one more counted vote.
  counted_more :
      (calls : ℕ → ℕ → ℕ → Call) (v c t : ℕ) (reply : RequestVoteReply)
      → v < n
      → calls v c t ≡ replied reply
      → reply.vote_granted ≡ true
      → counted_votes n calls c t < counted_votes n (put_call calls v c t (received reply)) c t
  counted_more calls v c t reply l at vote =
      count-upto_lt is_counted is_counted (λ w. calls w c t)
        (λ w. put_call calls v c t (received reply) w c t) v n l
        (λ w l'. put_call-counted calls v c t (received reply) (ap is_counted at) w c t)
        (ap is_counted at) (ap is_counted (put_call-same calls v c t (received reply)) ∙ vote)

  -- The candidate's round after the reply.
  Counts-RoundOk :
      (votes : Votes) (calls : ℕ → ℕ → ℕ → Call) (v c t : ℕ) (rf : Raft A) (args : RequestVoteArgs)
      (k : ℕ) (reply : RequestVoteReply) (m : Node A)
      → v < n
      → calls v c t ≡ replied reply
      → args.term ≡ t
      → NodeOk g n votes c m
      → RoundOk g n votes calls c (campaigning args k)
      → Counts g rf args k reply m
      → RoundOk g n votes (put_call calls v c t (received reply)) c m.routine
  Counts-RoundOk votes calls v c t rf args k reply m l at et ok round (gave_way fresh w) =
      Fresh-RoundOk g s n votes (put_call calls v c t (received reply)) c m ok fresh
  Counts-RoundOk votes calls v c t rf args k reply m l at et ok round (refused same e) = rw e (
      RoundOk-Grows g n {votes = votes} calls (put_call calls v c t (received reply)) c
        (λ v' t' c' q. q)
        (λ v' t'. put_call-counted calls v c t (received reply) (ap is_counted at) v' c t') round)
  Counts-RoundOk votes calls v c t rf args k reply m l at et ok round (granted vote same e) =
      λ args' k' e'.
        let (who, own, few) = round args k refl in
        let more = counted_more calls v c t reply l at vote in
        let ea : args' ≡ args = ground (arith, e, e') in
        let ek : k' ≡ k + 1 = ground (arith, e, e') in
        rw ea (who, own, rw et (omega (arith, ek, more, rw et at few)))
  Counts-RoundOk votes calls v c t rf args k reply m l at et ok round (won vote same e maj) =
      λ args' k' e'. absurd (ground (arith, e, e'))

  -- A reply that makes the candidate win completes a majority of votes for it.
  Counts-majority :
      (votes : Votes) (calls : ℕ → ℕ → ℕ → Call) (v c t : ℕ) (rf : Raft A) (args : RequestVoteArgs)
      (k : ℕ) (reply : RequestVoteReply) (m : Node A)
      → v < n
      → c < n
      → calls v c t ≡ replied reply
      → args.term ≡ t
      → rf.peers ≡ n
      → RoundOk g n votes calls c (campaigning args k)
      → ((w : ℕ) → CallOk votes w c t (put_call calls v c t (received reply) w c t))
      → Counts g rf args k reply m
      → wins m.routine ≡ true
      → has_majority n (votes_for n votes c t) ≡ true
  unfolding has_majority
  Counts-majority votes calls v c t rf args k reply m l lc at et p round ok (won vote same e maj)
        w =
      let (who, own, few) = round args k refl in
      let more = counted_more calls v c t reply l at vote in
      let given =
        counted-votes_for g n votes (put_call calls v c t (received reply)) c t lc ok
          (rw et at own) in
      ground (arith, p, maj, more, given, rw et at few)
  Counts-majority votes calls v c t rf args k reply m l lc at et p round ok (gave_way fresh w') w =
      absurd (ground (arith, w, w'))
  Counts-majority votes calls v c t rf args k reply m l lc at et p round ok (refused same e) w =
      absurd (ground (arith, w, e))
  Counts-majority votes calls v c t rf args k reply m l lc at et p round ok (granted vote same e)
        w =
      absurd (ground (arith, w, e))

  -- Every round that is won has a majority, if that is so of those before.
  won_more :
      (votes : Votes) (w : Bool) (old : List (ℕ × ℕ)) (c t : ℕ)
      → ((j c' t' : ℕ)
          → get_elem? old j ≡ some (c', t')
          → has_majority n (votes_for n votes c' t') ≡ true)
      → (w ≡ true → has_majority n (votes_for n votes c t) ≡ true)
      → (j c' t' : ℕ) → get_elem? (if w then (c, t) ∷ old else old) j ≡ some (c', t')
      → has_majority n (votes_for n votes c' t') ≡ true
  won_more votes true old c t h new zero c' t' e =
      let ec : c ≡ c' = ground (arith, e) in
      let et : t ≡ t' = ground (arith, e) in rw (sym ec, sym et) (new refl)
  won_more votes true old c t h new (suc j) c' t' e = h j c' t' e
  won_more votes false old c t h new j c' t' e = h j c' t' e

  receive_replied-Safe :
      (votes : Votes) (cl : Cluster A) (v c t : ℕ) (reply : RequestVoteReply) {cl' : Cluster A}
      → v < n
      → c < n
      → Safe g n votes cl
      → cl.calls v c t ≡ replied reply
      → is_round (round_of (cl.nodes c).routine) t ≡ true
      → receive g s cl v c t (replied reply) ≡ some cl'
      → (votes' : Votes) × Safe g n votes' cl'
  unfolding receive
  receive_replied-Safe votes cl v c t reply lv lc safe at waits h =
      let (m, e, h') = >>=-eq-some (step g s (cl.nodes c) (vote_reply reply)) _ h in
      let (args, k, pc, et) = round_campaigning (cl.nodes c).routine t waits in
      let counts = vote_reply-Counts g s (cl.nodes c) args k reply pc e in
      let kept = step-Kept g s (cl.nodes c) (vote_reply reply) (safe.nodes c).inv e in
      let grows = cast-Grows g n votes c (cl.nodes c) m.rf (safe.nodes c) kept in
      let votes' = cast votes c m.rf in
      let ok = safe.calls v c t in
      let calls' = put_call cl.calls v c t (received reply) in
      let more = put_call-counted cl.calls v c t (received reply) (ap is_counted at) in
      let taken : CallOk votes' v c t (received reply) = record {
        vote = λ q. grows v t c (ok.vote (ap is_granted at ∙ q));
        request = λ a q. absurd (ground (arith, q));
        not_self = λ q. absurd (ground (arith, at, ok.not_self q));
      } in
      let all_calls =
        put_call_all (CallOk votes') cl.calls v c t (received reply)
          (λ v' c' t'. CallOk-Grows g n grows (safe.calls v' c' t')) taken in
      let all_nodes = moved-NodeOk g s n votes cl c m safe kept in
      let round : RoundOk g n votes' cl.calls c (campaigning args k) =
        RoundOk-Grows g n cl.calls cl.calls c grows (λ v' t' q. q)
          (subst (RoundOk g n votes cl.calls c) pc (safe.rounds c)) in
      (
        votes',
        subst (Safe g n votes') (ground (arith, h', waits)) (record {
          nodes = all_nodes;
          calls = all_calls;
          rounds =
              put_node_all (λ k (p : Node A). RoundOk g n votes' calls' k p.routine) cl.nodes c m
                (λ k a.
                  RoundOk-Grows g n cl.calls calls' k grows (λ v' t'. more v' k t') (safe.rounds k))
                (Counts-RoundOk votes' cl.calls v c t (cl.nodes c).rf args k reply m lv at et
                  (cast-NodeOk g n votes c (cl.nodes c) m (safe.nodes c) kept) round counts);
          won =
              won_more votes' (wins m.routine) cl.won c t
                (λ j c' t' q. majority-Grows g n c' t' grows (safe.won j c' t' q))
                (Counts-majority votes' cl.calls v c t (cl.nodes c).rf args k reply m lv lc at et
                  (safe.nodes c).peers round (λ w. all_calls w c t) counts);
        }),
      )

  receive_call-Safe :
      (votes : Votes) (cl : Cluster A) (v c t : ℕ) (call : Call) {cl' : Cluster A}
      → v < n
      → c < n
      → Safe g n votes cl
      → cl.calls v c t ≡ call
      → receive g s cl v c t call ≡ some cl'
      → (votes' : Votes) × Safe g n votes' cl'
  unfolding receive
  receive_call-Safe votes cl v c t (replied r) lv lc safe at h =
      elim (Bool-cases (is_round (round_of (cl.nodes c).routine) t)) [
        | inl waits ↦ receive_replied-Safe votes cl v c t r lv lc safe at waits h
        | inr e ↦
            let (m, _, h') = >>=-eq-some (step g s (cl.nodes c) (vote_reply r)) _ h in
            absurd (ground (arith, h', e))
      ]
  receive_call-Safe votes cl v c t idle lv lc safe at h = absurd (ground (arith, h))
  receive_call-Safe votes cl v c t (asked r) lv lc safe at h = absurd (ground (arith, h))
  receive_call-Safe votes cl v c t (received r) lv lc safe at h = absurd (ground (arith, h))

  pub receive-Safe :
      (votes : Votes) (cl : Cluster A) (v c t : ℕ) {cl' : Cluster A}
      → v < n
      → c < n
      → Safe g n votes cl
      → receive g s cl v c t (cl.calls v c t) ≡ some cl'
      → (votes' : Votes) × Safe g n votes' cl'
  receive-Safe votes cl v c t lv lc safe h =
      receive_call-Safe votes cl v c t (cl.calls v c t) lv lc safe refl h
