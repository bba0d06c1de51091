-- ===== src/Raft/Cluster/Elections.antt =====
-- mit6.824/src/raft/raft.go: elections in a cluster of peers over blank disks.
use distribute_system_lab.Prelude.{
  ℕ, ◌≡◌, ◌≢◌, refl, sym, subst, ◌∙◌, ◌⊎◌, inl, inr, true, Bool-cases, [], Option, none, some,
  >>=-eq-some, arith, get_elem?,
}
use distribute_system_lab.Raft.Persister.{Persister}
use distribute_system_lab.Raft.State.{Codec, fresh}
use distribute_system_lab.Raft.Disk.{blank, make_raft_cases, make_raft_fixed}
use distribute_system_lab.Raft.Vote.{RequestVoteArgs}
use distribute_system_lab.Raft.Leader.{IntSort}
use distribute_system_lab.Raft.Node.{
  Node, Event, Routine, following, campaigning, elected, beating, leading, terminated, step,
}
use distribute_system_lab.Raft.Kept.Steps.{step-Kept}
use distribute_system_lab.Raft.Quorum.{elected_unique}
use distribute_system_lab.Raft.Cluster.{
  Call, Cluster, put_node, round_of, is_round, ask_all, calls_after, act, IsLocal, Runs, begins,
  acts, handles, receives, start_cluster,
}
use distribute_system_lab.Raft.Cluster.Rounds.{Fresh, step-Steps}
use distribute_system_lab.Raft.Cluster.Ballots.{
  upto, length-upto, put_node_all, ask_all_all, ==-refl,
}
use distribute_system_lab.Raft.Cluster.Safety.{
  Votes, Grows, is_counted, CallOk, cast, NodeOk, RoundOk, Safe, cast-Grows, cast-NodeOk,
  CallOk-Grows, RoundOk-Grows, majority-Grows,
}
use distribute_system_lab.Raft.Cluster.Voting.{moved-NodeOk, Fresh-RoundOk, handle-Safe}
use distribute_system_lab.Raft.Cluster.Tally.{receive-Safe}

calls_after_cases :
    (calls : ℕ → ℕ → ℕ → Call) (before after : Option RequestVoteArgs)
    → (calls_after calls before after ≡ calls)
      ⊎ ((args : RequestVoteArgs) × (after ≡ some args)
          × (calls_after calls before after ≡ ask_all calls args))
unfolding calls_after
calls_after_cases calls before none = inl refl
calls_after_cases calls before (some args) = elim (Bool-cases (is_round before args.term)) [
  | inl e ↦ inl (rw e refl)
  | inr e ↦ inr (args, refl, rw e refl)
]

calls_after-same :
    (calls : ℕ → ℕ → ℕ → Call) (r : Option RequestVoteArgs) → calls_after calls r r ≡ calls
unfolding calls_after
calls_after-same calls none = refl
calls_after-same calls (some args) = rw (==-refl args.term) refl

round_of-some :
    {A : Type 0} (pc : Routine A) (args : RequestVoteArgs)
    → round_of pc ≡ some args
    → (k : ℕ) × (pc ≡ campaigning args k)
round_of-some following args h = absurd (ground (arith, h))
round_of-some (campaigning a k) args h = (k, ground (arith, h))
round_of-some elected args h = absurd (ground (arith, h))
round_of-some beating args h = absurd (ground (arith, h))
round_of-some (leading sent) args h = absurd (ground (arith, h))
round_of-some terminated args h = absurd (ground (arith, h))

-- Requests that go out are of the round's candidate, and to others.
ask_all-CallOk :
    (votes : Votes) (calls : ℕ → ℕ → ℕ → Call) (args : RequestVoteArgs)
    → ((v c t : ℕ) → CallOk votes v c t (calls v c t))
    → (v c t : ℕ) → CallOk votes v c t (ask_all calls args v c t)
ask_all-CallOk votes calls args old =
    ask_all_all (CallOk votes) calls args old (λ v c t ec et apart. record {
      vote = λ q. absurd (ground (arith, q));
      request = λ a q. (ground (arith, q, et), ground (arith, q, ec));
      not_self = λ q. absurd (apart q);
    })

ask_all-counted :
    (calls : ℕ → ℕ → ℕ → Call) (args : RequestVoteArgs) (v c t : ℕ)
    → c ≢ args.candidate_id
    → is_counted (calls v c t) ≡ true
    → is_counted (ask_all calls args v c t) ≡ true
ask_all-counted calls args v c t apart =
    ask_all_all
      (λ v c t x. c ≢ args.candidate_id → is_counted (calls v c t) ≡ true → is_counted x ≡ true)
      calls args (λ v c t a q. q) (λ v c t ec et a b. absurd (b ec)) v c t apart

module _ {A : Type 0} (g : Codec A) (s : IntSort) (n : ℕ) where
  calls_after-CallOk :
      (votes : Votes) (calls : ℕ → ℕ → ℕ → Call) (before after : Option RequestVoteArgs)
      → ((v c t : ℕ) → CallOk votes v c t (calls v c t))
      → (v c t : ℕ) → CallOk votes v c t (calls_after calls before after v c t)
  calls_after-CallOk votes calls before after old v c t =
      elim (calls_after_cases calls before after) [
        | inl e ↦ rw e (old v c t)
        | inr (args, _, e) ↦ rw e (ask_all-CallOk votes calls args old v c t)
      ]

  -- The rounds of the other candidates stay, if their counted votes do.
  other_rounds :
      (votes votes' : Votes) (cl : Cluster A) (i : ℕ) (m : Node A) (calls' : ℕ → ℕ → ℕ → Call)
      → Safe g n votes cl
      → Grows votes votes'
      → ((v k t : ℕ)
          → i ≢ k
          → is_counted (cl.calls v k t) ≡ true
          → is_counted (calls' v k t) ≡ true)
      → RoundOk g n votes' calls' i m.routine
      → (k : ℕ) → RoundOk g n votes' calls' k (put_node cl.nodes i m k).routine
  other_rounds votes votes' cl i m calls' safe grows more =
      put_node_all (λ k (p : Node A). RoundOk g n votes' calls' k p.routine) cl.nodes i m
        (λ k a. RoundOk-Grows g n cl.calls calls' k grows (λ v t. more v k t a) (safe.rounds k))

  -- The node's own round is as before, or has just begun.
  calls_after-rounds :
      (votes votes' : Votes) (cl : Cluster A) (i : ℕ) (m : Node A)
      → Safe g n votes cl
      → Grows votes votes'
      → NodeOk g n votes' i m
      → (m.routine ≡ (cl.nodes i).routine) ⊎ Fresh g m
      → let calls' = calls_after cl.calls (round_of (cl.nodes i).routine) (round_of m.routine) in
        (k : ℕ) → RoundOk g n votes' calls' k (put_node cl.nodes i m k).routine
  calls_after-rounds votes votes' cl i m safe grows ok (inl e) =
      let kept : calls_after cl.calls (round_of (cl.nodes i).routine) (round_of m.routine)
          ≡ cl.calls =
        rw e (calls_after-same cl.calls (round_of (cl.nodes i).routine)) in
      rw kept (
        other_rounds votes votes' cl i m cl.calls safe grows (λ v k t a q. q)
          (rw e (
            RoundOk-Grows g n {votes = votes} cl.calls cl.calls i grows (λ v t q. q)
              (safe.rounds i))))
  calls_after-rounds votes votes' cl i m safe grows ok (inr fresh) =
      let before = round_of (cl.nodes i).routine in
      let calls' = calls_after cl.calls before (round_of m.routine) in
      other_rounds votes votes' cl i m calls' safe grows
        (λ v k t a q. elim (calls_after_cases cl.calls before (round_of m.routine)) [
          | inl e ↦ rw e q
          | inr (args, some_round, e) ↦
              let (j, at) = round_of-some m.routine args some_round in
              let (one, term, vote, who) = fresh args j at in
              rw e (ask_all-counted cl.calls args v k t (λ ek. a (sym (ek ∙ who ∙ ok.me))) q)
        ])
        (Fresh-RoundOk g s n votes' calls' i m ok fresh)

  act-Safe :
      (votes : Votes) (cl : Cluster A) (i : ℕ) (e : Event A) {cl' : Cluster A}
      → IsLocal e
      → Safe g n votes cl
      → act g s cl i e ≡ some cl'
      → (votes' : Votes) × Safe g n votes' cl'
  unfolding act
  act-Safe votes cl i e local safe h =
      let (m, e', h') = >>=-eq-some (step g s (cl.nodes i) e) _ h in
      let kept = step-Kept g s (cl.nodes i) e (safe.nodes i).inv e' in
      let grows = cast-Grows g n votes i (cl.nodes i) m.rf (safe.nodes i) kept in
      let votes' = cast votes i m.rf in
      (
        votes',
        subst (Safe g n votes') (ground (arith, h')) (record {
          nodes = moved-NodeOk g s n votes cl i m safe kept;
          calls =
              calls_after-CallOk votes' cl.calls (round_of (cl.nodes i).routine)
                (round_of m.routine) (λ v c t. CallOk-Grows g n grows (safe.calls v c t));
          rounds =
              calls_after-rounds votes votes' cl i m safe grows
                (cast-NodeOk g n votes i (cl.nodes i) m (safe.nodes i) kept)
                (step-Steps g s (cl.nodes i) e local e');
          won = λ j c t q. majority-Grows g n c t grows (safe.won j c t q);
        }),
      )

  start_cluster-Safe :
      (disks : ℕ → Persister)
      → ((i : ℕ) → (disks i).raftstate ≡ [])
      → Safe g n (λ v t. none) (start_cluster g s n disks)
  unfolding start_cluster
  start_cluster-Safe disks empty = record {
    nodes = λ i.
        let (inv, et, ev) = make_raft_cases g 0 none n i (disks i) (blank (empty i) refl refl) in
        let (p, me) = make_raft_fixed g n i (disks i) in
        record { inv = inv; peers = p; me = me; now = sym ev; later = λ t h. refl };
    calls = λ v c t. record {
      vote = λ q. absurd (ground (arith, q));
      request = λ a q. absurd (ground (arith, q));
      not_self = λ q. refl;
    };
    rounds = λ i args k e. absurd (ground (arith, e));
    won = λ j c t e. absurd (ground (arith, e));
  }

  Runs-Safe :
      (disks : ℕ → Persister) {cl : Cluster A}
      → ((i : ℕ) → (disks i).raftstate ≡ [])
      → Runs g s n (start_cluster g s n disks) cl
      → (votes : Votes) × Safe g n votes cl
  Runs-Safe disks empty begins = ((λ v t. none), start_cluster-Safe disks empty)
  Runs-Safe disks empty (acts {cl} i e l local r h) =
      let (votes, safe) = Runs-Safe disks empty r in act-Safe votes cl i e local safe h
  Runs-Safe disks empty (handles {cl} v c t lv lc r h) =
      let (votes, safe) = Runs-Safe disks empty r in handle-Safe g s n votes cl v c t safe h
  Runs-Safe disks empty (receives {cl} v c t lv lc r h) =
      let (votes, safe) = Runs-Safe disks empty r in receive-Safe g s n votes cl v c t lv lc safe h

  -- Among `n` peers that start over blank disks at most one candidate collects a majority of votes
  -- in a term: whatever else reaches the peers, whichever timers fire, in whatever order requests
  -- and replies arrive or get lost, and however often peers crash and restart over their disks.
  pub election_safety :
      (disks : ℕ → Persister) {cl : Cluster A} (i j c d t : ℕ)
      → ((k : ℕ) → (disks k).raftstate ≡ [])
      → Runs g s n (start_cluster g s n disks) cl
      → get_elem? cl.won i ≡ some (c, t)
      → get_elem? cl.won j ≡ some (d, t)
      → c ≡ d
  election_safety disks i j c d t empty r hc hd =
      let (votes, safe) = Runs-Safe disks empty r in
      let ballots = upto (λ v. votes v t) n in
      let len = length-upto (λ v. votes v t) n in
      elected_unique ballots c d (rw len (safe.won i c t hc)) (rw len (safe.won j d t hd))
