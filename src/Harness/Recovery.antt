-- ===== src/Harness/Recovery.antt =====
-- mit6.824/src/raft/config.go: what a peer that is crashed and started again recalls.
use distribute_system_lab.Prelude.{
  ℕ, ◌≡◌, refl, ap, ◌∙◌, false, inl, inr, Option, some, >>=-eq-some, arith, [], ltb, Bool-cases,
}
use distribute_system_lab.Prelude.Text.{Str}
use distribute_system_lab.Labrpc.Server.{Service}
use distribute_system_lab.Labrpc.Network.{put_name}
use distribute_system_lab.Raft.Persister.{
  Persister, make_persister, save_raft_state, read_raft_state,
}
use distribute_system_lab.Raft.State.{Raft, Codec, make_raft}
use distribute_system_lab.Raft.Leader.{IntSort}
use distribute_system_lab.Raft.Node.{Node, Reach, boot}
use distribute_system_lab.Raft.Disk.{make_raft-Inv, make_raft_cases}
use distribute_system_lab.Raft.Kept.Steps.{Reach-Kept}
use distribute_system_lab.Harness.Links.{Config, end_name, set_ends, if_named, disconnect_server}
use distribute_system_lab.Harness.Peers.{copied, only_log, or_new, make_ends, crash1, start1, disk}
use distribute_system_lab.Harness.Linked.{put_name-same}

module _ {A S : Type 0} where
  disconnect_server-fixed :
      (cfg : Config A S) (i : ℕ) {cfg' : Config A S}
      → disconnect_server cfg i ≡ some cfg'
      → (cfg'.rafts ≡ cfg.rafts) × (cfg'.n ≡ cfg.n)
  unfolding disconnect_server
  disconnect_server-fixed cfg i h = elim (Bool-cases (ltb i cfg.n)) [
    | inr f ↦ absurd (ground (arith, f))
    | inl t ↦
        let (net1, q1, h1) =
          >>=-eq-some (set_ends (if_named (end_name cfg i)) false cfg.n 0 cfg.net) _ (rw t at h) in
        let (net2, q2, h2) =
          >>=-eq-some (set_ends (if_named (λ j. end_name cfg j i)) false cfg.n 0 net1) _ h1 in
        (ground (arith, h2), ground (arith, h2))
  ]

  module _ (g : Codec A) where
    -- After `crash1` of a running peer the harness has its raft log, in a new persister.
    crash1_log :
        (cfg : Config A S) (i : ℕ) (rf : Raft A) {cfg' : Config A S}
        → cfg.rafts i ≡ some rf
        → crash1 g cfg i ≡ some cfg'
        → (cfg'.saved i ≡ some (record make_persister { raftstate = rf.persister.raftstate }))
          × (cfg'.n ≡ cfg.n)
    unfolding crash1 save_raft_state read_raft_state
    crash1_log cfg i rf {cfg'} r h =
        let (off, q, h') = >>=-eq-some (disconnect_server cfg i) _ h in
        let (er, en) = disconnect_server-fixed cfg i q in
        let at : off.rafts i ≡ some rf = ap (λ (f : ℕ → Option (Raft A)). f i) er ∙ r in
        let saved : cfg'.saved ≡ put_name off.saved i (only_log (copied (disk off i))) =
          ground (arith, h') in
        let d : disk off i ≡ some rf.persister = rw (at, disk) refl in
        (
          ap (λ (f : ℕ → Option Persister). f i) saved
              ∙ put_name-same off.saved i (only_log (copied (disk off i)))
              ∙ ap (λ o. only_log (copied o)) d,
          ground (arith, h', en),
        )

    start1_raft :
        (cfg : Config A S) (i : ℕ) (names : ℕ → Str) (svc : Service S) (rf : Raft A)
        {cfg' : Config A S}
        → cfg.rafts i ≡ some rf
        → start1 g cfg i names svc ≡ some cfg'
        → cfg'.rafts i
          ≡ some
              (make_raft g cfg.n i (record make_persister { raftstate = rf.persister.raftstate }))
    unfolding start1
    start1_raft cfg i names svc rf {cfg'} r h =
        let (off, q, h1) = >>=-eq-some (crash1 g cfg i) _ h in
        let (net, q', h2) = >>=-eq-some (make_ends names off.n 0 off.net) _ h1 in
        let (saved, en) = crash1_log cfg i rf r q in
        let new : cfg'.rafts
            ≡ put_name off.rafts i (some (make_raft g off.n i (or_new (off.saved i)))) =
          ground (arith, h2) in
        ap (λ (f : ℕ → Option (Raft A)). f i) new
        ∙ put_name-same off.rafts i (some (make_raft g off.n i (or_new (off.saved i))))
        ∙ rw (saved, en) refl

    -- A peer that started over an empty disk and went through any steps is crashed and started
    -- again by the harness: the new peer has the term and the vote of the old one.
    pub start1_recovers :
        (s : IntSort) (cfg : Config A S) (i : ℕ) (names : ℕ → Str) (svc : Service S)
        (ps : Persister) {m : Node A} {cfg' : Config A S}
        → ps.raftstate ≡ []
        → Reach g s (boot g cfg.n i ps) m
        → cfg.rafts i ≡ some m.rf
        → start1 g cfg i names svc ≡ some cfg'
        → (rf : Raft A) × (cfg'.rafts i ≡ some rf)
          × (rf.current_term ≡ m.rf.current_term)
          × (rf.voted_for ≡ m.rf.voted_for)
    start1_recovers s cfg i names svc ps {m} e r at h =
        let kept = Reach-Kept g s (make_raft-Inv g cfg.n i ps e) r in
        let ps' : Persister = record make_persister { raftstate = m.rf.persister.raftstate } in
        let (_, et, ev) =
          make_raft_cases g m.rf.current_term m.rf.voted_for cfg.n i ps' kept.inv.disk in
        (make_raft g cfg.n i ps', start1_raft cfg i names svc m.rf at h, et, ev)
