-- ===== src/Raft/VoteOnce.antt =====
-- mit6.824/src/raft/raft.go: one vote in a term, whatever a peer goes through.
use distribute_system_lab.Prelude.{ℕ, ◌≡◌, ◌≤◌, [], some}
use distribute_system_lab.Raft.Persister.{Persister}
use distribute_system_lab.Raft.State.{Codec}
use distribute_system_lab.Raft.Leader.{IntSort}
use distribute_system_lab.Raft.Node.{Node, Reach, boot}
use distribute_system_lab.Raft.Disk.{make_raft-Inv}
use distribute_system_lab.Raft.Kept.Steps.{Reach-Kept}

module _ {A : Type 0} (g : Codec A) (s : IntSort) where
  -- A peer that starts over an empty disk never goes back to an older term, and once it has voted
  -- for a server in a term it keeps that vote for as long as the term lasts: whatever arguments
  -- and replies arrive, whichever timers fire, and however often it crashes and restarts over its
  -- own disk.
  pub vote_once :
      (peers me : ℕ) (ps : Persister)
      → ps.raftstate ≡ []
      → {n m : Node A} → Reach g s (boot g peers me ps) n
      → Reach g s n m
      → (n.rf.current_term ≤ m.rf.current_term)
        × ((c : ℕ)
            → n.rf.current_term ≡ m.rf.current_term
            → n.rf.voted_for ≡ some c
            → m.rf.voted_for ≡ some c)
  vote_once peers me ps e r q =
      let k = Reach-Kept g s (Reach-Kept g s (make_raft-Inv g peers me ps e) r).inv q in
      (k.term_le, k.vote_kept)
