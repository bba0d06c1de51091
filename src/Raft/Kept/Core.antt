-- ===== src/Raft/Kept/Core.antt =====
-- A step that saves the peer, or changes none of its saved fields, keeps its term and vote.
use distribute_system_lab.Prelude.{ℕ, ◌≡◌, ◌≤◌, ◌<◌, sym, subst, ◌∙◌, some, arith, length}
use distribute_system_lab.Raft.State.{Raft, Codec, persist}
use distribute_system_lab.Raft.Disk.{Disk, Inv, Kept, Kept-trans, persist-Inv}

-- The fields that the invariant reads.
pub record SameCore {A : Type 0} (rf rf' : Raft A) : Type 0 where
  pub term : rf'.current_term ≡ rf.current_term
  pub vote : rf'.voted_for ≡ rf.voted_for
  pub log : rf'.log ≡ rf.log
  pub store : rf'.persister ≡ rf.persister
  pub peers : rf'.peers ≡ rf.peers
  pub me : rf'.me ≡ rf.me

module _ {A : Type 0} (g : Codec A) where
  pub SameCore-Kept : {rf rf' : Raft A} → Inv g rf → SameCore rf rf' → Kept g rf rf'
  SameCore-Kept {rf} {rf'} v s = record {
    inv = record {
      disk =
          subst (λ p. Disk g rf'.current_term rf'.voted_for p.raftstate) (sym s.store)
            (subst (λ w. Disk g rf'.current_term w rf.persister.raftstate) (sym s.vote)
              (subst (λ t. Disk g t rf.voted_for rf.persister.raftstate) (sym s.term) v.disk));
      has_log = rw s.log v.has_log;
    };
    term_le = omega (arith, s.term);
    vote_kept = λ c e h. s.vote ∙ h;
    peers = s.peers;
    me = s.me;
  }

  pub Kept-same : {a b c : Raft A} → Kept g a b → SameCore b c → Kept g a c
  Kept-same k s = Kept-trans g k (SameCore-Kept k.inv s)

  -- A save after a change that keeps the vote of the term.
  pub persist-Kept :
      (rf rf' : Raft A)
      → 0 < length rf'.log
      → rf.current_term ≤ rf'.current_term
      → ((c : ℕ)
          → rf.current_term ≡ rf'.current_term
          → rf.voted_for ≡ some c
          → rf'.voted_for ≡ some c)
      → rf'.peers ≡ rf.peers
      → rf'.me ≡ rf.me
      → Kept g rf (persist g rf')
  unfolding persist
  persist-Kept rf rf' h t v p i = record {
    inv = persist-Inv g rf' h;
    term_le = t;
    vote_kept = v;
    peers = p;
    me = i;
  }

  -- A newer term leaves its vote open.
  pub new_term-Kept :
      (rf rf' : Raft A)
      → 0 < length rf'.log
      → rf.current_term < rf'.current_term
      → rf'.peers ≡ rf.peers
      → rf'.me ≡ rf.me
      → Kept g rf (persist g rf')
  new_term-Kept rf rf' h t = persist-Kept rf rf' h (omega arith) (λ c e. absurd (omega arith))
