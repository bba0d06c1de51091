-- ===== src/Raft/Disk.antt =====
-- What a peer of mit6.824/src/raft/raft.go finds on its disk after a crash.
use distribute_system_lab.Prelude.{
  ℕ, ◌≡◌, ◌≤◌, ◌<◌, refl, sym, ◌∙◌, false, List, [], ◌++◌, Option, none, some, arith, length,
  length-append, ◌==◌,
}
use distribute_system_lab.Raft.Persister.{Persister, save_raft_state, read_raft_state}
use distribute_system_lab.Raft.State.{
  Raft, LogEntry, Codec, encoded, decode_all, persist, read_persist, make_raft,
}

module _ {A : Type 0} (g : Codec A) where
  decode_all-encoded :
      (t : ℕ) (v : Option ℕ) (l : List (LogEntry A))
      → decode_all g (encoded g t v l) ≡ some (t, v, l)
  unfolding encoded decode_all
  decode_all-encoded t v l = simp (g.term_lem, g.vote_lem, g.log_lem)

  length-encoded : (t : ℕ) (v : Option ℕ) (l : List (LogEntry A)) → 0 < length (encoded g t v l)
  unfolding encoded
  length-encoded t v l = omega (
    arith,
    length-append (g.encode_term t) (g.encode_vote v ++ (g.encode_log l ++ [])),
    g.term_length t,
  )

  pub read_persist-encoded :
      (rf : Raft A) (t : ℕ) (v : Option ℕ) (l : List (LogEntry A))
      → read_persist g rf (encoded g t v l) ≡ record rf { current_term = t; voted_for = v; log = l }
  unfolding read_persist
  read_persist-encoded rf t v l =
      let e : (length (encoded g t v l) == 0) ≡ false = ground (arith, length-encoded t v l) in
      rw (e, decode_all-encoded t v l)

  read_persist-nil : (rf : Raft A) → read_persist g rf [] ≡ rf
  unfolding read_persist
  read_persist-nil rf = refl

  -- The disk holds a term and a vote, with some log; or nothing, and the peer has not voted.
  pub data Disk (t : ℕ) (v : Option ℕ) (bytes : List ℕ) : Type 0 where
    blank : bytes ≡ [] → t ≡ 0 → v ≡ none → Disk t v bytes
    written : (l : List (LogEntry A)) → 0 < length l → bytes ≡ encoded g t v l → Disk t v bytes

  pub record Inv (rf : Raft A) : Type 0 where
    pub disk : Disk rf.current_term rf.voted_for rf.persister.raftstate
    pub has_log : 0 < length rf.log

  -- What no step undoes: the term, and the vote in it.
  pub record Kept (rf rf' : Raft A) : Type 0 where
    pub inv : Inv rf'
    pub term_le : rf.current_term ≤ rf'.current_term
    pub vote_kept :
        (c : ℕ)
        → rf.current_term ≡ rf'.current_term
        → rf.voted_for ≡ some c
        → rf'.voted_for ≡ some c
    pub peers : rf'.peers ≡ rf.peers
    pub me : rf'.me ≡ rf.me

  pub Kept-refl : {rf : Raft A} → Inv rf → Kept rf rf
  Kept-refl v = record {
    inv = v;
    term_le = omega arith;
    vote_kept = λ c e h. h;
    peers = refl;
    me = refl;
  }

  pub Kept-trans : {a b c : Raft A} → Kept a b → Kept b c → Kept a c
  Kept-trans p q = record {
    inv = q.inv;
    term_le = omega arith;
    vote_kept = λ c e h. q.vote_kept c (omega arith) (p.vote_kept c (omega arith) h);
    peers = q.peers ∙ p.peers;
    me = q.me ∙ p.me;
  }

  pub persist-Inv : (rf : Raft A) → 0 < length rf.log → Inv (persist g rf)
  unfolding persist save_raft_state
  persist-Inv rf h = record { disk = written rf.log h refl; has_log = h }

  pub make_raft_cases :
      (t : ℕ) (v : Option ℕ) (n i : ℕ) (ps : Persister)
      → Disk t v ps.raftstate
      → Inv (make_raft g n i ps)
        × ((make_raft g n i ps).current_term ≡ t)
        × ((make_raft g n i ps).voted_for ≡ v)
  unfolding make_raft read_raft_state
  make_raft_cases t v n i ps (blank e et ev) =
      rw (e, read_persist-nil)
        (record { disk = blank refl refl refl; has_log = omega arith }, sym et, sym ev)
  make_raft_cases t v n i ps (written l h e) =
      rw (e, read_persist-encoded) (record { disk = written l h refl; has_log = h }, refl, refl)

  pub make_raft_fixed :
      (n i : ℕ) (ps : Persister) → ((make_raft g n i ps).peers ≡ n) × ((make_raft g n i ps).me ≡ i)
  unfolding make_raft read_persist
  make_raft_fixed n i ps = (ground arith, ground arith)

  -- A restart over the peer's own disk.
  pub make_raft-Kept : (rf : Raft A) → Inv rf → Kept rf (make_raft g rf.peers rf.me rf.persister)
  make_raft-Kept rf v =
      let (inv, et, ev) = make_raft_cases _ _ rf.peers rf.me rf.persister v.disk in
      record {
        inv = inv;
        term_le = omega arith;
        vote_kept = λ c e h. ev ∙ h;
        peers = (make_raft_fixed rf.peers rf.me rf.persister).0;
        me = (make_raft_fixed rf.peers rf.me rf.persister).1;
      }

  -- A peer that was just made over an empty disk.
  pub make_raft-Inv : (n i : ℕ) (ps : Persister) → ps.raftstate ≡ [] → Inv (make_raft g n i ps)
  make_raft-Inv n i ps e = (make_raft_cases 0 none n i ps (blank e refl refl)).0
