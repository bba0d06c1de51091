-- ===== src/Raft/Quorum.antt =====
-- mit6.824/src/raft/raft.go: majorities, in the count of votes and in the leader's commit rule.
use distribute_system_lab.Prelude.{
  ℕ, zero, suc, ◌+◌, ◌/◌, ◌%◌, ◌≡◌, ◌≢◌, ◌≤◌, ◌<◌, refl, sym, ap, ◌∙◌, ◌⊎◌, inl, inr, Bool, true,
  false, Bool-cases, List, [], ◌∷◌, Option, none, some, >>=-eq-some, arith, length, get_elem?,
  count, leb, ◌==◌, ℕ_discrete,
}
use distribute_system_lab.Raft.State.{Raft, LogEntry}
use distribute_system_lab.Raft.Apply.{apply_log}
use distribute_system_lab.Raft.Candidate.{has_majority}
use distribute_system_lab.Raft.Leader.{IntSort, advance_commit}

-- From index `i` on every item is at least `v`.
count_from :
    (v : ℕ) (xs : List ℕ) (i : ℕ)
    → ((j b : ℕ) → i ≤ j → get_elem? xs j ≡ some b → v ≤ b)
    → length xs ≤ count (leb v) xs + i
count_from v [] i h = omega arith
count_from v (x ∷ xs) zero h =
    ground (
      arith,
      h 0 x (omega arith) refl,
      count_from v xs zero (λ j b a e. h (suc j) b (omega arith) e),
    )
count_from v (x ∷ xs) (suc i) h =
    ground (arith, count_from v xs i (λ j b a e. h (suc j) b (omega arith) e))

count_all : (xs : List ℕ) → count (λ x. true) xs ≡ length xs
count_all [] = refl
count_all (x ∷ xs) = ap suc (count_all xs)

module _ (s : IntSort) where
  length-ints : (xs : List ℕ) → length (s.ints xs) ≡ length xs
  length-ints xs = sym (count_all (s.ints xs)) ∙ s.same_items (λ x. true) xs ∙ count_all xs

  -- At least `length xs - i` items are as large as item `i` of the sorted list.
  count_sorted :
      (xs : List ℕ) (i v : ℕ) → get_elem? (s.ints xs) i ≡ some v → length xs ≤ count (leb v) xs + i
  count_sorted xs i v h = omega (
    arith,
    length-ints xs,
    s.same_items (leb v) xs,
    count_from v (s.ints xs) i (λ j b a e. s.ascends xs i j v b a h e),
  )

  module _ {A : Type 0} where
    apply_log-commit :
        (rf : Raft A) {r : Raft A}
        → apply_log rf ≡ some r
        → (r.commit_index ≡ rf.commit_index) × (r.log ≡ rf.log) × (r.current_term ≡ rf.current_term)
    unfolding apply_log
    apply_log-commit rf h = ground arith

    advanced :
        (rf : Raft A) {rf' : Raft A}
        → advance_commit s rf ≡ some rf'
        → (rf'.commit_index ≡ rf.commit_index)
          ⊎ ((get_elem? (s.ints rf.match_index) (rf.peers / 2) ≡ some rf'.commit_index)
              × (e : LogEntry A) × (get_elem? rf.log rf'.commit_index ≡ some e)
              × (rf.current_term ≤ e.term_idx))
    unfolding advance_commit
    advanced rf {rf'} h =
        let (n, en, h') = >>=-eq-some (get_elem? (s.ints rf.match_index) (rf.peers / 2)) _ h in
        let (e, ee, h'') = >>=-eq-some (get_elem? rf.log n) _ h' in
        elim (Bool-cases (leb rf.current_term e.term_idx)) [
          | inl t ↦
              let c = apply_log-commit (record rf { commit_index = n }) (rw t at h'') in
              inr (rw c.0 en, e, rw c.0 ee, ground arith)
          | inr f ↦ inl (ground arith)
        ]

    -- With an odd number of peers the leader moves its commit index only to the index of an entry
    -- of its log whose term is not older than its own, and only if more than half of the peers
    -- have a match index that is at least as large.
    pub commit_majority :
        (rf : Raft A) {rf' : Raft A}
        → length rf.match_index ≡ rf.peers
        → rf.peers % 2 ≡ 1
        → advance_commit s rf ≡ some rf'
        → (rf'.commit_index ≡ rf.commit_index)
          ⊎ ((rf.peers / 2 < count (leb rf'.commit_index) rf.match_index)
              × (e : LogEntry A) × (get_elem? rf.log rf'.commit_index ≡ some e)
              × (rf.current_term ≤ e.term_idx))
    commit_majority rf {rf'} l odd h = elim (advanced rf h) [
      | inl same ↦ inl same
      | inr (at, e, he, t) ↦
          inr (
            omega (arith, count_sorted rf.match_index (rf.peers / 2) rf'.commit_index at),
            e,
            he,
            t,
          )
    ]

-- A server's vote in some term is for `c`.
abbrev pub is_vote_for : ℕ → Option ℕ → Bool
is_vote_for c none = false
is_vote_for c (some v) = v == c

count_disjoint :
    (votes : List (Option ℕ)) (c d : ℕ)
    → c ≢ d
    → count (is_vote_for c) votes + count (is_vote_for d) votes ≤ length votes
count_disjoint [] c d h = omega arith
count_disjoint (none ∷ votes) c d h = omega (arith, count_disjoint votes c d h)
count_disjoint (some v ∷ votes) c d h = ground (arith, count_disjoint votes c d h)

-- If every server votes at most once in a term, at most one candidate passes the test by which
-- a candidate takes itself for elected.
pub elected_unique :
    (votes : List (Option ℕ)) (c d : ℕ)
    → has_majority (length votes) (count (is_vote_for c) votes) ≡ true
    → has_majority (length votes) (count (is_vote_for d) votes) ≡ true
    → c ≡ d
unfolding has_majority
elected_unique votes c d hc hd = elim (ℕ_discrete c d) [
  | yes e ↦ e
  | no n ↦ absurd (ground (arith, count_disjoint votes c d n))
]
