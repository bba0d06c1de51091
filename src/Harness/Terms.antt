-- ===== src/Harness/Terms.antt =====
-- mit6.824/src/raft/config.go: what `checkTerms` returns.
use distribute_system_lab.Prelude.{
  ℕ, zero, suc, ◌+◌, ◌≡◌, ◌≤◌, ◌<◌, refl, ap, ◌∙◌, inl, inr, true, Bool-cases, Option, none, some,
  >>=-eq-some, arith, ◌==◌, if◌then◌else◌, ℕ_discrete,
}
use distribute_system_lab.Raft.State.{Raft, get_state}
use distribute_system_lab.Harness.Links.{Config}
use distribute_system_lab.Harness.Checks.{terms_loop, check_terms}

module _ {A S : Type 0} where
  terms_loop_lem :
      (cfg : Config A S) (k i : ℕ) (term : Option ℕ) {r : Option ℕ}
      → terms_loop cfg k i term ≡ some r
      → ((t : ℕ) → term ≡ some t → r ≡ some t)
        × ((j : ℕ)
            → i ≤ j
            → j < i + k
            → cfg.connected j ≡ true
            → (rf : Raft A) × (cfg.rafts j ≡ some rf) × (r ≡ some (get_state rf).0))
  unfolding terms_loop
  terms_loop_lem cfg zero i term h =
      ((λ t e. ground (arith, h, e)), λ j le lt. absurd (omega (arith, le, lt)))
  terms_loop_lem cfg (suc k) i term {r} h = elim (Bool-cases (cfg.connected i)) [
    | inr off ↦
        let (kept, rest) = terms_loop_lem cfg k (i + 1) term (rw off at h) in
        (
          kept,
          λ j le lt on. elim (ℕ_discrete j i) [
            | yes e ↦ absurd (ground (arith, ap cfg.connected e, on, off))
            | no n ↦ rest j (omega (arith, le, n)) (omega (arith, lt)) on
          ],
        )
    | inl on ↦
        let (rf, e, h1) = >>=-eq-some (cfg.rafts i) _ (rw on at h) in
        let (same, h2) = next_term cfg k i term rf h1 in
        let (kept, rest) = terms_loop_lem cfg k (i + 1) (some (get_state rf).0) h2 in
        let own : r ≡ some (get_state rf).0 = kept (get_state rf).0 refl in
        (
          (λ t q. own ∙ ap some (same t q)),
          λ j le lt on'. elim (ℕ_discrete j i) [
            | yes ej ↦ (rf, ap cfg.rafts ej ∙ e, own)
            | no n ↦ rest j (omega (arith, le, n)) (omega (arith, lt)) on'
          ],
        )
  ]
    where
      next_term :
          (cfg : Config A S) (k i : ℕ) (term : Option ℕ) (rf : Raft A) {r : Option ℕ}
          → elim term [
            | none ↦ terms_loop cfg k (i + 1) (some (get_state rf).0)
            | some t ↦
                if t == (get_state rf).0
                then terms_loop cfg k (i + 1) (some (get_state rf).0)
                else none
          ]
            ≡ some r
          → ((t : ℕ) → term ≡ some t → (get_state rf).0 ≡ t)
            × (terms_loop cfg k (i + 1) (some (get_state rf).0) ≡ some r)
      next_term cfg k i none rf h = ((λ t e. absurd (ground (arith, e))), h)
      next_term cfg k i (some t) rf h = elim (Bool-cases (t == (get_state rf).0)) [
        | inl e ↦ ((λ t' q. ground (arith, e, q)), rw e at h)
        | inr e ↦ absurd (ground (arith, rw e at h))
      ]

  -- If `checkTerms` does not stop the test, every connected server has a peer, whose term is the
  -- one that it returns.
  pub check_terms_lem :
      (cfg : Config A S) {r : Option ℕ} (j : ℕ)
      → check_terms cfg ≡ some r
      → j < cfg.n
      → cfg.connected j ≡ true
      → (rf : Raft A) × (cfg.rafts j ≡ some rf) × (r ≡ some rf.current_term)
  unfolding check_terms
  check_terms_lem cfg j h l on =
      (terms_loop_lem cfg cfg.n 0 none h).1 j (omega arith) (omega (arith, l)) on
