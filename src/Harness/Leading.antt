-- ===== src/Harness/Leading.antt =====
-- mit6.824/src/raft/config.go: what the checks of leaders and terms find.
use distribute_system_lab.Prelude.{
  ℕ, zero, suc, ◌+◌, ◌≡◌, ◌≤◌, ◌<◌, refl, sym, ap, subst, ◌∙◌, ◌⊎◌, inl, inr, Bool, true,
  Bool-cases, none, some, >>=-eq-some, Option-cases, arith, List, [], ◌∷◌, length, get_elem?,
  ℕ_discrete,
}
use distribute_system_lab.Raft.State.{Raft, get_state}
use distribute_system_lab.Harness.Links.{Config}
use distribute_system_lab.Harness.Checks.{
  Leaders, add_leader, last_term, find_leaders, poll_leader, check_one_leader,
}
use distribute_system_lab.Harness.CheckLaws.{
  get_elem?-only, last_term_lem, added, kept_leader, own_leader, term_kept, term_added,
}

module _ {A S : Type 0} where
  -- A connected server whose peer takes itself for the leader in term `t`.
  abbrev pub Leads : Config A S → ℕ → ℕ → Type 0
  Leads cfg j t =
      (j < cfg.n)
      × (cfg.connected j ≡ true)
      × (rf : Raft A) × (cfg.rafts j ≡ some rf)
      × (get_state rf ≡ (t, true))

  Leads-same : (cfg : Config A S) (j t u : ℕ) → Leads cfg j t → Leads cfg j u → t ≡ u
  Leads-same cfg j t u (_, _, rf, e, q) (_, _, rf', e', q') =
      let same : rf ≡ rf' = ground (arith, e, e') in
      ap (λ (x : ℕ × Bool). x.0) (sym q ∙ ap get_state same ∙ q')

  record Found (cfg : Config A S) (i : ℕ) (ls : Leaders) : Type 0 where
    pub sound : (t p j : ℕ) → get_elem? (ls.of_term t) p ≡ some j → Leads cfg j t
    pub complete :
        (j t : ℕ) → j < i → Leads cfg j t → (p : ℕ) × (get_elem? (ls.of_term t) p ≡ some j)
    pub keys :
        (t p j : ℕ)
        → get_elem? (ls.of_term t) p ≡ some j
        → (q : ℕ) × (get_elem? ls.terms q ≡ some t)

  -- A server that does not lead leaves the map as it is.
  Found-skip :
      (cfg : Config A S) (i : ℕ) (ls : Leaders)
      → ((t : ℕ) → Leads cfg i t → ⊥)
      → Found cfg i ls
      → Found cfg (i + 1) ls
  Found-skip cfg i ls idle f = record {
    sound = f.sound;
    complete = λ j t l lead. elim (ℕ_discrete j i) [
      | yes e ↦ absurd (idle t (subst (λ x. Leads cfg x t) e lead))
      | no n ↦ f.complete j t (omega (arith, l, n)) lead
    ];
    keys = f.keys;
  }

  Found-add :
      (cfg : Config A S) (i t0 : ℕ) (ls : Leaders)
      → Leads cfg i t0
      → Found cfg i ls
      → Found cfg (i + 1) (add_leader ls t0 i)
  unfolding add_leader
  Found-add cfg i t0 ls lead f = record {
    sound = λ t p j e. elim (added ls t0 i t p j e) [
      | inl old ↦ f.sound t p j old
      | inr (ej, et) ↦ subst (λ x. Leads cfg x t) (sym ej) (subst (Leads cfg i) (sym et) lead)
    ];
    complete = λ j t l lead'. elim (ℕ_discrete j i) [
      | yes e ↦
          let et : t ≡ t0 = Leads-same cfg i t t0 (subst (λ x. Leads cfg x t) e lead') lead in
          (
            length (ls.of_term t0),
            ap (λ x. get_elem? ((add_leader ls t0 i).of_term x) (length (ls.of_term t0))) et
                ∙ own_leader ls t0 i
                ∙ ap some (sym e),
          )
      | no n ↦
          let (p, q) = f.complete j t (omega (arith, l, n)) lead' in
          (p, kept_leader ls t0 i t p j q)
    ];
    keys = λ t p j e. elim (added ls t0 i t p j e) [
      | inl old ↦ let (q, k) = f.keys t p j old in term_kept ls t0 i q t k
      | inr (_, et) ↦ let (q, k) = term_added ls t0 i (f.keys t0) in (q, k ∙ ap some (sym et))
    ];
  }

  find_leaders-Found :
      (cfg : Config A S) (k i : ℕ) (ls : Leaders) {ls' : Leaders}
      → i + k ≡ cfg.n
      → Found cfg i ls
      → find_leaders cfg k i ls ≡ some ls'
      → Found cfg cfg.n ls'
  unfolding find_leaders
  find_leaders-Found cfg zero i ls {ls'} end f h =
      let same : ls ≡ ls' = ground (arith, h) in
      let at : i ≡ cfg.n = omega (arith, end) in
      subst (λ x. Found cfg x ls') at (subst (Found cfg i) same f)
  find_leaders-Found cfg (suc k) i ls end f h =
      let end' : (i + 1) + k ≡ cfg.n = omega (arith, end) in
      elim (Bool-cases (cfg.connected i)) [
        | inr off ↦
            find_leaders-Found cfg k (i + 1) ls end'
              (Found-skip cfg i ls (λ t (_, on, _, _, _). ground (arith, on, off)) f) (rw off at h)
        | inl on ↦
            let (rf, e, h') = >>=-eq-some (cfg.rafts i) _ (rw on at h) in
            elim (Bool-cases (get_state rf).1) [
              | inl leads ↦
                  find_leaders-Found cfg k (i + 1) (add_leader ls (get_state rf).0 i) end'
                    (Found-add cfg i (get_state rf).0 ls
                      (omega (arith, end), on, rf, e, ap (λ b. ((get_state rf).0, b)) leads) f)
                    (rw leads at h')
              | inr follows ↦
                  find_leaders-Found cfg k (i + 1) ls end'
                    (Found-skip cfg i ls
                      (λ t (_, _, rf', e', q).
                        let same : rf ≡ rf' = ground (arith, e, e') in
                        ground (
                          arith,
                          ap (λ (x : Raft A). (get_state x).1) same,
                          ap (λ (x : ℕ × Bool). x.1) q,
                          follows,
                        ))
                      f)
                    (rw follows at h')
            ]
      ]

  -- The leader that a round finds leads in a later term than any other connected server that leads.
  poll_leader_lem :
      (cfg : Config A S) (i : ℕ)
      → poll_leader cfg ≡ some (some i)
      → (t : ℕ) × Leads cfg i t × ((j u : ℕ) → Leads cfg j u → (j ≡ i) ⊎ (u < t))
  unfolding poll_leader
  poll_leader_lem cfg i h =
      let start : Leaders = record { terms = []; of_term = λ t. [] } in
      let (ls, q, h1) = >>=-eq-some (find_leaders cfg cfg.n 0 start) _ h in
      let (last, q', h2) = >>=-eq-some (last_term ls.of_term ls.terms none) _ h1 in
      let f =
        find_leaders-Found cfg cfg.n 0 start (omega arith)
          (record {
            sound = λ t p j e. absurd (ground (arith, e));
            complete = λ j t l. absurd (omega (arith, l));
            keys = λ t p j e. absurd (ground (arith, e));
          })
          q in
      let (_, all) = last_term_lem ls.of_term ls.terms none q' in
      elim (Option-cases last) [
        | inl e ↦ absurd (ground (arith, rw e at h2))
        | inr (t, e) ↦
            let (x, qx, h3) = >>=-eq-some (get_elem? (ls.of_term t) 0) _ (rw e at h2) in
            let first : get_elem? (ls.of_term t) 0 ≡ some i = ground (arith, qx, h3) in
            (
              t,
              f.sound t 0 i first,
              λ j u lead.
                  let (p, at) = f.complete j u (lead.0) lead in
                  let (k, key) = f.keys u p j at in
                  let (short, l, el, le) = all k u key in
                  let le' : u ≤ t = ground (arith, e, el, le) in
                  elim (ℕ_discrete u t) [
                    | no n ↦ inr (omega (arith, le', n))
                    | yes same ↦
                        let short' : length (ls.of_term t) ≤ 1 =
                          subst (λ y. length (ls.of_term y) ≤ 1) same short in
                        inl (
                          get_elem?-only (ls.of_term t) p i j short' first
                            (ap (λ y. get_elem? (ls.of_term y) p) (sym same) ∙ at))
                  ],
            )
      ]

  -- `checkOneLeader` returns a connected server that led in one of its rounds, in a later term than
  -- any other connected server that led then.
  pub check_one_leader_lem :
      (rounds : List (Config A S)) (i : ℕ)
      → check_one_leader rounds ≡ some i
      → (k : ℕ) × (cfg : Config A S) × (get_elem? rounds k ≡ some cfg)
        × (t : ℕ) × Leads cfg i t
        × ((j u : ℕ) → Leads cfg j u → (j ≡ i) ⊎ (u < t))
  unfolding check_one_leader
  check_one_leader_lem [] i h = absurd (ground (arith, h))
  check_one_leader_lem (cfg ∷ rounds) i h =
      let (found, q, h') = >>=-eq-some (poll_leader cfg) _ h in
      elim (Option-cases found) [
        | inl e ↦
            let (k, c, at, t, l, only) = check_one_leader_lem rounds i (rw e at h') in
            (suc k, c, at, t, l, only)
        | inr (j, e) ↦
            let ej : j ≡ i = ground (arith, rw e at h') in
            let (t, l, only) = poll_leader_lem cfg i (q ∙ ap some (e ∙ ap some ej)) in
            (0, cfg, refl, t, l, only)
      ]
