-- ===== src/Raft/AppendLaws.antt =====
-- mit6.824/src/raft/raft.go, `AppendEntries`: what becomes of the log, and what a refusal says.
use mathlib.Core.Path.{ap₂}
use distribute_system_lab.Prelude.{
  ℕ, zero, suc, ◌+◌, ◌≡◌, ◌≢◌, ◌≤◌, ◌<◌, refl, sym, ap, ◌∙◌, inl, inr, false, Bool-cases, List, [],
  ◌∷◌, ◌++◌, some, >>=-eq-some, arith, length, get_elem?, take, drop, take-add, take-append-drop,
  get_elem?-drop, ◌==◌, ==_iff, ℕ_discrete, get_elem?-of_lt,
}
use mathlib.Core.List.{append_assoc}
use distribute_system_lab.Raft.State.{LogEntry}
use distribute_system_lab.Raft.Append.{term_start, agree}

module _ {A : Type 0} where
  -- Entries of two logs that share index and term are the same: Raft's log matching, at the
  -- indices from `n` on.
  abbrev pub Matching : List (LogEntry A) → ℕ → List (LogEntry A) → Type 0
  Matching log n new =
      (i : ℕ) (e o : LogEntry A)
      → get_elem? new i ≡ some e
      → get_elem? log (n + i) ≡ some o
      → e.term_idx ≡ o.term_idx
      → e ≡ o

  agree-take :
      (new old : List (LogEntry A))
      → ((i : ℕ) (e o : LogEntry A)
          → get_elem? new i ≡ some e
          → get_elem? old i ≡ some o
          → e.term_idx ≡ o.term_idx
          → e ≡ o)
      → take (agree new old) old ≡ take (agree new old) new
  unfolding agree
  agree-take [] old h = refl
  agree-take (e ∷ new) [] h = refl
  agree-take (e ∷ new) (o ∷ old) h = elim (Bool-cases (e.term_idx == o.term_idx)) [
    | inl q ↦
        rw (q, agree)
          (ap₂ ◌∷◌ (sym (h 0 e o refl refl ((==_iff _ _).0 q)))
            (agree-take new old (λ i. h (suc i))))
    | inr q ↦ rw (q, agree) refl
  ]

  -- The log after the loops, if the new entries match the old ones.
  pub merged :
      (log : List (LogEntry A)) (n : ℕ) (new : List (LogEntry A))
      → Matching log n new
      → take (n + agree new (drop n log)) log ++ drop (agree new (drop n log)) new
        ≡ take n log ++ new
  merged log n new h =
      let k = agree new (drop n log) in
      rw (take-add n k log) (
        append_assoc (take n log) (take k (drop n log)) (drop k new)
        ∙ ap (◌++◌ (take n log)) (
            ap (λ z. z ++ drop k new)
              (agree-take new (drop n log)
                (λ i e o p q. h i e o p (sym (get_elem?-drop n log i) ∙ q)))
            ∙ take-append-drop k new))

  -- The run of entries of term `t` that ends before index `n` starts at `i`.
  pub record Starts (log : List (LogEntry A)) (t n i : ℕ) : Type 0 where
    pub start_le : i ≤ n
    pub all_same :
        (j : ℕ) (e : LogEntry A) → i ≤ j → j < n → get_elem? log j ≡ some e → e.term_idx ≡ t
    pub before : (j : ℕ) (e : LogEntry A) → suc j ≡ i → get_elem? log j ≡ some e → e.term_idx ≢ t

  Starts-suc :
      {log : List (LogEntry A)} {t n i : ℕ} {e : LogEntry A}
      → get_elem? log n ≡ some e
      → e.term_idx ≡ t
      → Starts log t n i
      → Starts log t (suc n) i
  Starts-suc {log} {n} {e} he ht s = record {
    start_le = omega (arith, s.start_le);
    all_same = λ j e' a b q. elim (ℕ_discrete j n) [
      | yes same ↦ ground (arith, ap (get_elem? log) same)
      | no other ↦ s.all_same j e' a (omega arith) q
    ];
    before = s.before;
  }

  Starts-here :
      {log : List (LogEntry A)} {t n i : ℕ} {e : LogEntry A}
      → get_elem? log n ≡ some e
      → (e.term_idx == t) ≡ false
      → suc n ≡ i
      → Starts log t (suc n) i
  Starts-here {log} {n} {e} he q r = record {
    start_le = omega arith;
    all_same = λ j e' a b. absurd (omega arith);
    before = λ j e' a p. let s : j ≡ n = omega arith in ground (arith, ap (get_elem? log) s);
  }

  pub term_start-Starts :
      (log : List (LogEntry A)) (t n : ℕ) {i : ℕ} → term_start log t n ≡ some i → Starts log t n i
  unfolding term_start
  term_start-Starts log t zero {i} h = record {
    start_le = ground arith;
    all_same = λ j e a b. absurd (omega arith);
    before = λ j e q. absurd (ground arith);
  }
  term_start-Starts log t (suc n) {i} h =
      let (e, he, h') = >>=-eq-some (get_elem? log n) _ h in
      elim (Bool-cases (e.term_idx == t)) [
        | inl q ↦ Starts-suc he ((==_iff _ _).0 q) (term_start-Starts log t n (rw q at h'))
        | inr q ↦ Starts-here he q (ground arith)
      ]

  -- The walk stays inside the log.
  pub term_start-total :
      (log : List (LogEntry A)) (t n : ℕ) → n ≤ length log → (i : ℕ) × (term_start log t n ≡ some i)
  unfolding term_start
  term_start-total log t zero h = (0, refl)
  term_start-total log t (suc n) h =
      let (e, he) = get_elem?-of_lt log n (omega arith) in
      let (i, hi) = term_start-total log t n (omega arith) in
      elim (Bool-cases (e.term_idx == t)) [
        | inl q ↦ (i, rw (he, term_start) (rw q hi))
        | inr q ↦ (suc n, rw (he, term_start) (rw q))
      ]
