-- ===== src/Harness/CheckLaws.antt =====
-- mit6.824/src/raft/config.go: the map of leaders by their terms.
use distribute_system_lab.Prelude.{
  ℕ, zero, suc, ◌≡◌, ◌≤◌, refl, sym, ap, ◌∙◌, ◌⊎◌, inl, inr, Bool-cases, Option, none, some, arith,
  ltb, ◌==◌, List, [], ◌∷◌, ◌++◌, length, get_elem?, get_elem?-of_lt, ℕ_discrete,
}
use distribute_system_lab.Labrpc.Network.{put_name}
use distribute_system_lab.Harness.Linked.{put_name-same, put_name-other}
use distribute_system_lab.Harness.Checks.{Leaders, add_leader, later_of, last_term}

get_elem?-push :
    (xs : List ℕ) (y p j : ℕ)
    → get_elem? (xs ++ y ∷ []) p ≡ some j
    → (get_elem? xs p ≡ some j) ⊎ (j ≡ y)
get_elem?-push [] y zero j h = inr (ground (arith, h))
get_elem?-push [] y (suc p) j h = absurd (ground (arith, h))
get_elem?-push (x ∷ xs) y zero j h = inl h
get_elem?-push (x ∷ xs) y (suc p) j h = get_elem?-push xs y p j h

get_elem?-push_old :
    (xs : List ℕ) (y p j : ℕ) → get_elem? xs p ≡ some j → get_elem? (xs ++ y ∷ []) p ≡ some j
get_elem?-push_old [] y p j h = absurd (ground (arith, h))
get_elem?-push_old (x ∷ xs) y zero j h = h
get_elem?-push_old (x ∷ xs) y (suc p) j h = get_elem?-push_old xs y p j h

get_elem?-push_last : (xs : List ℕ) (y : ℕ) → get_elem? (xs ++ y ∷ []) (length xs) ≡ some y
get_elem?-push_last [] y = refl
get_elem?-push_last (x ∷ xs) y = get_elem?-push_last xs y

pub get_elem?-only :
    (xs : List ℕ) (p i j : ℕ)
    → length xs ≤ 1
    → get_elem? xs 0 ≡ some i
    → get_elem? xs p ≡ some j
    → j ≡ i
get_elem?-only [] p i j l h q = absurd (ground (arith, h))
get_elem?-only (x ∷ xs) zero i j l h q = ground (arith, h, q)
get_elem?-only (x ∷ []) (suc p) i j l h q = absurd (ground (arith, q))
get_elem?-only (x ∷ y ∷ xs) (suc p) i j l h q = absurd (omega (arith, l))

take_first :
    (x : ℕ) (xs : List ℕ) (q t : ℕ)
    → get_elem? (x ∷ xs) q ≡ some t
    → (t ≡ x) ⊎ ((q' : ℕ) × (get_elem? xs q' ≡ some t))
take_first x xs zero t h = inl (ground (arith, h))
take_first x xs (suc q) t h = inr (q, h)

later_of_le :
    (last : Option ℕ) (t : ℕ)
    → (t ≤ later_of last t) × ((l : ℕ) → last ≡ some l → l ≤ later_of last t)
later_of_le none t = (omega arith, λ l e. absurd (ground (arith, e)))
later_of_le (some k) t = (ground arith, λ l e. ground (arith, e))

pub last_term_lem :
    (of_term : ℕ → List ℕ) (terms : List ℕ) (last : Option ℕ) {r : Option ℕ}
    → last_term of_term terms last ≡ some r
    → ((l : ℕ) → last ≡ some l → (l' : ℕ) × (r ≡ some l') × (l ≤ l'))
      × ((q t : ℕ)
          → get_elem? terms q ≡ some t
          → (length (of_term t) ≤ 1) × (l : ℕ) × (r ≡ some l) × (t ≤ l))
unfolding last_term
last_term_lem of_term [] last h =
    ((λ l e. (l, ground (arith, h, e), omega arith)), λ q t e. absurd (ground (arith, e)))
last_term_lem of_term (t ∷ ts) last {r} h = elim (Bool-cases (ltb 1 (length (of_term t)))) [
  | inl two ↦ absurd (ground (arith, rw two at h))
  | inr one ↦
      let (best, rest) = last_term_lem of_term ts (some (later_of last t)) (rw one at h) in
      let (l, er, le) = best (later_of last t) refl in
      let (here, there) = later_of_le last t in
      (
        (λ k e. (l, er, omega (arith, le, there k e))),
        λ q t' e. elim (take_first t ts q t' e) [
          | inl et ↦ (
            ground (arith, one, ap (λ x. length (of_term x)) et),
            l,
            er,
            omega (arith, le, here, et),
          )
          | inr (q', e') ↦ rest q' t' e'
        ],
      )
]

pub added :
    (ls : Leaders) (t0 i t p j : ℕ)
    → get_elem? ((add_leader ls t0 i).of_term t) p ≡ some j
    → (get_elem? (ls.of_term t) p ≡ some j) ⊎ ((j ≡ i) × (t ≡ t0))
unfolding add_leader
added ls t0 i t p j h = elim (ℕ_discrete t0 t) [
  | no n ↦ inl (rw (put_name-other ls.of_term t0 t (ls.of_term t0 ++ i ∷ []) n) at h)
  | yes e ↦
      let h0 = ap (λ x. get_elem? (put_name ls.of_term t0 (ls.of_term t0 ++ i ∷ []) x) p) e ∙ h in
      elim (get_elem?-push (ls.of_term t0) i p j
        (rw (put_name-same ls.of_term t0 (ls.of_term t0 ++ i ∷ [])) at h0)) [
          | inl old ↦ inl (ap (λ x. get_elem? (ls.of_term x) p) (sym e) ∙ old)
          | inr ej ↦ inr (ej, sym e)
        ]
]

pub kept_leader :
    (ls : Leaders) (t0 i t p j : ℕ)
    → get_elem? (ls.of_term t) p ≡ some j
    → get_elem? ((add_leader ls t0 i).of_term t) p ≡ some j
unfolding add_leader
kept_leader ls t0 i t p j h = elim (ℕ_discrete t0 t) [
  | no n ↦ rw (put_name-other ls.of_term t0 t (ls.of_term t0 ++ i ∷ []) n) h
  | yes e ↦
      let h0 = ap (λ x. get_elem? (ls.of_term x) p) e ∙ h in
      ap (λ x. get_elem? (put_name ls.of_term t0 (ls.of_term t0 ++ i ∷ []) x) p) (sym e)
      ∙ rw (put_name-same ls.of_term t0 (ls.of_term t0 ++ i ∷ []))
          (get_elem?-push_old (ls.of_term t0) i p j h0)
]

pub own_leader :
    (ls : Leaders) (t0 i : ℕ)
    → get_elem? ((add_leader ls t0 i).of_term t0) (length (ls.of_term t0)) ≡ some i
unfolding add_leader
own_leader ls t0 i =
    rw (put_name-same ls.of_term t0 (ls.of_term t0 ++ i ∷ []))
      (get_elem?-push_last (ls.of_term t0) i)

pub term_kept :
    (ls : Leaders) (t0 i q t : ℕ)
    → get_elem? ls.terms q ≡ some t
    → (q' : ℕ) × (get_elem? (add_leader ls t0 i).terms q' ≡ some t)
unfolding add_leader
term_kept ls t0 i q t h = elim (Bool-cases (length (ls.of_term t0) == 0)) [
  | inl fresh ↦ (suc q, rw fresh h)
  | inr there ↦ (q, rw there h)
]

pub term_added :
    (ls : Leaders) (t0 i : ℕ)
    → ((p j : ℕ)
        → get_elem? (ls.of_term t0) p ≡ some j
        → (q : ℕ) × (get_elem? ls.terms q ≡ some t0))
    → (q : ℕ) × (get_elem? (add_leader ls t0 i).terms q ≡ some t0)
unfolding add_leader
term_added ls t0 i keys = elim (Bool-cases (length (ls.of_term t0) == 0)) [
  | inl fresh ↦ (0, rw fresh refl)
  | inr there ↦
      let (x, e) = get_elem?-of_lt (ls.of_term t0) 0 (ground (arith, there)) in
      let (q, k) = keys 0 x e in (q, rw there k)
]
