-- ===== src/Raft/Cluster/Ballots.antt =====
-- mit6.824/src/raft/raft.go: counting votes and calls over all peers of a cluster.
use distribute_system_lab.Prelude.{
  ℕ, zero, suc, ◌≡◌, ◌≢◌, ◌≤◌, ◌<◌, refl, sym, ap, subst, ◌∙◌, inl, inr, Bool, true, false,
  Bool-cases, List, [], ◌∷◌, arith, length, count, ℕ_discrete, ◌==◌, ==_iff, ◌&&◌, not,
}
use distribute_system_lab.Raft.Vote.{RequestVoteArgs}
use distribute_system_lab.Raft.Node.{Node}
use distribute_system_lab.Raft.Cluster.{Call, asked, put_node, put_call, ask_all}

-- The values at the numbers below `n`, the last one first.
abbrev pub upto : {X : Type 0} → (ℕ → X) → ℕ → List X
upto f zero = []
upto f (suc n) = f n ∷ upto f n

pub length-upto : {X : Type 0} (f : ℕ → X) (n : ℕ) → length (upto f n) ≡ n
length-upto f zero = refl
length-upto f (suc n) = ap suc (length-upto f n)

module _ {X Y : Type 0} (p : X → Bool) (q : Y → Bool) (f : ℕ → X) (h : ℕ → Y) where
  pub count-upto_le :
      (n : ℕ)
      → ((v : ℕ) → v < n → p (f v) ≡ true → q (h v) ≡ true)
      → count p (upto f n) ≤ count q (upto h n)
  count-upto_le zero le = omega arith
  count-upto_le (suc n) le =
      let rest = count-upto_le n (λ v l. le v (omega arith)) in
      elim (Bool-cases (p (f n))) [
        | inl t ↦ rw (t, le n (omega arith) t) (omega (arith, rest))
        | inr e ↦ ground (arith, rest, e)
      ]

  pub count-upto_lt :
      (w n : ℕ)
      → w < n
      → ((v : ℕ) → v < n → p (f v) ≡ true → q (h v) ≡ true)
      → p (f w) ≡ false
      → q (h w) ≡ true
      → count p (upto f n) < count q (upto h n)
  count-upto_lt w zero l le e t = absurd (omega arith)
  count-upto_lt w (suc n) l le e t = elim (ℕ_discrete w n) [
    | yes i ↦
        let e' : p (f n) ≡ false = ap (λ k. p (f k)) (sym i) ∙ e in
        let t' : q (h n) ≡ true = ap (λ k. q (h k)) (sym i) ∙ t in
        rw (e', t') (omega (arith, count-upto_le n (λ v l'. le v (omega arith))))
    | no i ↦
        let rest = count-upto_lt w n (omega (arith, i)) (λ v l'. le v (omega arith)) e t in
        elim (Bool-cases (p (f n))) [
          | inl pt ↦ rw (pt, le n (omega arith) pt) (omega (arith, rest))
          | inr pe ↦ ground (arith, rest, pe)
        ]
  ]

pub ==-refl : (i : ℕ) → (i == i) ≡ true
==-refl i = (==_iff i i).1 refl

pub ==-apart : (i k : ℕ) → i ≢ k → (i == k) ≡ false
==-apart i k n = ground (arith, n)

module _ {A : Type 0} where
  -- A change at one place of a table, seen by a property of all places.
  pub put_node_all {ℓ} :
      (P : ℕ → Node A → Type ℓ) (nodes : ℕ → Node A) (i : ℕ) (m : Node A)
      → ((k : ℕ) → i ≢ k → P k (nodes k))
      → P i m
      → (k : ℕ) → P k (put_node nodes i m k)
  unfolding put_node
  put_node_all P nodes i m old new k = elim (ℕ_discrete i k) [
    | yes e ↦ subst (λ j. P j (put_node nodes i m j)) e (rw (==-refl i) new)
    | no n ↦ rw (==-apart i k n) (old k n)
  ]

pub put_call_all {ℓ} :
    (P : ℕ → ℕ → ℕ → Call → Type ℓ) (calls : ℕ → ℕ → ℕ → Call) (v c t : ℕ) (x : Call)
    → ((v' c' t' : ℕ) → P v' c' t' (calls v' c' t'))
    → P v c t x
    → (v' c' t' : ℕ) → P v' c' t' (put_call calls v c t x v' c' t')
unfolding put_call
put_call_all P calls v c t x old new v' c' t' =
    elim (Bool-cases (v == v' && (c == c' && t == t'))) [
      | inl e ↦
          let ev : v ≡ v' = ground (arith, e) in
          let ec : c ≡ c' = ground (arith, e) in
          let et : t ≡ t' = ground (arith, e) in
          rw e (
            subst (λ a. P a c' t' x) ev
              (subst (λ a. P v a t' x) ec (subst (λ a. P v c a x) et new)))
      | inr e ↦ rw e (old v' c' t')
    ]

pub put_call-same :
    (calls : ℕ → ℕ → ℕ → Call) (v c t : ℕ) (x : Call) → put_call calls v c t x v c t ≡ x
unfolding put_call
put_call-same calls v c t x = rw (==-refl v, ==-refl c, ==-refl t) refl

pub ask_all_all {ℓ} :
    (P : ℕ → ℕ → ℕ → Call → Type ℓ) (calls : ℕ → ℕ → ℕ → Call) (args : RequestVoteArgs)
    → ((v c t : ℕ) → P v c t (calls v c t))
    → ((v c t : ℕ) → c ≡ args.candidate_id → t ≡ args.term → v ≢ c → P v c t (asked args))
    → (v c t : ℕ) → P v c t (ask_all calls args v c t)
unfolding ask_all
ask_all_all P calls args old new v c t =
    elim (Bool-cases (c == args.candidate_id && (t == args.term && not (v == c)))) [
      | inl e ↦ rw e (new v c t (ground (arith, e)) (ground (arith, e)) (λ q. ground (arith, e, q)))
      | inr e ↦ rw e (old v c t)
    ]
