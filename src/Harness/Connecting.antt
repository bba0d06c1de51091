-- ===== src/Harness/Connecting.antt =====
-- mit6.824/src/raft/config.go: `connect` enables what it has to.
use distribute_system_lab.Prelude.{
  ℕ, ◌≡◌, ◌<◌, refl, sym, ap, subst, ◌∙◌, ◌⊎◌, Bool, true, false, Bool-cases, inl, inr, Option,
  some, ◌>>=◌, >>=-eq-some, arith, ℕ_discrete, ltb, ltb→lt, ◌&&◌,
}
use distribute_system_lab.Prelude.Text.{Str}
use distribute_system_lab.Labrpc.Network.{put_name}
use distribute_system_lab.Harness.Links.{Config, end_name, set_ends, if_connected, connect_server}
use distribute_system_lab.Harness.LinkLaws.{Picked, set_ends-EndsSet}
use distribute_system_lab.Harness.Linked.{
  Linked, relinked, EndsSet-trans, put_name-same, put_name-other,
}

if_connected-hit :
    (connected : ℕ → Bool) (name : ℕ → Option Str) (j : ℕ) (e : Str)
    → if_connected connected name j ≡ some (some e)
    → (connected j ≡ true) × (name j ≡ some e)
if_connected-hit connected name j e h = elim (Bool-cases (connected j)) [
  | inl t ↦ (t, ground (arith, t, h))
  | inr f ↦ absurd (ground (arith, f, h))
]

on_net-before :
    (connected : ℕ → Bool) (i b : ℕ) → put_name connected i true b ≡ false → connected b ≡ false
on_net-before connected i b h = elim (ℕ_discrete i b) [
  | yes e ↦
      absurd
        (ground (arith, h, ap (put_name connected i true) (sym e), put_name-same connected i true))
  | no n ↦ sym (put_name-other connected i b true n) ∙ h
]

module _ {A S : Type 0} where
  -- Both loops of `connect` together.
  abbrev Connects : Config A S → ℕ → Str → Type 0
  Connects cfg i e =
      Picked (if_connected (put_name cfg.connected i true) (end_name cfg i)) cfg.n 0 e
      ⊎ Picked (if_connected (put_name cfg.connected i true) (λ j. end_name cfg j i)) cfg.n 0 e

  Connects-only :
      (cfg : Config A S) (i a b : ℕ) (e : Str)
      → Linked cfg
      → i < cfg.n
      → b < cfg.n
      → end_name cfg a b ≡ some e
      → Connects cfg i e
      → ((a ≡ i) ⊎ (b ≡ i))
        × (put_name cfg.connected i true a ≡ true)
        × (put_name cfg.connected i true b ≡ true)
  Connects-only cfg i a b e ok li lb at (inl (c, _, lc, p)) =
      let cn = put_name cfg.connected i true in
      let (on, q) = if_connected-hit cn (end_name cfg i) c e p in
      let (ea, eb) = ok.apart a b i c e lb (omega (arith, lc)) at q in
      (inl ea, ap cn ea ∙ put_name-same cfg.connected i true, ap cn eb ∙ on)
  Connects-only cfg i a b e ok li lb at (inr (c, _, lc, p)) =
      let cn = put_name cfg.connected i true in
      let (on, q) = if_connected-hit cn (λ j. end_name cfg j i) c e p in
      let (ea, eb) = ok.apart a b c i e lb li at q in
      (inr eb, ap cn ea ∙ on, ap cn eb ∙ put_name-same cfg.connected i true)

  Connects-cases :
      (cfg : Config A S) (i a b : ℕ) (e : Str)
      → Linked cfg
      → i < cfg.n
      → a < cfg.n
      → b < cfg.n
      → end_name cfg a b ≡ some e
      → let cn = put_name cfg.connected i true in
        (Connects cfg i e × ((cn a && cn b) ≡ true))
        ⊎ ((Connects cfg i e → ⊥) × ((cn a && cn b) ≡ (cfg.connected a && cfg.connected b)))
  Connects-cases cfg i a b e ok li la lb at =
      let cn = put_name cfg.connected i true in
      let only = Connects-only cfg i a b e ok li lb at in
      elim (Bool-cases (cn a)) [
        | inr fa ↦ inr (
          (λ h. ground (arith, (only h).1, fa)),
          rw (fa, on_net-before cfg.connected i a fa) refl,
        )
        | inl ta ↦ elim (Bool-cases (cn b)) [
          | inr fb ↦ inr (
            (λ h. ground (arith, (only h).2, fb)),
            ground (arith, fb, on_net-before cfg.connected i b fb),
          )
          | inl tb ↦ elim (ℕ_discrete a i) [
            | yes ea ↦ inl (
              inl (
                b,
                omega arith,
                omega (arith, lb),
                rw tb (
                    ap (λ o. o >>= (λ x. some (some x)))
                      (ap (λ x. end_name cfg x b) (sym ea) ∙ at)),
              ),
              rw (ta, tb) refl,
            )
            | no na ↦ elim (ℕ_discrete b i) [
              | yes eb ↦ inl (
                inr (
                  a,
                  omega arith,
                  omega (arith, la),
                  rw ta (ap (λ o. o >>= (λ x. some (some x))) (ap (end_name cfg a) (sym eb) ∙ at)),
                ),
                rw (ta, tb) refl,
              )
              | no nb ↦ inr (
                (λ h. elim ((only h).0) [ inl x ↦ na x | inr y ↦ nb y ]),
                rw
                    (
                      put_name-other cfg.connected i a true (λ x. na (sym x)),
                      put_name-other cfg.connected i b true (λ x. nb (sym x)),
                    )
                    refl,
              )
            ]
          ]
        ]
      ]

  pub connect_server-Linked :
      (cfg : Config A S) (i : ℕ) {cfg' : Config A S}
      → Linked cfg
      → connect_server cfg i ≡ some cfg'
      → Linked cfg'
  unfolding connect_server
  connect_server-Linked cfg i {cfg'} ok h =
      let cn = put_name cfg.connected i true in
      let out = if_connected cn (end_name cfg i) in
      let inc = if_connected cn (λ j. end_name cfg j i) in
      elim (Bool-cases (ltb i cfg.n)) [
        | inr f ↦ absurd (ground (arith, f))
        | inl t ↦
            let (net1, q1, h1) = >>=-eq-some (set_ends out true cfg.n 0 cfg.net) _ (rw t at h) in
            let (net2, q2, h2) = >>=-eq-some (set_ends inc true cfg.n 0 net1) _ h1 in
            subst Linked (ground (arith, h2)) (
              relinked cfg cn net2 true (λ e. Picked out cfg.n 0 e ⊎ Picked inc cfg.n 0 e) ok
                (EndsSet-trans (set_ends-EndsSet out true cfg.n 0 cfg.net q1)
                  (set_ends-EndsSet inc true cfg.n 0 net1 q2))
                (λ a b e la lb at. Connects-cases cfg i a b e ok (ltb→lt i cfg.n t) la lb at))
      ]
