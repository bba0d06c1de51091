-- ===== src/Harness/Starting.antt =====
-- mit6.824/src/raft/config.go: `disconnect`, `crash1` and `start1` disable what they have to.
use distribute_system_lab.Prelude.{
  ℕ, ◌+◌, ◌≡◌, ◌≢◌, ◌<◌, refl, sym, ap, subst, ◌∙◌, ◌⊎◌, false, Bool-cases, inl, inr, none, some,
  ◌>>=◌, >>=-eq-some, arith, ℕ_discrete, ltb, ltb→lt, ◌&&◌, [], ◌∷◌, ◌++◌, length,
}
use distribute_system_lab.Prelude.Text.{Str}
use distribute_system_lab.Labrpc.Network.{Network, put_name, delete_server, add_server}
use distribute_system_lab.Harness.Links.{Config, end_name, set_ends, if_named, disconnect_server}
use distribute_system_lab.Harness.LinkLaws.{Picked, set_ends-EndsSet}
use distribute_system_lab.Harness.LinkLaws.{EndsMade, make_ends-EndsMade}
use distribute_system_lab.Harness.Linked.{
  Linked, relinked, EndsSet-trans, put_name-same, put_name-other,
}
use distribute_system_lab.Raft.State.{Codec, make_raft}
use distribute_system_lab.Labrpc.Server.{Service, Server, make_server, add_service}
use distribute_system_lab.Harness.Peers.{make_ends, copied, only_log, or_new, disk, crash1, start1}

module _ {A S : Type 0} where
  -- Both loops of `disconnect` together.
  abbrev Cuts : Config A S → ℕ → Str → Type 0
  Cuts cfg i e =
      Picked (if_named (end_name cfg i)) cfg.n 0 e
      ⊎ Picked (if_named (λ j. end_name cfg j i)) cfg.n 0 e

  Cuts-only :
      (cfg : Config A S) (i a b : ℕ) (e : Str)
      → Linked cfg
      → i < cfg.n
      → b < cfg.n
      → end_name cfg a b ≡ some e
      → Cuts cfg i e
      → (a ≡ i) ⊎ (b ≡ i)
  Cuts-only cfg i a b e ok li lb at (inl (c, _, lc, p)) =
      inl (ok.apart a b i c e lb (omega (arith, lc)) at (ground (arith, p))).0
  Cuts-only cfg i a b e ok li lb at (inr (c, _, lc, p)) =
      inr (ok.apart a b c i e lb li at (ground (arith, p))).1

  Cuts-cases :
      (cfg : Config A S) (i a b : ℕ) (e : Str)
      → Linked cfg
      → i < cfg.n
      → a < cfg.n
      → b < cfg.n
      → end_name cfg a b ≡ some e
      → let cn = put_name cfg.connected i false in
        (Cuts cfg i e × ((cn a && cn b) ≡ false))
        ⊎ ((Cuts cfg i e → ⊥) × ((cn a && cn b) ≡ (cfg.connected a && cfg.connected b)))
  Cuts-cases cfg i a b e ok li la lb at =
      let cn = put_name cfg.connected i false in
      let only = Cuts-only cfg i a b e ok li lb at in
      let own : cn i ≡ false = put_name-same cfg.connected i false in
      elim (ℕ_discrete a i) [
        | yes ea ↦ inl (
          inl (
            b,
            omega arith,
            omega (arith, lb),
            ap some (ap (λ x. end_name cfg x b) (sym ea) ∙ at),
          ),
          rw (ap cn ea ∙ own) refl,
        )
        | no na ↦ elim (ℕ_discrete b i) [
          | yes eb ↦ inl (
            inr (a, omega arith, omega (arith, la), ap some (ap (end_name cfg a) (sym eb) ∙ at)),
            ground (arith, ap cn eb ∙ own),
          )
          | no nb ↦ inr (
            (λ h. elim (only h) [ inl x ↦ na x | inr y ↦ nb y ]),
            rw
                (
                  put_name-other cfg.connected i a false (λ x. na (sym x)),
                  put_name-other cfg.connected i b false (λ x. nb (sym x)),
                )
                refl,
          )
        ]
      ]

  -- What `disconnect` comes to.
  pub disconnected :
      (cfg : Config A S) (i : ℕ) {cfg' : Config A S}
      → Linked cfg
      → disconnect_server cfg i ≡ some cfg'
      → Linked cfg' × (i < cfg'.n) × (cfg'.connected i ≡ false)
  unfolding disconnect_server
  disconnected cfg i {cfg'} ok h =
      let cn = put_name cfg.connected i false in
      let out = if_named (end_name cfg i) in
      let inc = if_named (λ j. end_name cfg j i) in
      elim (Bool-cases (ltb i cfg.n)) [
        | inr f ↦ absurd (ground (arith, f))
        | inl t ↦
            let (net1, q1, h1) = >>=-eq-some (set_ends out false cfg.n 0 cfg.net) _ (rw t at h) in
            let (net2, q2, h2) = >>=-eq-some (set_ends inc false cfg.n 0 net1) _ h1 in
            subst (λ (c : Config A S). Linked c × (i < c.n) × (c.connected i ≡ false))
              (ground (arith, h2))
              (
                relinked cfg cn net2 false (Cuts cfg i) ok
                    (EndsSet-trans (set_ends-EndsSet out false cfg.n 0 cfg.net q1)
                      (set_ends-EndsSet inc false cfg.n 0 net1 q2))
                    (λ a b e la lb at. Cuts-cases cfg i a b e ok (ltb→lt i cfg.n t) la lb at),
                ltb→lt i cfg.n t,
                put_name-same cfg.connected i false,
              )
      ]

  -- The names after `start1` has replaced those of server `i`.
  replaced :
      (cfg : Config A S) (i : ℕ) (names : ℕ → Str) (a b : ℕ) (e : Str)
      → (put_name cfg.endnames i (some names) a >>= (λ fs. some (fs b))) ≡ some e
      → ((a ≡ i) × (names b ≡ e)) ⊎ ((i ≢ a) × (end_name cfg a b ≡ some e))
  replaced cfg i names a b e h = elim (ℕ_discrete i a) [
    | yes q ↦
        let own : put_name cfg.endnames i (some names) a ≡ some names =
          ap (put_name cfg.endnames i (some names)) (sym q)
          ∙ put_name-same cfg.endnames i (some names) in
        inl (sym q, ground (arith, rw own at h))
    | no q ↦ inr (q, rw (put_name-other cfg.endnames i a (some names) q) at h)
  ]

  -- New ends for a server that is off the net.
  new_ends-Linked :
      (cfg : Config A S) (i : ℕ) (names : ℕ → Str) (net : Network S)
      → Linked cfg
      → i < cfg.n
      → cfg.connected i ≡ false
      → EndsMade names cfg.n 0 cfg.net net
      → Linked (record cfg { net = net; endnames = put_name cfg.endnames i (some names) })
  new_ends-Linked cfg i names net ok li off made =
      let in_loop : (b : ℕ) → b < cfg.n → b < 0 + cfg.n = λ b l. omega (arith, l) in
      let clash : (a b d : ℕ) (e : Str)
          → b < cfg.n
          → d < cfg.n
          → names b ≡ e
          → end_name cfg a d ≡ some e
          → ⊥ =
        λ a b d e lb ld q q'. ground (
          arith,
          ap cfg.net.ends q,
          made.fresh b (omega arith) (in_loop b lb),
          ok.named a d e ld q',
        ) in
      record {
        inside = λ a q. elim (ℕ_discrete i a) [
          | yes x ↦ subst (λ k. k < cfg.n) x li
          | no x ↦ ok.inside a (sym (put_name-other cfg.endnames i a (some names) x) ∙ q)
        ];
        named = λ a b e l q. elim (replaced cfg i names a b e q) [
          | inl (_, x) ↦ ap net.ends (sym x) ∙ made.made b (omega arith) (in_loop b l)
          | inr (_, x) ↦ made.old_ends e (ok.named a b e l x)
        ];
        apart = λ a b c d e lb ld q q'. elim (replaced cfg i names a b e q) [
          | inl (ea, x) ↦ elim (replaced cfg i names c d e q') [
            | inl (ec, y) ↦ (
              ea ∙ sym ec,
              made.apart b d (omega arith) (in_loop b lb) (omega arith) (in_loop d ld) (x ∙ sym y),
            )
            | inr (_, y) ↦ absurd (clash c b d e lb ld x y)
          ]
          | inr (_, x) ↦ elim (replaced cfg i names c d e q') [
            | inl (_, y) ↦ absurd (clash a d b e ld lb y x)
            | inr (_, y) ↦ ok.apart a b c d e lb ld x y
          ]
        ];
        links = λ a b e l q. elim (replaced cfg i names a b e q) [
          | inl (ea, x) ↦
              ap net.enabled (sym x)
              ∙ made.off b (omega arith) (in_loop b l)
              ∙ sym (rw (ap cfg.connected ea ∙ off) refl)
          | inr (_, x) ↦ made.old_enabled e (ok.named a b e l x) ∙ ok.links a b e l x
        ];
      }

  module _ (g : Codec A) where
    pub crashed :
        (cfg : Config A S) (i : ℕ) {cfg' : Config A S}
        → Linked cfg
        → crash1 g cfg i ≡ some cfg'
        → Linked cfg' × (i < cfg'.n) × (cfg'.connected i ≡ false)
    unfolding crash1 delete_server
    crashed cfg i {cfg'} ok h =
        let (off, q, h') = >>=-eq-some (disconnect_server cfg i) _ h in
        let (l, lt, f) = disconnected cfg i ok q in
        let after : Config A S = record off {
          net = delete_server off.net i;
          rafts = put_name off.rafts i none;
          saved = put_name off.saved i (only_log (copied (disk off i)));
        } in
        let same : after ≡ cfg' = ground (arith, h') in
        subst (λ (c : Config A S). Linked c × (i < c.n) × (c.connected i ≡ false)) same
          (
            record { inside = λ a. l.inside a; named = l.named; apart = l.apart; links = l.links },
            lt,
            f,
          )

    pub started :
        (cfg : Config A S) (i : ℕ) (names : ℕ → Str) (svc : Service S) {cfg' : Config A S}
        → Linked cfg
        → start1 g cfg i names svc ≡ some cfg'
        → Linked cfg'
    unfolding start1 add_server
    started cfg i names svc {cfg'} ok h =
        let (off, q, h1) = >>=-eq-some (crash1 g cfg i) _ h in
        let (net, q', h2) = >>=-eq-some (make_ends names off.n 0 off.net) _ h1 in
        let (l, lt, f) = crashed cfg i ok q in
        let r =
          new_ends-Linked off i names net l lt f (make_ends-EndsMade names off.n 0 off.net q') in
        let server : Server S = add_service make_server svc in
        let after : Config A S = record off {
          endnames = put_name off.endnames i (some names);
          saved = put_name off.saved i (some (or_new (off.saved i)));
          rafts = put_name off.rafts i (some (make_raft g off.n i (or_new (off.saved i))));
          net = add_server (record net { store = net.store ++ server ∷ [] }) i (length net.store);
        } in
        let same : after ≡ cfg' = ground (arith, h2) in
        subst Linked same
          (record { inside = λ a. r.inside a; named = r.named; apart = r.apart; links = r.links })
