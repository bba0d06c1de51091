-- ===== src/Harness/LinkLaws.antt =====
-- mit6.824/src/raft/config.go: what the loops over the ends of a server do to the network.
use distribute_system_lab.Prelude.{
  ℕ, zero, suc, ◌+◌, ◌≡◌, ◌≢◌, ◌≤◌, ◌<◌, refl, sym, ap, ◌∙◌, Bool, true, false, Bool-cases, inl,
  inr, Option, none, some, ◌>>=◌, >>=-eq-some, arith, ℕ_discrete,
}
use distribute_system_lab.Prelude.Text.{Str, str_eq, str_eq_refl, eq_of_str_eq}
use distribute_system_lab.Labrpc.Network.{Network, put_end, enable, make_end, connect}
use distribute_system_lab.Harness.Links.{set_end, set_ends}
use distribute_system_lab.Harness.Peers.{make_ends}

put_end-same : {V : Type 0} (m : Str → V) (e : Str) (v : V) → put_end m e v e ≡ v
unfolding put_end
put_end-same m e v = rw (str_eq_refl e) refl

put_end-other : {V : Type 0} (m : Str → V) (e e' : Str) (v : V) → e ≢ e' → put_end m e v e' ≡ m e'
unfolding put_end
put_end-other m e e' v n = elim (Bool-cases (str_eq e e')) [
  | inl t ↦ absurd (n (eq_of_str_eq e e' t))
  | inr f ↦ rw f refl
]

abbrev pub Picked : (ℕ → Option (Option Str)) → ℕ → ℕ → Str → Type 0
Picked pick k j e = (b : ℕ) × (j ≤ b) × (b < j + k) × (pick b ≡ some (some e))

module _ {S : Type 0} where
  enable-keeps :
      (net : Network S) (e e' : Str) (on : Bool)
      → net.enabled e' ≡ on
      → (enable net e on).enabled e' ≡ on
  unfolding enable put_end
  enable-keeps net e e' on h = elim (Bool-cases (str_eq e e')) [
    | inl t ↦ rw t refl
    | inr f ↦ rw f h
  ]

  -- From `net` to `net'` the ends that `Hit` names are set, and nothing else is.
  pub record EndsSet (on : Bool) (Hit : Str → Type 0) (net net' : Network S) : Type 0 where
    pub ends : (e : Str) → net'.ends e ≡ net.ends e
    pub keeps : (e : Str) → net.enabled e ≡ on → net'.enabled e ≡ on
    pub sets : (e : Str) → Hit e → net'.enabled e ≡ on
    pub others : (e : Str) → (Hit e → ⊥) → net'.enabled e ≡ net.enabled e

  set_end-EndsSet :
      (p : Option (Option Str)) (on : Bool) (net : Network S) {net' : Network S}
      → set_end p on net ≡ some net'
      → EndsSet on (λ e. p ≡ some (some e)) net net'
  unfolding enable
  set_end-EndsSet none on net h = absurd (ground arith)
  set_end-EndsSet (some none) on net {net'} h =
      let same : net ≡ net' = ground arith in
      record {
        ends = λ e. ap (λ (m : Network S). m.ends e) (sym same);
        keeps = λ e q. ap (λ (m : Network S). m.enabled e) (sym same) ∙ q;
        sets = λ e q. absurd (ground (arith, q));
        others = λ e q. ap (λ (m : Network S). m.enabled e) (sym same);
      }
  set_end-EndsSet (some (some x)) on net {net'} h =
      let same : enable net x on ≡ net' = ground arith in
      rw (← same) record {
        ends = λ e. refl;
        keeps = λ e q. enable-keeps net x e on q;
        sets = λ e q.
            let ex : x ≡ e = ground (arith, q) in
            ap (put_end net.enabled x on) (sym ex) ∙ put_end-same net.enabled x on;
        others = λ e q. put_end-other net.enabled x e on (λ d. q (ap (λ y. some (some y)) d));
      }

  pub set_ends-EndsSet :
      (pick : ℕ → Option (Option Str)) (on : Bool) (k j : ℕ) (net : Network S) {net' : Network S}
      → set_ends pick on k j net ≡ some net'
      → EndsSet on (Picked pick k j) net net'
  unfolding set_ends
  set_ends-EndsSet pick on zero j net {net'} h =
      let same : net ≡ net' = ground arith in
      rw (← same) record {
        ends = λ e. refl;
        keeps = λ e q. q;
        sets = λ e q. absurd (omega (arith, q.1, q.2));
        others = λ e q. refl;
      }
  set_ends-EndsSet pick on (suc k) j net h =
      let (net1, q, h1) = >>=-eq-some (set_end (pick j) on net) _ h in
      let a = set_end-EndsSet (pick j) on net q in
      let b = set_ends-EndsSet pick on k (j + 1) net1 h1 in
      record {
        ends = λ e. b.ends e ∙ a.ends e;
        keeps = λ e p. b.keeps e (a.keeps e p);
        sets = λ e (c, le, lt, p). elim (ℕ_discrete c j) [
          | yes i ↦ b.keeps e (a.sets e (ap pick (sym i) ∙ p))
          | no i ↦ b.sets e (c, omega (arith, i, le), omega (arith, lt), p)
        ];
        others = λ e none_hit.
            b.others e (λ (c, le, lt, p). none_hit (c, omega (arith, le), omega (arith, lt), p))
            ∙ a.others e (λ p. none_hit (j, omega arith, omega arith, p));
      }

  pub set_ends_total :
      (pick : ℕ → Option (Option Str)) (on : Bool) (k j : ℕ) (net : Network S)
      → ((b : ℕ) → j ≤ b → b < j + k → (o : Option Str) × (pick b ≡ some o))
      → (net' : Network S) × (set_ends pick on k j net ≡ some net')
  unfolding set_ends
  set_ends_total pick on zero j net h = (net, refl)
  set_ends_total pick on (suc k) j net h =
      let (o, e) = h j (omega arith) (omega arith) in
      rw e
        (elim o
          as (λ p.
            (net' : Network S) × ((set_end (some p) on net >>= set_ends pick on k (j + 1))
              ≡ some net')) [
                | none ↦
                    set_ends_total pick on k (j + 1) net
                      (λ b le lt. h b (omega (arith, le)) (omega (arith, lt)))
                | some x ↦
                    set_ends_total pick on k (j + 1) (enable net x on)
                      (λ b le lt. h b (omega (arith, le)) (omega (arith, lt)))
              ])

  -- The ends that the loop of `start1` makes: new ones, disabled and with different names.
  pub record EndsMade (names : ℕ → Str) (k j : ℕ) (net net' : Network S) : Type 0 where
    pub old_ends : (e : Str) → net.ends e ≡ true → net'.ends e ≡ true
    pub old_enabled : (e : Str) → net.ends e ≡ true → net'.enabled e ≡ net.enabled e
    pub fresh : (b : ℕ) → j ≤ b → b < j + k → net.ends (names b) ≡ false
    pub made : (b : ℕ) → j ≤ b → b < j + k → net'.ends (names b) ≡ true
    pub off : (b : ℕ) → j ≤ b → b < j + k → net'.enabled (names b) ≡ false
    pub apart : (b c : ℕ) → j ≤ b → b < j + k → j ≤ c → c < j + k → names b ≡ names c → b ≡ c

  -- One end, made and led to its server.
  make_end-connect :
      (net : Network S) (x : Str) (server : ℕ) {net' : Network S}
      → make_end net x ≡ some net'
      → (net.ends x ≡ false)
        × ((connect net' x server).ends x ≡ true)
        × ((connect net' x server).enabled x ≡ false)
        × ((e : Str)
            → net.ends e ≡ true
            → ((connect net' x server).ends e ≡ true)
              × ((connect net' x server).enabled e ≡ net.enabled e))
  unfolding make_end connect
  make_end-connect net x server {net'} h = elim (Bool-cases (net.ends x)) [
    | inl t ↦ absurd (ground (arith, t))
    | inr f ↦
        let made : net'.ends ≡ put_end net.ends x true = ground (arith, f) in
        let off : net'.enabled ≡ put_end net.enabled x false = ground (arith, f) in
        (
          f,
          rw made (put_end-same net.ends x true),
          rw off (put_end-same net.enabled x false),
          λ e old.
              let n : x ≢ e = λ q. ground (arith, f, old, ap net.ends q) in
              (
                rw made (put_end-other net.ends x e true n ∙ old),
                rw off (put_end-other net.enabled x e false n),
              ),
        )
  ]

  pub make_ends-EndsMade :
      (names : ℕ → Str) (k j : ℕ) (net : Network S) {net' : Network S}
      → make_ends names k j net ≡ some net'
      → EndsMade names k j net net'
  unfolding make_ends
  make_ends-EndsMade names zero j net {net'} h =
      let same : net ≡ net' = ground arith in
      rw (← same) record {
        old_ends = λ e q. q;
        old_enabled = λ e q. refl;
        fresh = λ b le lt. absurd (omega (arith, le, lt));
        made = λ b le lt. absurd (omega (arith, le, lt));
        off = λ b le lt. absurd (omega (arith, le, lt));
        apart = λ b c le lt. absurd (omega (arith, le, lt));
      }
  make_ends-EndsMade names (suc k) j net {net'} h =
      let (net1, q, h1) = >>=-eq-some (make_end net (names j)) _ h in
      let (f, own, off, old) = make_end-connect net (names j) j q in
      let r = make_ends-EndsMade names k (j + 1) (connect net1 (names j) j) h1 in
      let mid = connect net1 (names j) j in
      let not_own : (c : ℕ) → c ≢ j → j ≤ c → c < j + suc k → names j ≢ names c = λ c i le lt e.
        ground (arith, own, r.fresh c (omega (arith, i, le)) (omega (arith, lt)), ap mid.ends e) in
      record {
        old_ends = λ e t. r.old_ends e (old e t).0;
        old_enabled = λ e t. r.old_enabled e (old e t).0 ∙ (old e t).1;
        fresh = λ b le lt. elim (ℕ_discrete b j) [
          | yes i ↦ ap (λ x. net.ends (names x)) i ∙ f
          | no i ↦ elim (Bool-cases (net.ends (names b))) [
            | inr t ↦ t
            | inl t ↦ absurd (
                ground (
                  arith,
                  (old (names b) t).0,
                  r.fresh b (omega (arith, i, le)) (omega (arith, lt)),
                ))
          ]
        ];
        made = λ b le lt. elim (ℕ_discrete b j) [
          | yes i ↦ ap (λ x. net'.ends (names x)) i ∙ r.old_ends (names j) own
          | no i ↦ r.made b (omega (arith, i, le)) (omega (arith, lt))
        ];
        off = λ b le lt. elim (ℕ_discrete b j) [
          | yes i ↦ ap (λ x. net'.enabled (names x)) i ∙ r.old_enabled (names j) own ∙ off
          | no i ↦ r.off b (omega (arith, i, le)) (omega (arith, lt))
        ];
        apart = λ b c le lt le' lt' e. elim (ℕ_discrete b j) [
          | yes i ↦ elim (ℕ_discrete c j) [
            | yes i' ↦ i ∙ sym i'
            | no i' ↦ absurd (not_own c i' le' lt' (ap names (sym i) ∙ e))
          ]
          | no i ↦ elim (ℕ_discrete c j) [
            | yes i' ↦ absurd (not_own b i le lt (ap names (sym i') ∙ sym e))
            | no i' ↦
                r.apart b c (omega (arith, i, le)) (omega (arith, lt)) (omega (arith, i', le'))
                  (omega (arith, lt')) e
          ]
        ];
      }
