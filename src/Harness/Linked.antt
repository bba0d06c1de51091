-- ===== src/Harness/Linked.antt =====
-- mit6.824/src/raft/config.go: what its ends and its network have to do with each other.
use distribute_system_lab.Prelude.{
  ℕ, ◌≡◌, ◌≢◌, ◌<◌, refl, sym, ◌∙◌, ◌⊎◌, Bool, true, inl, inr, some, >>=-eq-some, arith, ==_iff,
  ◌&&◌,
}
use distribute_system_lab.Prelude.Text.{Str}
use distribute_system_lab.Labrpc.Network.{Network, put_name}
use distribute_system_lab.Harness.Links.{Config, end_name}
use distribute_system_lab.Harness.LinkLaws.{EndsSet}

pub put_name-same : {V : Type 0} (m : ℕ → V) (i : ℕ) (v : V) → put_name m i v i ≡ v
unfolding put_name
put_name-same m i v = rw ((==_iff i i).1 refl) refl

pub put_name-other : {V : Type 0} (m : ℕ → V) (i k : ℕ) (v : V) → i ≢ k → put_name m i v k ≡ m k
unfolding put_name
put_name-other m i k v n = ground (arith, n)

pub EndsSet-trans :
    {S : Type 0} {on : Bool} {Hit Hit' : Str → Type 0} {a b c : Network S}
    → EndsSet on Hit a b
    → EndsSet on Hit' b c
    → EndsSet on (λ e. Hit e ⊎ Hit' e) a c
EndsSet-trans p q = record {
  ends = λ e. q.ends e ∙ p.ends e;
  keeps = λ e h. q.keeps e (p.keeps e h);
  sets = λ e h. elim h [ inl x ↦ q.keeps e (p.sets e x) | inr y ↦ q.sets e y ];
  others = λ e h. q.others e (λ y. h (inr y)) ∙ p.others e (λ x. h (inl x));
}

module _ {A S : Type 0} where
  -- Every end is made, has a name of its own, and is enabled if and only if both of its servers are
  -- on the net; a server that is on the net has been started.
  pub record Linked (cfg : Config A S) : Type 0 where
    pub inside : (a : ℕ) {names : ℕ → Str} → cfg.endnames a ≡ some names → a < cfg.n
    pub named : (a b : ℕ) (e : Str) → b < cfg.n → end_name cfg a b ≡ some e → cfg.net.ends e ≡ true
    pub apart :
        (a b c d : ℕ) (e : Str)
        → b < cfg.n
        → d < cfg.n
        → end_name cfg a b ≡ some e
        → end_name cfg c d ≡ some e
        → (a ≡ c) × (b ≡ d)
    pub links :
        (a b : ℕ) (e : Str)
        → b < cfg.n
        → end_name cfg a b ≡ some e
        → cfg.net.enabled e ≡ (cfg.connected a && cfg.connected b)

  end_name-inside :
      (cfg : Config A S) (a b : ℕ) (e : Str) → Linked cfg → end_name cfg a b ≡ some e → a < cfg.n
  end_name-inside cfg a b e ok h =
      let (names, q, h') = >>=-eq-some (cfg.endnames a) _ h in ok.inside a q

  -- What a change of who is on the net has to set.
  pub relinked :
      (cfg : Config A S) (connected : ℕ → Bool) (net : Network S) (on : Bool) (Hit : Str → Type 0)
      → Linked cfg
      → EndsSet on Hit cfg.net net
      → ((a b : ℕ) (e : Str)
          → a < cfg.n
          → b < cfg.n
          → end_name cfg a b ≡ some e
          → (Hit e × ((connected a && connected b) ≡ on))
            ⊎ ((Hit e → ⊥) × ((connected a && connected b) ≡ (cfg.connected a && cfg.connected b))))
      → Linked (record cfg { connected = connected; net = net })
  relinked cfg connected net on Hit ok set cases = record {
    inside = λ a q. ok.inside a q;
    named = λ a b e l q. set.ends e ∙ ok.named a b e l q;
    apart = ok.apart;
    links = λ a b e l q. elim (cases a b e (end_name-inside cfg a b e ok q) l q) [
      | inl (hit, v) ↦ set.sets e hit ∙ sym v
      | inr (miss, v) ↦ set.others e miss ∙ ok.links a b e l q ∙ sym v
    ];
  }
