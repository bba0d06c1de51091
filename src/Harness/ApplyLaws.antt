-- ===== src/Harness/ApplyLaws.antt =====
-- mit6.824/src/raft/config.go: what the readers of the peers' messages make sure of.
use distribute_system_lab.Prelude.{
  ℕ, zero, suc, ◌+◌, ◌-◌, ◌≡◌, ◌≤◌, ◌<◌, refl, sym, ap, ◌∙◌, ◌⊎◌, inl, inr, true, false, Bool-cases,
  ◌&&◌, ◌||◌, not, Option, some, Option-cases, arith, ltb, ◌==◌, ℕ_discrete,
}
use distribute_system_lab.Labrpc.Network.{put_name}
use distribute_system_lab.Raft.State.{ApplyMsg}
use distribute_system_lab.Harness.Apply.{
  Applied, is_some, differs, conflicts, on_apply, Applies, no_message, applies,
}

-- No two servers have applied different commands at an index, and no server has a gap.
pub record Agreed (cfg : Applied) : Type 0 where
  pub same :
      (a b index v w : ℕ)
      → a < cfg.n
      → b < cfg.n
      → cfg.logs a index ≡ some v
      → cfg.logs b index ≡ some w
      → v ≡ w
  pub before :
      (a index : ℕ)
      → is_some (cfg.logs a (suc (suc index))) ≡ true
      → is_some (cfg.logs a (suc index)) ≡ true

conflicts_none :
    (logs : ℕ → ℕ → Option ℕ) (index v k a w : ℕ)
    → conflicts logs index v k ≡ false
    → a < k
    → logs a index ≡ some w
    → w ≡ v
unfolding conflicts
conflicts_none logs index v zero a w h l e = absurd (omega arith)
conflicts_none logs index v (suc k) a w h l e = elim (ℕ_discrete a k) [
  | yes i ↦
      let here : differs (logs k index) v ≡ false = ground (arith, h) in
      ground (arith, rw (ap (λ x. logs x index) (sym i) ∙ e) at here)
  | no i ↦ conflicts_none logs index v k a w (ground (arith, h)) (omega (arith, i, l)) e
]

put_log :
    (logs : ℕ → ℕ → Option ℕ) (i index v a x w : ℕ)
    → put_name logs i (put_name (logs i) index (some v)) a x ≡ some w
    → ((a ≡ i) × (x ≡ index) × (w ≡ v)) ⊎ (logs a x ≡ some w)
unfolding put_name
put_log logs i index v a x w h = ground arith

is_some-put_log :
    (logs : ℕ → ℕ → Option ℕ) (i index v a x : ℕ)
    → is_some (logs a x) ≡ true
    → is_some (put_name logs i (put_name (logs i) index (some v)) a x) ≡ true
unfolding put_name
is_some-put_log logs i index v a x h = elim (Bool-cases (i == a)) [
  | inl t ↦ ground (arith, t, h)
  | inr f ↦ rw f h
]

-- What a message that is no error does.
on_apply_cases :
    (cfg : Applied) (i : ℕ) (m : ApplyMsg ℕ) {cfg' : Applied}
    → on_apply cfg i m ≡ some cfg'
    → (cfg' ≡ cfg)
      ⊎ ((v : ℕ) × (cfg'.n ≡ cfg.n)
          × (cfg'.logs ≡ put_name cfg.logs i (put_name (cfg.logs i) m.command_index (some v)))
          × (conflicts cfg.logs m.command_index v cfg.n ≡ false)
          × (1 < m.command_index → is_some (cfg.logs i (m.command_index - 1)) ≡ true))
unfolding on_apply
on_apply_cases cfg i m h = elim (Bool-cases m.command_valid) [
  | inr f ↦ inl (ground (arith, f))
  | inl t ↦ elim (Option-cases m.command) [
    | inl e ↦ absurd (ground (arith, t, rw (t, e) at h))
    | inr (v, e) ↦
        let h' = rw (t, e) at h in
        elim (Bool-cases (
          conflicts cfg.logs m.command_index v cfg.n
          || (ltb 1 m.command_index && not (is_some (cfg.logs i (m.command_index - 1)))))) [
            | inl bad ↦ absurd (ground (arith, rw bad at h'))
            | inr good ↦
                let h2 = rw good at h' in
                inr (
                  v,
                  ground (arith, h2),
                  ground (arith, h2),
                  ground (arith, good),
                  λ l. ground (arith, good, l),
                )
          ]
  ]
]

on_apply-Agreed :
    (cfg : Applied) (i : ℕ) (m : ApplyMsg ℕ) {cfg' : Applied}
    → i < cfg.n
    → Agreed cfg
    → on_apply cfg i m ≡ some cfg'
    → Agreed cfg' × (cfg'.n ≡ cfg.n)
on_apply-Agreed cfg i m {cfg'} l ok h = elim (on_apply_cases cfg i m h) [
  | inl e ↦ rw e (ok, refl)
  | inr (v0, en, elogs, none_differs, prev) ↦
      let index0 = m.command_index in
      let new : (a x w : ℕ)
          → cfg'.logs a x ≡ some w
          → ((a ≡ i) × (x ≡ index0) × (w ≡ v0)) ⊎ (cfg.logs a x ≡ some w) =
        λ a x w q.
          put_log cfg.logs i index0 v0 a x w
            (ap (λ (f : ℕ → ℕ → Option ℕ). f a x) (sym elogs) ∙ q) in
      let kept : (a x : ℕ) → is_some (cfg.logs a x) ≡ true → is_some (cfg'.logs a x) ≡ true =
        λ a x q.
          ap (λ (f : ℕ → ℕ → Option ℕ). is_some (f a x)) elogs
          ∙ is_some-put_log cfg.logs i index0 v0 a x q in
      (
        record {
          same = λ a b x v w la lb p q. elim (new a x v p) [
            | inl (_, ex, ev) ↦ elim (new b x w q) [
              | inl (_, _, ew) ↦ ev ∙ sym ew
              | inr old ↦
                  ev
                  ∙ sym (
                      conflicts_none cfg.logs index0 v0 cfg.n b w none_differs
                        (omega (arith, en, lb)) (ap (cfg.logs b) (sym ex) ∙ old))
            ]
            | inr old ↦ elim (new b x w q) [
              | inl (_, ex, ew) ↦
                  conflicts_none cfg.logs index0 v0 cfg.n a v none_differs (omega (arith, en, la))
                    (ap (cfg.logs a) (sym ex) ∙ old)
                  ∙ sym ew
              | inr old' ↦
                  ok.same a b x v w (omega (arith, en, la)) (omega (arith, en, lb)) old old'
            ]
          ];
          before = λ a x p. elim (Option-cases (cfg'.logs a (suc (suc x)))) [
            | inl none_there ↦ absurd (ground (arith, p, none_there))
            | inr (w, q) ↦ kept a (suc x) (elim (new a (suc (suc x)) w q) [
              | inl (ea, ex, _) ↦
                  let there = prev (omega (arith, ex)) in
                  let at : (index0 - 1) ≡ suc x = omega (arith, ex) in
                  ap (λ y. is_some (cfg.logs y (suc x))) ea
                  ∙ ap (λ y. is_some (cfg.logs i y)) (sym at)
                  ∙ there
              | inr old ↦ ok.before a x (ap is_some old)
            ])
          ];
        },
        en,
      )
]

pub Applies-Agreed : (n : ℕ) {cfg : Applied} → Applies n cfg → Agreed cfg × (cfg.n ≡ n)
Applies-Agreed n no_message = (
  record {
    same = λ a b x v w la lb p. absurd (ground (arith, p));
    before = λ a x p. absurd (ground (arith, p));
  },
  refl,
)
Applies-Agreed n (applies {cfg} i m l r h) =
    let (ok, en) = Applies-Agreed n r in
    let (ok', en') = on_apply-Agreed cfg i m (omega (arith, en, l)) ok h in (ok', en' ∙ en)

filled_below :
    (cfg : Applied) (a k j : ℕ)
    → Agreed cfg
    → is_some (cfg.logs a (suc (k + j))) ≡ true
    → is_some (cfg.logs a (suc j)) ≡ true
filled_below cfg a zero j ok h =
    let at : suc j ≡ suc (zero + j) = omega arith in ap (λ x. is_some (cfg.logs a x)) at ∙ h
filled_below cfg a (suc k) j ok h =
    let at : suc (suc (k + j)) ≡ suc (suc k + j) = omega arith in
    filled_below cfg a k j ok (ok.before a (k + j) (ap (λ x. is_some (cfg.logs a x)) at ∙ h))

-- As long as no reader stops the test, whatever the servers apply in any order: two servers that
-- have both applied a command at an index have applied the same one, and a server that has applied
-- a command at an index has applied one at each smaller index from 1 on.
pub applied_agree :
    (n : ℕ) {cfg : Applied} (a b index v : ℕ)
    → Applies n cfg
    → a < n
    → b < n
    → cfg.logs a index ≡ some v
    → ((w : ℕ) → cfg.logs b index ≡ some w → v ≡ w)
      × ((j : ℕ) → 0 < j → j ≤ index → is_some (cfg.logs a j) ≡ true)
applied_agree n {cfg} a b index v r la lb e =
    let (ok, en) = Applies-Agreed n r in
    (
      (λ w q. ok.same a b index v w (omega (arith, en, la)) (omega (arith, en, lb)) e q),
      λ j pos le.
          let at : suc ((index - j) + (j - 1)) ≡ index = omega (arith, pos, le) in
          let below : suc (j - 1) ≡ j = omega (arith, pos) in
          ap (λ x. is_some (cfg.logs a x)) (sym below)
          ∙ filled_below cfg a (index - j) (j - 1) ok
              (ap (λ x. is_some (cfg.logs a x)) at ∙ ap is_some e),
    )
