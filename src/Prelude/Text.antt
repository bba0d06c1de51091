-- ===== src/Prelude/Text.antt =====
-- Go strings as lists of bytes: equality and the byte-wise order.
use mathlib.Core.Path.{◌≡◌, refl}
use mathlib.Core.Logic.{◌↔◌}
use mathlib.Core.Bool.{Bool, true, false, ◌&&◌}
use mathlib.Core.List.{List, [], ◌∷◌, ◌++◌}
use Prim.Native.Nat.{ℕ}
use native.Mathlib.Omega.{arith}
use distribute_system_lab.Prelude.Tests.{ltb, ◌==◌, if◌then◌else◌}

abbrev pub Str : Type 0
Str = List ℕ

unfoldable pub str_eq : Str → Str → Bool
str_eq [] [] = true
str_eq [] (y ∷ ys) = false
str_eq (x ∷ xs) [] = false
str_eq (x ∷ xs) (y ∷ ys) = x == y && str_eq xs ys

unfoldable pub str_lt : Str → Str → Bool
str_lt [] [] = false
str_lt [] (y ∷ ys) = true
str_lt (x ∷ xs) [] = false
str_lt (x ∷ xs) (y ∷ ys) = if ltb x y then true else x == y && str_lt xs ys

pub str_eq_refl : (s : Str) → str_eq s s ≡ true
unfolding str_eq
str_eq_refl [] = refl
str_eq_refl (x ∷ s) = ground (arith, str_eq_refl s)

pub eq_of_str_eq : (s t : Str) → str_eq s t ≡ true → s ≡ t
unfolding str_eq
eq_of_str_eq [] [] h = refl
eq_of_str_eq [] (y ∷ t) h = cc
eq_of_str_eq (x ∷ s) [] h = cc
eq_of_str_eq (x ∷ s) (y ∷ t) h = ground (arith, eq_of_str_eq s t)

pub str_eq_iff : (s t : Str) → (str_eq s t ≡ true) ↔ (s ≡ t)
str_eq_iff s t = (eq_of_str_eq s t, λ e. rw e (str_eq_refl t))

-- `t` is not before `s`.
abbrev pub StrLe : Str → Str → Type 0
StrLe s t = str_lt t s ≡ false

pub StrLe-refl : (s : Str) → StrLe s s
unfolding str_lt
StrLe-refl [] = refl
StrLe-refl (x ∷ s) = ground (arith, StrLe-refl s)

pub StrLe-trans : (s t u : Str) → StrLe s t → StrLe t u → StrLe s u
unfolding str_lt
StrLe-trans [] t [] h k = refl
StrLe-trans [] t (z ∷ u) h k = refl
StrLe-trans (x ∷ s) [] u h k = cc
StrLe-trans (x ∷ s) (y ∷ t) [] h k = cc
StrLe-trans (x ∷ s) (y ∷ t) (z ∷ u) h k = ground (arith, StrLe-trans s t u)

pub StrLe-antisymm : (s t : Str) → StrLe s t → StrLe t s → s ≡ t
unfolding str_lt
StrLe-antisymm [] [] h k = refl
StrLe-antisymm [] (y ∷ t) h k = cc
StrLe-antisymm (x ∷ s) [] h k = cc
StrLe-antisymm (x ∷ s) (y ∷ t) h k = ground (arith, StrLe-antisymm s t)

pub append_cancel_left : (a b c : Str) → a ++ b ≡ a ++ c → b ≡ c
append_cancel_left [] b c h = h
append_cancel_left (x ∷ a) b c h = append_cancel_left a b c (ground arith)

pub str_lt-asymm : (s t : Str) → str_lt s t ≡ true → str_lt t s ≡ false
unfolding str_lt
str_lt-asymm [] [] h = refl
str_lt-asymm [] (y ∷ t) h = refl
str_lt-asymm (x ∷ s) [] h = cc
str_lt-asymm (x ∷ s) (y ∷ t) h = ground (arith, str_lt-asymm s t)
