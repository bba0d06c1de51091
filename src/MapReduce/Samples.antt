-- ===== src/MapReduce/Samples.antt =====
-- Concrete values for the tests of the MapReduce modules: numerals, an encoding and a sort.
use mathlib.Core.List.{append_assoc}
use distribute_system_lab.Prelude.{
  ℕ, zero, suc, ◌+◌, ◌≡◌, ◌≢◌, ◌<◌, refl, ap, ◌∙◌, Bool, true, Bool-cases, inl, inr, List, [], ◌∷◌,
  ◌++◌, Option, none, some, ◌>>=◌, arith, length, count, if◌then◌else◌,
}
use distribute_system_lab.Prelude.Text.{Str, str_lt, str_lt-asymm, StrLe, StrLe-trans}
use distribute_system_lab.MapReduce.Names.{KeyValue, All, IsDigit, Itoa}
use distribute_system_lab.MapReduce.Files.{Json, Os}
use distribute_system_lab.MapReduce.Reduce.{From, ByKey, KeySort}
use distribute_system_lab.MapReduce.Merge.{Below, Ascends, StrSort}

-- A number as that many zeros, and one more.
unfoldable pub zeros : ℕ → Str
zeros zero = b'0' ∷ []
zeros (suc n) = b'0' ∷ zeros n

pub zeros-digits : (n : ℕ) → All IsDigit (zeros n)
unfolding zeros
zeros-digits zero = ((omega arith, omega arith), tt)
zeros-digits (suc n) = ((omega arith, omega arith), zeros-digits n)

pub length-zeros : (n : ℕ) → length (zeros n) ≡ suc n
unfolding zeros
length-zeros zero = refl
length-zeros (suc n) = ap suc (length-zeros n)

pub zeros-not_empty : (n : ℕ) → zeros n ≢ []
unfolding zeros
zeros-not_empty zero e = absurd (ground arith)
zeros-not_empty (suc n) e = absurd (ground arith)

abbrev pub numerals : Itoa
numerals = record {
  itoa = zeros;
  digits = zeros-digits;
  injective = λ m n e. omega (arith, length-zeros m, length-zeros n, ap length e);
  not_empty = zeros-not_empty;
}

-- A text as its bytes, with a 1 before each and a 0 at the end.
unfoldable pub write_text : Str → Str
write_text [] = 0 ∷ []
write_text (c ∷ s) = 1 ∷ c ∷ write_text s

unfoldable pub read_text : Str → Option (Str × Str)
read_text [] = none
read_text (zero ∷ r) = some ([], r)
read_text (suc k ∷ []) = none
read_text (suc k ∷ c ∷ r) = do (s, r') ← read_text r; some (c ∷ s, r')

read_text-write : (s r : Str) → read_text (write_text s ++ r) ≡ some (s, r)
unfolding read_text write_text
read_text-write [] r = refl
read_text-write (c ∷ s) r = rw (read_text-write s r, ◌>>=◌) refl

unfoldable pub write_pair : KeyValue → Str
write_pair kv = write_text kv.key ++ write_text kv.value

unfoldable pub read_pair : Str → Option (KeyValue × Str)
read_pair bytes = do
  (k, r) ← read_text bytes
  (v, r') ← read_text r
  some (record { key = k; value = v }, r')

pub read_pair-write : (kv : KeyValue) (r : Str) → read_pair (write_pair kv ++ r) ≡ some (kv, r)
unfolding read_pair write_pair
read_pair-write kv r = rw (append_assoc (write_text kv.key) (write_text kv.value) r) (
    rw (read_text-write kv.key (write_text kv.value ++ r), ◌>>=◌)
      (rw (read_text-write kv.value r, ◌>>=◌) refl))

pub write_pair-not_empty : (kv : KeyValue) → 0 < length (write_pair kv)
unfolding write_pair write_text
write_pair-not_empty kv = go kv.key
  where
    go : (k : Str) → 0 < length (write_text k ++ write_text kv.value)
    go [] = omega arith
    go (c ∷ k) = omega arith

pub read_pair-nil : read_pair [] ≡ none
unfolding read_pair read_text
read_pair-nil = refl

abbrev pub plain_json : Json
plain_json = record {
  encode = write_pair;
  decode = read_pair;
  is_utf8 = λ s. true;
  round_trip = λ kv r h. read_pair-write kv r;
  at_end = read_pair-nil;
  not_empty = write_pair-not_empty;
}

-- A disk on which everything can be created and written to.
instance abbrev pub open_disk : Os
open_disk = record { can_create = λ s. true; can_write = λ s. true }

unfoldable pub insert : KeyValue → List KeyValue → List KeyValue
insert x [] = x ∷ []
insert x (y ∷ ys) = let rest = insert x ys in if str_lt y.key x.key then y ∷ rest else x ∷ y ∷ ys

unfoldable pub insertion_sort : List KeyValue → List KeyValue
unfolding insert
insertion_sort [] = []
insertion_sort (x ∷ xs) = insert x (insertion_sort xs)

insert-From :
    (k : Str) (x : KeyValue) (ys : List KeyValue) → StrLe k x.key → From k ys → From k (insert x ys)
unfolding insert
insert-From k x [] h f = (h, tt)
insert-From k x (y ∷ ys) h f = elim (Bool-cases (str_lt y.key x.key)) [
  | inl e ↦ rw e (f.0, insert-From k x ys h f.1)
  | inr e ↦ rw e (h, f)
]

From-trans : (k l : Str) (ys : List KeyValue) → StrLe k l → From l ys → From k ys
From-trans k l [] h f = tt
From-trans k l (y ∷ ys) h f = (StrLe-trans k l y.key h f.0, From-trans k l ys h f.1)

insert-ByKey : (x : KeyValue) (ys : List KeyValue) → ByKey ys → ByKey (insert x ys)
unfolding insert
insert-ByKey x [] b = (tt, tt)
insert-ByKey x (y ∷ ys) b = elim (Bool-cases (str_lt y.key x.key)) [
  | inl e ↦ rw e (insert-From y.key x ys (str_lt-asymm y.key x.key e) b.0, insert-ByKey x ys b.1)
  | inr e ↦ rw e ((e, From-trans x.key y.key ys e b.0), b)
]

pub sort-ByKey : (xs : List KeyValue) → ByKey (insertion_sort xs)
unfolding insertion_sort
sort-ByKey [] = tt
sort-ByKey (x ∷ xs) = insert-ByKey x (insertion_sort xs) (sort-ByKey xs)

count-insert :
    (p : KeyValue → Bool) (x : KeyValue) (ys : List KeyValue)
    → count p (insert x ys) ≡ count p (x ∷ ys)
unfolding insert
count-insert p x [] = refl
count-insert p x (y ∷ ys) = ground (arith, count-insert p x ys)

pub count-sort :
    (p : KeyValue → Bool) (xs : List KeyValue) → count p (insertion_sort xs) ≡ count p xs
unfolding insertion_sort
count-sort p [] = refl
count-sort p (x ∷ xs) = count-insert p x (insertion_sort xs) ∙ ground (arith, count-sort p xs)

abbrev pub sort_pairs : KeySort
sort_pairs = record { by_key = insertion_sort; ascends = sort-ByKey; same_items = count-sort }

-- The sum of the bytes.
abbrev pub sum : Str → ℕ
sum [] = 0
sum (c ∷ s) = c + sum s

unfoldable pub insert_text : Str → List Str → List Str
insert_text x [] = x ∷ []
insert_text x (y ∷ ys) = let rest = insert_text x ys in if str_lt y x then y ∷ rest else x ∷ y ∷ ys

unfoldable pub sort_texts : List Str → List Str
unfolding insert_text
sort_texts [] = []
sort_texts (x ∷ xs) = insert_text x (sort_texts xs)

insert_text-Below :
    (k x : Str) (ys : List Str) → StrLe k x → Below k ys → Below k (insert_text x ys)
unfolding insert_text
insert_text-Below k x [] h f = (h, tt)
insert_text-Below k x (y ∷ ys) h f = elim (Bool-cases (str_lt y x)) [
  | inl e ↦ rw e (f.0, insert_text-Below k x ys h f.1)
  | inr e ↦ rw e (h, f)
]

Below-trans : (k l : Str) (ys : List Str) → StrLe k l → Below l ys → Below k ys
Below-trans k l [] h f = tt
Below-trans k l (y ∷ ys) h f = (StrLe-trans k l y h f.0, Below-trans k l ys h f.1)

insert_text-Ascends : (x : Str) (ys : List Str) → Ascends ys → Ascends (insert_text x ys)
unfolding insert_text
insert_text-Ascends x [] b = (tt, tt)
insert_text-Ascends x (y ∷ ys) b = elim (Bool-cases (str_lt y x)) [
  | inl e ↦ rw e (insert_text-Below y x ys (str_lt-asymm y x e) b.0, insert_text-Ascends x ys b.1)
  | inr e ↦ rw e ((e, Below-trans x y ys e b.0), b)
]

pub sort_texts-Ascends : (xs : List Str) → Ascends (sort_texts xs)
unfolding sort_texts
sort_texts-Ascends [] = tt
sort_texts-Ascends (x ∷ xs) = insert_text-Ascends x (sort_texts xs) (sort_texts-Ascends xs)

count-insert_text :
    (p : Str → Bool) (x : Str) (ys : List Str) → count p (insert_text x ys) ≡ count p (x ∷ ys)
unfolding insert_text
count-insert_text p x [] = refl
count-insert_text p x (y ∷ ys) = ground (arith, count-insert_text p x ys)

pub count-sort_texts : (p : Str → Bool) (xs : List Str) → count p (sort_texts xs) ≡ count p xs
unfolding sort_texts
count-sort_texts p [] = refl
count-sort_texts p (x ∷ xs) =
    count-insert_text p x (sort_texts xs) ∙ ground (arith, count-sort_texts p xs)

abbrev pub str_sort : StrSort
str_sort = record {
  strings = sort_texts;
  ascends = sort_texts-Ascends;
  same_items = count-sort_texts;
}
