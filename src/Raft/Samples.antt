-- ===== src/Raft/Samples.antt =====
-- Concrete values for the tests of the Raft modules: a codec, a sort, and peers.
use distribute_system_lab.Prelude.{
  ℕ, zero, suc, ◌≡◌, ◌≤◌, ◌<◌, refl, Bool, List, [], ◌∷◌, ◌++◌, Option, none, some, ◌>>=◌, arith,
  length, get_elem?, count, leb, if◌then◌else◌,
}
use distribute_system_lab.Raft.State.{LogEntry, Raft, Codec, fresh}
use distribute_system_lab.Raft.Persister.{make_persister}
use distribute_system_lab.Raft.Leader.{IntSort}

-- Commands are numbers, and every value is written as a list of numbers.
abbrev pub option_code : Option ℕ → ℕ
option_code none = 0
option_code (some v) = suc v

abbrev pub code_option : ℕ → Option ℕ
code_option zero = none
code_option (suc v) = some v

code_option-option_code : (o : Option ℕ) → code_option (option_code o) ≡ o
code_option-option_code none = refl
code_option-option_code (some v) = refl

abbrev pub write_entries : List (LogEntry ℕ) → List ℕ
write_entries [] = []
write_entries (e ∷ l) = option_code e.content ∷ e.term_idx ∷ write_entries l

abbrev pub read_entries : ℕ → List ℕ → Option (List (LogEntry ℕ) × List ℕ)
read_entries zero r = some ([], r)
read_entries (suc n) [] = none
read_entries (suc n) (c ∷ []) = none
read_entries (suc n) (c ∷ t ∷ r) = do
  (l, r') ← read_entries n r
  some (record { content = code_option c; term_idx = t } ∷ l, r')

pub read_entries-write :
    (l : List (LogEntry ℕ)) (r : List ℕ)
    → read_entries (length l) (write_entries l ++ r) ≡ some (l, r)
read_entries-write [] r = refl
read_entries-write (e ∷ l) r =
    rw (read_entries-write l r, ◌>>=◌) (rw (code_option-option_code e.content))

abbrev pub first : List ℕ → Option (ℕ × List ℕ)
first [] = none
first (t ∷ r) = some (t, r)

abbrev pub first_option : List ℕ → Option (Option ℕ × List ℕ)
first_option [] = none
first_option (v ∷ r) = some (code_option v, r)

abbrev pub first_log : List ℕ → Option (List (LogEntry ℕ) × List ℕ)
first_log [] = none
first_log (n ∷ r) = read_entries n r

pub first_option-code : (v : Option ℕ) (r : List ℕ) → first_option (option_code v ∷ r) ≡ some (v, r)
first_option-code none r = refl
first_option-code (some v) r = refl

abbrev pub plain_codec : Codec ℕ
plain_codec = record {
  encode_term = λ t. t ∷ [];
  encode_vote = λ v. option_code v ∷ [];
  encode_log = λ l. length l ∷ write_entries l;
  decode_term = first;
  decode_vote = first_option;
  decode_log = first_log;
  term_lem = λ t r. refl;
  vote_lem = first_option-code;
  log_lem = read_entries-write;
  term_length = λ t. one_pos;
}
  where
    one_pos : 0 < 1
    one_pos = omega arith

abbrev pub insert : ℕ → List ℕ → List ℕ
insert x [] = x ∷ []
insert x (y ∷ ys) = let rest = insert x ys in if leb x y then x ∷ y ∷ ys else y ∷ rest

abbrev pub sorted : List ℕ → List ℕ
sorted [] = []
sorted (x ∷ xs) = insert x (sorted xs)

count-insert : (p : ℕ → Bool) (x : ℕ) (ys : List ℕ) → count p (insert x ys) ≡ count p (x ∷ ys)
count-insert p x [] = refl
count-insert p x (y ∷ ys) = ground (arith, count-insert p x ys)

pub count-sorted : (p : ℕ → Bool) (xs : List ℕ) → count p (sorted xs) ≡ count p xs
count-sorted p [] = refl
count-sorted p (x ∷ xs) = ground (arith, count-insert p x (sorted xs), count-sorted p xs)

abbrev pub Above : ℕ → List ℕ → Type 0
Above a [] = Unit {0}
Above a (x ∷ xs) = (a ≤ x) × Above a xs

abbrev pub Ascending : List ℕ → Type 0
Ascending [] = Unit {0}
Ascending (x ∷ xs) = Above x xs × Ascending xs

Above-trans : (a b : ℕ) (xs : List ℕ) → a ≤ b → Above b xs → Above a xs
Above-trans a b [] h k = tt
Above-trans a b (x ∷ xs) h k = (omega arith, Above-trans a b xs h k.1)

Above-insert : (a x : ℕ) (ys : List ℕ) → a ≤ x → Above a ys → Above a (insert x ys)
Above-insert a x [] h k = (h, tt)
Above-insert a x (y ∷ ys) h k = ground (arith, Above-insert a x ys h k.1)

insert-Ascending : (x : ℕ) (ys : List ℕ) → Ascending ys → Ascending (insert x ys)
insert-Ascending x [] k = (tt, tt)
insert-Ascending x (y ∷ ys) k =
    ground (arith, insert-Ascending x ys k.1, Above-insert y x ys, Above-trans x y ys)

sorted-Ascending : (xs : List ℕ) → Ascending (sorted xs)
sorted-Ascending [] = tt
sorted-Ascending (x ∷ xs) = insert-Ascending x (sorted xs) (sorted-Ascending xs)

Above-get : (a : ℕ) (xs : List ℕ) (j b : ℕ) → Above a xs → get_elem? xs j ≡ some b → a ≤ b
Above-get a [] j b k h = cc
Above-get a (x ∷ xs) zero b k h = ground arith
Above-get a (x ∷ xs) (suc j) b k h = Above-get a xs j b k.1 h

Ascending-get :
    (xs : List ℕ) (i j a b : ℕ)
    → Ascending xs
    → i ≤ j
    → get_elem? xs i ≡ some a
    → get_elem? xs j ≡ some b
    → a ≤ b
Ascending-get [] i j a b s l h k = cc
Ascending-get (x ∷ xs) zero zero a b s l h k = ground arith
Ascending-get (x ∷ xs) zero (suc j) a b s l h k = ground (arith, Above-get x xs j b s.0 k)
Ascending-get (x ∷ xs) (suc i) zero a b s l h k = absurd (omega arith)
Ascending-get (x ∷ xs) (suc i) (suc j) a b s l h k = Ascending-get xs i j a b s.1 (omega arith) h k

pub sorted_ascends :
    (xs : List ℕ) (i j a b : ℕ)
    → i ≤ j
    → get_elem? (sorted xs) i ≡ some a
    → get_elem? (sorted xs) j ≡ some b
    → a ≤ b
sorted_ascends xs i j a b = Ascending-get (sorted xs) i j a b (sorted-Ascending xs)

abbrev pub insertion_sort : IntSort
insertion_sort = record { ints = sorted; ascends = sorted_ascends; same_items = count-sorted }

abbrev pub entry : ℕ → ℕ → LogEntry ℕ
entry c t = record { content = some c; term_idx = t }

-- Peer 1 of three, in term 2, with entry 1 committed and applied.
abbrev pub lagging : Raft ℕ
lagging = record (fresh 3 1 make_persister) {
  current_term = 2;
  voted_for = some 2;
  log = record { content = none; term_idx = 0 } ∷ entry 7 1 ∷ entry 8 1 ∷ entry 9 2 ∷ [];
  commit_index = 1;
  last_applied = 1;
}
