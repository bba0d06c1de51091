-- ===== src/MapReduce/Sequential/MapPhase.antt =====
-- mit6.824/src/mapreduce/master.go, `Sequential`: what the map phase leaves for the reduce tasks.
use distribute_system_lab.Prelude.{
  ℕ, suc, ◌+◌, ◌%◌, ◌≡◌, ◌≢◌, ◌≤◌, ◌<◌, refl, sym, ap, ◌∙◌, inl, inr, Bool-cases, List, [], ◌∷◌,
  ◌++◌, Option, some, ◌>>=◌, >>=-eq-some, arith, length, ◌==◌,
}
use distribute_system_lab.Prelude.Text.{Str}
use distribute_system_lab.MapReduce.Names.{KeyValue, Itoa, reduce_name, reduce_name-injective}
use distribute_system_lab.MapReduce.Files.{
  Files, get_file, Os, Writable, Json, AllText, encode_all, decode_all-encode_all,
}
use distribute_system_lab.MapReduce.Map.{ihash, bucket}
use distribute_system_lab.MapReduce.MapLaws.{do_map_lem}
use distribute_system_lab.MapReduce.Reduce.{KeySort, collect}
use distribute_system_lab.MapReduce.Merge.{StrSort}
use distribute_system_lab.MapReduce.Master.{map_all}

-- The input files, with their contents.
unfoldable pub read_inputs : Files → List Str → Option (List (Str × Str))
read_inputs fs [] = some []
read_inputs fs (f ∷ files) = do
  content ← get_file fs f
  rest ← read_inputs fs files
  some ((f, content) ∷ rest)

-- All pairs that the map function gives.
unfoldable pub mapped : (Str → Str → List KeyValue) → List (Str × Str) → List KeyValue
mapped map_f [] = []
mapped map_f ((f, content) ∷ inputs) = map_f f content ++ mapped map_f inputs

abbrev pub Holds : (Str → Type 0) → List Str → Type 0
Holds P [] = Unit {0}
Holds P (f ∷ files) = P f × Holds P files

bucket-append :
    (sum32 : Str → ℕ) (n r : ℕ) (xs ys : List KeyValue)
    → bucket sum32 n r (xs ++ ys) ≡ bucket sum32 n r xs ++ bucket sum32 n r ys
unfolding bucket
bucket-append sum32 n r [] ys = refl
bucket-append sum32 n r (x ∷ xs) ys = elim (Bool-cases (ihash sum32 x.key % n == r)) [
  | inl e ↦ rw e (ap (◌∷◌ x) (bucket-append sum32 n r xs ys))
  | inr e ↦ rw e (bucket-append sum32 n r xs ys)
]

pub bucket-AllText :
    (j : Json) (sum32 : Str → ℕ) (n r : ℕ) (kvs : List KeyValue)
    → AllText j kvs
    → AllText j (bucket sum32 n r kvs)
unfolding bucket
bucket-AllText j sum32 n r [] a = refl
bucket-AllText j sum32 n r (kv ∷ kvs) a =
    ground (arith, a, bucket-AllText j sum32 n r kvs (ground (arith, a)))

append-AllText :
    (j : Json) (xs ys : List KeyValue) → AllText j xs → AllText j ys → AllText j (xs ++ ys)
append-AllText j [] ys a b = b
append-AllText j (x ∷ xs) ys a b = ground (arith, a, append-AllText j xs ys (ground (arith, a)) b)

pub mapped-AllText :
    (j : Json) (map_f : Str → Str → List KeyValue) (inputs : List (Str × Str))
    → ((f c : Str) → AllText j (map_f f c))
    → AllText j (mapped map_f inputs)
unfolding mapped
mapped-AllText j map_f [] a = refl
mapped-AllText j map_f ((f, c) ∷ inputs) a =
    append-AllText j (map_f f c) (mapped map_f inputs) (a f c) (mapped-AllText j map_f inputs a)

read_inputs-same :
    (fs fs' : Files) (files : List Str) (P : Str → Type 0)
    → ((name : Str) → P name → get_file fs' name ≡ get_file fs name)
    → Holds P files
    → read_inputs fs' files ≡ read_inputs fs files
unfolding read_inputs
read_inputs-same fs fs' [] P same h = refl
read_inputs-same fs fs' (f ∷ files) P same h =
    rw (same f h.0, read_inputs-same fs fs' files P same h.1) refl

module _ ⦃os : Os⦄ (i : Itoa) (j : Json) (s : KeySort) (ss : StrSort) (sum32 : Str → ℕ)
    (map_f : Str → Str → List KeyValue) (reduce_f : Str → List Str → Str) where
  -- No map task from `m` on has an intermediate file of this name.
  abbrev pub Untouched : Str → ℕ → Str → Type 0
  Untouched job m name = (m' r : ℕ) → m ≤ m' → reduce_name i job m' r ≢ name

  -- The map tasks from `m` on.
  pub record MapsDone (job : Str) (n m : ℕ) (files : List Str) (pairs : List KeyValue)
      (fs fs' : Files) : Type 0 where
    pub collected :
        (r : ℕ) → r < n → collect i j s fs' job r (length files) m ≡ some (bucket sum32 n r pairs)
    pub others : (name : Str) → Untouched job m name → get_file fs' name ≡ get_file fs name

  Untouched-Holds :
      (job : Str) (m : ℕ) (files : List Str)
      → Holds (Untouched job m) files
      → Holds (Untouched job (m + 1)) files
  Untouched-Holds job m [] h = tt
  Untouched-Holds job m (f ∷ files) h =
      ((λ m' r le. h.0 m' r (omega arith)), Untouched-Holds job m files h.1)

  collect-suc :
      (fs : Files) (job : Str) (r n m : ℕ) (xs rest : List KeyValue)
      → AllText j xs
      → get_file fs (reduce_name i job m r) ≡ some (encode_all j xs)
      → collect i j s fs job r n (m + 1) ≡ some rest
      → collect i j s fs job r (suc n) m ≡ some (xs ++ rest)
  unfolding collect
  collect-suc fs job r n m xs rest a e q =
      rw (e, ◌>>=◌) (rw (q, ◌>>=◌) (ap (λ l. some (l ++ rest)) (decode_all-encode_all j xs a)))

  collect_none : (fs : Files) (job : Str) (r m : ℕ) → collect i j s fs job r 0 m ≡ some []
  unfolding collect
  collect_none fs job r m = refl

  bucket-mapped_nil :
      (n r : ℕ) (inputs : List (Str × Str))
      → [] ≡ inputs
      → [] ≡ bucket sum32 n r (mapped map_f inputs)
  unfolding bucket mapped
  bucket-mapped_nil n r inputs e = ap (λ l. bucket sum32 n r (mapped map_f l)) e

  bucket-mapped_cons :
      (n r : ℕ) (f content : Str) (rest inputs : List (Str × Str))
      → (f, content) ∷ rest ≡ inputs
      → bucket sum32 n r (map_f f content) ++ bucket sum32 n r (mapped map_f rest)
        ≡ bucket sum32 n r (mapped map_f inputs)
  unfolding mapped
  bucket-mapped_cons n r f content rest inputs e =
      sym (bucket-append sum32 n r (map_f f content) (mapped map_f rest))
      ∙ ap (λ l. bucket sum32 n r (mapped map_f l)) e

  -- The output of task `m` is not touched by the tasks behind it.
  behind_Untouched : (job : Str) (m r : ℕ) → Untouched job (m + 1) (reduce_name i job m r)
  behind_Untouched job m r m' r' le e = omega (arith, (reduce_name-injective i job m' r' m r e).0)

  pub map_all-MapsDone :
      (job : Str) (n m : ℕ) (files : List Str) (fs : Files) (inputs : List (Str × Str))
      → 0 < n
      → ((m' r : ℕ) → r < n → Writable (reduce_name i job m' r))
      → ((f c : Str) → AllText j (map_f f c))
      → Holds (Untouched job m) files
      → read_inputs fs files ≡ some inputs
      → (fs' : Files) × (map_all i j s ss sum32 map_f reduce_f job n m files fs ≡ some fs')
        × MapsDone job n m files (mapped map_f inputs) fs fs'
  unfolding map_all read_inputs
  map_all-MapsDone job n m [] fs inputs pos w a h e = (
    fs,
    refl,
    record {
      collected =
          λ r lt. collect_none fs job r m ∙ ap some (bucket-mapped_nil n r inputs (ground arith));
      others = λ name u. refl;
    },
  )
  map_all-MapsDone job n m (f ∷ files) fs inputs pos w a h e =
      let (content, e1, h1) = >>=-eq-some (get_file fs f) _ e in
      let (rest, e2, h2) = >>=-eq-some (read_inputs fs files) _ h1 in
      let all : (f, content) ∷ rest ≡ inputs = ground (arith, h2) in
      let (fs1, q1, out, same) = do_map_lem i j sum32 job m f content n map_f fs pos (w m) e1 in
      let keeps : (name : Str) → Untouched job m name → get_file fs1 name ≡ get_file fs name =
        λ name u. same name (λ r. u m r (omega arith)) in
      let (fs', q, d) =
        map_all-MapsDone job n (m + 1) files fs1 rest pos w a (Untouched-Holds job m files h.1)
          (read_inputs-same fs fs1 files (Untouched job m) keeps h.1 ∙ e2) in
      (
        fs',
        rw (q1, ◌>>=◌) q,
        record {
          collected = λ r lt.
              collect-suc fs' job r (length files) m (bucket sum32 n r (map_f f content)) _
                (bucket-AllText j sum32 n r (map_f f content) (a f content))
                (d.others (reduce_name i job m r) (behind_Untouched job m r) ∙ out r lt)
                (d.collected r lt)
              ∙ ap some (bucket-mapped_cons n r f content rest inputs all);
          others = λ name u. d.others name (λ m' r le. u m' r (omega arith)) ∙ keeps name u;
        },
      )
