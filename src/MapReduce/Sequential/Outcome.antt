-- ===== src/MapReduce/Sequential/Outcome.antt =====
-- mit6.824/src/mapreduce/master.go, `Sequential`: the merged file of a job says what the job means.
use distribute_system_lab.Prelude.{
  ℕ, zero, suc, ◌+◌, ◌%◌, ◌≡◌, ◌≢◌, ◌≤◌, ◌<◌, refl, sym, ap, ◌∙◌, Bool, true, List, [], ◌∷◌, ◌++◌,
  Option, none, some, ◌>>=◌, arith, length, count, ℕ_discrete, ltb, leb, ◌&&◌, ◌==◌, if◌then◌else◌,
}
use distribute_system_lab.Prelude.Text.{Str, str_eq, str_eq_iff}
use distribute_system_lab.MapReduce.Names.{KeyValue, Itoa, reduce_name, merge_name}
use distribute_system_lab.MapReduce.Files.{Files, get_file, Os, Writable, Json, AllText, decode_all}
use distribute_system_lab.MapReduce.Map.{ihash, bucket}
use distribute_system_lab.MapReduce.Reduce.{KeySort}
use distribute_system_lab.MapReduce.ReduceLaws.{values_of, has_key}
use distribute_system_lab.MapReduce.ReduceSpec.{has_key-by_key, values_of-by_key}
use distribute_system_lab.MapReduce.Merge.{Ascends, StrSort, result_name, merge}
use distribute_system_lab.MapReduce.MergeLaws.{
  last_value, or_else, has, last_value-has_key, read_pairs, Report, merge_lem,
}
use distribute_system_lab.MapReduce.Master.{
  Master, new_master, sequential_phase, run_job, sequential,
}
use distribute_system_lab.MapReduce.Sequential.MapPhase.{
  read_inputs, mapped, Holds, Untouched, bucket-AllText, mapped-AllText, map_all-MapsDone,
}
use distribute_system_lab.MapReduce.Sequential.ReducePhase.{reduced, Output, reduce_all-ReducesDone}

or_else-none : (o : Option Str) → or_else o none ≡ o
or_else-none none = refl
or_else-none (some v) = refl

or_else_assoc : (a b c : Option Str) → or_else (or_else a b) c ≡ or_else a (or_else b c)
or_else_assoc none b c = refl
or_else_assoc (some v) b c = refl

last_value-append :
    (k : Str) (xs ys : List KeyValue)
    → last_value k (xs ++ ys) ≡ or_else (last_value k ys) (last_value k xs)
unfolding last_value
last_value-append k [] ys = sym (or_else-none (last_value k ys))
last_value-append k (x ∷ xs) ys =
    ap (λ o. or_else o (if str_eq x.key k then some x.value else none)) (last_value-append k xs ys)
    ∙ or_else_assoc (last_value k ys) (last_value k xs) _

-- The pairs of a key all go to one reduce task.
module _ (sum32 : Str → ℕ) (n : ℕ) (k : Str) where
  has_key-bucket :
      (r : ℕ) (kvs : List KeyValue)
      → has_key k (bucket sum32 n r kvs) ≡ (ihash sum32 k % n == r) && has_key k kvs
  unfolding has_key bucket
  has_key-bucket r [] = ground arith
  has_key-bucket r (kv ∷ kvs) = ground (
    arith,
    str_eq_iff kv.key k,
    ap (λ c. ihash sum32 c % n) {x = kv.key} {y = k},
    has_key-bucket r kvs,
  )

  values_of-bucket :
      (kvs : List KeyValue) → values_of k (bucket sum32 n (ihash sum32 k % n) kvs) ≡ values_of k kvs
  unfolding values_of bucket
  values_of-bucket [] = refl
  values_of-bucket (kv ∷ kvs) = ground (
    arith,
    str_eq_iff kv.key k,
    ap (λ c. ihash sum32 c % n) {x = kv.key} {y = k},
    values_of-bucket kvs,
  )

module _ ⦃os : Os⦄ (i : Itoa) (j : Json) (s : KeySort) (ss : StrSort) (sum32 : Str → ℕ)
    (map_f : Str → Str → List KeyValue) (reduce_f : Str → List Str → Str) where
  -- What reduce task `r` of `n` says of a key.
  abbrev said : ℕ → List KeyValue → ℕ → Str → Option Str
  said n pairs r k = reduced i j s reduce_f (bucket sum32 n r pairs) k

  said-elsewhere :
      (n : ℕ) (pairs : List KeyValue) (r : ℕ) (k : Str)
      → ihash sum32 k % n ≢ r
      → said n pairs r k ≡ none
  unfolding reduced
  said-elsewhere n pairs r k h =
      ground (arith, has_key-by_key s k (bucket sum32 n r pairs), has_key-bucket sum32 n k r pairs)

  said-step :
      (n m r : ℕ) (pairs : List KeyValue) (k : Str) (a b : Option Str)
      → a ≡ said n pairs r k
      → b ≡ (
          if leb (r + 1) (ihash sum32 k % n) && ltb (ihash sum32 k % n) (r + 1 + m)
          then said n pairs (ihash sum32 k % n) k
          else none)
      → or_else b a ≡ (
          if leb r (ihash sum32 k % n) && ltb (ihash sum32 k % n) (r + suc m)
          then said n pairs (ihash sum32 k % n) k
          else none)
  said-step n m r pairs k a b ea eb = elim (ℕ_discrete (ihash sum32 k % n) r) [
    | yes x ↦
        let here : said n pairs r k ≡ said n pairs (ihash sum32 k % n) k =
          ap (λ q. said n pairs q k) (sym x) in
        let nothing : b ≡ none = ground (arith, eb, x) in rw nothing (ea ∙ here ∙ ground (arith, x))
    | no x ↦
        let nothing : a ≡ none = ea ∙ said-elsewhere n pairs r k x in
        rw nothing (or_else-none b ∙ eb ∙ ground (arith, x))
  ]

  -- The pairs of the outputs of the tasks `r`, …, `r + m - 1`.
  read_pairs-said :
      (fs : Files) (job : Str) (n m r : ℕ) (pairs : List KeyValue)
      → ((q : ℕ)
          → r ≤ q
          → q < r + m
          → Output i j s reduce_f (bucket sum32 n q pairs) fs (merge_name i job q))
      → (kvs : List KeyValue) × (read_pairs i j fs job m r ≡ some kvs)
        × ((k : Str)
            → last_value k kvs ≡ (
                if leb r (ihash sum32 k % n) && ltb (ihash sum32 k % n) (r + m)
                then said n pairs (ihash sum32 k % n) k
                else none))
  unfolding read_pairs last_value
  read_pairs-said fs job n zero r pairs h = ([], refl, λ k. ground arith)
  read_pairs-said fs job n (suc m) r pairs h =
      let o = h r (omega arith) (omega arith) in
      let (kvs, e, v) =
        read_pairs-said fs job n m (r + 1) pairs (λ q le lt. h q (omega arith) (omega arith)) in
      (
        decode_all j o.bytes ++ kvs,
        rw (o.there, ◌>>=◌) (rw (e, ◌>>=◌) refl),
        λ k.
            last_value-append k (decode_all j o.bytes) kvs
            ∙ said-step n m r pairs k _ _ (o.right k) (v k),
      )

  -- What a job is for: the file with its results has one line for each key among the pairs that
  -- the map function gives, by ascending keys, with the reduce function at the key and its values.
  pub record JobDone (job : Str) (pairs : List KeyValue) (fs : Files) : Type 0 where
    pub says : Str → Option Str
    pub keys : List Str
    pub content : Str
    pub file : get_file fs (result_name job) ≡ some content
    pub report : Report says keys content
    pub ascends : Ascends keys
    pub once : (k : Str) → count (λ x. str_eq x k) keys ≡ (if has_key k pairs then 1 else 0)
    pub value :
        (k : Str)
        → has_key k pairs ≡ true
        → (vs : List Str) × (says k ≡ some (reduce_f k vs))
          × ((p : Str → Bool) → count p vs ≡ count p (values_of k pairs))

  said-own :
      (n : ℕ) (pairs : List KeyValue) (k : Str)
      → has (said n pairs (ihash sum32 k % n) k) ≡ has_key k pairs
  unfolding reduced
  said-own n pairs k = ground (
    arith,
    has_key-by_key s k (bucket sum32 n (ihash sum32 k % n) pairs),
    has_key-bucket sum32 n k (ihash sum32 k % n) pairs,
  )

  said-value :
      (n : ℕ) (pairs : List KeyValue) (k : Str)
      → has_key k pairs ≡ true
      → (vs : List Str) × (said n pairs (ihash sum32 k % n) k ≡ some (reduce_f k vs))
        × ((p : Str → Bool) → count p vs ≡ count p (values_of k pairs))
  unfolding reduced
  said-value n pairs k h =
      let own = bucket sum32 n (ihash sum32 k % n) pairs in
      (
        values_of k (s.by_key own),
        ground (arith, has_key-by_key s k own, has_key-bucket sum32 n k (ihash sum32 k % n) pairs),
        λ p. values_of-by_key s p k own ∙ ap (count p) (values_of-bucket sum32 n k pairs),
      )

  merged-JobDone :
      (job : Str) (n : ℕ) (pairs : List KeyValue) (fs : Files)
      → 0 < n
      → Writable (result_name job)
      → ((q : ℕ) → q < n → Output i j s reduce_f (bucket sum32 n q pairs) fs (merge_name i job q))
      → (fs' : Files) × (merge i j ss job n fs ≡ some fs') × JobDone job pairs fs'
  merged-JobDone job n pairs fs pos w h =
      let (kvs, e, v) = read_pairs-said fs job n n 0 pairs (λ q le lt. h q (omega arith)) in
      let same : (k : Str) → last_value k kvs ≡ said n pairs (ihash sum32 k % n) k =
        λ k. v k ∙ ground (arith) in
      let (fs', ks, content, q, file, report, up, one, others) =
        merge_lem i j ss job n fs kvs w e in
      (
        fs',
        q,
        record {
          says = λ k. last_value k kvs;
          keys = ks;
          content = content;
          file = file;
          report = report;
          ascends = up;
          once = λ k.
              one k
              ∙ ap (λ (b : Bool). if b then 1 else 0)
                  (sym (last_value-has_key k kvs) ∙ ap has (same k) ∙ said-own n pairs k);
          value = λ k p. let (vs, x, y) = said-value n pairs k p in (vs, same k ∙ x, y);
        },
      )

  -- `Sequential` does what a job is for, through its intermediate files and the merge of its
  -- reduce tasks: with a reduce task at least, files of the job that can be created and written to,
  -- a map and a reduce function whose strings are valid UTF-8, input files that are there and none
  -- of which has the name of an intermediate file of the job, and a pair at least for each reduce
  -- task, the job ends without a panic, and its result file has one line, `key: value`, for each key
  -- among the pairs that the map function gives and no other, by ascending keys, with the reduce
  -- function at the key and all its values.
  pub sequential_lem :
      (job : Str) (files : List Str) (n : ℕ) (fs : Files) (inputs : List (Str × Str))
      → 0 < n
      → Writable (result_name job)
      → ((m r : ℕ) → r < n → Writable (reduce_name i job m r))
      → ((r : ℕ) → r < n → Writable (merge_name i job r))
      → ((f c : Str) → AllText j (map_f f c))
      → ((k : Str) (vs : List Str) → j.is_utf8 (reduce_f k vs) ≡ true)
      → Holds (Untouched i j s ss sum32 map_f reduce_f job 0) files
      → read_inputs fs files ≡ some inputs
      → ((r : ℕ) → r < n → bucket sum32 n r (mapped map_f inputs) ≢ [])
      → (mr : Master) × (fs' : Files) × (sequential i j s ss sum32 map_f reduce_f job files n fs
          ≡ some (mr, fs'))
        × JobDone job (mapped map_f inputs) fs'
  unfolding sequential run_job sequential_phase new_master
  sequential_lem job files n fs inputs pos wr wi wo a u h e found =
      let pairs = mapped map_f inputs in
      let (fs1, q1, m) =
        map_all-MapsDone i j s ss sum32 map_f reduce_f job n 0 files fs inputs pos wi a h e in
      let (fs2, q2, r) =
        reduce_all-ReducesDone i j s ss sum32 map_f reduce_f job (length files) n 0
          (λ q. bucket sum32 n q pairs) fs1 (λ q lt. wo q (omega (arith, lt))) u
          (λ q. bucket-AllText j sum32 n q pairs (mapped-AllText j map_f inputs a))
          (λ q le lt. (m.collected q (omega arith), found q (omega arith))) in
      let (fs3, q3, d) =
        merged-JobDone job n pairs fs2 pos wr (λ q lt. r.outputs q (omega arith) (omega arith)) in
      let mr : Master = record {
        address = b'm' ∷ b'a' ∷ b's' ∷ b't' ∷ b'e' ∷ b'r' ∷ [];
        workers = [];
        job_name = job;
        files = files;
        n_reduce = n;
        stats = (length files + n) ∷ [];
      } in
      (mr, fs3, rw (q1, ◌>>=◌) (rw (q2, ◌>>=◌) (rw (q3, ◌>>=◌) refl)), d)
