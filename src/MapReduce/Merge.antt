-- ===== src/MapReduce/Merge.antt =====
-- mit6.824/src/mapreduce/master_splitmerge.go: the outputs of the reduce tasks in one file.
use distribute_system_lab.Prelude.{
  ℕ, zero, suc, ◌+◌, ◌≡◌, Bool, List, [], ◌∷◌, ◌++◌, Option, none, some, ◌>>=◌, count,
}
use distribute_system_lab.Prelude.Text.{Str, StrLe}
use distribute_system_lab.MapReduce.Names.{KeyValue, Itoa, reduce_name, merge_name, prefix}
use distribute_system_lab.MapReduce.Files.{
  Files, get_file, put_file, remove_file, Os, create_file, write_file, Json, decode_all,
}

abbrev pub Below : Str → List Str → Type 0
Below k [] = Unit {0}
Below k (s ∷ ss) = StrLe k s × Below k ss

abbrev pub Ascends : List Str → Type 0
Ascends [] = Unit {0}
Ascends (s ∷ ss) = Below s ss × Ascends ss

-- `sort.Strings` of the Go library.
pub record StrSort : Type 0 where
  pub strings : List Str → List Str
  pub ascends : (ss : List Str) → Ascends (strings ss)
  pub same_items : (p : Str → Bool) (ss : List Str) → count p (strings ss) ≡ count p ss

-- The map `kvs`, kept as the files are: one entry for each key.
abbrev pub Table : Type 0
Table = List (Str × Str)

-- `for { …; kvs[kv.Key] = kv.Value }`.
unfoldable pub put_pairs : Table → List KeyValue → Table
put_pairs t [] = t
put_pairs t (kv ∷ kvs) = put_pairs (put_file t kv.key kv.value) kvs

-- `for k := range kvs`: the keys, in an order that the sort forgets.
unfoldable pub keys : Table → List Str
keys [] = []
keys ((k, v) ∷ t) = k ∷ keys t

-- `kvs[k]`: "" for a key that is missing.
abbrev pub value_or_empty : Option Str → Str
value_or_empty none = []
value_or_empty (some v) = v

-- `fmt.Fprintf(w, "%s: %s\n", k, kvs[k])`, for each key.
unfoldable pub lines : Table → List Str → Str
lines t [] = []
lines t (k ∷ ks) = k ++ (b':' ∷ b' ' ∷ value_or_empty (get_file t k) ++ (10 ∷ lines t ks))

abbrev pub result_name : Str → Str
result_name job = prefix ++ job

module _ ⦃os : Os⦄ (i : Itoa) (j : Json) where
  -- The loop over the reduce tasks `r`, …, `r + n - 1`; a file that is missing is fatal.
  unfoldable pub read_outputs : Files → Str → ℕ → ℕ → Table → Option Table
  read_outputs fs job zero r t = some t
  read_outputs fs job (suc n) r t = do
    bytes ← get_file fs (merge_name i job r)
    read_outputs fs job n (r + 1) (put_pairs t (decode_all j bytes))

  -- `merge`; a file that cannot be created is fatal, and errors of the writes are ignored.
  unfoldable pub merge : StrSort → Str → ℕ → Files → Option Files
  unfolding read_outputs lines create_file write_file
  merge s job n fs = do
    t ← read_outputs fs job n 0 []
    fs' ← create_file fs (result_name job)
    some (write_file fs' (result_name job) (lines t (s.strings (keys t))))

  -- The inner loop of `CleanupFiles`, over the reduce tasks `r`, …, `r + n - 1` of a map task.
  unfoldable pub clean_map : Str → ℕ → ℕ → ℕ → Files → Option Files
  clean_map job m zero r fs = some fs
  clean_map job m (suc n) r fs = do
    fs' ← remove_file fs (reduce_name i job m r)
    clean_map job m n (r + 1) fs'

  unfoldable pub clean_maps : Str → ℕ → ℕ → ℕ → Files → Option Files
  unfolding clean_map
  clean_maps job zero m n fs = some fs
  clean_maps job (suc k) m n fs = do fs' ← clean_map job m n 0 fs; clean_maps job k (m + 1) n fs'

  unfoldable pub clean_outputs : Str → ℕ → ℕ → Files → Option Files
  clean_outputs job zero r fs = some fs
  clean_outputs job (suc n) r fs = do
    fs' ← remove_file fs (merge_name i job r)
    clean_outputs job n (r + 1) fs'

  -- `CleanupFiles`, of a job with `n_map` input files; a file that is missing is fatal.
  unfoldable pub cleanup_files : Str → ℕ → ℕ → Files → Option Files
  unfolding clean_maps clean_outputs
  cleanup_files job n_map n fs = do
    fs' ← clean_maps job n_map 0 n fs
    fs'' ← clean_outputs job n 0 fs'
    remove_file fs'' (result_name job)
