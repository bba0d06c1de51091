-- ===== src/MapReduce/Map.antt =====
-- mit6.824/src/mapreduce/common_map.go: a map task, which splits its output among the reduce tasks.
use distribute_system_lab.Prelude.{
  ℕ, zero, suc, ◌+◌, ◌%◌, List, [], ◌∷◌, ◌++◌, Option, none, some, ◌>>=◌, ◌==◌, if◌then◌else◌,
}
use distribute_system_lab.Prelude.Text.{Str}
use distribute_system_lab.MapReduce.Names.{KeyValue, Itoa, reduce_name}
use distribute_system_lab.MapReduce.Files.{Files, get_file, put_file, Os, create_file, Json}

-- `Encode` on the handle of an open file appends to it, or is an error.
unfoldable pub append_file : ⦃os : Os⦄ → Files → Str → Str → Option Files
append_file ⦃os⦄ fs name bytes =
    let added = (do old ← get_file fs name; some (put_file fs name (old ++ bytes))) in
    if os.can_write name then added else none

-- FNV-1a, `hash/fnv`, of which the code keeps the low 31 bits.
module _ (sum32 : Str → ℕ) where
  -- `ihash`.
  unfoldable pub ihash : Str → ℕ
  ihash s = sum32 s % 2147483648

  -- The pairs whose keys belong to reduce task `r`, in their order.
  unfoldable pub bucket : ℕ → ℕ → List KeyValue → List KeyValue
  bucket n r [] = []
  bucket n r (kv ∷ kvs) = if ihash kv.key % n == r then kv ∷ bucket n r kvs else bucket n r kvs

module _ ⦃os : Os⦄ (i : Itoa) (j : Json) (sum32 : Str → ℕ) where
  -- The loop that creates the output files of the tasks `r`, …, `r + n - 1`.
  unfoldable pub create_outputs : Str → ℕ → ℕ → ℕ → Files → Option Files
  unfolding create_file
  create_outputs job m zero r fs = some fs
  create_outputs job m (suc n) r fs = do
    fs' ← create_file fs (reduce_name i job m r)
    create_outputs job m n (r + 1) fs'

  -- The loop that writes each pair to the output file of its key. With no reduce task the code
  -- divides by zero.
  unfoldable pub write_pairs : Str → ℕ → ℕ → List KeyValue → Files → Option Files
  unfolding append_file
  write_pairs job m n [] fs = some fs
  write_pairs job m zero (kv ∷ kvs) fs = none
  write_pairs job m (suc n) (kv ∷ kvs) fs = do
    fs' ← append_file fs (reduce_name i job m (ihash sum32 kv.key % suc n)) (j.encode kv)
    write_pairs job m (suc n) kvs fs'

  -- `doMap`; `none` is a panic.
  unfoldable pub do_map : Str → ℕ → Str → ℕ → (Str → Str → List KeyValue) → Files → Option Files
  unfolding create_outputs write_pairs
  do_map job m in_file n_reduce map_f fs = do
    content ← get_file fs in_file
    fs' ← create_outputs job m n_reduce 0 fs
    write_pairs job m n_reduce (map_f in_file content) fs'
