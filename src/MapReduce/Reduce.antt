-- ===== src/MapReduce/Reduce.antt =====
-- mit6.824/src/mapreduce/common_reduce.go: a reduce task.
use distribute_system_lab.Prelude.{
  ℕ, zero, suc, ◌+◌, ◌≡◌, Bool, true, false, List, [], ◌∷◌, ◌++◌, Option, some, ◌>>=◌, count,
}
use distribute_system_lab.Prelude.Text.{Str, str_eq, StrLe}
use distribute_system_lab.MapReduce.Names.{KeyValue, Itoa, reduce_name}
use distribute_system_lab.MapReduce.Files.{
  Files, get_file, Os, create_file, write_file, Json, encode_all, decode_all,
}

-- No pair of the list has a key before `k`.
abbrev pub From : Str → List KeyValue → Type 0
From k [] = Unit {0}
From k (kv ∷ kvs) = StrLe k kv.key × From k kvs

-- The keys ascend.
abbrev pub ByKey : List KeyValue → Type 0
ByKey [] = Unit {0}
ByKey (kv ∷ kvs) = From kv.key kvs × ByKey kvs

-- `sort.Slice` by `kvs[i].Key < kvs[j].Key`: the same pairs, by ascending keys. Pairs of equal
-- keys may come in any order.
pub record KeySort : Type 0 where
  pub by_key : List KeyValue → List KeyValue
  pub ascends : (kvs : List KeyValue) → ByKey (by_key kvs)
  pub same_items : (p : KeyValue → Bool) (kvs : List KeyValue) → count p (by_key kvs) ≡ count p kvs

-- The grouping loop and the call of `Encode` behind it: the pairs that are written.
unfoldable pub group_loop : (Str → List Str → Str) → Str → List Str → List KeyValue → List KeyValue
group_loop reduce_f cur values [] = record { key = cur; value = reduce_f cur values } ∷ []
group_loop reduce_f cur values (kv ∷ kvs) = elim (str_eq cur kv.key) [
  | true ↦ group_loop reduce_f cur (values ++ kv.value ∷ []) kvs
  | false ↦
      record { key = cur; value = reduce_f cur values }
      ∷ group_loop reduce_f kv.key (kv.value ∷ []) kvs
]

module _ ⦃os : Os⦄ (i : Itoa) (j : Json) (s : KeySort) where
  -- The loop that reads what the map tasks `m`, …, `m + n - 1` left for this task.
  unfoldable pub collect : Files → Str → ℕ → ℕ → ℕ → Option (List KeyValue)
  collect fs job r zero m = some []
  collect fs job r (suc n) m = do
    bytes ← get_file fs (reduce_name i job m r)
    rest ← collect fs job r n (m + 1)
    some (decode_all j bytes ++ rest)

  -- What is done with the sorted pairs. With no pair at all no file is created; errors of `Encode`
  -- are ignored.
  unfoldable pub write_groups : (Str → List Str → Str) → Str → List KeyValue → Files → Option Files
  unfolding create_file write_file
  write_groups reduce_f out_file [] fs = some fs
  write_groups reduce_f out_file (kv ∷ kvs) fs = do
    fs' ← create_file fs out_file
    some (write_file fs' out_file (encode_all j (group_loop reduce_f kv.key [] (kv ∷ kvs))))

  -- `doReduce`; `none` is a panic.
  unfoldable pub do_reduce : Str → ℕ → Str → ℕ → (Str → List Str → Str) → Files → Option Files
  do_reduce job r out_file n_map reduce_f fs = do
    kvs ← collect fs job r n_map 0
    write_groups reduce_f out_file (s.by_key kvs) fs
