-- ===== src/MapReduce/ReduceLaws.antt =====
-- mit6.824/src/mapreduce/common_reduce.go: one call of the reduce function for each key.
use mathlib.Core.List.{append_assoc, append-nil}
use distribute_system_lab.Prelude.{
  ◌≡◌, refl, sym, ap, ◌∙◌, inl, inr, Bool, true, false, Bool-cases, List, [], ◌∷◌, ◌++◌, Option,
  none, some, arith, if◌then◌else◌,
}
use distribute_system_lab.Prelude.Text.{Str, str_eq, str_eq_iff, StrLe, StrLe-refl, StrLe-antisymm}
use distribute_system_lab.MapReduce.Names.{KeyValue}
use distribute_system_lab.MapReduce.Reduce.{From, ByKey, group_loop}

-- The values of a key, in their order.
unfoldable pub values_of : Str → List KeyValue → List Str
values_of k [] = []
values_of k (kv ∷ kvs) = if str_eq kv.key k then kv.value ∷ values_of k kvs else values_of k kvs

unfoldable pub has_key : Str → List KeyValue → Bool
has_key k [] = false
has_key k (kv ∷ kvs) = if str_eq kv.key k then true else has_key k kvs

unfoldable pub find_key : Str → List KeyValue → Option Str
find_key k [] = none
find_key k (kv ∷ kvs) = if str_eq kv.key k then some kv.value else find_key k kvs

-- A key before all others is not among them.
pub From-absent :
    (k k1 : Str) (kvs : List KeyValue)
    → StrLe k k1
    → str_eq k k1 ≡ false
    → From k1 kvs
    → (has_key k kvs ≡ false) × (values_of k kvs ≡ [])
unfolding has_key values_of
From-absent k k1 [] h d f = (refl, refl)
From-absent k k1 (kv ∷ kvs) h d f =
    let (a, b) = From-absent k k1 kvs h d f.1 in
    let apart : str_eq kv.key k ≡ false =
      ground (arith, str_eq_iff kv.key k, str_eq_iff k k1, StrLe-antisymm k k1 h, f.0) in
    (ground (arith, apart, a), ground (arith, apart, b))

pub group_loop_lem :
    (f : Str → List Str → Str) (cur : Str) (vals : List Str) (kvs : List KeyValue) (k : Str)
    → From cur kvs
    → ByKey kvs
    → find_key k (group_loop f cur vals kvs) ≡ (
        if str_eq cur k
        then some (f k (vals ++ values_of k kvs))
        else if has_key k kvs
        then some (f k (values_of k kvs))
        else none)
unfolding group_loop values_of has_key find_key
group_loop_lem f cur vals [] k a b = ground (arith, str_eq_iff cur k, append-nil vals)
group_loop_lem f cur vals (kv ∷ kvs) k a b = elim (Bool-cases (str_eq cur kv.key)) [
  | inl same ↦
      let e = (str_eq_iff cur kv.key).0 same in
      rw (same, group_loop)
        (group_loop_lem f cur (vals ++ kv.value ∷ []) kvs k a.1 b.1
          ∙ ground
              (arith, ap (λ c. str_eq c k) e, append_assoc vals (kv.value ∷ []) (values_of k kvs)))
  | inr new ↦
      let (none_left, no_values) = From-absent cur kv.key kvs a.0 new b.0 in
      rw (new, group_loop)
        (elim (Bool-cases (str_eq cur k)) [
          | inl hit ↦
              let e = (str_eq_iff cur k).0 hit in
              let gone : values_of k kvs ≡ [] = ap (λ c. values_of c kvs) (sym e) ∙ no_values in
              ground
                (arith, hit, e, gone, append-nil vals, str_eq_iff kv.key k, str_eq_iff cur kv.key)
          | inr miss ↦ ground (arith, miss, group_loop_lem f kv.key (kv.value ∷ []) kvs k b.0 b.1)
        ])
]

-- The loop as `doReduce` starts it, over sorted pairs: the output has a pair for every key that
-- occurs, and for no other; its value is the reduce function's at the key and all its values.
pub group_sorted :
    (f : Str → List Str → Str) (kv : KeyValue) (kvs : List KeyValue) (k : Str)
    → ByKey (kv ∷ kvs)
    → find_key k (group_loop f kv.key [] (kv ∷ kvs))
      ≡ (if has_key k (kv ∷ kvs) then some (f k (values_of k (kv ∷ kvs))) else none)
unfolding has_key
group_sorted f kv kvs k b =
    group_loop_lem f kv.key [] (kv ∷ kvs) k (StrLe-refl kv.key, b.0) b ∙ ground arith
