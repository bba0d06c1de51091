-- ===== src/MapReduce/MergeLaws.antt =====
-- mit6.824/src/mapreduce/master_splitmerge.go: what the merged file says, and when there is none.
use distribute_system_lab.Prelude.{
  ℕ, zero, suc, ◌+◌, ◌≡◌, ◌≤◌, ◌<◌, refl, sym, ap, ◌∙◌, inl, inr, Bool, true, false, Bool-cases,
  List, [], ◌∷◌, ◌++◌, Option, none, some, ◌>>=◌, >>=-eq-some, Option-cases, arith, count,
  ℕ_discrete, if◌then◌else◌, ◌≢◌,
}
use distribute_system_lab.Prelude.Text.{Str, str_eq, str_eq_iff, str_eq_refl}
use distribute_system_lab.MapReduce.Names.{KeyValue, Itoa, merge_name}
use distribute_system_lab.MapReduce.Files.{
  Files, get_file, put_file, get_file-put_file, Os, Writable, create_file, write_file, Json,
  decode_all,
}
use distribute_system_lab.MapReduce.Reduce.{KeySort, collect, write_groups, do_reduce}
use distribute_system_lab.MapReduce.ReduceLaws.{has_key}
use distribute_system_lab.MapReduce.ReduceSpec.{empty_of_count}
use distribute_system_lab.MapReduce.Merge.{
  Ascends, StrSort, Table, put_pairs, keys, lines, result_name, read_outputs, merge,
}

abbrev pub or_else : Option Str → Option Str → Option Str
or_else (some v) o = some v
or_else none o = o

-- The value of the last pair with a key.
unfoldable pub last_value : Str → List KeyValue → Option Str
last_value k [] = none
last_value k (kv ∷ kvs) =
    or_else (last_value k kvs) (if str_eq kv.key k then some kv.value else none)

put_pairs-get :
    (t : Table) (kvs : List KeyValue) (k : Str)
    → get_file (put_pairs t kvs) k ≡ or_else (last_value k kvs) (get_file t k)
unfolding put_pairs last_value
put_pairs-get t [] k = refl
put_pairs-get t (kv ∷ kvs) k =
    put_pairs-get (put_file t kv.key kv.value) kvs k ∙ elim (Option-cases (last_value k kvs)) [
      | inl e ↦ rw e (
          get_file-put_file t kv.key kv.value k
          ∙ elim (Bool-cases (str_eq kv.key k)) [ inl b ↦ rw b refl | inr b ↦ rw b refl ])
      | inr (v, e) ↦ rw e refl
    ]

abbrev pub has : Option Str → Bool
has none = false
has (some v) = true

-- A table has one entry for each key.
abbrev Once : Table → Type 0
Once t = (k : Str) → count (λ s. str_eq s k) (keys t) ≡ (if has (get_file t k) then 1 else 0)

count-keys-put_file :
    (p : Str → Bool) (t : Table) (k v : Str)
    → count p (keys (put_file t k v))
      ≡ count p (keys t) + (if has (get_file t k) then 0 else if p k then 1 else 0)
unfolding keys put_file get_file
count-keys-put_file p [] k v = ground arith
count-keys-put_file p ((n, c) ∷ t) k v = ground (arith, count-keys-put_file p t k v)

put_file-Once : (t : Table) (k v : Str) → Once t → Once (put_file t k v)
put_file-Once t k v h other = elim (Bool-cases (str_eq k other)) [
  | inl b ↦
      let e = (str_eq_iff k other).0 b in
      let same = ap (λ s. has (get_file t s)) e in
      ground (
        arith,
        b,
        same,
        get_file-put_file t k v other,
        count-keys-put_file (λ s. str_eq s other) t k v,
        h other,
      )
  | inr b ↦ ground (
    arith,
    b,
    get_file-put_file t k v other,
    count-keys-put_file (λ s. str_eq s other) t k v,
    h other,
  )
]

put_pairs-Once : (t : Table) (kvs : List KeyValue) → Once t → Once (put_pairs t kvs)
unfolding put_pairs
put_pairs-Once t [] h = h
put_pairs-Once t (kv ∷ kvs) h =
    put_pairs-Once (put_file t kv.key kv.value) kvs (put_file-Once t _ _ h)

nil-Once : Once []
unfolding keys get_file
nil-Once k = refl

put_pairs-append :
    (t : Table) (xs ys : List KeyValue) → put_pairs t (xs ++ ys) ≡ put_pairs (put_pairs t xs) ys
unfolding put_pairs
put_pairs-append t [] ys = refl
put_pairs-append t (x ∷ xs) ys = put_pairs-append (put_file t x.key x.value) xs ys

get_file-nil : (k : Str) → get_file [] k ≡ none
unfolding get_file
get_file-nil k = refl

or_else-none : (o : Option Str) → or_else o none ≡ o
or_else-none none = refl
or_else-none (some v) = refl

pub last_value-has_key : (k : Str) (kvs : List KeyValue) → has (last_value k kvs) ≡ has_key k kvs
unfolding last_value has_key
last_value-has_key k [] = refl
last_value-has_key k (kv ∷ kvs) = elim (Option-cases (last_value k kvs)) [
  | inl e ↦ ground (arith, e, last_value-has_key k kvs)
  | inr (v, e) ↦ ground (arith, e, last_value-has_key k kvs)
]

-- The text of a result file: for each key a line with the key, a colon, a blank and its value.
pub data Report (says : Str → Option Str) : List Str → Str → Type 0 where
  no_key : Report says [] []
  line :
      {ks : List Str} {rest : Str} (k v : Str)
      → says k ≡ some v
      → Report says ks rest
      → Report says (k ∷ ks) (k ++ b':' ∷ b' ' ∷ (v ++ 10 ∷ rest))

abbrev occurs : Str → List Str → ℕ
occurs k ks = count (λ (x : Str). str_eq x k) ks

lines-Report :
    (t : Table) (says : Str → Option Str) (ks : List Str)
    → ((k : Str) → get_file t k ≡ says k)
    → ((k : Str) → 0 < occurs k ks → has (says k) ≡ true)
    → Report says ks (lines t ks)
unfolding lines
lines-Report t says [] same there = no_key
lines-Report t says (k ∷ ks) same there =
    let rest = lines-Report t says ks same (λ x h. there x (ground (arith, h))) in
    elim (Option-cases (says k)) [
      | inl e ↦ absurd (ground (arith, e, there k (ground (arith, str_eq_refl k))))
      | inr (v, e) ↦ rw (same k ∙ e) (line k v e rest)
    ]

module _ ⦃os : Os⦄ (i : Itoa) (j : Json) where
  -- All pairs that the reduce tasks `r`, …, `r + n - 1` have written.
  unfoldable pub read_pairs : Files → Str → ℕ → ℕ → Option (List KeyValue)
  read_pairs fs job zero r = some []
  read_pairs fs job (suc n) r = do
    bytes ← get_file fs (merge_name i job r)
    rest ← read_pairs fs job n (r + 1)
    some (decode_all j bytes ++ rest)

  read_outputs-put_pairs :
      (fs : Files) (job : Str) (n r : ℕ) (t : Table) (kvs : List KeyValue)
      → read_pairs fs job n r ≡ some kvs
      → read_outputs i j fs job n r t ≡ some (put_pairs t kvs)
  unfolding read_pairs read_outputs put_pairs
  read_outputs-put_pairs fs job zero r t kvs h = ground arith
  read_outputs-put_pairs fs job (suc n) r t kvs h =
      let (bytes, e, h') = >>=-eq-some (get_file fs (merge_name i job r)) _ h in
      let (rest, e', h'') = >>=-eq-some (read_pairs fs job n (r + 1)) _ h' in
      let all : decode_all j bytes ++ rest ≡ kvs = ground (arith, h'') in
      rw (e, ◌>>=◌)
        (read_outputs-put_pairs fs job n (r + 1) (put_pairs t (decode_all j bytes)) rest e'
          ∙ ap some (sym (put_pairs-append t (decode_all j bytes) rest) ∙ ap (put_pairs t) all))

  read_outputs-missing :
      (fs : Files) (job : Str) (n r0 r : ℕ) (t : Table)
      → r0 ≤ r
      → r < r0 + n
      → get_file fs (merge_name i job r) ≡ none
      → read_outputs i j fs job n r0 t ≡ none
  unfolding read_outputs
  read_outputs-missing fs job zero r0 r t h k e = absurd (omega arith)
  read_outputs-missing fs job (suc n) r0 r t h k e = elim (ℕ_discrete r0 r) [
    | yes q ↦ rw (ap (λ x. get_file fs (merge_name i job x)) q ∙ e) refl
    | no x ↦ elim (Option-cases (get_file fs (merge_name i job r0))) [
      | inl q ↦ rw q refl
      | inr (bytes, q) ↦
          rw (q, ◌>>=◌)
            (read_outputs-missing fs job n (r0 + 1) r (put_pairs t (decode_all j bytes))
              (omega arith) (omega arith) e)
    ]
  ]

  -- With the outputs of all reduce tasks there and a result file that can be created and written to,
  -- `merge` succeeds. The result file has a line for each key: the keys ascend, a key has a line if
  -- it occurs in an output and then just one, and its value is the last one that the outputs give
  -- it. No other file changes.
  pub merge_lem :
      (s : StrSort) (job : Str) (n : ℕ) (fs : Files) (kvs : List KeyValue)
      → Writable (result_name job)
      → read_pairs fs job n 0 ≡ some kvs
      → (fs' : Files) × (ks : List Str) × (content : Str) × (merge i j s job n fs ≡ some fs')
        × (get_file fs' (result_name job) ≡ some content)
        × Report (λ k. last_value k kvs) ks content
        × Ascends ks
        × ((k : Str) → count (λ (x : Str). str_eq x k) ks ≡ (if has_key k kvs then 1 else 0))
        × ((other : Str) → result_name job ≢ other → get_file fs' other ≡ get_file fs other)
  unfolding merge create_file write_file
  merge_lem s job n fs kvs (c, w) h =
      let t = put_pairs [] kvs in
      let ks = s.strings (keys t) in
      let content = lines t ks in
      let made = put_file fs (result_name job) [] in
      let value : (k : Str) → get_file t k ≡ last_value k kvs =
        λ k. put_pairs-get [] kvs k ∙ rw (get_file-nil k) (or_else-none (last_value k kvs)) in
      let once : (k : Str) → occurs k ks ≡ (if has_key k kvs then 1 else 0) = λ k.
        s.same_items (λ x. str_eq x k) (keys t)
        ∙ put_pairs-Once [] kvs nil-Once k
        ∙ ap (λ (b : Bool). if b then 1 else 0) (ap has (value k) ∙ last_value-has_key k kvs) in
      (
        put_file made (result_name job) content,
        ks,
        content,
        rw (read_outputs-put_pairs fs job n 0 [] kvs h, ◌>>=◌) (rw (c, w, ◌>>=◌) refl),
        ground (
          arith,
          get_file-put_file made (result_name job) content (result_name job),
          str_eq_refl (result_name job),
        ),
        lines-Report t (λ k. last_value k kvs) ks value
            (λ k l. ground (arith, l, once k, last_value-has_key k kvs)),
        s.ascends (keys t),
        once,
        λ other n. ground (
          arith,
          get_file-put_file made (result_name job) content other,
          get_file-put_file fs (result_name job) [] other,
          str_eq_iff (result_name job) other,
          n,
        ),
      )

  -- A reduce task that finds no pair returns and changes no file, so that no output file of it is
  -- there if none was; then the merge that follows is fatal, whatever the other tasks have written.
  pub empty_reduce_stops_merge :
      (ks : KeySort) (s : StrSort) (job : Str) (r n n_map : ℕ) (f : Str → List Str → Str)
      (fs : Files)
      → r < n
      → collect i j ks fs job r n_map 0 ≡ some []
      → get_file fs (merge_name i job r) ≡ none
      → (do_reduce i j ks job r (merge_name i job r) n_map f fs ≡ some fs)
        × (merge i j s job n fs ≡ none)
  unfolding do_reduce write_groups merge
  empty_reduce_stops_merge ks s job r n n_map f fs h e m = (
    rw e (rw (empty_of_count (ks.by_key []) (ks.same_items (λ x. true) [])) refl),
    rw (read_outputs-missing fs job n 0 r [] (omega arith) (omega arith) m) refl,
  )
