-- ===== src/MapReduce/ReduceSpec.antt =====
-- mit6.824/src/mapreduce/common_reduce.go: the file that a reduce task writes.
use distribute_system_lab.Prelude.{
  ℕ, ◌≡◌, ◌≢◌, refl, sym, ap, ◌∙◌, Bool, true, false, Bool-cases, ◌&&◌, ◌⊎◌, inl, inr, ◌++◌, ◌>>=◌,
  List, [], ◌∷◌, none, some, arith, count, ltb,
}
use distribute_system_lab.Prelude.Text.{Str, str_eq, str_eq_refl, str_eq_iff}
use distribute_system_lab.MapReduce.Names.{KeyValue, Itoa}
use distribute_system_lab.MapReduce.Files.{
  Files, get_file, put_file, get_file-put_file, Os, Writable, create_file, write_file, AllText,
  Json, encode_all, decode_all, decode_all-encode_all,
}
use distribute_system_lab.MapReduce.Reduce.{KeySort, group_loop, collect, write_groups, do_reduce}
use distribute_system_lab.MapReduce.ReduceLaws.{values_of, has_key, find_key}

has_key-count :
    (k : Str) (kvs : List KeyValue)
    → has_key k kvs ≡ ltb 0 (count (λ (kv : KeyValue). str_eq kv.key k) kvs)
unfolding has_key
has_key-count k [] = refl
has_key-count k (kv ∷ kvs) = ground (arith, has_key-count k kvs)

count-values_of :
    (p : Str → Bool) (k : Str) (kvs : List KeyValue)
    → count p (values_of k kvs) ≡ count (λ (kv : KeyValue). str_eq kv.key k && p kv.value) kvs
unfolding values_of
count-values_of p k [] = refl
count-values_of p k (kv ∷ kvs) = ground (arith, count-values_of p k kvs)

module _ (s : KeySort) where
  pub has_key-by_key : (k : Str) (kvs : List KeyValue) → has_key k (s.by_key kvs) ≡ has_key k kvs
  has_key-by_key k kvs =
      has_key-count k (s.by_key kvs) ∙ ap (ltb 0) (s.same_items _ kvs) ∙ sym (has_key-count k kvs)

  pub values_of-by_key :
      (p : Str → Bool) (k : Str) (kvs : List KeyValue)
      → count p (values_of k (s.by_key kvs)) ≡ count p (values_of k kvs)
  values_of-by_key p k kvs =
      count-values_of p k (s.by_key kvs) ∙ s.same_items _ kvs ∙ sym (count-values_of p k kvs)

List-cases :
    (kvs : List KeyValue)
    → (kvs ≡ []) ⊎ ((kv : KeyValue) × (rest : List KeyValue) × (kvs ≡ kv ∷ rest))
List-cases [] = inl refl
List-cases (kv ∷ kvs) = inr (kv, kvs, refl)

pub empty_of_count : (kvs : List KeyValue) → count (λ x. true) kvs ≡ 0 → kvs ≡ []
empty_of_count [] h = refl
empty_of_count (kv ∷ kvs) h = absurd (omega arith)

-- What a written file says of a key: the value of the reduce function at the key and its values,
-- which are those of `kvs` in some order; and nothing of a key that does not occur.
pub record Reduced (f : Str → List Str → Str) (kvs out : List KeyValue) (k : Str) : Type 0 where
  pub present :
      has_key k kvs ≡ true
      → (vs : List Str) × (find_key k out ≡ some (f k vs))
        × ((p : Str → Bool) → count p vs ≡ count p (values_of k kvs))
  pub absent : has_key k kvs ≡ false → find_key k out ≡ none

module _ ⦃os : Os⦄ (i : Itoa) (j : Json) (s : KeySort) where
  by_key-AllText : (kvs : List KeyValue) → AllText j kvs → AllText j (s.by_key kvs)
  by_key-AllText kvs a = s.same_items _ kvs ∙ a

  group_loop-AllText :
      (f : Str → List Str → Str) (cur : Str) (values : List Str) (kvs : List KeyValue)
      → ((k : Str) (vs : List Str) → j.is_utf8 (f k vs) ≡ true)
      → j.is_utf8 cur ≡ true
      → AllText j kvs
      → AllText j (group_loop f cur values kvs)
  unfolding group_loop
  group_loop-AllText f cur values [] u c a = ground (arith, u cur values, c)
  group_loop-AllText f cur values (kv ∷ kvs) u c a = elim (Bool-cases (str_eq cur kv.key)) [
    | inl same ↦
        rw (same, group_loop)
          (group_loop-AllText f cur (values ++ kv.value ∷ []) kvs u c (ground (arith, a)))
    | inr new ↦
        let rest =
          group_loop-AllText f kv.key (kv.value ∷ []) kvs u (ground (arith, a))
            (ground (arith, a)) in
        rw (new, group_loop) (ground (arith, u cur values, c, rest))
  ]

  -- What the sorted pairs leave in the output file.
  pub write_groups-get :
      (f : Str → List Str → Str) (out_file : Str) (kv : KeyValue) (rest : List KeyValue)
      (fs : Files)
      → Writable out_file
      → (fs' : Files) × (write_groups i j s f out_file (kv ∷ rest) fs ≡ some fs')
        × (get_file fs' out_file ≡ some (encode_all j (group_loop f kv.key [] (kv ∷ rest))))
        × ((other : Str) → out_file ≢ other → get_file fs' other ≡ get_file fs other)
  unfolding write_groups create_file write_file
  write_groups-get f out_file kv rest fs (c, w) =
      let bytes = encode_all j (group_loop f kv.key [] (kv ∷ rest)) in
      let made = put_file fs out_file [] in
      (
        put_file made out_file bytes,
        rw (c, w, ◌>>=◌) refl,
        ground (arith, get_file-put_file made out_file bytes out_file, str_eq_refl out_file),
        λ other n. ground (
          arith,
          get_file-put_file made out_file bytes other,
          get_file-put_file fs out_file [] other,
          str_eq_iff out_file other,
          n,
        ),
      )

  -- The pairs in the output file of a reduce task that finds some, read back.
  pub do_reduce-file :
      (job : Str) (r : ℕ) (out_file : Str) (n : ℕ) (f : Str → List Str → Str) (fs : Files)
      (kvs : List KeyValue)
      → Writable out_file
      → ((k : Str) (vs : List Str) → j.is_utf8 (f k vs) ≡ true)
      → AllText j kvs
      → collect i j s fs job r n 0 ≡ some kvs
      → kvs ≢ []
      → (fs' : Files) × (kv : KeyValue) × (rest : List KeyValue) × (bytes : Str) × (do_reduce i j s
            job r out_file n f fs
          ≡ some fs')
        × (s.by_key kvs ≡ kv ∷ rest)
        × (get_file fs' out_file ≡ some bytes)
        × (decode_all j bytes ≡ group_loop f kv.key [] (kv ∷ rest))
        × ((other : Str) → out_file ≢ other → get_file fs' other ≡ get_file fs other)
  unfolding do_reduce
  do_reduce-file job r out_file n f fs kvs d u a e ne = elim (List-cases (s.by_key kvs)) [
    | inl none_left ↦ absurd (
        ne (
          empty_of_count kvs
            (sym (s.same_items (λ x. true) kvs) ∙ ap (count (λ x. true)) none_left)))
    | inr (kv, rest, q) ↦
        let (fs', run, there, others) = write_groups-get f out_file kv rest fs d in
        let text : AllText j (kv ∷ rest) = rw q at (by_key-AllText kvs a) in
        (
          fs',
          kv,
          rest,
          encode_all j (group_loop f kv.key [] (kv ∷ rest)),
          rw (e, ◌>>=◌) (rw q run),
          q,
          there,
          decode_all-encode_all j (group_loop f kv.key [] (kv ∷ rest))
              (group_loop-AllText f kv.key [] (kv ∷ rest) u (ground (arith, text)) text),
          others,
        )
  ]
