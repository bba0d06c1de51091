-- ===== src/MapReduce/Sequential/ReducePhase.antt =====
-- mit6.824/src/mapreduce/master.go, `Sequential`: what the reduce phase leaves for the merge.
use distribute_system_lab.Prelude.{
  ℕ, zero, suc, ◌+◌, ◌≡◌, ◌≢◌, ◌≤◌, ◌<◌, refl, sym, ap, subst, ◌∙◌, inl, inr, true, false,
  Bool-cases, List, [], ◌∷◌, ◌++◌, Option, none, some, ◌>>=◌, arith, ℕ_discrete, if◌then◌else◌,
}
use distribute_system_lab.Prelude.Text.{Str, str_eq, str_eq_iff, StrLe-refl}
use distribute_system_lab.MapReduce.Names.{
  KeyValue, Itoa, reduce_name, merge_name, reduce_name-ne-merge_name, merge_name-injective,
}
use distribute_system_lab.MapReduce.Files.{Files, get_file, Os, Writable, Json, AllText, decode_all}
use distribute_system_lab.MapReduce.Reduce.{From, ByKey, KeySort, group_loop, collect, do_reduce}
use distribute_system_lab.MapReduce.ReduceLaws.{
  values_of, has_key, find_key, group_loop_lem, group_sorted, From-absent,
}
use distribute_system_lab.MapReduce.ReduceSpec.{do_reduce-file}
use distribute_system_lab.MapReduce.Merge.{StrSort}
use distribute_system_lab.MapReduce.MergeLaws.{last_value, or_else}
use distribute_system_lab.MapReduce.Master.{reduce_all}

-- Each key has one pair in the output of the grouping loop, so its first value is its last.
last_value-group_loop :
    (f : Str → List Str → Str) (cur : Str) (vals : List Str) (kvs : List KeyValue) (k : Str)
    → From cur kvs
    → ByKey kvs
    → last_value k (group_loop f cur vals kvs) ≡ find_key k (group_loop f cur vals kvs)
unfolding group_loop last_value find_key
last_value-group_loop f cur vals [] k a b = refl
last_value-group_loop f cur vals (kv ∷ kvs) k a b = elim (Bool-cases (str_eq cur kv.key)) [
  | inl same ↦
      rw (same, group_loop) (last_value-group_loop f cur (vals ++ kv.value ∷ []) kvs k a.1 b.1)
  | inr new ↦
      let (none_left, no_values) = From-absent cur kv.key kvs a.0 new b.0 in
      let rest = last_value-group_loop f kv.key (kv.value ∷ []) kvs k b.0 b.1 in
      let what = group_loop_lem f kv.key (kv.value ∷ []) kvs k b.0 b.1 in
      rw (new, group_loop)
        (elim (Bool-cases (str_eq cur k)) [
          | inl hit ↦
              let e = (str_eq_iff cur k).0 hit in
              let gone : has_key k kvs ≡ false = ap (λ c. has_key c kvs) (sym e) ∙ none_left in
              let nothing : find_key k (group_loop f kv.key (kv.value ∷ []) kvs) ≡ none =
                ground (arith, what, gone, e, str_eq_iff kv.key k, str_eq_iff cur kv.key) in
              rw (rest, nothing, hit) refl
          | inr miss ↦
              rw (rest, miss) (or_else-right (find_key k (group_loop f kv.key (kv.value ∷ []) kvs)))
        ])
]
  where
    or_else-right : (o : Option Str) → or_else o none ≡ o
    or_else-right none = refl
    or_else-right (some v) = refl

module _ ⦃os : Os⦄ (i : Itoa) (j : Json) (s : KeySort) where
  -- What the reduce task of these pairs says of a key.
  unfoldable pub reduced : (Str → List Str → Str) → List KeyValue → Str → Option Str
  reduced f kvs k =
      if has_key k (s.by_key kvs) then some (f k (values_of k (s.by_key kvs))) else none

  -- A file that a reduce task of these pairs has written.
  pub record Output (f : Str → List Str → Str) (kvs : List KeyValue) (fs : Files) (name : Str)
      : Type 0 where
    pub bytes : Str
    pub there : get_file fs name ≡ some bytes
    pub right : (k : Str) → last_value k (decode_all j bytes) ≡ reduced f kvs k

  do_reduce-Output :
      (job : Str) (r : ℕ) (name : Str) (n : ℕ) (f : Str → List Str → Str) (fs : Files)
      (kvs : List KeyValue)
      → Writable name
      → ((k : Str) (vs : List Str) → j.is_utf8 (f k vs) ≡ true)
      → AllText j kvs
      → collect i j s fs job r n 0 ≡ some kvs
      → kvs ≢ []
      → (fs' : Files) × (do_reduce i j s job r name n f fs ≡ some fs')
        × Output f kvs fs' name
        × ((other : Str) → name ≢ other → get_file fs' other ≡ get_file fs other)
  unfolding reduced
  do_reduce-Output job r name n f fs kvs w u a e ne =
      let (fs', kv, rest, bytes, run, q, there, back, others) =
        do_reduce-file i j s job r name n f fs kvs w u a e ne in
      let b : ByKey (kv ∷ rest) = rw q at (s.ascends kvs) in
      let output : Output f kvs fs' name = record {
        bytes = bytes;
        there = there;
        right = λ k.
            ap (last_value k) back
            ∙ last_value-group_loop f kv.key [] (kv ∷ rest) k (StrLe-refl kv.key, b.0) b
            ∙ group_sorted f kv rest k b
            ∙ ap (λ l. if has_key k l then some (f k (values_of k l)) else none) (sym q);
      } in
      (fs', run, output, others)

  collect-same :
      (fs fs' : Files) (job : Str) (r n m : ℕ)
      → ((m' : ℕ) → get_file fs' (reduce_name i job m' r) ≡ get_file fs (reduce_name i job m' r))
      → collect i j s fs' job r n m ≡ collect i j s fs job r n m
  unfolding collect
  collect-same fs fs' job r zero m h = refl
  collect-same fs fs' job r (suc n) m h = rw (h m, collect-same fs fs' job r n (m + 1) h) refl

module _ ⦃os : Os⦄ (i : Itoa) (j : Json) (s : KeySort) (ss : StrSort) (sum32 : Str → ℕ)
    (map_f : Str → Str → List KeyValue) (reduce_f : Str → List Str → Str) where
  -- The reduce tasks `r`, …, `r + n - 1`, of which task `q` finds the pairs `found q`.
  pub record ReducesDone (job : Str) (n r : ℕ) (found : ℕ → List KeyValue) (fs fs' : Files)
      : Type 0 where
    pub outputs :
        (q : ℕ) → r ≤ q → q < r + n → Output i j s reduce_f (found q) fs' (merge_name i job q)
    pub others :
        (name : Str)
        → ((q : ℕ) → r ≤ q → merge_name i job q ≢ name)
        → get_file fs' name ≡ get_file fs name

  moved_Output :
      (kvs : List KeyValue) (fs fs' : Files) (name : Str)
      → get_file fs' name ≡ get_file fs name
      → Output i j s reduce_f kvs fs name
      → Output i j s reduce_f kvs fs' name
  moved_Output kvs fs fs' name e o = record {
    bytes = o.bytes;
    there = e ∙ o.there;
    right = o.right;
  }

  pub reduce_all-ReducesDone :
      (job : Str) (n_map n r : ℕ) (found : ℕ → List KeyValue) (fs : Files)
      → ((q : ℕ) → q < r + n → Writable (merge_name i job q))
      → ((k : Str) (vs : List Str) → j.is_utf8 (reduce_f k vs) ≡ true)
      → ((q : ℕ) → AllText j (found q))
      → ((q : ℕ)
          → r ≤ q
          → q < r + n
          → (collect i j s fs job q n_map 0 ≡ some (found q)) × (found q ≢ []))
      → (fs' : Files) × (reduce_all i j s ss sum32 map_f reduce_f job n_map n r fs ≡ some fs')
        × ReducesDone job n r found fs fs'
  unfolding reduce_all
  reduce_all-ReducesDone job n_map zero r found fs w u a h =
      (fs, refl, record { outputs = λ q le lt. absurd (omega arith); others = λ name u. refl })
  reduce_all-ReducesDone job n_map (suc n) r found fs w u a h =
      let (e, ne) = h r (omega arith) (omega arith) in
      let (fs1, q1, o, same) =
        do_reduce-Output i j s job r (merge_name i job r) n_map reduce_f fs (found r)
          (w r (omega arith)) u (a r) e ne in
      let inputs : (q m : ℕ)
          → get_file fs1 (reduce_name i job m q) ≡ get_file fs (reduce_name i job m q) =
        λ q m. same (reduce_name i job m q) (λ x. reduce_name-ne-merge_name i job m q r (sym x)) in
      let (fs', q2, d) =
        reduce_all-ReducesDone job n_map n (r + 1) found fs1 (λ q lt. w q (omega (arith, lt))) u a
          (λ q le lt.
            let (e', ne') = h q (omega arith) (omega arith) in
            (collect-same i j s fs fs1 job q n_map 0 (inputs q) ∙ e', ne')) in
      (
        fs',
        rw (q1, ◌>>=◌) q2,
        record {
          outputs = λ q le lt. elim (ℕ_discrete r q) [
            | yes x ↦
                subst (λ k. Output i j s reduce_f (found k) fs' (merge_name i job k)) x
                  (moved_Output (found r) fs1 fs' (merge_name i job r)
                    (d.others (merge_name i job r)
                      (λ q le x'. omega (arith, merge_name-injective i job q r x')))
                    o)
            | no x ↦ d.outputs q (omega arith) (omega arith)
          ];
          others =
              λ name u. d.others name (λ q le. u q (omega arith)) ∙ same name (u r (omega arith));
        },
      )
