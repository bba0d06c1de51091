-- ===== src/MapReduce/MapLaws.antt =====
-- mit6.824/src/mapreduce/common_map.go: where a map task leaves each of its pairs.
use mathlib.Core.List.{append_assoc, append-nil}
use distribute_system_lab.Prelude.{
  ℕ, zero, suc, ◌+◌, ◌%◌, ◌≡◌, ◌≢◌, ◌≤◌, ◌<◌, refl, sym, ap, ◌∙◌, true, false, List, [], ◌∷◌, ◌++◌,
  some, ◌>>=◌, arith, ℕ_discrete, ◌==◌, ==_iff, if◌then◌else◌,
}
use distribute_system_lab.Prelude.Text.{Str, str_eq, str_eq_iff}
use distribute_system_lab.MapReduce.Names.{KeyValue, Itoa, reduce_name, reduce_name-injective}
use distribute_system_lab.MapReduce.Files.{
  Files, get_file, put_file, get_file-put_file, Os, Writable, create_file, Json, encode_all,
}
use distribute_system_lab.MapReduce.Map.{
  append_file, ihash, create_outputs, write_pairs, do_map, bucket,
}

module _ ⦃os : Os⦄ (i : Itoa) (j : Json) (sum32 : Str → ℕ) (job : Str) (m : ℕ) where
  abbrev output : ℕ → Str
  output r = reduce_name i job m r

  output_eq : (r r' : ℕ) → str_eq (output r) (output r') ≡ (r == r')
  output_eq r r' = elim (ℕ_discrete r r') [
    | yes e ↦ ground (arith, str_eq_iff (output r) (output r'), ap output e)
    | no n ↦ ground (
      arith,
      str_eq_iff (output r) (output r'),
      λ (e : output r ≡ output r'). n (reduce_name-injective i job m r m r' e).1,
    )
  ]

  -- The name belongs to no output file of this map task.
  abbrev pub Foreign : Str → Type 0
  Foreign name = (r : ℕ) → output r ≢ name

  put_output-get :
      (fs : Files) (r r' : ℕ) (c : Str)
      → get_file (put_file fs (output r) c) (output r')
        ≡ (if r == r' then some c else get_file fs (output r'))
  put_output-get fs r r' c =
      ground (arith, get_file-put_file fs (output r) c (output r'), output_eq r r')

  put_output-Foreign :
      (fs : Files) (r : ℕ) (c name : Str)
      → Foreign name
      → get_file (put_file fs (output r) c) name ≡ get_file fs name
  put_output-Foreign fs r c name h =
      ground (arith, get_file-put_file fs (output r) c name, str_eq_iff (output r) name, h r)

  -- The output files of the tasks from `r` on, empty.
  created : ℕ → ℕ → Files → Files
  created zero r fs = fs
  created (suc n) r fs = created n (r + 1) (put_file fs (output r) [])

  create_outputs-created :
      (n r : ℕ) (fs : Files)
      → ((q : ℕ) → q < r + n → Writable (output q))
      → create_outputs i j sum32 job m n r fs ≡ some (created n r fs)
  unfolding create_outputs create_file created
  create_outputs-created zero r fs w = refl
  create_outputs-created (suc n) r fs w =
      rw ((w r (omega arith)).0, ◌>>=◌)
        (create_outputs-created n (r + 1) (put_file fs (output r) []) (λ q lt. w q (omega arith)))

  created-before :
      (n r0 r : ℕ) (fs : Files)
      → r < r0
      → get_file (created n r0 fs) (output r) ≡ get_file fs (output r)
  unfolding created
  created-before zero r0 r fs h = refl
  created-before (suc n) r0 r fs h =
      created-before n (r0 + 1) r (put_file fs (output r0) []) (omega arith)
      ∙ ground (arith, put_output-get fs r0 r [])

  created-get :
      (n r0 r : ℕ) (fs : Files)
      → r0 ≤ r
      → r < r0 + n
      → get_file (created n r0 fs) (output r) ≡ some []
  unfolding created
  created-get zero r0 r fs h k = absurd (omega arith)
  created-get (suc n) r0 r fs h k = elim (ℕ_discrete r0 r) [
    | yes e ↦
        created-before n (r0 + 1) r (put_file fs (output r0) []) (omega arith)
        ∙ ground (arith, put_output-get fs r0 r [])
    | no x ↦ created-get n (r0 + 1) r (put_file fs (output r0) []) (omega arith) (omega arith)
  ]

  created-Foreign :
      (n r0 : ℕ) (fs : Files) (name : Str)
      → Foreign name
      → get_file (created n r0 fs) name ≡ get_file fs name
  unfolding created
  created-Foreign zero r0 fs name h = refl
  created-Foreign (suc n) r0 fs name h =
      created-Foreign n (r0 + 1) (put_file fs (output r0) []) name h
      ∙ put_output-Foreign fs r0 [] name h

  -- All output files are there.
  abbrev IsReady : ℕ → Files → Type 0
  IsReady n fs = (r : ℕ) → r < n → (c : Str) × (get_file fs (output r) ≡ some c)

  -- What the writing loop makes of the files.
  record Wrote (n : ℕ) (kvs : List KeyValue) (fs fs' : Files) : Type 0 where
    added :
        (r : ℕ) (c : Str)
        → r < n
        → get_file fs (output r) ≡ some c
        → get_file fs' (output r) ≡ some (c ++ encode_all j (bucket sum32 n r kvs))
    others : (name : Str) → Foreign name → get_file fs' name ≡ get_file fs name

  bucket-nil : (n r : ℕ) → encode_all j (bucket sum32 n r []) ≡ []
  unfolding bucket encode_all
  bucket-nil n r = refl

  appended :
      (fs : Files) (name old bytes : Str)
      → os.can_write name ≡ true
      → get_file fs name ≡ some old
      → append_file fs name bytes ≡ some (put_file fs name (old ++ bytes))
  unfolding append_file
  appended fs name old bytes w e = rw (w, e) refl

  put_output-IsReady :
      (n : ℕ) (fs : Files) (r : ℕ) (c : Str) → IsReady n fs → IsReady n (put_file fs (output r) c)
  put_output-IsReady n fs r c k r' lt = elim (ℕ_discrete r r') [
    | yes e ↦ (c, ground (arith, put_output-get fs r r' c))
    | no x ↦ let (c', there) = k r' lt in (c', ground (arith, put_output-get fs r r' c))
  ]

  -- One pair more, for the task of its key and for the others.
  wrote_one :
      (n : ℕ) (kv : KeyValue) (kvs : List KeyValue) (fs fs' : Files) (r : ℕ) (c old : Str)
      → get_file fs (output (ihash sum32 kv.key % suc n)) ≡ some old
      → get_file fs (output r) ≡ some c
      → ((c' : Str)
          → r < suc n
          → get_file
              (put_file fs (output (ihash sum32 kv.key % suc n)) (old ++ j.encode kv))
              (output r)
            ≡ some c'
          → get_file fs' (output r) ≡ some (c' ++ encode_all j (bucket sum32 (suc n) r kvs)))
      → r < suc n
      → get_file fs' (output r) ≡ some (c ++ encode_all j (bucket sum32 (suc n) r (kv ∷ kvs)))
  unfolding bucket encode_all
  wrote_one n kv kvs fs fs' r c old there q rest lt =
      elim (ℕ_discrete (ihash sum32 kv.key % suc n) r) [
        | yes e ↦
            let idx = ihash sum32 kv.key % suc n in
            let b : (idx == r) ≡ true = (==_iff idx r).1 e in
            let same : some old ≡ some c = sym there ∙ ap (λ k. get_file fs (output k)) e ∙ q in
            let now : get_file (put_file fs (output idx) (old ++ j.encode kv)) (output r)
                ≡ some (c ++ j.encode kv) =
              ground (arith, put_output-get fs idx r (old ++ j.encode kv), same) in
            rw b (rest (c ++ j.encode kv) lt now ∙ ap some (append_assoc c (j.encode kv) _))
        | no x ↦
            let idx = ihash sum32 kv.key % suc n in
            let b : (idx == r) ≡ false = ground arith in
            rw b (rest c lt (ground (arith, put_output-get fs idx r (old ++ j.encode kv))))
      ]

  write_pairs-Wrote :
      (n : ℕ) (kvs : List KeyValue) (fs : Files)
      → 0 < n
      → ((r : ℕ) → r < n → Writable (output r))
      → IsReady n fs
      → (fs' : Files) × (write_pairs i j sum32 job m n kvs fs ≡ some fs') × Wrote n kvs fs fs'
  unfolding write_pairs
  write_pairs-Wrote n [] fs h d k = (
    fs,
    refl,
    record { added = λ r c lt e. rw (bucket-nil n r, append-nil c) e; others = λ name f. refl },
  )
  write_pairs-Wrote zero (kv ∷ kvs) fs h d k = absurd (omega arith)
  write_pairs-Wrote (suc n) (kv ∷ kvs) fs h d k =
      let idx = ihash sum32 kv.key % suc n in
      let (old, there) = k idx (omega arith) in
      let fs1 = put_file fs (output idx) (old ++ j.encode kv) in
      let (fs', e, w) =
        write_pairs-Wrote (suc n) kvs fs1 h d (put_output-IsReady (suc n) fs idx _ k) in
      (
        fs',
        rw (appended fs (output idx) old (j.encode kv) (d idx (omega arith)).1 there, write_pairs)
            e,
        record {
          added = λ r c lt q. wrote_one n kv kvs fs fs' r c old there q (w.added r) lt;
          others = λ name f. w.others name f ∙ put_output-Foreign fs idx _ name f;
        },
      )

  -- With at least one reduce task, an input file, and output files that can be created and written
  -- to, a map task does not panic. Afterwards the
  -- output file of each reduce task holds exactly the pairs of that task, in the order in which
  -- the map function gave them, whatever stood there before; all files but these are unchanged.
  pub do_map_lem :
      (in_file content : Str) (n : ℕ) (map_f : Str → Str → List KeyValue) (fs : Files)
      → 0 < n
      → ((r : ℕ) → r < n → Writable (reduce_name i job m r))
      → get_file fs in_file ≡ some content
      → (fs' : Files) × (do_map i j sum32 job m in_file n map_f fs ≡ some fs')
        × ((r : ℕ)
            → r < n
            → get_file fs' (reduce_name i job m r)
              ≡ some (encode_all j (bucket sum32 n r (map_f in_file content))))
        × ((name : Str) → Foreign name → get_file fs' name ≡ get_file fs name)
  unfolding do_map
  do_map_lem in_file content n map_f fs h d e =
      let fs1 = created n 0 fs in
      let empty : (r : ℕ) → r < n → get_file fs1 (output r) ≡ some [] =
        λ r lt. created-get n 0 r fs (omega arith) (omega arith) in
      let (fs', q, w) =
        write_pairs-Wrote n (map_f in_file content) fs1 h d (λ r lt. ([], empty r lt)) in
      (
        fs',
        rw (e, ◌>>=◌)
            (rw (create_outputs-created n 0 fs (λ r lt. d r (omega (arith, lt))), ◌>>=◌) q),
        (λ r lt. w.added r [] lt (empty r lt)),
        λ name f. w.others name f ∙ created-Foreign n 0 fs name f,
      )
