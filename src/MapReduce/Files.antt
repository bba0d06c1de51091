-- ===== src/MapReduce/Files.antt =====
-- The files of a job, and the JSON streams in them, as mit6.824/src/mapreduce uses the Go library.
use mathlib.Core.List.{append_assoc}
use distribute_system_lab.Prelude.{
  ℕ, zero, suc, ◌≡◌, ◌≤◌, ◌<◌, refl, ap, List, [], ◌∷◌, ◌++◌, Option, none, some, ◌>>=◌, arith,
  length, length-append, count, Bool, true, ◌&&◌, not, if◌then◌else◌,
}
use distribute_system_lab.Prelude.Text.{Str, str_eq, str_eq_iff}
use distribute_system_lab.MapReduce.Names.{KeyValue}

-- The files by name.
abbrev pub Files : Type 0
Files = List (Str × Str)

-- `os.Open` and reading to the end; `none` if there is no such file.
unfoldable pub get_file : Files → Str → Option Str
get_file [] name = none
get_file ((n, c) ∷ fs) name = if str_eq n name then some c else get_file fs name

-- `os.Create` and writing: the file has exactly this content.
unfoldable pub put_file : Files → Str → Str → Files
put_file [] name content = (name, content) ∷ []
put_file ((n, c) ∷ fs) name content =
    if str_eq n name then (n, content) ∷ fs else (n, c) ∷ put_file fs name content

-- `os.Remove`; `none` if there is no such file.
unfoldable pub remove_file : Files → Str → Option Files
remove_file [] name = none
remove_file ((n, c) ∷ fs) name =
    let rest = (do fs' ← remove_file fs name; some ((n, c) ∷ fs')) in
    if str_eq n name then some fs else rest

pub get_file-put_file :
    (fs : Files) (name content other : Str)
    → get_file (put_file fs name content) other
      ≡ (if str_eq name other then some content else get_file fs other)
unfolding get_file put_file
get_file-put_file [] name content other = refl
get_file-put_file ((n, c) ∷ fs) name content other = ground (
  arith,
  str_eq_iff n name,
  str_eq_iff n other,
  str_eq_iff name other,
  get_file-put_file fs name content other,
)

-- What the disk allows: whether `os.Create` of a name succeeds, and whether the writes to the file
-- that was created do. A file takes all writes or none.
pub record Os : Type 0 where
  pub can_create : Str → Bool
  pub can_write : Str → Bool

abbrev pub Writable : ⦃os : Os⦄ → Str → Type 0
Writable ⦃os⦄ name = (os.can_create name ≡ true) × (os.can_write name ≡ true)

-- `os.Create`: an empty file, or an error.
unfoldable pub create_file : ⦃os : Os⦄ → Files → Str → Option Files
create_file ⦃os⦄ fs name = if os.can_create name then some (put_file fs name []) else none

-- Writes to a file that was just created, whose errors are ignored.
unfoldable pub write_file : ⦃os : Os⦄ → Files → Str → Str → Files
write_file ⦃os⦄ fs name bytes = if os.can_write name then put_file fs name bytes else fs

-- `json.Encoder` and `json.Decoder` at `KeyValue`: a stream of pairs of valid UTF-8 is read back
-- pair by pair; in other strings the encoder replaces the bytes that are not valid.
pub record Json : Type 0 where
  pub encode : KeyValue → Str
  pub decode : Str → Option (KeyValue × Str)
  pub is_utf8 : Str → Bool
  pub round_trip :
      (kv : KeyValue) (rest : Str)
      → (is_utf8 kv.key && is_utf8 kv.value) ≡ true
      → decode (encode kv ++ rest) ≡ some (kv, rest)
  pub at_end : decode [] ≡ none
  pub not_empty : (kv : KeyValue) → 0 < length (encode kv)

-- Keys and values are valid UTF-8.
abbrev pub AllText : Json → List KeyValue → Type 0
AllText j kvs = count (λ (kv : KeyValue). not (j.is_utf8 kv.key && j.is_utf8 kv.value)) kvs ≡ 0

module _ (j : Json) where
  -- What a sequence of calls of `Encode` writes.
  unfoldable pub encode_all : List KeyValue → Str
  encode_all [] = []
  encode_all (kv ∷ kvs) = j.encode kv ++ encode_all kvs

  -- `for { if dec.Decode(&kv) != nil { break } … }`, with fuel: each round takes a byte at least.
  unfoldable pub decode_loop : ℕ → Str → List KeyValue
  decode_loop zero bytes = []
  decode_loop (suc fuel) bytes = elim (j.decode bytes) [
    | none ↦ []
    | some (kv, rest) ↦ kv ∷ decode_loop fuel rest
  ]

  unfoldable pub decode_all : Str → List KeyValue
  decode_all bytes = decode_loop (length bytes) bytes

  decode_loop-encode_all :
      (kvs : List KeyValue) (fuel : ℕ)
      → AllText j kvs
      → length (encode_all kvs) ≤ fuel
      → decode_loop fuel (encode_all kvs) ≡ kvs
  unfolding decode_loop encode_all
  decode_loop-encode_all [] zero a h = refl
  decode_loop-encode_all [] (suc fuel) a h = rw (j.at_end, decode_loop)
  decode_loop-encode_all (kv ∷ kvs) zero a h =
      absurd (omega (arith, length-append (j.encode kv) (encode_all kvs), j.not_empty kv))
  decode_loop-encode_all (kv ∷ kvs) (suc fuel) a h =
      rw (j.round_trip kv (encode_all kvs) (ground (arith, a)), decode_loop)
        (ap (◌∷◌ kv) (
          decode_loop-encode_all kvs fuel (ground (arith, a))
            (omega (arith, length-append (j.encode kv) (encode_all kvs), j.not_empty kv))))

  -- Reading a file to its end gives the pairs that were encoded into it: the fuel is enough.
  pub decode_all-encode_all :
      (kvs : List KeyValue) → AllText j kvs → decode_all (encode_all kvs) ≡ kvs
  unfolding decode_all
  decode_all-encode_all kvs a = decode_loop-encode_all kvs _ a (omega arith)

  pub encode_all-append :
      (xs ys : List KeyValue) → encode_all (xs ++ ys) ≡ encode_all xs ++ encode_all ys
  unfolding encode_all
  encode_all-append [] ys = refl
  encode_all-append (x ∷ xs) ys = simp (encode_all-append xs ys, append_assoc)
