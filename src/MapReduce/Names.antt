-- ===== src/MapReduce/Names.antt =====
-- mit6.824/src/mapreduce/common.go: pairs, phases, and the names of a job's files.
use distribute_system_lab.Prelude.{ℕ, ◌≡◌, ◌≢◌, ◌≤◌, refl, [], ◌∷◌, ◌++◌, arith}
use distribute_system_lab.Prelude.Text.{Str, append_cancel_left}

pub record KeyValue : Type 0 where
  pub key : Str
  pub value : Str

pub data JobPhase : Type 0 where
  map_phase reduce_phase : JobPhase

abbrev pub All : (ℕ → Type 0) → Str → Type 0
All P [] = Unit {0}
All P (x ∷ s) = P x × All P s

-- A decimal digit.
abbrev pub IsDigit : ℕ → Type 0
IsDigit c = (b'0' ≤ c) × (c ≤ b'9')

-- `strconv.Itoa` at numbers that are not negative: digits, and another text for each number.
pub record Itoa : Type 0 where
  pub itoa : ℕ → Str
  pub digits : (n : ℕ) → All IsDigit (itoa n)
  pub injective : (m n : ℕ) → itoa m ≡ itoa n → m ≡ n
  pub not_empty : (n : ℕ) → itoa n ≢ []

-- "mrtmp.", "-" and "-res-".
abbrev pub prefix : Str
prefix = b'm' ∷ b'r' ∷ b't' ∷ b'm' ∷ b'p' ∷ b'.' ∷ []

abbrev dash : Str
dash = b'-' ∷ []

abbrev dash_res_dash : Str
dash_res_dash = b'-' ∷ b'r' ∷ b'e' ∷ b's' ∷ b'-' ∷ []

module _ (i : Itoa) where
  -- `reduceName` and `mergeName`.
  unfoldable pub reduce_name : Str → ℕ → ℕ → Str
  reduce_name job m r = prefix ++ (job ++ (dash ++ (i.itoa m ++ (dash ++ i.itoa r))))

  unfoldable pub merge_name : Str → ℕ → Str
  merge_name job r = prefix ++ (job ++ (dash_res_dash ++ i.itoa r))

-- Where the first dash stands.
split_at_dash :
    (a b c d : Str)
    → All IsDigit a
    → All IsDigit c
    → a ++ (b'-' ∷ b) ≡ c ++ (b'-' ∷ d)
    → (a ≡ c) × (b ≡ d)
split_at_dash [] b [] d h k e = (refl, ground arith)
split_at_dash [] b (y ∷ c) d h k e = absurd (ground arith)
split_at_dash (x ∷ a) b [] d h k e = absurd (ground arith)
split_at_dash (x ∷ a) b (y ∷ c) d h k e =
    let (p, q) = split_at_dash a b c d h.1 k.1 (ground arith) in (ground arith, q)

module _ (i : Itoa) where
  -- Within a job each pair of tasks has an intermediate file of its own.
  pub reduce_name-injective :
      (job : Str) (m r m' r' : ℕ)
      → reduce_name i job m r ≡ reduce_name i job m' r'
      → (m ≡ m') × (r ≡ r')
  unfolding reduce_name
  reduce_name-injective job m r m' r' e =
      let tails = append_cancel_left job _ _ (append_cancel_left prefix _ _ e) in
      let (p, q) =
        split_at_dash (i.itoa m) (i.itoa r) (i.itoa m') (i.itoa r') (i.digits m) (i.digits m')
          (ground arith) in
      (i.injective m m' p, i.injective r r' q)

  digit_head : (n : ℕ) (rest other : Str) → i.itoa n ++ rest ≢ b'r' ∷ other
  digit_head n rest other e = go (i.itoa n) (i.digits n) (i.not_empty n) e
    where
      go : (a : Str) → All IsDigit a → a ≢ [] → a ++ rest ≡ b'r' ∷ other → ⊥
      go [] h k q = k refl
      go (x ∷ a) h k q = ground arith

  -- No intermediate file of a job is one of its merge files.
  pub reduce_name-ne-merge_name :
      (job : Str) (m r r' : ℕ) → reduce_name i job m r ≢ merge_name i job r'
  unfolding reduce_name merge_name
  reduce_name-ne-merge_name job m r r' e =
      let tails = append_cancel_left job _ _ (append_cancel_left prefix _ _ e) in
      digit_head m (dash ++ i.itoa r) (b'e' ∷ b's' ∷ b'-' ∷ i.itoa r') (ground arith)

  -- Within a job each reduce task has a merge file of its own.
  pub merge_name-injective :
      (job : Str) (r r' : ℕ) → merge_name i job r ≡ merge_name i job r' → r ≡ r'
  unfolding merge_name
  merge_name-injective job r r' e = i.injective r r' (
      append_cancel_left dash_res_dash _ _
        (append_cancel_left job _ _ (append_cancel_left prefix _ _ e)))
