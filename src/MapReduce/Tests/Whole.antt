-- ===== src/MapReduce/Tests/Whole.antt =====
-- The theorem about a whole job at a concrete input.
use distribute_system_lab.Prelude.{
  ℕ, zero, suc, ◌≡◌, ◌≢◌, ◌≤◌, ◌<◌, refl, List, [], ◌∷◌, ◌++◌, some, arith,
}
use distribute_system_lab.Prelude.Text.{Str, str_eq}
use distribute_system_lab.MapReduce.Names.{KeyValue, reduce_name}
use distribute_system_lab.MapReduce.Files.{Files, get_file}
use distribute_system_lab.MapReduce.Map.{ihash, bucket}
use distribute_system_lab.MapReduce.Master.{Master, sequential}
use distribute_system_lab.MapReduce.Sequential.MapPhase.{read_inputs, mapped}
use distribute_system_lab.MapReduce.Sequential.Outcome.{JobDone, sequential_lem}
use distribute_system_lab.MapReduce.Samples.{
  open_disk, numerals, plain_json, sort_pairs, str_sort, sum,
}

-- Each file gives one pair, with its name as the key; the reduce function joins the values.
abbrev name_pair : Str → Str → List KeyValue
name_pair name content = record { key = name; value = content } ∷ []

abbrev joined : Str → List Str → Str
joined k [] = []
joined k (v ∷ vs) = v ++ joined k vs

abbrev two_inputs : Files
two_inputs = (b'f' ∷ [], b'x' ∷ []) ∷ (b'g' ∷ [], b'y' ∷ []) ∷ []

abbrev input_names : List Str
input_names = (b'f' ∷ []) ∷ (b'g' ∷ []) ∷ []

two_inputs-read : read_inputs two_inputs input_names ≡ some two_inputs
unfolding read_inputs get_file str_eq
two_inputs-read = refl

names_free : (c : ℕ) → c ≢ b'm' → (m r : ℕ) → 0 ≤ m → reduce_name numerals [] m r ≢ c ∷ []
unfolding reduce_name
names_free c h m r le e = ground (arith, h)

one_bucket : (r : ℕ) → r < 1 → bucket sum 1 r (mapped name_pair two_inputs) ≢ []
unfolding bucket mapped ihash
one_bucket zero h e = absurd (ground arith)
one_bucket (suc r) h e = absurd (omega arith)

sequential_lem_example :
    (mr : Master) × (fs' : Files) × (sequential numerals plain_json sort_pairs str_sort sum
        name_pair joined [] input_names 1 two_inputs
      ≡ some (mr, fs'))
    × JobDone numerals plain_json sort_pairs str_sort sum name_pair joined []
        (mapped name_pair two_inputs)
        fs'
sequential_lem_example =
    sequential_lem numerals plain_json sort_pairs str_sort sum name_pair joined [] input_names 1
      two_inputs two_inputs (omega arith) (refl, refl) (λ m r lt. (refl, refl))
      (λ r lt. (refl, refl)) (λ f c. refl) (λ k vs. refl)
      (names_free b'f' (λ e. omega arith), (names_free b'g' (λ e. omega arith), tt)) two_inputs-read
      one_bucket
