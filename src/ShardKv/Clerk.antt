-- ===== src/ShardKv/Clerk.antt =====
-- mit6.824/src/shardkv/client.go and common.go: the operations of a clerk, over what its calls to the
-- servers and to the shard master bring.
use distribute_system_lab.Prelude.{
  ℕ, ◌%◌, Bool, ◌&&◌, ◌||◌, not, List, [], ◌∷◌, Option, none, some, get_elem?, if◌then◌else◌, ◌==◌,
}
use distribute_system_lab.Prelude.Text.{Str, str_eq}
use distribute_system_lab.ShardMaster.Clerk.{Config}

abbrev pub n_shards : ℕ
n_shards = 10

-- `key2shard`; a letter is a number.
unfoldable pub key2shard : Str → ℕ
key2shard [] = 0 % n_shards
key2shard (c ∷ cs) = c % n_shards

abbrev pub ok_err : Str
ok_err = b'O' ∷ b'K' ∷ []

abbrev pub no_key_err : Str
no_key_err = b'E' ∷ b'r' ∷ b'r' ∷ b'N' ∷ b'o' ∷ b'K' ∷ b'e' ∷ b'y' ∷ []

abbrev pub wrong_group_err : Str
wrong_group_err =
    b'E' ∷ b'r' ∷ b'r' ∷ b'W' ∷ b'r' ∷ b'o' ∷ b'n' ∷ b'g' ∷ b'G' ∷ b'r' ∷ b'o' ∷ b'u' ∷ b'p' ∷ []

pub record GetReply : Type 0 where
  pub wrong_leader : Bool
  pub err : Str
  pub value : Str

pub record PutAppendReply : Type 0 where
  pub wrong_leader : Bool
  pub err : Str

-- How far an operation has come with the replies there are: it has its reply, it waits for more of
-- them, or it has panicked.
pub data Progress (R : Type 0) : Type 0 where
  answered : R → Progress R
  waiting : Progress R
  panicked : Progress R

unfoldable pub find_group : List (ℕ × List Str) → ℕ → Option (List Str)
find_group [] gid = none
find_group ((g, servers) ∷ groups) gid = if g == gid then some servers else find_group groups gid

module _ {R : Type 0} (accepts : R → Bool) (moved : R → Bool) where
  -- The loop over the servers of a group: `inl` is the reply that ends the operation, `inr` the
  -- replies that are left when the group is given up, and `none` waits for a reply. A call that
  -- fails brings `none`.
  unfoldable pub try_group : List Str → List (Option R) → Option (Option R × List (Option R))
  try_group [] replies = some (none, replies)
  try_group (s ∷ servers) [] = none
  try_group (s ∷ servers) (none ∷ replies) = try_group servers replies
  try_group (s ∷ servers) (some r ∷ replies) =
      let next = try_group servers replies in
      if accepts r then some (some r, replies) else if moved r then some (none, replies) else next

  -- One round of the outer loop, with its configuration; `none` is a shard out of range.
  unfoldable pub try_config :
      Config → Str → List (Option R) → Option (Option (Option R × List (Option R)))
  unfolding key2shard find_group try_group
  try_config cfg key replies = elim (get_elem? cfg.shards (key2shard key)) [
    | none ↦ none
    | some gid ↦ elim (find_group cfg.groups gid) [
      | none ↦ some (some (none, replies))
      | some servers ↦ some (try_group servers replies)
    ]
  ]

  -- The outer loop, with the configurations that `Query(-1)` brings after each round.
  unfoldable pub operate : Str → Config → List Config → List (Option R) → Progress R
  unfolding try_config
  operate key cfg [] replies = elim (try_config cfg key replies) [
    | none ↦ panicked
    | some none ↦ waiting
    | some (some (some r, left)) ↦ answered r
    | some (some (none, left)) ↦ waiting
  ]
  operate key cfg (next ∷ configs) replies = elim (try_config cfg key replies) [
    | none ↦ panicked
    | some none ↦ waiting
    | some (some (some r, left)) ↦ answered r
    | some (some (none, left)) ↦ operate key next configs left
  ]

-- `Get`.
abbrev pub get_accepts : GetReply → Bool
get_accepts r = not r.wrong_leader && (str_eq r.err ok_err || str_eq r.err no_key_err)

unfoldable pub get : Str → Config → List Config → List (Option GetReply) → Progress GetReply
unfolding operate
get key = operate get_accepts (λ r. str_eq r.err wrong_group_err) key

-- `PutAppend`.
abbrev pub put_accepts : PutAppendReply → Bool
put_accepts r = not r.wrong_leader && str_eq r.err ok_err

unfoldable pub put_append :
    Str → Config → List Config → List (Option PutAppendReply) → Progress PutAppendReply
unfolding operate
put_append key = operate put_accepts (λ r. str_eq r.err wrong_group_err) key
