-- ===== src/ShardKv/Tests.antt =====
-- The theorems about the clerk of the sharded service at concrete inputs.
use distribute_system_lab.Prelude.{ℕ, ◌≡◌, refl, true, false, arith, List, [], ◌∷◌, none, some}
use distribute_system_lab.Prelude.Text.{Str}
use distribute_system_lab.ShardMaster.Clerk.{Config}
use distribute_system_lab.ShardKv.Clerk.{
  GetReply, ok_err, wrong_group_err, get, key2shard, find_group,
}
use distribute_system_lab.ShardKv.ClerkLaws.{get_moves_on}

-- The shards of group 1, and later of group 2.
abbrev all_of : ℕ → List ℕ
all_of g = g ∷ g ∷ g ∷ g ∷ g ∷ g ∷ g ∷ g ∷ g ∷ g ∷ []

abbrev groups : List (ℕ × List Str)
groups = (1, (b'a' ∷ []) ∷ (b'b' ∷ []) ∷ []) ∷ (2, (b'c' ∷ []) ∷ []) ∷ []

abbrev old_config : Config
old_config = record { num = 1; shards = all_of 1; groups = groups }

abbrev later_config : Config
later_config = record { num = 2; shards = all_of 2; groups = groups }

-- A server that is not a leader has no use, also where it answers "OK".
abbrev no_leader : GetReply
no_leader = record { wrong_leader = true; err = ok_err; value = [] }

abbrev found : GetReply
found = record { wrong_leader = false; err = ok_err; value = b'v' ∷ [] }

abbrev moved : GetReply
moved = record { wrong_leader = false; err = wrong_group_err; value = [] }

get_moves_on_example :
    get (b'k' ∷ []) old_config (later_config ∷ []) (none ∷ some moved ∷ some found ∷ [])
    ≡ get (b'k' ∷ []) later_config [] (some found ∷ [])
unfolding key2shard find_group
get_moves_on_example =
    get_moves_on (b'k' ∷ []) old_config later_config [] 1 ((b'a' ∷ []) ∷ (b'b' ∷ []) ∷ [])
      (none ∷ []) moved (some found ∷ []) refl refl (omega arith) tt refl
