-- ===== src/ShardMaster/Tests.antt =====
-- The theorems about a clerk at concrete inputs.
use distribute_system_lab.Prelude.{
  ℕ, suc, ◌≡◌, ◌<◌, refl, true, false, List, [], ◌∷◌, ◌++◌, Option, none, some, length, take,
}
use distribute_system_lab.ShardMaster.Clerk.{
  Config, QueryReply, Args, query_args, accepted, wrong_query, query,
}
use distribute_system_lab.ShardMaster.ClerkLaws.{Rejected, to_each, query_lem}

abbrev first_config : Config
first_config = record { num = 1; shards = []; groups = [] }

abbrev by_leader : QueryReply
by_leader = record { wrong_leader = false; err = []; config = first_config }

-- Server 0 does not answer, server 1 is no leader, and server 0 then is.
abbrev two_failures : List (Option QueryReply)
two_failures = none ∷ some (record by_leader { wrong_leader = true }) ∷ []

two_failures-Rejected : Rejected wrong_query two_failures
unfolding accepted
two_failures-Rejected = (refl, (refl, tt))

query_lem_example :
    (calls : List (ℕ × Args)) × (query
        (record { servers = 0 ∷ 1 ∷ [] })
        none
        (two_failures ++ (some by_leader ∷ []))
      ≡ some (first_config, calls))
    × (length calls ≡ suc (length two_failures))
    × (length two_failures < length {A = ℕ} (0 ∷ 1 ∷ [])
        → calls ≡ to_each (query_args none) (take (suc (length two_failures)) (0 ∷ 1 ∷ [])))
query_lem_example = query_lem 0 (1 ∷ []) none two_failures by_leader [] two_failures-Rejected refl
