-- ===== src/ShardMaster/Clerk.antt =====
-- mit6.824/src/shardmaster/client.go and common.go: the operations of a clerk, which asks one server
-- after the other until one of them answers as the leader.
use distribute_system_lab.Prelude.{
  ℕ, Bool, false, not, List, [], ◌∷◌, Option, none, some, ◌>>=◌, if◌then◌else◌,
}
use distribute_system_lab.Prelude.Text.{Str}

-- Shards and groups by number. `shards` has NShards places.
pub record Config : Type 0 where
  pub num : ℕ
  pub shards : List ℕ
  pub groups : List (ℕ × List Str)

-- The replies of Join, Leave and Move.
pub record Reply : Type 0 where
  pub wrong_leader : Bool
  pub err : Str

pub record QueryReply : Type 0 where
  pub wrong_leader : Bool
  pub err : Str
  pub config : Config

-- The arguments of the four calls; a number -1 of a configuration is `none`.
pub data Args : Type 0 where
  join_args : List (ℕ × List Str) → Args
  leave_args : List ℕ → Args
  move_args : ℕ → ℕ → Args
  query_args : Option ℕ → Args

-- An end of the network, by its index in `servers`.
pub record Clerk : Type 0 where
  pub servers : List ℕ

-- `MakeClerk`.
unfoldable pub make_clerk : List ℕ → Clerk
make_clerk servers = record { servers = servers }

-- The servers that are left in this round of the loop, or all of them in a new round.
unfoldable pub refill : List ℕ → List ℕ → List ℕ
refill all [] = all
refill all (s ∷ left) = s ∷ left

-- `ok && reply.WrongLeader == false`.
unfoldable pub accepted : {R : Type 0} → (R → Bool) → Option R → Bool
accepted wrong none = false
accepted wrong (some r) = not (wrong r)

module _ {R : Type 0} (wrong : R → Bool) (args : Args) (all : List ℕ) where
  -- The two loops, over what the calls bring: `none` is a call that failed. The result is the
  -- reply that ends them and the calls that were made; `none` if they are still under way, as they
  -- always are without a server.
  unfoldable pub ask : List ℕ → List (Option R) → Option (R × List (ℕ × Args))
  unfolding refill accepted
  ask left [] = none
  ask left (none ∷ replies) = elim (refill all left) [
    | [] ↦ none
    | server ∷ left' ↦ do (reply, calls) ← ask left' replies; some (reply, (server, args) ∷ calls)
  ]
  ask left (some r ∷ replies) = elim (refill all left) [
    | [] ↦ none
    | server ∷ left' ↦
        let retried = (do
          (reply, calls) ← ask left' replies
          some (reply, (server, args) ∷ calls)) in
        if accepted wrong (some r) then some (r, (server, args) ∷ []) else retried
  ]

abbrev pub wrong_query : QueryReply → Bool
wrong_query r = r.wrong_leader

abbrev pub wrong_reply : Reply → Bool
wrong_reply r = r.wrong_leader

unfoldable pub query :
    Clerk → Option ℕ → List (Option QueryReply) → Option (Config × List (ℕ × Args))
unfolding ask
query ck num replies = do
  (reply, calls) ← ask wrong_query (query_args num) ck.servers ck.servers replies
  some (reply.config, calls)

-- `Join`, `Leave` and `Move` give the calls that they made.
unfoldable pub command : Clerk → Args → List (Option Reply) → Option (List (ℕ × Args))
unfolding ask
command ck args replies = do
  (reply, calls) ← ask wrong_reply args ck.servers ck.servers replies
  some calls

unfoldable pub join : Clerk → List (ℕ × List Str) → List (Option Reply) → Option (List (ℕ × Args))
unfolding command
join ck servers replies = command ck (join_args servers) replies

unfoldable pub leave : Clerk → List ℕ → List (Option Reply) → Option (List (ℕ × Args))
unfolding command
leave ck gids replies = command ck (leave_args gids) replies

unfoldable pub move : Clerk → ℕ → ℕ → List (Option Reply) → Option (List (ℕ × Args))
unfolding command
move ck shard gid replies = command ck (move_args shard gid) replies
