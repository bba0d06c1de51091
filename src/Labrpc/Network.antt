-- ===== src/Labrpc/Network.antt =====
-- mit6.824/src/labrpc/labrpc.go: the tables of the network, and the operations on them.
use distribute_system_lab.Prelude.{
  ℕ, Bool, true, false, not, ◌||◌, List, Option, none, some, ◌>>=◌, get_elem?, ◌==◌, if◌then◌else◌,
}
use distribute_system_lab.Prelude.Text.{Str, str_eq}
use distribute_system_lab.Labrpc.Server.{Server}

-- Each operation takes and releases the lock. An end-point's name is a string and a server's a
-- number; a map is a function, with Go's zero value for a key that is missing. Pointers to servers
-- are indices of `store`.
pub record Network (S : Type 0) : Type 0 where
  pub reliable : Bool
  pub long_delays : Bool
  pub long_reordering : Bool
  pub ends : Str → Bool
  pub enabled : Str → Bool
  pub servers : ℕ → Option ℕ
  pub connections : Str → Option ℕ
  pub count : ℕ
  pub store : List (Server S)

unfoldable pub put_end : {V : Type 0} → (Str → V) → Str → V → Str → V
put_end m k v other = if str_eq k other then v else m other

unfoldable pub put_name : {V : Type 0} → (ℕ → V) → ℕ → V → ℕ → V
put_name m k v other = if k == other then v else m other

-- Two pointers, of which either may be nil.
abbrev pub same_pointer : Option ℕ → Option ℕ → Bool
same_pointer none none = true
same_pointer none (some q) = false
same_pointer (some p) none = false
same_pointer (some p) (some q) = p == q

-- What `ReadEndnameInfo` returns.
pub record EndInfo : Type 0 where
  pub enabled : Bool
  pub servername : Option ℕ
  pub server : Option ℕ
  pub reliable : Bool
  pub long_reordering : Bool

module _ {S : Type 0} where
  -- `MakeNetwork`, over the servers that exist.
  unfoldable pub make_network : List (Server S) → Network S
  make_network store = record {
    reliable = true;
    long_delays = false;
    long_reordering = false;
    ends = λ e. false;
    enabled = λ e. false;
    servers = λ n. none;
    connections = λ e. none;
    count = 0;
    store = store;
  }

  unfoldable pub set_reliable : Network S → Bool → Network S
  set_reliable rn on = record rn { reliable = on }

  unfoldable pub set_long_reordering : Network S → Bool → Network S
  set_long_reordering rn on = record rn { long_reordering = on }

  unfoldable pub set_long_delays : Network S → Bool → Network S
  set_long_delays rn on = record rn { long_delays = on }

  abbrev pub server_of : Network S → Option ℕ → Option ℕ
  server_of rn none = none
  server_of rn (some n) = rn.servers n

  -- `ReadEndnameInfo`.
  unfoldable pub read_endname_info : Network S → Str → EndInfo
  read_endname_info rn e = record {
    enabled = rn.enabled e;
    servername = rn.connections e;
    server = server_of rn (rn.connections e);
    reliable = rn.reliable;
    long_reordering = rn.long_reordering;
  }

  -- `IsServerDead`.
  unfoldable pub is_server_dead : Network S → Str → ℕ → ℕ → Bool
  is_server_dead rn e name server =
      not (rn.enabled e) || not (same_pointer (rn.servers name) (some server))

  -- `MakeEnd`; a name that is taken is fatal.
  unfoldable pub make_end : Network S → Str → Option (Network S)
  unfolding put_end
  make_end rn e =
      if rn.ends e
      then none
      else some (record rn {
        ends = put_end rn.ends e true;
        enabled = put_end rn.enabled e false;
        connections = put_end rn.connections e none;
      })

  unfoldable pub add_server : Network S → ℕ → ℕ → Network S
  unfolding put_name
  add_server rn name server = record rn { servers = put_name rn.servers name (some server) }

  unfoldable pub delete_server : Network S → ℕ → Network S
  unfolding put_name
  delete_server rn name = record rn { servers = put_name rn.servers name none }

  unfoldable pub connect : Network S → Str → ℕ → Network S
  unfolding put_end
  connect rn e name = record rn { connections = put_end rn.connections e (some name) }

  unfoldable pub enable : Network S → Str → Bool → Network S
  unfolding put_end
  enable rn e on = record rn { enabled = put_end rn.enabled e on }

  -- `GetCount` of the network; a nil server panics.
  unfoldable pub get_count : Network S → ℕ → Option ℕ
  get_count rn name = do p ← rn.servers name; server ← get_elem? rn.store p; some (server.count)

  abbrev pub get_total_count : Network S → ℕ
  get_total_count rn = rn.count
