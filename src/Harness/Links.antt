-- ===== src/Harness/Links.antt =====
-- mit6.824/src/raft/config.go: the state of the harness, and which peers it has on the net.
use distribute_system_lab.Prelude.{
  ℕ, zero, suc, ◌+◌, Bool, true, false, Option, none, some, ◌>>=◌, ltb, if◌then◌else◌,
}
use distribute_system_lab.Prelude.Text.{Str}
use distribute_system_lab.Labrpc.Network.{Network, put_name, enable}
use distribute_system_lab.Raft.Persister.{Persister}
use distribute_system_lab.Raft.State.{Raft}

-- Arrays over the servers are functions; an index from `n` on is out of range. While a peer runs,
-- what `saved[i]` points to is the peer's own persister.
pub record Config (A S : Type 0) : Type 0 where
  pub n : ℕ
  pub net : Network S
  pub rafts : ℕ → Option (Raft A)
  pub connected : ℕ → Bool
  pub saved : ℕ → Option Persister
  pub endnames : ℕ → Option (ℕ → Str)

-- The loops over the ends of a server, at `k` servers from `j` on: `pick` has the end to set,
-- `some none` where the loop passes over it, and `none` where it panics.
abbrev pub set_end : {S : Type 0} → Option (Option Str) → Bool → Network S → Option (Network S)
set_end none on net = none
set_end (some none) on net = some net
set_end (some (some e)) on net = some (enable net e on)

unfoldable pub set_ends :
    {S : Type 0} → (ℕ → Option (Option Str)) → Bool → ℕ → ℕ → Network S → Option (Network S)
set_ends pick on zero j net = some net
set_ends pick on (suc k) j net = do net' ← set_end (pick j) on net; set_ends pick on k (j + 1) net'

abbrev pub if_connected : (ℕ → Bool) → (ℕ → Option Str) → ℕ → Option (Option Str)
if_connected connected name j =
    let named = (do e ← name j; some (some e)) in if connected j then named else some none

abbrev pub if_named : (ℕ → Option Str) → ℕ → Option (Option Str)
if_named name j = some (name j)

module _ {A S : Type 0} where
  -- `cfg.endnames[a][b]`, which panics if `cfg.endnames[a]` is nil.
  abbrev pub end_name : Config A S → ℕ → ℕ → Option Str
  end_name cfg a b = do names ← cfg.endnames a; some (names b)

  -- `connect`.
  unfoldable pub connect_server : Config A S → ℕ → Option (Config A S)
  unfolding put_name set_ends
  connect_server cfg i =
      let connected = put_name cfg.connected i true in
      let linked = (do
        net ← set_ends (if_connected connected (end_name cfg i)) true cfg.n 0 cfg.net
        net' ← set_ends (if_connected connected (λ j. end_name cfg j i)) true cfg.n 0 net
        some (record cfg { connected = connected; net = net' })) in
      if ltb i cfg.n then linked else none

  -- `disconnect`.
  unfoldable pub disconnect_server : Config A S → ℕ → Option (Config A S)
  unfolding put_name set_ends
  disconnect_server cfg i =
      let connected = put_name cfg.connected i false in
      let cut = (do
        net ← set_ends (if_named (end_name cfg i)) false cfg.n 0 cfg.net
        net' ← set_ends (if_named (λ j. end_name cfg j i)) false cfg.n 0 net
        some (record cfg { connected = connected; net = net' })) in
      if ltb i cfg.n then cut else none
