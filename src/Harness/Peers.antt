-- ===== src/Harness/Peers.antt =====
-- mit6.824/src/raft/config.go: starting and stopping the peers.
use distribute_system_lab.Prelude.{
  ℕ, zero, suc, ◌+◌, Bool, true, false, not, [], ◌∷◌, ◌++◌, ◌≡◌, Option, none, some, ◌>>=◌, length,
}
use distribute_system_lab.Prelude.Text.{Str}
use distribute_system_lab.Labrpc.Server.{Service, Server, make_server, add_service}
use distribute_system_lab.Labrpc.Network.{
  Network, put_name, make_network, set_reliable, set_long_delays, make_end, add_server,
  delete_server, connect,
}
use distribute_system_lab.Raft.Persister.{
  Persister, make_persister, copy, save_raft_state, read_raft_state,
}
use distribute_system_lab.Raft.State.{Codec, make_raft}
use distribute_system_lab.Harness.Links.{Config, connect_server, disconnect_server}

-- The loop that makes `k` ends from the `j`th on and leads each to its server.
unfoldable pub make_ends : {S : Type 0} → (ℕ → Str) → ℕ → ℕ → Network S → Option (Network S)
make_ends names zero j net = some net
make_ends names (suc k) j net = do
  net' ← make_end net (names j)
  make_ends names k (j + 1) (connect net' (names j) j)

abbrev pub copied : Option Persister → Option Persister
copied ps = do p ← ps; some (copy p)

-- The raft log of a persister in a new one.
abbrev pub only_log : Option Persister → Option Persister
only_log ps = do p ← ps; some (save_raft_state make_persister (read_raft_state p))

abbrev pub or_new : Option Persister → Persister
or_new none = make_persister
or_new (some ps) = copy ps

-- `*cfg.saved[i]`.
abbrev pub disk : {A S : Type 0} → Config A S → ℕ → Option Persister
disk cfg i = elim (cfg.rafts i) [ none ↦ cfg.saved i | some rf ↦ some rf.persister ]

module _ {A S : Type 0} (g : Codec A) where
  -- `crash1`. The peer that it kills goes on over the old persister, which nothing reads any more.
  unfoldable pub crash1 : Config A S → ℕ → Option (Config A S)
  unfolding put_name
  crash1 cfg i = do
    off ← disconnect_server cfg i
    some (record off {
      net = delete_server off.net i;
      rafts = put_name off.rafts i none;
      saved = put_name off.saved i (only_log (copied (disk off i)));
    })

  -- The end of `start1`: the peer over its persister, and the server that calls it; `svc` is what
  -- `MakeService` makes of the peer.
  abbrev pub add_peer : Config A S → ℕ → Persister → Service S → Config A S
  add_peer cfg i ps svc =
      let srv : Server S = add_service make_server svc in
      record cfg {
        rafts = put_name cfg.rafts i (some (make_raft g cfg.n i ps));
        net =
            add_server (record (cfg.net) { store = cfg.net.store ++ srv ∷ [] }) i
              (length cfg.net.store);
      }

  -- `start1`, but for the goroutine that reads from `applyCh`; `names` are the random strings.
  unfoldable pub start1 : Config A S → ℕ → (ℕ → Str) → Service S → Option (Config A S)
  unfolding put_name make_ends
  start1 cfg i names svc = do
    off ← crash1 cfg i
    net ← make_ends names off.n 0 off.net
    let ps = or_new (off.saved i) in
        some (
          add_peer
            (record off {
              endnames = put_name off.endnames i (some names);
              net = net;
              saved = put_name off.saved i (some ps);
            })
            i ps svc)

  -- The two loops of `make_config`.
  unfoldable pub start_all :
      (ℕ → ℕ → Str) → (ℕ → Service S) → ℕ → ℕ → Config A S → Option (Config A S)
  start_all names svc zero i cfg = some cfg
  start_all names svc (suc k) i cfg = do
    cfg' ← start1 cfg i (names i) (svc i)
    start_all names svc k (i + 1) cfg'

  unfoldable pub connect_all : ℕ → ℕ → Config A S → Option (Config A S)
  connect_all zero i cfg = some cfg
  connect_all (suc k) i cfg = do cfg' ← connect_server cfg i; connect_all k (i + 1) cfg'

  abbrev pub new_config : ℕ → Bool → Config A S
  new_config n unreliable = record {
    n = n;
    net = set_long_delays (set_reliable (make_network []) (not unreliable)) true;
    rafts = λ i. none;
    connected = λ i. false;
    saved = λ i. none;
    endnames = λ i. none;
  }

  -- `make_config`.
  unfoldable pub make_config : ℕ → Bool → (ℕ → ℕ → Str) → (ℕ → Service S) → Option (Config A S)
  unfolding start_all connect_all
  make_config n unreliable names svc = do
    cfg ← start_all names svc n 0 (new_config n unreliable)
    connect_all n 0 cfg

  -- What a test does to the harness after `make_config`.
  pub data Uses (start : Config A S) : Config A S → Type 0 where
    unused : Uses start start
    connects :
        {cfg cfg' : Config A S} (i : ℕ)
        → Uses start cfg
        → connect_server cfg i ≡ some cfg'
        → Uses start cfg'
    disconnects :
        {cfg cfg' : Config A S} (i : ℕ)
        → Uses start cfg
        → disconnect_server cfg i ≡ some cfg'
        → Uses start cfg'
    crashes :
        {cfg cfg' : Config A S} (i : ℕ)
        → Uses start cfg
        → crash1 cfg i ≡ some cfg'
        → Uses start cfg'
    starts :
        {cfg cfg' : Config A S} (i : ℕ) (names : ℕ → Str) (svc : Service S)
        → Uses start cfg
        → start1 cfg i names svc ≡ some cfg'
        → Uses start cfg'
