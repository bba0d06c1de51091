-- ===== src/Harness/Enabled.antt =====
-- mit6.824/src/raft/config.go: which peers can reach each other.
use distribute_system_lab.Prelude.{
  ℕ, zero, suc, ◌+◌, ◌≡◌, ◌<◌, Bool, some, >>=-eq-some, arith, ◌&&◌,
}
use distribute_system_lab.Prelude.Text.{Str}
use distribute_system_lab.Labrpc.Server.{Service}
use distribute_system_lab.Raft.State.{Codec}
use distribute_system_lab.Harness.Links.{Config, end_name, connect_server}
use distribute_system_lab.Harness.Peers.{
  start1, start_all, connect_all, new_config, make_config, Uses, unused, connects, disconnects,
  crashes, starts,
}
use distribute_system_lab.Harness.Linked.{Linked}
use distribute_system_lab.Harness.Connecting.{connect_server-Linked}
use distribute_system_lab.Harness.Starting.{disconnected, crashed, started}

module _ {A S : Type 0} (g : Codec A) where
  start_all-Linked :
      (names : ℕ → ℕ → Str) (svc : ℕ → Service S) (k i : ℕ) (cfg : Config A S) {cfg' : Config A S}
      → Linked cfg
      → start_all g names svc k i cfg ≡ some cfg'
      → Linked cfg'
  unfolding start_all
  start_all-Linked names svc zero i cfg {cfg'} ok h =
      let same : cfg ≡ cfg' = ground arith in rw (← same) ok
  start_all-Linked names svc (suc k) i cfg ok h =
      let (cfg1, q, h') = >>=-eq-some (start1 g cfg i (names i) (svc i)) _ h in
      start_all-Linked names svc k (i + 1) cfg1 (started g cfg i (names i) (svc i) ok q) h'

  connect_all-Linked :
      (k i : ℕ) (cfg : Config A S) {cfg' : Config A S}
      → Linked cfg
      → connect_all g k i cfg ≡ some cfg'
      → Linked cfg'
  unfolding connect_all
  connect_all-Linked zero i cfg {cfg'} ok h = let same : cfg ≡ cfg' = ground arith in rw (← same) ok
  connect_all-Linked (suc k) i cfg ok h =
      let (cfg1, q, h') = >>=-eq-some (connect_server cfg i) _ h in
      connect_all-Linked k (i + 1) cfg1 (connect_server-Linked cfg i ok q) h'

  new_config-Linked : (n : ℕ) (unreliable : Bool) → Linked (new_config {S = S} g n unreliable)
  new_config-Linked n unreliable = record {
    inside = λ a q. absurd (ground (arith, q));
    named = λ a b e l q. absurd (ground (arith, q));
    apart = λ a b c d e lb ld q. absurd (ground (arith, q));
    links = λ a b e l q. absurd (ground (arith, q));
  }

  Uses-Linked : {start cfg : Config A S} → Linked start → Uses g start cfg → Linked cfg
  Uses-Linked ok unused = ok
  Uses-Linked ok (connects {cfg} i u h) = connect_server-Linked cfg i (Uses-Linked ok u) h
  Uses-Linked ok (disconnects {cfg} i u h) = (disconnected cfg i (Uses-Linked ok u) h).0
  Uses-Linked ok (crashes {cfg} i u h) = (crashed g cfg i (Uses-Linked ok u) h).0
  Uses-Linked ok (starts {cfg} i names svc u h) = started g cfg i names svc (Uses-Linked ok u) h

  -- Whatever a test does after `make_config`, by connecting, disconnecting, crashing and starting
  -- servers in any order, an end of server `a` that leads to server `b` is enabled if and only if
  -- the harness has both of them connected.
  pub connected_links :
      (n : ℕ) (unreliable : Bool) (names : ℕ → ℕ → Str) (svc : ℕ → Service S)
      {start cfg : Config A S} (a b : ℕ) (e : Str)
      → make_config g n unreliable names svc ≡ some start
      → Uses g start cfg
      → b < cfg.n
      → end_name cfg a b ≡ some e
      → cfg.net.enabled e ≡ (cfg.connected a && cfg.connected b)
  unfolding make_config
  connected_links n unreliable names svc a b e h u l q =
      let (cfg0, q0, h') =
        >>=-eq-some (start_all g names svc n 0 (new_config g n unreliable)) _ h in
      let ok0 =
        start_all-Linked names svc n 0 (new_config g n unreliable) (new_config-Linked n unreliable)
          q0 in
      (Uses-Linked (connect_all-Linked n 0 cfg0 ok0 h') u).links a b e l q
