-- ===== src/Harness/Apply.antt =====
-- mit6.824/src/raft/config.go: the goroutines that read what the peers apply, and `nCommitted`.
use distribute_system_lab.Prelude.{
  ℕ, zero, suc, ◌+◌, ◌-◌, ◌≡◌, ◌<◌, Bool, true, false, ◌&&◌, ◌||◌, not, Option, none, some, ltb,
  ◌==◌, if◌then◌else◌,
}
use distribute_system_lab.Labrpc.Network.{put_name}
use distribute_system_lab.Raft.State.{ApplyMsg}

-- `cfg.logs` and `cfg.maxIndex`: what each of the `n` servers has applied, by index.
pub record Applied : Type 0 where
  pub n : ℕ
  pub logs : ℕ → ℕ → Option ℕ
  pub max_index : ℕ

abbrev pub is_some : {X : Type 0} → Option X → Bool
is_some none = false
is_some (some x) = true

-- `oldok && old != v`.
abbrev pub differs : Option ℕ → ℕ → Bool
differs none v = false
differs (some old) v = not (old == v)

-- One of the servers below `k` has applied another command at the index.
unfoldable pub conflicts : (ℕ → ℕ → Option ℕ) → ℕ → ℕ → ℕ → Bool
conflicts logs index v zero = false
conflicts logs index v (suc k) = differs (logs k index) v || conflicts logs index v k

-- A message of a server that is not out of range; `none` is the fatal apply error. Commands are
-- numbers, and `none` as a command is one that is no number.
unfoldable pub on_apply : Applied → ℕ → ApplyMsg ℕ → Option Applied
unfolding conflicts put_name
on_apply cfg i m = if not m.command_valid then some cfg else elim m.command [
  | none ↦ none
  | some v ↦
      if conflicts cfg.logs m.command_index v cfg.n
        || (ltb 1 m.command_index && not (is_some (cfg.logs i (m.command_index - 1))))
      then none
      else some (record cfg {
        logs = put_name cfg.logs i (put_name (cfg.logs i) m.command_index (some v));
        max_index = if ltb cfg.max_index m.command_index then m.command_index else cfg.max_index;
      })
]

abbrev pub none_applied : ℕ → Applied
none_applied n = record { n = n; logs = λ i index. none; max_index = 0 }

-- What the harness comes to while the servers apply messages in any order.
pub data Applies (n : ℕ) : Applied → Type 0 where
  no_message : Applies n (none_applied n)
  applies :
      {cfg cfg' : Applied} (i : ℕ) (m : ApplyMsg ℕ)
      → i < n
      → Applies n cfg
      → on_apply cfg i m ≡ some cfg'
      → Applies n cfg'

-- The loop of `nCommitted`, at `k` servers from `i` on; `none` is the fatal error.
unfoldable pub commit_loop : (ℕ → ℕ → Option ℕ) → ℕ → ℕ → ℕ → ℕ → Option ℕ → Option (ℕ × Option ℕ)
commit_loop logs index zero i count cmd = some (count, cmd)
commit_loop logs index (suc k) i count cmd =
    let skip = commit_loop logs index k (i + 1) count cmd in
    let next = commit_loop logs index k (i + 1) (count + 1) (logs i index) in
    elim (logs i index) [
      | none ↦ skip
      | some cmd1 ↦ elim cmd [
        | none ↦ if ltb 0 count then none else next
        | some v ↦ if ltb 0 count && not (v == cmd1) then none else next
      ]
    ]

-- `nCommitted`; the command is -1 if no server has applied one.
unfoldable pub n_committed : Applied → ℕ → Option (ℕ × Option ℕ)
unfolding commit_loop
n_committed cfg index = commit_loop cfg.logs index cfg.n 0 0 none
