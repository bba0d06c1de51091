-- ===== src/Raft/Leader.antt =====
-- mit6.824/src/raft/raft.go: `Start`, `Kill`, and what `leaderRoutine` does under the lock.
use distribute_system_lab.Prelude.{
  ℕ, zero, suc, ◌+◌, ◌-◌, ◌/◌, ◌≡◌, ◌≤◌, Bool, true, false, not, List, [], ◌∷◌, ◌++◌, Option, none,
  some, ◌>>=◌, length, get_elem?, set_elem?, drop, replicate, count, leb, ◌==◌, if◌then◌else◌,
}
use distribute_system_lab.Raft.State.{Raft, LogEntry, Codec, is_leader, persist}
use distribute_system_lab.Raft.Apply.{apply_log}
use distribute_system_lab.Raft.Append.{AppendEntriesArgs, AppendEntriesReply}
use distribute_system_lab.Raft.Candidate.{check_reply_term}

-- `sort.Ints` of the Go library: the result ascends and has the same items.
pub record IntSort : Type 0 where
  pub ints : List ℕ → List ℕ
  pub ascends :
      (xs : List ℕ) (i j a b : ℕ)
      → i ≤ j
      → get_elem? (ints xs) i ≡ some a
      → get_elem? (ints xs) j ≡ some b
      → a ≤ b
  pub same_items : (p : ℕ → Bool) (xs : List ℕ) → count p (ints xs) ≡ count p xs

-- What `Start` returns.
pub record Started : Type 0 where
  pub index : ℕ
  pub term : ℕ
  pub is_leader : Bool

module _ {A : Type 0} where
  -- `Kill`.
  unfoldable pub kill : Raft A → Raft A
  kill rf = if not rf.terminate_ch then record rf { terminate_ch = true } else rf

  -- The start of `leaderRoutine`.
  unfoldable pub init_leader : Raft A → Option (Raft A)
  init_leader rf = do
    matched ← set_elem? (replicate rf.peers 0) rf.me (length rf.log - 1)
    some (record rf { next_index = replicate rf.peers (length rf.log); match_index = matched })

  -- `log[nextIdx-1]`: index -1 panics.
  abbrev log_before : List (LogEntry A) → ℕ → Option (LogEntry A)
  log_before log zero = none
  log_before log (suc i) = get_elem? log i

  -- The arguments for a peer; the leader's own have only the first two fields set.
  unfoldable pub peer_args : Raft A → ℕ → Option (AppendEntriesArgs A)
  peer_args rf peer =
      let others = (do
        next ← get_elem? rf.next_index peer
        e ← log_before rf.log next
        some (record {
          term = rf.current_term;
          leader_id = rf.me;
          prev_log_index = next - 1;
          prev_log_term = e.term_idx;
          entries = drop next rf.log;
          leader_commit = rf.commit_index;
        })) in
      if peer == rf.me
      then some (record {
        term = rf.current_term;
        leader_id = rf.me;
        prev_log_index = 0;
        prev_log_term = 0;
        entries = [];
        leader_commit = 0;
      })
      else others

  -- The loop over the peers `peer`, …, `peer + n - 1`.
  args_from : Raft A → ℕ → ℕ → Option (List (AppendEntriesArgs A))
  args_from rf zero peer = some []
  args_from rf (suc n) peer = do
    a ← peer_args rf peer
    rest ← args_from rf n (peer + 1)
    some (a ∷ rest)

  unfoldable pub broadcast : Raft A → Option (List (AppendEntriesArgs A))
  unfolding args_from
  broadcast rf = args_from rf rf.peers 0

  -- The leader retries from where the follower points it.
  unfoldable pub on_failure : Raft A → ℕ → Option ℕ → Option (Raft A)
  on_failure rf peer none = some rf
  on_failure rf peer (some next) = do
    ns ← set_elem? rf.next_index peer next
    some (record rf { next_index = ns })

module _ {A : Type 0} (g : Codec A) where
  unfoldable pub start : Raft A → Option A → Option (Raft A × Started)
  start rf command =
      let result : Started = record {
        index = length rf.log;
        term = rf.current_term;
        is_leader = is_leader rf.status;
      } in
      let entry : LogEntry A = record { content = command; term_idx = rf.current_term } in
      let saved = persist g (record rf { log = rf.log ++ entry ∷ [] }) in
      let leads = (do
        m ← get_elem? saved.match_index saved.me
        matched ← set_elem? saved.match_index saved.me (m + 1)
        some (record saved { match_index = matched }, result)) in
      if is_leader rf.status then leads else some (rf, result)

-- The commit rule, after a peer's match index has moved.
module _ {A : Type 0} (s : IntSort) where
  unfoldable pub advance_commit : Raft A → Option (Raft A)
  advance_commit rf = do
    new_commit ← get_elem? (s.ints rf.match_index) (rf.peers / 2)
    e ← get_elem? rf.log new_commit
    let applied = apply_log (record rf { commit_index = new_commit })
    if leb rf.current_term e.term_idx then applied else some rf

  unfoldable pub on_success : Raft A → AppendEntriesArgs A → ℕ → Option (Raft A)
  unfolding advance_commit
  on_success rf sent peer =
      let matched = sent.prev_log_index + length sent.entries in
      let moved = (do
        ms ← set_elem? rf.match_index peer matched
        ns ← set_elem? rf.next_index peer (matched + 1)
        advance_commit (record rf { match_index = ms; next_index = ns })) in
      if length sent.entries == 0 then some rf else moved

  -- A reply to the arguments that were sent to a peer in this round. The flag: the routine ends.
  unfoldable pub append_reply :
      Codec A → Raft A → AppendEntriesArgs A → ℕ → AppendEntriesReply → Option (Raft A × Bool)
  unfolding on_success on_failure
  append_reply g rf sent peer reply =
      let (rf', gone) = check_reply_term g rf reply.term in
      let handled =
        if reply.success then on_success rf sent peer else on_failure rf peer reply.next_index in
      let stays = (do after ← handled; some (after, false)) in
      if gone then some (rf', true) else stays
