-- ===== src/Harness/Checks.antt =====
-- mit6.824/src/raft/config.go: the checks of who leads, and in which term.
use distribute_system_lab.Prelude.{
  ℕ, zero, suc, ◌+◌, Bool, true, false, Option, none, some, ◌>>=◌, ltb, ◌==◌, if◌then◌else◌, List,
  [], ◌∷◌, ◌++◌, length, get_elem?,
}
use distribute_system_lab.Labrpc.Network.{put_name}
use distribute_system_lab.Raft.State.{get_state}
use distribute_system_lab.Harness.Links.{Config}

-- The map `leaders` of `checkOneLeader`, by term, with its keys in an order of their own.
pub record Leaders : Type 0 where
  pub terms : List ℕ
  pub of_term : ℕ → List ℕ

-- `leaders[term] = append(leaders[term], i)`.
unfoldable pub add_leader : Leaders → ℕ → ℕ → Leaders
unfolding put_name
add_leader ls t i = record {
  terms = if length (ls.of_term t) == 0 then t ∷ ls.terms else ls.terms;
  of_term = put_name ls.of_term t (ls.of_term t ++ i ∷ []);
}

-- The new `lastTermWithLeader`, which is -1 before the first key.
abbrev pub later_of : Option ℕ → ℕ → ℕ
later_of none t = t
later_of (some l) t = if ltb l t then t else l

-- The loop over the keys; two leaders in a term are fatal.
unfoldable pub last_term : (ℕ → List ℕ) → List ℕ → Option ℕ → Option (Option ℕ)
last_term of_term [] last = some last
last_term of_term (t ∷ ts) last =
    let rest = last_term of_term ts (some (later_of last t)) in
    if ltb 1 (length (of_term t)) then none else rest

module _ {A S : Type 0} where
  -- The loop over the servers that fills the map, at `k` servers from `i` on; a connected server
  -- without a peer panics.
  unfoldable pub find_leaders : Config A S → ℕ → ℕ → Leaders → Option Leaders
  unfolding add_leader
  find_leaders cfg zero i ls = some ls
  find_leaders cfg (suc k) i ls =
      let skip = find_leaders cfg k (i + 1) ls in
      let ask = (do
        rf ← cfg.rafts i
        let (term, leader) = get_state rf in
            find_leaders cfg k (i + 1) (if leader then add_leader ls term i else ls)) in
      if cfg.connected i then ask else skip

  -- One round of `checkOneLeader`: the leader of the last term that has one.
  unfoldable pub poll_leader : Config A S → Option (Option ℕ)
  unfolding find_leaders last_term
  poll_leader cfg = do
    ls ← find_leaders cfg cfg.n 0 (record { terms = []; of_term = λ t. [] })
    last ← last_term ls.of_term ls.terms none
    elim last [ none ↦ some none | some t ↦ (do i ← get_elem? (ls.of_term t) 0; some (some i)) ]

  -- `checkOneLeader`, over what the harness is in its rounds, of which there are ten at most.
  unfoldable pub check_one_leader : List (Config A S) → Option ℕ
  unfolding poll_leader
  check_one_leader [] = none
  check_one_leader (cfg ∷ rounds) =
      let later = check_one_leader rounds in
      do found ← poll_leader cfg; elim found [ none ↦ later | some i ↦ some i ]

  -- `checkTerms`; a term -1 is `none`, and servers that disagree are fatal.
  unfoldable pub terms_loop : Config A S → ℕ → ℕ → Option ℕ → Option (Option ℕ)
  terms_loop cfg zero i term = some term
  terms_loop cfg (suc k) i term =
      let skip = terms_loop cfg k (i + 1) term in
      let ask = (do
        rf ← cfg.rafts i
        let next = terms_loop cfg k (i + 1) (some (get_state rf).0) in
            elim term [ none ↦ next | some t ↦ if t == (get_state rf).0 then next else none ]) in
      if cfg.connected i then ask else skip

  unfoldable pub check_terms : Config A S → Option (Option ℕ)
  unfolding terms_loop
  check_terms cfg = terms_loop cfg cfg.n 0 none

  -- `checkNoLeader`: does it return?
  unfoldable pub no_leader_loop : Config A S → ℕ → ℕ → Bool
  no_leader_loop cfg zero i = true
  no_leader_loop cfg (suc k) i =
      let rest = no_leader_loop cfg k (i + 1) in
      if cfg.connected i
      then elim (cfg.rafts i) [ none ↦ false | some rf ↦ if (get_state rf).1 then false else rest ]
      else rest

  unfoldable pub check_no_leader : Config A S → Bool
  unfolding no_leader_loop
  check_no_leader cfg = no_leader_loop cfg cfg.n 0
