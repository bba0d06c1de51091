-- ===== src/ShardMaster/ClerkLaws.antt =====
-- mit6.824/src/shardmaster/client.go: a clerk's operation ends with the first leader's reply.
use distribute_system_lab.Prelude.{
  ℕ, suc, ◌≡◌, ◌<◌, refl, ap, Bool, true, false, List, [], ◌∷◌, ◌++◌, map, Option, none, some,
  ◌>>=◌, arith, length, take,
}
use distribute_system_lab.ShardMaster.Clerk.{
  QueryReply, Args, query_args, refill, accepted, ask, wrong_query, query,
}

module _ {R : Type 0} (wrong : R → Bool) where
  -- None of the calls brought the reply of a leader.
  abbrev pub Rejected : List (Option R) → Type 0
  Rejected [] = Unit {0}
  Rejected (r ∷ rs) = (accepted wrong r ≡ false) × Rejected rs

abbrev pub to_each : Args → List ℕ → List (ℕ × Args)
to_each args ss = map (λ (s : ℕ). (s, args)) ss

module _ {R : Type 0} (wrong : R → Bool) (args : Args) (s0 : ℕ) (more : List ℕ) where
  -- How the loops end, after `n` calls that did not end them.
  record Asked (n : ℕ) (left : List ℕ) (r : R) (out : Option (R × List (ℕ × Args))) : Type 0 where
    calls : List (ℕ × Args)
    result : out ≡ some (r, calls)
    size : length calls ≡ suc n
    in_order : n < length left → calls ≡ to_each args (take (suc n) left)

  ask-end :
      (left : List ℕ) (r : R) (rest : List (Option R))
      → accepted wrong (some r) ≡ true
      → Asked 0 left r (ask wrong args (s0 ∷ more) left (some r ∷ rest))
  unfolding ask refill accepted
  ask-end [] r rest a = record {
    calls = (s0, args) ∷ [];
    result = rw a refl;
    size = omega arith;
    in_order = λ k. absurd (omega arith);
  }
  ask-end (s ∷ left) r rest a = record {
    calls = (s, args) ∷ [];
    result = rw a refl;
    size = omega arith;
    in_order = λ k. refl;
  }

  -- One call more, of which the loops did not end.
  after : (left : List ℕ) → List ℕ × ℕ
  after [] = (more, s0)
  after (s ∷ left) = (left, s)

  ask-on :
      (left : List ℕ) (o : Option R) (replies : List (Option R)) (n : ℕ) (r : R)
      → accepted wrong o ≡ false
      → Asked n (after left).0 r (ask wrong args (s0 ∷ more) (after left).0 replies)
      → Asked (suc n) left r (ask wrong args (s0 ∷ more) left (o ∷ replies))
  unfolding ask refill accepted after
  ask-on [] none replies n r a k = record {
    calls = (s0, args) ∷ k.calls;
    result = rw (k.result, ◌>>=◌) refl;
    size = omega (arith, k.size);
    in_order = λ h. absurd (omega arith);
  }
  ask-on (s ∷ left) none replies n r a k = record {
    calls = (s, args) ∷ k.calls;
    result = rw (k.result, ◌>>=◌) refl;
    size = omega (arith, k.size);
    in_order = λ h. ap (◌∷◌ (s, args)) (k.in_order (omega arith));
  }
  ask-on [] (some x) replies n r a k = record {
    calls = (s0, args) ∷ k.calls;
    result = rw a (rw (k.result, ◌>>=◌) refl);
    size = omega (arith, k.size);
    in_order = λ h. absurd (omega arith);
  }
  ask-on (s ∷ left) (some x) replies n r a k = record {
    calls = (s, args) ∷ k.calls;
    result = rw a (rw (k.result, ◌>>=◌) refl);
    size = omega (arith, k.size);
    in_order = λ h. ap (◌∷◌ (s, args)) (k.in_order (omega arith));
  }

  ask-Asked :
      (left : List ℕ) (bad : List (Option R)) (r : R) (rest : List (Option R))
      → Rejected wrong bad
      → accepted wrong (some r) ≡ true
      → Asked (length bad) left r (ask wrong args (s0 ∷ more) left (bad ++ (some r ∷ rest)))
  ask-Asked left [] r rest b a = ask-end left r rest a
  ask-Asked left (o ∷ bad) r rest b a =
      ask-on left o (bad ++ (some r ∷ rest)) (length bad) r b.0
        (ask-Asked (after left).0 bad r rest b.1 a)

-- With a server at hand, `Query` returns the configuration of the first reply of a leader, after
-- one call for each attempt before it that failed or met a wrong leader, and one for it; within
-- the first round the calls go to the servers in their order, with the number that is asked for.
pub query_lem :
    (s0 : ℕ) (more : List ℕ) (num : Option ℕ) (bad : List (Option QueryReply)) (r : QueryReply)
    (rest : List (Option QueryReply))
    → Rejected wrong_query bad
    → r.wrong_leader ≡ false
    → (calls : List (ℕ × Args)) × (query
          (record { servers = s0 ∷ more })
          num
          (bad ++ (some r ∷ rest))
        ≡ some (r.config, calls))
      × (length calls ≡ suc (length bad))
      × (length bad < length (s0 ∷ more)
          → calls ≡ to_each (query_args num) (take (suc (length bad)) (s0 ∷ more)))
unfolding query accepted
query_lem s0 more num bad r rest b a =
    let k =
      ask-Asked wrong_query (query_args num) s0 more (s0 ∷ more) bad r rest b (ground (arith, a)) in
    (k.calls, rw (k.result, ◌>>=◌) refl, k.size, k.in_order)
