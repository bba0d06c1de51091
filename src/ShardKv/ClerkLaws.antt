-- ===== src/ShardKv/ClerkLaws.antt =====
-- mit6.824/src/shardkv/client.go: what `Get` returns, and that no key is out of range.
use distribute_system_lab.Prelude.{
  ◌≡◌, ◌<◌, refl, sym, ap, ◌∙◌, ◌⊎◌, inl, inr, Bool, true, false, Bool-cases, List, [], ◌∷◌, ◌++◌,
  Option, none, some, Option-cases, arith, length, get_elem?, get_elem?-of_lt, ℕ, ◌≢◌,
}
use mathlib.Core.List.{append_assoc}
use distribute_system_lab.Prelude.Text.{Str, str_eq, str_eq_iff}
use distribute_system_lab.ShardMaster.Clerk.{Config}
use distribute_system_lab.ShardKv.Clerk.{
  n_shards, key2shard, GetReply, answered, waiting, find_group, try_group, try_config, operate,
  get_accepts, get, ok_err, no_key_err, wrong_group_err,
}

key2shard_lt : (key : Str) → key2shard key < n_shards
unfolding key2shard
key2shard_lt [] = omega arith
key2shard_lt (c ∷ cs) = omega arith

-- No reply of these ends an operation.
abbrev pub Refused : {R : Type 0} → (R → Bool) → List (Option R) → Type 0
Refused accepts [] = Unit {0}
Refused accepts (none ∷ replies) = Refused accepts replies
Refused accepts (some r ∷ replies) = (accepts r ≡ false) × Refused accepts replies

Refused-append :
    {R : Type 0} (accepts : R → Bool) (xs ys : List (Option R))
    → Refused accepts xs
    → Refused accepts ys
    → Refused accepts (xs ++ ys)
Refused-append accepts [] ys a b = b
Refused-append accepts (none ∷ xs) ys a b = Refused-append accepts xs ys a b
Refused-append accepts (some r ∷ xs) ys a b = (a.0, Refused-append accepts xs ys a.1 b)

-- A configuration has a group for each shard; in the source its array is that long by its type.
abbrev pub Complete : List Config → Type 0
Complete [] = Unit {0}
Complete (cfg ∷ configs) = (length cfg.shards ≡ n_shards) × Complete configs

-- What a loop has used of the replies, and how it ended.
abbrev pub Used : {R : Type 0} → (R → Bool) → List (Option R) → Option R → List (Option R) → Type 0
Used {R} accepts replies none left =
    (before : List (Option R)) × (replies ≡ before ++ left) × Refused accepts before
Used {R} accepts replies (some r) left =
    (before : List (Option R)) × (replies ≡ before ++ some r ∷ left)
    × Refused accepts before
    × (accepts r ≡ true)

-- Replies that were used before.
Used-after :
    {R : Type 0} (accepts : R → Bool) (first replies : List (Option R)) (found : Option R)
    (left : List (Option R))
    → Refused accepts first
    → Used accepts replies found left
    → Used accepts (first ++ replies) found left
Used-after accepts first replies none left a (before, e, b) = (
  first ++ before,
  ap (λ l. first ++ l) e ∙ sym (append_assoc first before left),
  Refused-append accepts first before a b,
)
Used-after accepts first replies (some r) left a (before, e, b, c) = (
  first ++ before,
  ap (λ l. first ++ l) e ∙ sym (append_assoc first before (some r ∷ left)),
  Refused-append accepts first before a b,
  c,
)

module _ {R : Type 0} (accepts : R → Bool) (moved : R → Bool) where
  try_group-Used :
      (servers : List Str) (replies : List (Option R)) {found : Option R} {left : List (Option R)}
      → try_group accepts moved servers replies ≡ some (found, left)
      → Used accepts replies found left
  unfolding try_group
  try_group-Used [] replies {found} {left} h =
      let ef : none ≡ found = ground (arith, h) in
      let el : replies ≡ left = ground (arith, h) in rw (← ef, ← el) ([], refl, tt)
  try_group-Used (s ∷ servers) [] h = absurd (ground (arith, h))
  try_group-Used (s ∷ servers) (none ∷ replies) {found} {left} h =
      Used-after accepts (none ∷ []) replies found left tt (try_group-Used servers replies h)
  try_group-Used (s ∷ servers) (some r ∷ replies) {found} {left} h = elim (Bool-cases (accepts r)) [
    | inl yes_reply ↦
        let ef : some r ≡ found = ground (arith, rw yes_reply at h) in
        let el : replies ≡ left = ground (arith, rw yes_reply at h) in
        rw (← ef, ← el) ([], refl, tt, yes_reply)
    | inr refused ↦ elim (Bool-cases (moved r)) [
      | inl gone ↦
          let ef : none ≡ found = ground (arith, rw (refused, gone) at h) in
          let el : replies ≡ left = ground (arith, rw (refused, gone) at h) in
          rw (← ef, ← el) (some r ∷ [], refl, (refused, tt))
      | inr here ↦
          Used-after accepts (some r ∷ []) replies found left (refused, tt)
            (try_group-Used servers replies (rw (refused, here) at h))
    ]
  ]

  -- A round with a complete configuration does not panic.
  try_config_lem :
      (cfg : Config) (key : Str) (replies : List (Option R))
      → length cfg.shards ≡ n_shards
      → (try_config accepts moved cfg key replies ≡ some none)
        ⊎ ((found : Option R) × (left : List (Option R)) × (try_config accepts moved cfg key replies
              ≡ some (some (found, left)))
            × Used accepts replies found left)
  unfolding try_config
  try_config_lem cfg key replies whole =
      let (gid, at) =
        get_elem?-of_lt cfg.shards (key2shard key) (omega (arith, key2shard_lt key, whole)) in
      elim (Option-cases (find_group cfg.groups gid)) [
        | inl missing ↦ inr (none, replies, rw (at, missing, try_config) refl, ([], refl, tt))
        | inr (servers, q) ↦ elim (Option-cases (try_group accepts moved servers replies)) [
          | inl wait ↦ inl (rw (at, q, wait, try_config) refl)
          | inr ((found, left), e) ↦
              inr (found, left, rw (at, q, e, try_config) refl, try_group-Used servers replies e)
        ]
      ]

  operate_lem :
      (key : Str) (cfg : Config) (configs : List Config) (replies : List (Option R))
      → Complete (cfg ∷ configs)
      → (operate accepts moved key cfg configs replies ≡ waiting)
        ⊎ ((r : R) × (left : List (Option R)) × (operate accepts moved key cfg configs replies
              ≡ answered r)
            × Used accepts replies (some r) left)
  unfolding operate
  operate_lem key cfg [] replies (whole, _) = elim (try_config_lem cfg key replies whole) [
    | inl wait ↦ inl (rw (wait, operate) refl)
    | inr (some r, left, e, used) ↦ inr (r, left, rw (e, operate) refl, used)
    | inr (none, left, e, used) ↦ inl (rw (e, operate) refl)
  ]
  operate_lem key cfg (next ∷ configs) replies (whole, others) =
      elim (try_config_lem cfg key replies whole) [
        | inl wait ↦ inl (rw (wait, operate) refl)
        | inr (some r, left, e, used) ↦ inr (r, left, rw (e, operate) refl, used)
        | inr (none, left, e, (before, eq, refused)) ↦
            elim (operate_lem key next configs left others) [
              | inl wait ↦ inl (rw (e, wait, operate) refl)
              | inr (r, left', run, used) ↦ inr (
                r,
                left',
                rw (e, run, operate) refl,
                rw eq (Used-after accepts before left (some r) left' refused used),
              )
            ]
      ]

-- With a group for each shard in all configurations that the shard master gives, `Get` panics for
-- no key.
get_cases :
    (key : Str) (cfg : Config) (configs : List Config) (replies : List (Option GetReply))
    → Complete (cfg ∷ configs)
    → (get key cfg configs replies ≡ waiting)
      ⊎ ((r : GetReply) × (left : List (Option GetReply)) × (get key cfg configs replies
            ≡ answered r)
          × Used get_accepts replies (some r) left)
unfolding get
get_cases key cfg configs replies = operate_lem get_accepts _ key cfg configs replies

-- The reply is of a leader and says that the key was read or is not there.
abbrev pub Final : GetReply → Type 0
Final r = (r.wrong_leader ≡ false) × ((r.err ≡ ok_err) ⊎ (r.err ≡ no_key_err))

-- Calls that failed, and replies that are neither final nor of a wrong group.
abbrev pub Useless : List (Option GetReply) → Type 0
Useless [] = Unit {0}
Useless (none ∷ replies) = Useless replies
Useless (some r ∷ replies) = (¬ Final r) × (r.err ≢ wrong_group_err) × Useless replies

refused_of : (r : GetReply) → ¬ Final r → get_accepts r ≡ false
refused_of r h = elim (Bool-cases (get_accepts r)) [
  | inl t ↦ absurd (
      h (
        ground arith,
        elim (Bool-cases (str_eq r.err ok_err)) [
          | inl ok ↦ inl ((str_eq_iff r.err ok_err).0 ok)
          | inr other ↦ inr ((str_eq_iff r.err no_key_err).0 (ground (arith, t, other)))
        ],
      ))
  | inr f ↦ f
]

here_of : (r : GetReply) → r.err ≢ wrong_group_err → str_eq r.err wrong_group_err ≡ false
here_of r h = ground (arith, h, str_eq_iff r.err wrong_group_err)

-- The servers of a group, up to the first reply that is of use.
try_group-Useless :
    (servers : List Str) (before rest : List (Option GetReply))
    → length before < length servers
    → Useless before
    → (s : Str) × (servers' : List Str) × (try_group get_accepts
          (λ r. str_eq r.err wrong_group_err)
          servers
          (before ++ rest)
        ≡ try_group get_accepts (λ r. str_eq r.err wrong_group_err) (s ∷ servers') rest)
unfolding try_group
try_group-Useless [] before rest h u = absurd (omega arith)
try_group-Useless (s ∷ servers) [] rest h u = (s, servers, refl)
try_group-Useless (s ∷ servers) (none ∷ before) rest h u =
    try_group-Useless servers before rest (omega arith) u
try_group-Useless (s ∷ servers) (some r ∷ before) rest h (n, w, u) =
    let (s', servers', e) = try_group-Useless servers before rest (omega arith) u in
    (s', servers', rw (refused_of r n, here_of r w, try_group) e)

try_config_group :
    (cfg : Config) (key : Str) (gid : ℕ) (servers : List Str) (replies : List (Option GetReply))
    → get_elem? cfg.shards (key2shard key) ≡ some gid
    → find_group cfg.groups gid ≡ some servers
    → try_config get_accepts (λ r. str_eq r.err wrong_group_err) cfg key replies
      ≡ some (try_group get_accepts (λ r. str_eq r.err wrong_group_err) servers replies)
unfolding try_config
try_config_group cfg key gid servers replies at q = rw (at, q, try_config) refl

wrong_group_differs :
    (str_eq wrong_group_err ok_err ≡ false) × (str_eq wrong_group_err no_key_err ≡ false)
unfolding str_eq
wrong_group_differs = (refl, refl)

-- A reply of a wrong group, after calls that fail and replies of no use, ends the round: `Get` goes
-- on with the next configuration of the shard master and with the replies that follow.
pub get_moves_on :
    (key : Str) (cfg next : Config) (configs : List Config) (gid : ℕ) (servers : List Str)
    (before : List (Option GetReply)) (r : GetReply) (after : List (Option GetReply))
    → get_elem? cfg.shards (key2shard key) ≡ some gid
    → find_group cfg.groups gid ≡ some servers
    → length before < length servers
    → Useless before
    → r.err ≡ wrong_group_err
    → get key cfg (next ∷ configs) (before ++ some r ∷ after) ≡ get key next configs after
unfolding get operate try_group
get_moves_on key cfg next configs gid servers before r after at q h u w =
    let (s, servers', e) = try_group-Useless servers before (some r ∷ after) h u in
    let whole = try_config_group cfg key gid servers (before ++ some r ∷ after) at q in
    let refused : get_accepts r ≡ false =
      rw (w, wrong_group_differs.0, wrong_group_differs.1) (ground arith) in
    let moved : str_eq r.err wrong_group_err ≡ true = (str_eq_iff r.err wrong_group_err).1 w in
    let ends : try_config get_accepts (λ r. str_eq r.err wrong_group_err) cfg key
          (before ++ some r ∷ after)
        ≡ some (some (none, after)) =
      whole ∙ ap some (e ∙ rw (refused, moved) refl) in
    rw (ends, operate) refl
