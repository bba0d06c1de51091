-- ===== src/Labrpc/Server.antt =====
-- mit6.824/src/labrpc/labrpc.go: servers, their services, and the dispatch of a request.
use distribute_system_lab.Prelude.{
  ℕ, ◌+◌, Bool, true, List, [], ◌∷◌, Option, none, some, ◌>>=◌, ◌==◌, if◌then◌else◌,
}
use distribute_system_lab.Prelude.Text.{Str, str_eq}

-- The sender is the name of an end-point; the channel for the reply and the type of the arguments
-- are left out.
pub record ReqMsg : Type 0 where
  pub endname : Str
  pub svc_meth : Str
  pub args : List ℕ

pub record ReplyMsg : Type 0 where
  pub ok : Bool
  pub reply : List ℕ

-- A method decodes the arguments, runs the handler on the receiver's state and encodes its reply:
-- reflection and labgob, of which only the bytes show.
abbrev pub Method : Type 0 → Type 0
Method S = S → List ℕ → S × List ℕ

pub record Service (S : Type 0) : Type 0 where
  pub name : Str
  pub rcvr : S
  pub methods : List (Str × Method S)

-- The services of a server stand under their names.
pub record Server (S : Type 0) : Type 0 where
  pub services : List (Service S)
  pub count : ℕ

module _ {S : Type 0} where
  abbrev pub make_server : Server S
  make_server = record { services = []; count = 0 }

  -- `rs.services[svc.name] = svc`.
  unfoldable pub put_service : List (Service S) → Service S → List (Service S)
  put_service [] svc = svc ∷ []
  put_service (s ∷ ss) svc =
      let rest = put_service ss svc in if str_eq s.name svc.name then svc ∷ ss else s ∷ rest

  unfoldable pub find_service : List (Service S) → Str → Option (Service S)
  find_service [] name = none
  find_service (s ∷ ss) name =
      let rest = find_service ss name in if str_eq s.name name then some s else rest

  unfoldable pub find_method : List (Str × Method S) → Str → Option (Method S)
  find_method [] name = none
  find_method ((n, m) ∷ ms) name =
      let rest = find_method ms name in if str_eq n name then some m else rest

  -- `AddService`.
  unfoldable pub add_service : Server S → Service S → Server S
  unfolding put_service
  add_service rs svc = record rs { services = put_service rs.services svc }

  -- `Service.dispatch`; a method that is missing is fatal.
  unfoldable pub service_dispatch : Service S → Str → ReqMsg → Option (Service S × ReplyMsg)
  unfolding find_method
  service_dispatch svc name req = do
    method ← find_method svc.methods name
    let out = method svc.rcvr req.args
    some (record svc { rcvr = out.0 }, record { ok = true; reply = out.1 })

-- What stands before and behind the last dot; without a dot the slice panics.
unfoldable pub split_last : ℕ → Str → Option (Str × Str)
split_last dot [] = none
split_last dot (c ∷ s) = elim (split_last dot s) [
  | some (before, behind) ↦ some (c ∷ before, behind)
  | none ↦ if c == dot then some ([], s) else none
]

module _ {S : Type 0} where
  -- `Server.dispatch`: the request is counted, and handled by its service.
  unfoldable pub server_dispatch : Server S → ReqMsg → Option (Server S × ReplyMsg)
  unfolding split_last find_service service_dispatch put_service
  server_dispatch rs req = do
    (service, method) ← split_last b'.' req.svc_meth
    svc ← find_service rs.services service
    (svc', reply) ← service_dispatch svc method req
    some (record { services = put_service rs.services svc'; count = rs.count + 1 }, reply)
