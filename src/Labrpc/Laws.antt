-- ===== src/Labrpc/Laws.antt =====
-- mit6.824/src/labrpc/labrpc.go: who handles a request, how often, and who may answer it.
use distribute_system_lab.Prelude.{
  ◌+◌, ◌≡◌, ◌≢◌, refl, ap, ◌∙◌, true, List, [], ◌∷◌, ◌++◌, none, some, ◌>>=◌, arith, if◌then◌else◌,
}
use distribute_system_lab.Prelude.Text.{Str, str_eq, str_eq_refl, str_eq_iff}
use distribute_system_lab.Labrpc.Server.{
  ReqMsg, Method, Service, Server, put_service, find_service, find_method, add_service,
  service_dispatch, split_last, server_dispatch,
}

-- No byte of the text is a dot.
abbrev pub NoDot : Str → Type 0
NoDot [] = Unit {0}
NoDot (c ∷ s) = (c ≢ b'.') × NoDot s

split_last-none : (s : Str) → NoDot s → split_last b'.' s ≡ none
unfolding split_last
split_last-none [] h = refl
split_last-none (c ∷ s) h = rw (split_last-none s h.1) (ground (arith, h.0))

split_last-append : (a b : Str) → NoDot b → split_last b'.' (a ++ (b'.' ∷ b)) ≡ some (a, b)
unfolding split_last
split_last-append [] b h = rw (split_last-none b h) refl
split_last-append (c ∷ a) b h = rw (split_last-append a b h) refl

module _ {S : Type 0} where
  find_service-put_service :
      (ss : List (Service S)) (svc : Service S) (name : Str)
      → find_service (put_service ss svc) name
        ≡ (if str_eq svc.name name then some svc else find_service ss name)
  unfolding find_service put_service
  find_service-put_service [] svc name = refl
  find_service-put_service (s ∷ ss) svc name = ground (
    arith,
    str_eq_iff s.name svc.name,
    str_eq_iff s.name name,
    str_eq_iff svc.name name,
    find_service-put_service ss svc name,
  )

  -- A server to which a service was added hands a request for "service.method" to that method of
  -- it, with the request's bytes, and answers with what it returns. The service keeps the state
  -- that the method leaves, the other services are as before, and the request is counted.
  pub dispatch-add_service :
      (rs : Server S) (svc : Service S) (meth : Str) (m : Method S) (req : ReqMsg)
      → NoDot meth
      → req.svc_meth ≡ svc.name ++ (b'.' ∷ meth)
      → find_method svc.methods meth ≡ some m
      → (rs' : Server S) × (server_dispatch (add_service rs svc) req
          ≡ some (rs', record { ok = true; reply = (m svc.rcvr req.args).1 }))
        × (rs'.count ≡ rs.count + 1)
        × ((name : Str)
            → find_service rs'.services name ≡ (
                if str_eq svc.name name
                then some (record svc { rcvr = (m svc.rcvr req.args).0 })
                else find_service rs.services name))
  unfolding server_dispatch add_service service_dispatch
  dispatch-add_service rs svc meth m req h e q =
      let after = record svc { rcvr = (m svc.rcvr req.args).0 } in
      let ss = put_service rs.services svc in
      let found : find_service ss svc.name ≡ some svc =
        find_service-put_service rs.services svc svc.name ∙ rw (str_eq_refl svc.name) refl in
      let parts : split_last b'.' req.svc_meth ≡ some (svc.name, meth) =
        ap (split_last b'.') e ∙ split_last-append svc.name meth h in
      (
        record { services = put_service ss after; count = rs.count + 1 },
        rw (parts, ◌>>=◌) (rw (found, ◌>>=◌) (rw (q, ◌>>=◌) refl)),
        refl,
        λ name.
            find_service-put_service ss after name
            ∙ ground (arith, find_service-put_service rs.services svc name),
      )
