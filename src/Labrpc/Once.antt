-- ===== src/Labrpc/Once.antt =====
-- mit6.824/src/labrpc/labrpc.go, `ProcessReq`: a request is handled at most once, and an answer is
-- what its handler returned.
use distribute_system_lab.Prelude.{
  ℕ, suc, ◌+◌, ◌≡◌, ◌≤◌, refl, sym, ap, subst, inl, inr, Bool, true, not, ◌&&◌, Bool-cases, List,
  [], ◌∷◌, Option, none, some, >>=-eq-some, arith, get_elem?, set_elem?,
}
use distribute_system_lab.Labrpc.Server.{ReqMsg, ReplyMsg, server_dispatch}
use distribute_system_lab.Labrpc.Network.{
  Network, EndInfo, read_endname_info, is_server_dead, make_end,
}
use distribute_system_lab.Labrpc.Process.{
  Stage, arrived, waiting, given_up, delayed, answered, Handler, not_started, running, returned,
  Transit, NetEvent, look_up, handle, poll, respond, deliver, end_made, server_added,
  server_deleted, connected, enabled_set, reliable_set, long_reordering_set, long_delays_set,
  no_reply, serve, route, conclude, on_look_up, on_handle, on_poll, on_respond, on_deliver,
  net_step, net_run,
}

-- How often the handler has run.
abbrev pub handled : List NetEvent → ℕ
handled [] = 0
handled (handle ∷ es) = suc (handled es)
handled (e ∷ es) = handled es

abbrev pub spent : Handler → ℕ
spent not_started = 0
spent (running p) = 0
spent (returned reply) = 1

-- Before the look-up no handler runs; a positive answer, delayed or not, is the handler's.
abbrev Fits : Stage → Handler → Type 0
Fits arrived hd = hd ≡ not_started
Fits (waiting n p r) hd = Unit {0}
Fits given_up hd = Unit {0}
Fits (delayed reply) hd = reply.ok ≡ true → hd ≡ returned reply
Fits (answered reply) hd = reply.ok ≡ true → hd ≡ returned reply

serve-Fits :
    (info : EndInfo) (drop : Bool) (name : ℕ) (server : Option ℕ)
    → let out = serve info drop name server in Fits out.0 out.1 × (spent out.1 ≡ 0)
unfolding serve
serve-Fits info drop name none = (λ h. absurd (ground arith), refl)
serve-Fits info drop name (some p) = elim (Bool-cases (info.enabled)) [
  | inl on ↦ elim (Bool-cases (not info.reliable && drop)) [
    | inl lost ↦ rw (on, lost) (λ h. absurd (ground arith), refl)
    | inr kept ↦ rw (on, kept) (tt, refl)
  ]
  | inr off ↦ rw off (λ h. absurd (ground arith), refl)
]

route-Fits :
    (info : EndInfo) (name : Option ℕ) (drop : Bool)
    → let out = route info name drop in Fits out.0 out.1 × (spent out.1 ≡ 0)
unfolding route
route-Fits info none drop = (λ h. absurd (ground arith), refl)
route-Fits info (some name) drop = serve-Fits info drop name info.server

handled_cons :
    (e : NetEvent) (es : List NetEvent) → handled (e ∷ es) ≡ handled (e ∷ []) + handled es
handled_cons (look_up d) es = omega arith
handled_cons handle es = omega arith
handled_cons poll es = omega arith
handled_cons (respond d l) es = omega arith
handled_cons deliver es = omega arith
handled_cons (end_made e) es = omega arith
handled_cons (server_added n q) es = omega arith
handled_cons (server_deleted n) es = omega arith
handled_cons (connected e n) es = omega arith
handled_cons (enabled_set e on) es = omega arith
handled_cons (reliable_set on) es = omega arith
handled_cons (long_reordering_set on) es = omega arith
handled_cons (long_delays_set on) es = omega arith

Fits-returned :
    (st : Stage) (p : ℕ) (reply : ReplyMsg) → Fits st (running p) → Fits st (returned reply)
Fits-returned arrived p reply f = absurd (ground arith)
Fits-returned (waiting m q r) p reply f = tt
Fits-returned given_up p reply f = tt
Fits-returned (delayed r) p reply f = λ h. absurd (ground (arith, f h))
Fits-returned (answered r) p reply f = λ h. absurd (ground (arith, f h))

spent_le : (hd : Handler) → spent hd ≤ 1
spent_le not_started = omega arith
spent_le (running p) = omega arith
spent_le (returned r) = omega arith

module _ {S : Type 0} (req : ReqMsg) where
  -- What has become of the request after some events, of which `n` ran its handler.
  record Moved (n : ℕ) (t : Transit S) : Type 0 where
    fits : Fits t.stage t.handler
    runs : spent t.handler ≡ n

  on_look_up-Moved :
      (t : Transit S) (st : Stage) (drop : Bool) (n : ℕ) {t' : Transit S}
      → t.stage ≡ st
      → on_look_up req t st drop ≡ some t'
      → Moved n t
      → Moved n t'
  unfolding on_look_up
  on_look_up-Moved t arrived drop n e h v =
      let info = read_endname_info t.net req.endname in
      let (f, r) = route-Fits info info.servername drop in
      let idle : t.handler ≡ not_started = subst (λ s. Fits s t.handler) e v.fits in
      let after : Moved n (record {
        net = record (t.net) { count = t.net.count + 1 };
        stage = (route info info.servername drop).0;
        handler = (route info info.servername drop).1;
      }) =
        record { fits = f; runs = omega (arith, r, v.runs, ap spent idle) } in
      subst (Moved n) (ground arith) after
  on_look_up-Moved t (waiting m p r) drop n e h v = absurd (ground arith)
  on_look_up-Moved t given_up drop n e h v = absurd (ground arith)
  on_look_up-Moved t (delayed r) drop n e h v = absurd (ground arith)
  on_look_up-Moved t (answered r) drop n e h v = absurd (ground arith)

  on_handle-Moved :
      (t : Transit S) (hd : Handler) (n : ℕ) {t' : Transit S}
      → t.handler ≡ hd
      → on_handle req t hd ≡ some t'
      → Moved n t
      → Moved (n + 1) t'
  unfolding on_handle
  on_handle-Moved t not_started n e h v = absurd (ground arith)
  on_handle-Moved t (running p) n e h v =
      let (server, e1, h1) = >>=-eq-some (get_elem? t.net.store p) _ h in
      let ((server', reply), e2, h2) = >>=-eq-some (server_dispatch server req) _ h1 in
      let (store, e3, h3) = >>=-eq-some (set_elem? t.net.store p server') _ h2 in
      let after : Moved (n + 1)
          (record t { net = record (t.net) { store = store }; handler = returned reply }) =
        record {
          fits = Fits-returned t.stage p reply (subst (Fits t.stage) e v.fits);
          runs = omega (arith, v.runs, ap spent e);
        } in
      subst (Moved (n + 1)) (ground arith) after
  on_handle-Moved t (returned r) n e h v = absurd (ground arith)

  on_poll-Moved :
      (t : Transit S) (st : Stage) (n : ℕ) {t' : Transit S}
      → on_poll req t st ≡ some t'
      → Moved n t
      → Moved n t'
  unfolding on_poll
  on_poll-Moved t arrived n h v = absurd (ground arith)
  on_poll-Moved t (waiting m p r) n h v = elim (Bool-cases (is_server_dead t.net req.endname m p)) [
    | inl d ↦
        let after : Moved n (record t { stage = given_up }) = record { fits = tt; runs = v.runs } in
        subst (Moved n) (ground (arith, d)) after
    | inr a ↦ subst (Moved n) (ground (arith, a)) v
  ]
  on_poll-Moved t given_up n h v = absurd (ground arith)
  on_poll-Moved t (delayed r) n h v = absurd (ground arith)
  on_poll-Moved t (answered r) n h v = absurd (ground arith)

  conclude-Fits :
      (rn : Network S) (m p : ℕ) (info : EndInfo) (reply : ReplyMsg) (drop late : Bool)
      → Fits (conclude req rn m p info reply drop late) (returned reply)
  unfolding conclude
  conclude-Fits rn m p info reply drop late =
      elim (Bool-cases (is_server_dead rn req.endname m p)) [
        | inl d ↦ rw d (λ ok. absurd (ground arith))
        | inr a ↦ elim (Bool-cases (not info.reliable && drop)) [
          | inl d ↦ rw (a, d) (λ ok. absurd (ground arith))
          | inr k ↦ elim (Bool-cases (info.long_reordering && late)) [
            | inl l ↦ rw (a, k, l) (λ ok. refl)
            | inr l ↦ rw (a, k, l) (λ ok. refl)
          ]
        ]
      ]

  on_respond-Moved :
      (t : Transit S) (st : Stage) (hd : Handler) (drop late : Bool) (n : ℕ) {t' : Transit S}
      → t.handler ≡ hd
      → on_respond req t st hd drop late ≡ some t'
      → Moved n t
      → Moved n t'
  unfolding on_respond
  on_respond-Moved t arrived hd drop late n e h v = absurd (ground arith)
  on_respond-Moved t (waiting m p r) not_started drop late n e h v = absurd (ground arith)
  on_respond-Moved t (waiting m p r) (running k) drop late n e h v = absurd (ground arith)
  on_respond-Moved t (waiting m p r) (returned reply) drop late n e h v =
      let out = conclude req t.net m p r reply drop late in
      let after : Moved n (record t { stage = out }) = record {
        fits = subst (Fits out) (sym e) (conclude-Fits t.net m p r reply drop late);
        runs = v.runs;
      } in
      subst (Moved n) (ground arith) after
  on_respond-Moved t given_up hd drop late n e h v =
      let after : Moved n (record t { stage = answered no_reply }) = record {
        fits = λ ok. absurd (ground arith);
        runs = v.runs;
      } in
      subst (Moved n) (ground arith) after
  on_respond-Moved t (delayed r) hd drop late n e h v = absurd (ground arith)
  on_respond-Moved t (answered r) hd drop late n e h v = absurd (ground arith)

  on_deliver-Moved :
      (t : Transit S) (st : Stage) (n : ℕ) {t' : Transit S}
      → t.stage ≡ st
      → on_deliver req t st ≡ some t'
      → Moved n t
      → Moved n t'
  unfolding on_deliver
  on_deliver-Moved t arrived n e h v = absurd (ground arith)
  on_deliver-Moved t (waiting m p r) n e h v = absurd (ground arith)
  on_deliver-Moved t given_up n e h v = absurd (ground arith)
  on_deliver-Moved t (delayed reply) n e h v =
      let after : Moved n (record t { stage = answered reply }) = record {
        fits = λ ok. subst (λ s. Fits s t.handler) e v.fits ok;
        runs = v.runs;
      } in
      subst (Moved n) (ground arith) after
  on_deliver-Moved t (answered r) n e h v = absurd (ground arith)

  net_op-Moved :
      (t : Transit S) (rn : Network S) (n : ℕ) {t' : Transit S}
      → some (record t { net = rn }) ≡ some t'
      → Moved n t
      → Moved n t'
  net_op-Moved t rn n h v =
      let after : Moved n (record t { net = rn }) = record { fits = v.fits; runs = v.runs } in
      subst (Moved n) (ground arith) after

  keep : {n : ℕ} {t : Transit S} → Moved n t → Moved (n + 0) t
  keep {n} {t} v = subst (λ k. Moved k t) (omega arith) v

  net_step-Moved :
      (t : Transit S) (e : NetEvent) (n : ℕ) {t' : Transit S}
      → net_step req t e ≡ some t'
      → Moved n t
      → Moved (n + handled (e ∷ [])) t'
  unfolding net_step
  net_step-Moved t handle n h v = on_handle-Moved t t.handler n refl h v
  net_step-Moved t (look_up drop) n h v = keep (on_look_up-Moved t t.stage drop n refl h v)
  net_step-Moved t poll n h v = keep (on_poll-Moved t t.stage n h v)
  net_step-Moved t (respond drop late) n h v =
      keep (on_respond-Moved t t.stage t.handler drop late n refl h v)
  net_step-Moved t deliver n h v = keep (on_deliver-Moved t t.stage n refl h v)
  net_step-Moved t (end_made e) n h v =
      let (rn, he, h') = >>=-eq-some (make_end t.net e) _ h in keep (net_op-Moved t rn n h' v)
  net_step-Moved t (server_added m q) n h v = keep (net_op-Moved t _ n h v)
  net_step-Moved t (server_deleted m) n h v = keep (net_op-Moved t _ n h v)
  net_step-Moved t (connected e m) n h v = keep (net_op-Moved t _ n h v)
  net_step-Moved t (enabled_set e on) n h v = keep (net_op-Moved t _ n h v)
  net_step-Moved t (reliable_set on) n h v = keep (net_op-Moved t _ n h v)
  net_step-Moved t (long_reordering_set on) n h v = keep (net_op-Moved t _ n h v)
  net_step-Moved t (long_delays_set on) n h v = keep (net_op-Moved t _ n h v)

  net_run-Moved :
      (t : Transit S) (es : List NetEvent) (n : ℕ) {t' : Transit S}
      → net_run req t es ≡ some t'
      → Moved n t
      → Moved (n + handled es) t'
  unfolding net_run
  net_run-Moved t [] n h v = subst (Moved (n + 0)) (ground arith) (keep v)
  net_run-Moved t (e ∷ es) n {t'} h v =
      let (t1, h1, h2) = >>=-eq-some (net_step req t e) _ h in
      let w = net_run-Moved t1 es (n + handled (e ∷ [])) h2 (net_step-Moved t e n h1 v) in
      subst (λ k. Moved k t') (omega (arith, handled_cons e es)) w

  -- Whatever happens to the network meanwhile, the handler of a request runs at most once; and if
  -- the request is answered with success, the handler has run once, and the answer is what it
  -- returned.
  pub answered_once :
      (rn : Network S) (es : List NetEvent) {t : Transit S}
      → net_run req (record { net = rn; stage = arrived; handler = not_started }) es ≡ some t
      → (handled es ≤ 1)
        × ((reply : ReplyMsg)
            → t.stage ≡ answered reply
            → reply.ok ≡ true
            → (handled es ≡ 1) × (t.handler ≡ returned reply))
  answered_once rn es {t} h =
      let t0 : Transit S = record { net = rn; stage = arrived; handler = not_started } in
      let v = net_run-Moved t0 es 0 h (record { fits = refl; runs = refl }) in
      (
        omega (arith, v.runs, spent_le t.handler),
        λ reply e ok.
            let back : t.handler ≡ returned reply = subst (λ s. Fits s t.handler) e v.fits ok in
            (omega (arith, v.runs, ap spent back), back),
      )
