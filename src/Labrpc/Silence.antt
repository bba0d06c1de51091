-- ===== src/Labrpc/Silence.antt =====
-- mit6.824/src/labrpc/labrpc.go, `ProcessReq`: a request is handled once at most, and a server that
-- was deleted answers nothing.
use distribute_system_lab.Prelude.{
  ℕ, ◌≡◌, ◌≢◌, refl, sym, ap, subst, ◌∙◌, inl, inr, Bool, false, Bool-cases, List, [], ◌∷◌, Option,
  none, some, >>=-eq-some, arith, get_elem?, set_elem?,
}
use distribute_system_lab.Labrpc.Server.{ReqMsg, ReplyMsg, server_dispatch}
use distribute_system_lab.Labrpc.Network.{
  Network, EndInfo, same_pointer, is_server_dead, make_end, add_server, delete_server, connect,
  enable, put_name, set_reliable, set_long_reordering, set_long_delays,
}
use distribute_system_lab.Labrpc.Process.{
  Stage, arrived, waiting, given_up, delayed, answered, Handler, not_started, running, returned,
  Transit, NetEvent, look_up, handle, poll, respond, deliver, end_made, server_added,
  server_deleted, connected, enabled_set, reliable_set, long_reordering_set, long_delays_set,
  no_reply, conclude, on_look_up, on_handle, on_poll, on_respond, on_deliver, net_step, net_run,
}

-- The request has no answer but a failure, and waits for no server but this one.
abbrev pub Silent : ℕ → ℕ → Stage → Type 0
Silent name p arrived = ⊥
Silent name p (waiting n q r) = (n ≡ name) × (q ≡ p)
Silent name p given_up = Unit {0}
Silent name p (delayed reply) = ⊥
Silent name p (answered reply) = reply.ok ≡ false

-- Nobody adds this server again under its name.
abbrev pub NotAdded : ℕ → ℕ → List NetEvent → Type 0
NotAdded name p [] = Unit {0}
NotAdded name p (server_added n q ∷ es) = (n ≡ name → q ≡ p → ⊥) × NotAdded name p es
NotAdded name p (e ∷ es) = NotAdded name p es

NotAdded-cons :
    (name p : ℕ) (e : NetEvent) (es : List NetEvent)
    → NotAdded name p (e ∷ es)
    → NotAdded name p (e ∷ []) × NotAdded name p es
NotAdded-cons name p (look_up d) es a = (tt, a)
NotAdded-cons name p handle es a = (tt, a)
NotAdded-cons name p poll es a = (tt, a)
NotAdded-cons name p (respond d l) es a = (tt, a)
NotAdded-cons name p deliver es a = (tt, a)
NotAdded-cons name p (end_made e) es a = (tt, a)
NotAdded-cons name p (server_added n q) es a = ((a.0, tt), a.1)
NotAdded-cons name p (server_deleted n) es a = (tt, a)
NotAdded-cons name p (connected e n) es a = (tt, a)
NotAdded-cons name p (enabled_set e on) es a = (tt, a)
NotAdded-cons name p (reliable_set on) es a = (tt, a)
NotAdded-cons name p (long_reordering_set on) es a = (tt, a)
NotAdded-cons name p (long_delays_set on) es a = (tt, a)

different : (o : Option ℕ) (p : ℕ) → o ≢ some p → same_pointer o (some p) ≡ false
different none p h = refl
different (some q) p h = ground (arith, h)

module _ {S : Type 0} (req : ReqMsg) (name p : ℕ) where
  -- The server is not registered, and the request is silent.
  record Quiet (t : Transit S) : Type 0 where
    gone : t.net.servers name ≢ some p
    silent : Silent name p t.stage

  on_poll-Quiet :
      (t : Transit S) (st : Stage) {t' : Transit S}
      → t.stage ≡ st
      → on_poll req t st ≡ some t'
      → Quiet t
      → Quiet t'
  unfolding on_poll
  on_poll-Quiet t arrived e h q = absurd (ground arith)
  on_poll-Quiet t (waiting n m r) e h q = elim (Bool-cases (is_server_dead t.net req.endname n m)) [
    | inl d ↦
        let after : Quiet (record t { stage = given_up }) = record { gone = q.gone; silent = tt } in
        subst Quiet (ground (arith, d)) after
    | inr a ↦ subst Quiet (ground (arith, a)) q
  ]
  on_poll-Quiet t given_up e h q = absurd (ground arith)
  on_poll-Quiet t (delayed r) e h q = absurd (ground arith)
  on_poll-Quiet t (answered r) e h q = absurd (ground arith)

  conclude-gone :
      (rn : Network S) (r : EndInfo) (reply : ReplyMsg) (drop late : Bool)
      → rn.servers name ≢ some p
      → conclude req rn name p r reply drop late ≡ answered no_reply
  unfolding conclude is_server_dead
  conclude-gone rn r reply drop late h = ground (arith, different (rn.servers name) p h)

  on_respond-Quiet :
      (t : Transit S) (st : Stage) (hd : Handler) (drop late : Bool) {t' : Transit S}
      → Silent name p st
      → on_respond req t st hd drop late ≡ some t'
      → Quiet t
      → Quiet t'
  unfolding on_respond
  on_respond-Quiet t arrived hd drop late s h q = absurd s
  on_respond-Quiet t (waiting n m r) not_started drop late s h q = absurd (ground arith)
  on_respond-Quiet t (waiting n m r) (running k) drop late s h q = absurd (ground arith)
  on_respond-Quiet t (waiting n m r) (returned reply) drop late (en, em) h q =
      let last : Stage = conclude req t.net n m r reply drop late in
      let fails : last ≡ answered no_reply =
        ap (λ k. conclude req t.net k m r reply drop late) en
        ∙ ap (λ k. conclude req t.net name k r reply drop late) em
        ∙ conclude-gone t.net r reply drop late q.gone in
      let after : Quiet (record t { stage = last }) = record {
        gone = q.gone;
        silent = subst (Silent name p) (sym fails) refl;
      } in
      subst Quiet (ground arith) after
  on_respond-Quiet t given_up hd drop late s h q =
      let after : Quiet (record t { stage = answered no_reply }) = record {
        gone = q.gone;
        silent = refl;
      } in
      subst Quiet (ground arith) after
  on_respond-Quiet t (delayed r) hd drop late s h q = absurd s
  on_respond-Quiet t (answered r) hd drop late s h q = absurd (ground arith)

  on_handle-Quiet :
      (t : Transit S) (hd : Handler) {t' : Transit S}
      → on_handle req t hd ≡ some t'
      → Quiet t
      → Quiet t'
  unfolding on_handle
  on_handle-Quiet t not_started h q = absurd (ground arith)
  on_handle-Quiet t (running k) h q =
      let (server, e, h1) = >>=-eq-some (get_elem? t.net.store k) _ h in
      let ((server', reply), e', h2) = >>=-eq-some (server_dispatch server req) _ h1 in
      let (store, e'', h3) = >>=-eq-some (set_elem? t.net.store k server') _ h2 in
      let after : Quiet
          (record t { net = record (t.net) { store = store }; handler = returned reply }) =
        record { gone = q.gone; silent = q.silent } in
      subst Quiet (ground arith) after
  on_handle-Quiet t (returned r) h q = absurd (ground arith)

  on_look_up-Quiet :
      (t : Transit S) (st : Stage) (drop : Bool) {t' : Transit S}
      → Silent name p st
      → on_look_up req t st drop ≡ some t'
      → Quiet t'
  unfolding on_look_up
  on_look_up-Quiet t arrived drop s h = absurd s
  on_look_up-Quiet t (waiting n m r) drop s h = absurd (ground arith)
  on_look_up-Quiet t given_up drop s h = absurd (ground arith)
  on_look_up-Quiet t (delayed r) drop s h = absurd s
  on_look_up-Quiet t (answered r) drop s h = absurd (ground arith)

  on_deliver-Quiet :
      (t : Transit S) (st : Stage) {t' : Transit S}
      → Silent name p st
      → on_deliver req t st ≡ some t'
      → Quiet t'
  unfolding on_deliver
  on_deliver-Quiet t arrived s h = absurd s
  on_deliver-Quiet t (waiting n m r) s h = absurd (ground arith)
  on_deliver-Quiet t given_up s h = absurd (ground arith)
  on_deliver-Quiet t (delayed r) s h = absurd s
  on_deliver-Quiet t (answered r) s h = absurd (ground arith)

  -- An operation on the network leaves the request as it is.
  net_op-Quiet :
      (t : Transit S) (rn : Network S) {t' : Transit S}
      → some (record t { net = rn }) ≡ some t'
      → rn.servers name ≢ some p
      → Quiet t
      → Quiet t'
  net_op-Quiet t rn h g q =
      let after : Quiet (record t { net = rn }) = record { gone = g; silent = q.silent } in
      subst Quiet (ground arith) after

  net_step-Quiet :
      (t : Transit S) (e : NetEvent) {t' : Transit S}
      → NotAdded name p (e ∷ [])
      → net_step req t e ≡ some t'
      → Quiet t
      → Quiet t'
  unfolding net_step make_end add_server delete_server connect enable set_reliable
      set_long_reordering set_long_delays put_name
  net_step-Quiet t (look_up drop) a h q = on_look_up-Quiet t t.stage drop q.silent h
  net_step-Quiet t handle a h q = on_handle-Quiet t t.handler h q
  net_step-Quiet t poll a h q = on_poll-Quiet t t.stage refl h q
  net_step-Quiet t (respond drop late) a h q =
      on_respond-Quiet t t.stage t.handler drop late q.silent h q
  net_step-Quiet t deliver a h q = on_deliver-Quiet t t.stage q.silent h
  net_step-Quiet t (end_made e) a h q =
      let (rn, he, h') = >>=-eq-some (make_end t.net e) _ h in
      net_op-Quiet t rn h' (λ g. q.gone (ground arith)) q
  net_step-Quiet t (server_added n m) a h q =
      net_op-Quiet t (add_server t.net n m) h (λ g. ground (arith, a.0, q.gone)) q
  net_step-Quiet t (server_deleted n) a h q =
      net_op-Quiet t (delete_server t.net n) h (λ g. ground (arith, q.gone)) q
  net_step-Quiet t (connected e n) a h q = net_op-Quiet t (connect t.net e n) h q.gone q
  net_step-Quiet t (enabled_set e on) a h q = net_op-Quiet t (enable t.net e on) h q.gone q
  net_step-Quiet t (reliable_set on) a h q = net_op-Quiet t (set_reliable t.net on) h q.gone q
  net_step-Quiet t (long_reordering_set on) a h q =
      net_op-Quiet t (set_long_reordering t.net on) h q.gone q
  net_step-Quiet t (long_delays_set on) a h q = net_op-Quiet t (set_long_delays t.net on) h q.gone q

  net_run-Quiet :
      (t : Transit S) (es : List NetEvent) {t' : Transit S}
      → NotAdded name p es
      → net_run req t es ≡ some t'
      → Quiet t
      → Quiet t'
  unfolding net_run
  net_run-Quiet t [] a h q = subst Quiet (ground arith) q
  net_run-Quiet t (e ∷ es) a h q =
      let (one, others) = NotAdded-cons name p e es a in
      let (t1, h1, h2) = >>=-eq-some (net_step req t e) _ h in
      net_run-Quiet t1 es others h2 (net_step-Quiet t e one h1 q)

  -- Once `DeleteServer` has been called for the server that a request waits for, and until that
  -- server is added again, the request gets no reply but a failure, whatever else happens and
  -- even if the handler has already returned one.
  pub deleted_is_silent :
      (t : Transit S) (info : EndInfo) (es : List NetEvent) {t' : Transit S} {reply : ReplyMsg}
      → t.stage ≡ waiting name p info
      → NotAdded name p es
      → net_run req (record t { net = delete_server t.net name }) es ≡ some t'
      → t'.stage ≡ answered reply
      → reply.ok ≡ false
  unfolding delete_server put_name
  deleted_is_silent t info es {t'} {reply} w a h e =
      let gone : Quiet (record t { net = delete_server t.net name }) = record {
        gone = λ g. ground arith;
        silent = subst (Silent name p) (sym w) (refl, refl);
      } in
      subst (Silent name p) e
        (net_run-Quiet (record t { net = delete_server t.net name }) es a h gone).silent
