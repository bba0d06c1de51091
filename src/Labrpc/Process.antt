-- ===== src/Labrpc/Process.antt =====
-- mit6.824/src/labrpc/labrpc.go, `ProcessReq`: one request on its way, among other events.
use distribute_system_lab.Prelude.{
  ℕ, ◌+◌, Bool, false, not, ◌&&◌, List, [], ◌∷◌, Option, none, some, ◌>>=◌, get_elem?, set_elem?,
  if◌then◌else◌,
}
use distribute_system_lab.Prelude.Text.{Str}
use distribute_system_lab.Labrpc.Server.{ReqMsg, ReplyMsg, server_dispatch}
use distribute_system_lab.Labrpc.Network.{
  Network, EndInfo, read_endname_info, is_server_dead, make_end, add_server, delete_server, connect,
  enable, set_reliable, set_long_reordering, set_long_delays,
}

-- Where the goroutine of a request stands: waiting, it knows the server's name and pointer, and
-- what it has read of the network.
pub data Stage : Type 0 where
  arrived : Stage
  waiting : ℕ → ℕ → EndInfo → Stage
  given_up : Stage  -- its server was found dead
  delayed : ReplyMsg → Stage  -- its reply is kept for a while
  answered : ReplyMsg → Stage

-- Where the goroutine stands that it starts for the handler.
pub data Handler : Type 0 where
  not_started : Handler
  running : ℕ → Handler
  returned : ReplyMsg → Handler

pub record Transit (S : Type 0) : Type 0 where
  pub net : Network S
  pub stage : Stage
  pub handler : Handler

-- The steps of the goroutine, with the outcomes of its random draws, and the operations on the
-- network that the tester may do at any time. Delays only take time.
pub data NetEvent : Type 0 where
  look_up : Bool → NetEvent  -- does an unreliable network drop the request?
  handle : NetEvent
  poll : NetEvent  -- 100 milliseconds without a reply of the handler
  respond : Bool → Bool → NetEvent  -- is the reply dropped, or else delayed, where it may be?
  deliver : NetEvent  -- a delayed reply is sent
  end_made : Str → NetEvent
  server_added : ℕ → ℕ → NetEvent
  server_deleted : ℕ → NetEvent
  connected : Str → ℕ → NetEvent
  enabled_set : Str → Bool → NetEvent
  reliable_set long_reordering_set long_delays_set : Bool → NetEvent

-- `replyMsg{false, nil}`.
abbrev pub no_reply : ReplyMsg
no_reply = record { ok = false; reply = [] }

-- Whether a request is served, and by which server.
unfoldable pub serve : EndInfo → Bool → ℕ → Option ℕ → Stage × Handler
serve info drop name none = (answered no_reply, not_started)
serve info drop name (some server) =
    if info.enabled
    then (if not info.reliable && drop
        then (answered no_reply, not_started)
        else (waiting name server info, running server))
    else (answered no_reply, not_started)

unfoldable pub route : EndInfo → Option ℕ → Bool → Stage × Handler
unfolding serve
route info none drop = (answered no_reply, not_started)
route info (some name) drop = serve info drop name info.server

module _ {S : Type 0} (req : ReqMsg) where
  -- After the loop that waits for the handler, which has returned a reply.
  unfoldable pub conclude : Network S → ℕ → ℕ → EndInfo → ReplyMsg → Bool → Bool → Stage
  conclude rn name server info reply drop late =
      if is_server_dead rn req.endname name server
      then answered no_reply
      else if not info.reliable && drop
      then answered no_reply
      else if info.long_reordering && late
      then delayed reply
      else answered reply

  -- The request is counted, and its end-point looked up.
  unfoldable pub on_look_up : Transit S → Stage → Bool → Option (Transit S)
  unfolding route read_endname_info
  on_look_up t arrived drop =
      let info = read_endname_info t.net req.endname in
      let (stage, handler) = route info info.servername drop in
      some (record {
        net = record (t.net) { count = t.net.count + 1 };
        stage = stage;
        handler = handler;
      })
  on_look_up t stage drop = none

  unfoldable pub on_handle : Transit S → Handler → Option (Transit S)
  on_handle t (running p) = do
    server ← get_elem? t.net.store p
    (server', reply) ← server_dispatch server req
    store ← set_elem? t.net.store p server'
    some (record t { net = record (t.net) { store = store }; handler = returned reply })
  on_handle t handler = none

  unfoldable pub on_poll : Transit S → Stage → Option (Transit S)
  unfolding is_server_dead
  on_poll t (waiting name p info) =
      some (if is_server_dead t.net req.endname name p then record t { stage = given_up } else t)
  on_poll t stage = none

  unfoldable pub on_respond : Transit S → Stage → Handler → Bool → Bool → Option (Transit S)
  unfolding conclude
  on_respond t (waiting name p info) (returned reply) drop late =
      some (record t { stage = conclude t.net name p info reply drop late })
  on_respond t given_up handler drop late = some (record t { stage = answered no_reply })
  on_respond t stage handler drop late = none

  -- What the timer of a delayed reply does.
  unfoldable pub on_deliver : Transit S → Stage → Option (Transit S)
  on_deliver t (delayed reply) = some (record t { stage = answered reply })
  on_deliver t stage = none

  unfoldable pub net_step : Transit S → NetEvent → Option (Transit S)
  unfolding on_look_up on_handle on_poll on_respond on_deliver make_end add_server delete_server
      connect enable set_reliable set_long_reordering set_long_delays
  net_step t (look_up drop) = on_look_up t t.stage drop
  net_step t handle = on_handle t t.handler
  net_step t poll = on_poll t t.stage
  net_step t (respond drop late) = on_respond t t.stage t.handler drop late
  net_step t deliver = on_deliver t t.stage
  net_step t (end_made e) = do net ← make_end t.net e; some (record t { net = net })
  net_step t (server_added name p) = some (record t { net = add_server t.net name p })
  net_step t (server_deleted name) = some (record t { net = delete_server t.net name })
  net_step t (connected e name) = some (record t { net = connect t.net e name })
  net_step t (enabled_set e on) = some (record t { net = enable t.net e on })
  net_step t (reliable_set on) = some (record t { net = set_reliable t.net on })
  net_step t (long_reordering_set on) = some (record t { net = set_long_reordering t.net on })
  net_step t (long_delays_set on) = some (record t { net = set_long_delays t.net on })

  unfoldable pub net_run : Transit S → List NetEvent → Option (Transit S)
  unfolding net_step
  net_run t [] = some t
  net_run t (e ∷ es) = do t' ← net_step t e; net_run t' es
