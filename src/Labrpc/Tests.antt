-- ===== src/Labrpc/Tests.antt =====
-- The theorems about the simulated network at concrete inputs.
use distribute_system_lab.Prelude.{
  ℕ, ◌+◌, ◌≡◌, ◌≤◌, refl, true, false, [], ◌∷◌, some, arith, if◌then◌else◌,
}
use distribute_system_lab.Prelude.Text.{Str, str_eq}
use distribute_system_lab.Labrpc.Server.{
  ReqMsg, ReplyMsg, Method, Service, Server, make_server, put_service, find_service, find_method,
  add_service, service_dispatch, split_last, server_dispatch,
}
use distribute_system_lab.Labrpc.Network.{
  Network, EndInfo, put_end, put_name, make_network, read_endname_info, is_server_dead, add_server,
  delete_server, connect, enable,
}
use distribute_system_lab.Labrpc.Process.{
  arrived, waiting, answered, not_started, running, returned, Transit, look_up, handle, respond,
  serve, route, conclude, on_look_up, on_handle, on_respond, net_step, net_run, no_reply,
}
use distribute_system_lab.Labrpc.Laws.{dispatch-add_service}
use distribute_system_lab.Labrpc.Silence.{deleted_is_silent}
use distribute_system_lab.Labrpc.Once.{answered_once}

-- A service "A" whose method "b" counts its calls and sends the arguments back.
abbrev echo : Method ℕ
echo n args = (n + 1, args)

abbrev counter : Service ℕ
counter = record { name = b'A' ∷ []; rcvr = 0; methods = (b'b' ∷ [], echo) ∷ [] }

abbrev call_b : ReqMsg
call_b = record { endname = b'e' ∷ []; svc_meth = b'A' ∷ b'.' ∷ b'b' ∷ []; args = 7 ∷ [] }

echo_found : find_method counter.methods (b'b' ∷ []) ≡ some echo
unfolding find_method str_eq
echo_found = refl

dispatch-add_service_example :
    (rs' : Server ℕ) × (server_dispatch (add_service make_server counter) call_b
      ≡ some (rs', record { ok = true; reply = 7 ∷ [] }))
    × (rs'.count ≡ 0 + 1)
    × ((name : Str)
        → find_service rs'.services name ≡ (
            if str_eq counter.name name
            then some (record counter { rcvr = 0 + 1 })
            else find_service [] name))
dispatch-add_service_example =
    dispatch-add_service make_server counter (b'b' ∷ []) echo call_b ((λ e. ground arith), tt) refl
      echo_found

-- End-point "e" is connected to server 0, which has the service, and enabled.
abbrev small_net : Network ℕ
small_net =
    enable
      (connect (add_server (make_network (add_service make_server counter ∷ [])) 0 0) (b'e' ∷ []) 0)
      (b'e' ∷ []) true

answered_run :
    net_run call_b
      (record { net = small_net; stage = arrived; handler = not_started })
      (look_up false ∷ handle ∷ respond false false ∷ [])
    ≡ some (record {
      net = record small_net {
        count = 1;
        store = record { services = record counter { rcvr = 1 } ∷ []; count = 1 } ∷ [];
      };
      stage = answered (record { ok = true; reply = 7 ∷ [] });
      handler = returned (record { ok = true; reply = 7 ∷ [] });
    })
unfolding net_run net_step on_look_up on_handle on_respond route serve read_endname_info conclude
    is_server_dead enable connect add_server make_network add_service put_service put_end put_name
    server_dispatch split_last find_service find_method service_dispatch str_eq
answered_run = refl

answered_once_example :
    ◌≤◌ 1 1
    × ((reply : ReplyMsg)
        → answered (record { ok = true; reply = 7 ∷ [] }) ≡ answered reply
        → reply.ok ≡ true
        → ◌≡◌ {A = ℕ} 1 1 × (returned (record { ok = true; reply = 7 ∷ [] }) ≡ returned reply))
answered_once_example =
    answered_once call_b small_net (look_up false ∷ handle ∷ respond false false ∷ []) answered_run

-- The request waits for the server, which is deleted before its handler runs.
abbrev info_e : EndInfo
info_e = read_endname_info small_net (b'e' ∷ [])

abbrev on_the_way : Transit ℕ
on_the_way = record { net = small_net; stage = waiting 0 0 info_e; handler = running 0 }

silent_run :
    net_run call_b
      (record on_the_way { net = delete_server small_net 0 })
      (handle ∷ respond false false ∷ [])
    ≡ some (record {
      net = record (delete_server small_net 0) {
        store = record { services = record counter { rcvr = 1 } ∷ []; count = 1 } ∷ [];
      };
      stage = answered no_reply;
      handler = returned (record { ok = true; reply = 7 ∷ [] });
    })
unfolding net_run net_step on_handle on_respond conclude is_server_dead delete_server enable connect
    add_server make_network add_service put_service put_end put_name server_dispatch split_last
    find_service find_method service_dispatch str_eq
silent_run = refl

deleted_is_silent_example : no_reply.ok ≡ false
deleted_is_silent_example =
    deleted_is_silent call_b 0 0 on_the_way info_e (handle ∷ respond false false ∷ []) refl tt
      silent_run refl
