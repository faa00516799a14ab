-- ===== src/Clients/Tests.antt =====
-- The sample programs at concrete inputs.
use in4230_mip.Prelude.{
  ℕ, ◌≡◌, refl, none, some, List, [], ◌∷◌, ◌++◌, length-replicate, replicate, minus_one, code,
  false, received, arith,
}
use in4230_mip.Commons.LinkedList.{LinkedList, plain}
use in4230_mip.Commons.MipdMessage.{MipdMessage, header}
use in4230_mip.Miptpd.Connection.{AppConnection, conn_sender, conn_not_ready}
use in4230_mip.Miptpd.SendJob.{SendJob}
use in4230_mip.Miptpd.Controller.{find_socket}
use in4230_mip.Miptpd.Setup.{MiptpServer}
use in4230_mip.Miptpd.Server.{Event, running, handle_event}
use in4230_mip.Clients.Ping.{
  answered, payload, ping_response, ping_server_turn, ping_response-ping_server_turn,
}
use in4230_mip.Clients.Transport.{tp_request, sender_registers-tp_request}

-- "PING" from address 30
abbrev ping : MipdMessage
ping = record { mip_address = 30; data_size = 4; content = 80 ∷ 73 ∷ 78 ∷ 71 ∷ [] }

ping_response-ping_server_turn_example :
    (sent : List ℕ) × ping_server_turn (received (header ping ++ (ping.content ++ 0 ∷ [])))
      ≡ some (some sent)
    × ping_response (replicate 1500 9) (received sent) ≡ some (answered 30 payload)
ping_response-ping_server_turn_example =
    ping_response-ping_server_turn ping (0 ∷ []) (replicate 1500 9)
      (record { mip_address = omega arith; data_size = omega arith; content = refl }) (omega arith)
      (length-replicate {A = ℕ} 1500 9)

abbrev applications : LinkedList AppConnection
applications = plain AppConnection

abbrev waiting : AppConnection
waiting = record {
  socket = 5;
  port = 16_383;
  connected_mip = 0;
  status = conn_not_ready;
  r_job = none;
  s_job = none;
}

abbrev server : MiptpServer applications
server = record {
  debug_active = 0;
  mipd_socket = [];
  mipd_fd = code 3;
  app_connections_socket = record { socket_fd = code 4; file_path = []; sun_path = [] };
  timeout = 0;
  epoll_fd = code 7;
  app_controller = record {
    connections = waiting ∷ [];
    max_connections = 10;
    timeout = 0;
    mipd_socket = code 3;
  };
}

-- "Hi", and seven bytes that were on the stack
abbrev text : List ℕ
text = 72 ∷ 105 ∷ []

abbrev sent_bytes : List ℕ
sent_bytes = 10 ∷ 0 ∷ 110 ∷ 1 ∷ 0 ∷ 0 ∷ 0 ∷ 2 ∷ 0 ∷ 72 ∷ 105 ∷ replicate 7 9

abbrev event : Event
event = record {
  fd = 5;
  accepted = minus_one;
  epoll_rc = minus_one;
  bytes = received sent_bytes;
  stop_typed = false;
  now = 0;
  memory = λ address. [];
}

waiting_found : find_socket 5 (waiting ∷ []) ≡ some 0
unfolding find_socket
waiting_found = refl

sender_registers-tp_request_example :
    (tp_request (replicate 2000 9) text ≡ some sent_bytes)
    × (next : MiptpServer applications) × (connection : AppConnection) × (job : SendJob)
    × handle_event applications server event ≡ some (running, next)
    × next.app_controller.connections ≡ connection ∷ []
    × connection.status ≡ conn_sender
    × connection.socket ≡ 5
    × connection.port ≡ 10
    × connection.connected_mip ≡ 110
    × connection.r_job ≡ none
    × connection.s_job ≡ some job
    × job.port ≡ 10
    × job.destination ≡ 110
    × job.content ≡ text
    × job.data_size ≡ 2
sender_registers-tp_request_example =
    sender_registers-tp_request applications server event 0 (replicate 2000 9) text
      (length-replicate {A = ℕ} 2000 9) (omega arith) refl waiting_found refl refl
