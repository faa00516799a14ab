-- ===== src/Miptpd/Server/Tests.antt =====
-- The transport daemon's controller and server at concrete inputs.
mod Events
mod Packages
use in4230_mip.Prelude.{
  ℕ, ◌≤◌, ◌≡◌, refl, sym, false, none, some, List, [], ◌∷◌, ◌++◌, if◌then◌else◌, length-replicate,
  replicate, map, minus_one, code, received, read_at, All, arith,
}
use in4230_mip.Commons.LinkedList.{LinkedList, plain}
use in4230_mip.Commons.ClientPackage
use in4230_mip.Commons.ClientPackage.{ClientPackage, IsPackage, header}
use in4230_mip.Commons.MipdMessage.{MipdMessage}
use in4230_mip.Miptpd.Package
use in4230_mip.Miptpd.Package.{MiptpPackage}
use in4230_mip.Miptpd.SendJob.{SendJob}
use in4230_mip.Miptpd.SendJob.Slice.{IsJob}
use in4230_mip.Miptpd.Connection.{
  AppConnection, conn_sender, conn_not_ready, conn_complete, connection_create,
}
use in4230_mip.Miptpd.Connection.Exchange.{exchanges}
use in4230_mip.Miptpd.Connection.Completes.{connection_create_completes}
use in4230_mip.Miptpd.Controller.{
  AppController, find_socket, controller_create, is_a_connection, handle_mipd_package,
  handle_outgoing,
}
use in4230_mip.Miptpd.Controller.Registry.{sockets, Distinct, IsSound, SoundAs}
use in4230_mip.Miptpd.Controller.Delivery.{deliver, handle_mipd_package_lem}
use in4230_mip.Miptpd.Controller.Outgoing.{handle_outgoing_overflow}
use in4230_mip.Miptpd.Controller.Sent.{
  IsBrief, BriefAs, BriefSender, all_messages, handle_outgoing_lem,
}
use in4230_mip.Miptpd.Controller.Runs.{
  connect, hang_up, app_package, Call, calls, opened_by, opened, AllAdmissible, Admissible,
}
use in4230_mip.Miptpd.Controller.Refine.{is_a_connection-calls}
use in4230_mip.Miptpd.Setup.{MiptpServer}
use in4230_mip.Miptpd.Server.{Event, running, aborted, handle_event}
use in4230_mip.Miptpd.Server.Applications.{Arrives, sender_registers, receiver_aborts}

abbrev pub applications : LinkedList AppConnection
applications = plain AppConnection

abbrev pub packages : LinkedList MiptpPackage
packages = plain MiptpPackage

-- a package of three bytes for port 10 of address 110
abbrev parcel : ℕ → ClientPackage
parcel client_type = record {
  port = 10;
  destination = 110;
  client_type = client_type;
  data_size = 3;
  content = 7 ∷ 8 ∷ 9 ∷ [];
}

abbrev parcel_bytes : List ℕ
parcel_bytes = 10 ∷ 0 ∷ 110 ∷ 1 ∷ 0 ∷ 0 ∷ 0 ∷ 3 ∷ 0 ∷ 7 ∷ 8 ∷ 9 ∷ []

parcel_read : ClientPackage.deserialize parcel_bytes ≡ some (parcel 1)
unfolding ClientPackage.deserialize read_at
parcel_read = refl

-- two applications come, the first sends and goes
abbrev visits : List Call
visits =
    connect (code 5) (code 0) 0
    ∷ connect (code 6) (code 0) 0
    ∷ app_package 5 parcel_bytes 1
    ∷ hang_up 5
    ∷ []

visits-AllAdmissible : AllAdmissible (λ socket. false) visits
unfolding AllAdmissible Admissible opened
visits-AllAdmissible = (refl, (refl, ((parcel 1, parcel_read), (tt, tt))))

is_a_connection-calls_example :
    (last : AppController applications) × calls applications
        (controller_create applications (code 3) 10)
        visits
      ≡ some last
    × ((socket : ℕ)
        → is_a_connection applications last (code socket)
          ≡ (if opened_by (λ s. false) visits socket then code 1 else code 0))
    × Distinct (sockets last.connections)
    × All IsSound last.connections
is_a_connection-calls_example =
    is_a_connection-calls applications (code 3) 10 visits visits-AllAdmissible

-- 20,000 bytes take two rounds
connection_create_completes_example :
    (connection : AppConnection) × (done : AppConnection) × connection_create conn_sender 5 10 110
        (replicate 20000 1)
        20000
        1000
        0
      ≡ some connection
    × exchanges packages 20 2 connection ≡ some done
    × done.status ≡ conn_complete
connection_create_completes_example =
    connection_create_completes packages 20 1 5 10 110 (replicate 20000 1) 20000 1000 0
      (omega (arith, length-replicate {A = ℕ} 20000 1)) (omega arith) (omega arith) (omega arith)

abbrev pub waiting : AppConnection
waiting = record {
  socket = 5;
  port = 16_383;
  connected_mip = 0;
  status = conn_not_ready;
  r_job = none;
  s_job = none;
}

abbrev pub controller : List AppConnection → AppController applications
controller connections = record {
  connections = connections;
  max_connections = 10;
  timeout = 0;
  mipd_socket = code 3;
}

abbrev pub server : MiptpServer applications
server = record {
  debug_active = 0;
  mipd_socket = [];
  mipd_fd = code 3;
  app_connections_socket = record { socket_fd = code 4; file_path = []; sun_path = [] };
  timeout = 0;
  epoll_fd = code 7;
  app_controller = controller (waiting ∷ []);
}

abbrev pub event : ℕ → Event
event client_type = record {
  fd = 5;
  accepted = minus_one;
  epoll_rc = minus_one;
  bytes = received (header (parcel client_type) ++ (7 ∷ 8 ∷ 9 ∷ []));
  stop_typed = false;
  now = 0;
  memory = λ address. [];
}

arrives :
    (client_type : ℕ)
    → client_type ≤ 2
    → Arrives applications server (event client_type) (parcel client_type) 0
unfolding find_socket
arrives client_type small = record {
  is_package = record {
    port = omega arith;
    destination = omega arith;
    client_type = omega arith;
    data_size = omega arith;
    content = refl;
  };
  rest = [];
  bytes = refl;
  fits = omega arith;
  found_at = refl;
  not_mipd = refl;
  not_listening = refl;
}

sender_registers_example :
    (next : MiptpServer applications) × (connection : AppConnection) × handle_event applications
        server
        (event 1)
      ≡ some (running, next)
    × next.app_controller.connections ≡ connection ∷ []
    × connection_create conn_sender 5 10 110 (7 ∷ 8 ∷ 9 ∷ []) 3 0 0 ≡ some connection
    × connection.status ≡ conn_sender
    × connection.socket ≡ 5
sender_registers_example =
    sender_registers applications server (event 1) (parcel 1) 0 (arrives 1 (omega arith)) refl
      (omega arith) (omega arith)

receiver_aborts_example : handle_event applications server (event 2) ≡ some (aborted, server)
receiver_aborts_example =
    receiver_aborts applications server (event 2) (parcel 2) 0 (arrives 2 (omega arith)) refl
