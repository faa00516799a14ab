-- ===== src/Miptpd/Server/Applications.antt =====
-- What an application's package does to the transport daemon: MIPTPServer_run of
-- miptpd/src/lib/miptp_server.c with MIPTPAppController_handle_app_package and AppConnection_create.
use in4230_mip.Prelude.{
  ℕ, ◌%◌, ◌≤◌, ◌<◌, ◌≡◌, refl, ap, ◌∙◌, false, none, some, List, [], ◌∷◌, ◌++◌, ◌==◌, length,
  length-replicate, replicate, drop, remove_at, read_at_all, write_at-append, minus_one, code,
  received, arith, Bool-cases, inl, inr,
}
use mathlib.Core.List.{append_assoc}
use in4230_mip.Commons.LinkedList.{LinkedList}
use in4230_mip.Commons.ClientPackage
use in4230_mip.Commons.ClientPackage.{ClientPackage, IsPackage, header}
use in4230_mip.Miptpd.Window.{window_create}
use in4230_mip.Miptpd.SendJob.{SendJob, send_job_create}
use in4230_mip.Miptpd.Connection.{
  AppConnection, conn_sender, conn_receiver, connection_create, connection_type,
}
use in4230_mip.Miptpd.Setup.{MiptpServer}
use in4230_mip.Miptpd.Controller.{
  AppController, find_socket, found, complete_connection, app_package_found, app_package_read,
  handle_app_package, is_a_connection,
}
use in4230_mip.Miptpd.Server.{
  Event, running, aborted, application, is_fd, source_of, packet_buffer_size, read_buffer,
  on_application, dispatch, checked, handle_event,
}

receiver_type : connection_type 2 ≡ conn_receiver
unfolding connection_type
receiver_type = refl

sender_type : connection_type 1 ≡ conn_sender
unfolding connection_type
sender_type = refl

module _ (L : LinkedList AppConnection) where
  -- An event of an application's package: the descriptor is that of a connection, and neither the
  -- link daemon's nor the listening one, and the package is in the bytes read, which fit the buffer.
  pub record Arrives (server : MiptpServer L) (event : Event) (p : ClientPackage) (place : ℕ)
      : Type 0 where
    pub is_package : IsPackage p
    pub rest : List ℕ
    pub bytes : event.bytes ≡ received (header p ++ (p.content ++ rest))
    pub fits : length (header p ++ (p.content ++ rest)) ≤ packet_buffer_size
    pub found_at : find_socket event.fd (L.items server.app_controller.connections) ≡ some place
    pub not_mipd : is_fd server.mipd_fd event.fd ≡ false
    pub not_listening : is_fd server.app_connections_socket.socket_fd event.fd ≡ false

  module _ (server : MiptpServer L) (event : Event) (p : ClientPackage) (place : ℕ)
      (a : Arrives server event p place) where
    abbrev sent : List ℕ
    sent = header p ++ (p.content ++ a.rest)

    is_application : source_of L server event.fd ≡ application
    unfolding source_of is_a_connection found
    is_application = rw (a.not_mipd, a.not_listening, a.found_at) refl

    read_whole :
        (block : List ℕ) × read_buffer sent ≡ some block × ClientPackage.deserialize block ≡ some p
    unfolding read_buffer
    read_whole =
        let zeros = replicate {A = ℕ} packet_buffer_size 0 in
        let left = drop (length sent) zeros in
        (
          sent ++ left,
          write_at-append [] sent zeros 0 refl
              (omega (arith, a.fits, length-replicate {A = ℕ} packet_buffer_size 0)),
          ap ClientPackage.deserialize (
                append_assoc (header p) (p.content ++ a.rest) left
                ∙ ap (λ r. header p ++ r) (append_assoc p.content a.rest left))
              ∙ ClientPackage.deserialize_lem p a.is_package (a.rest ++ left),
        )

    event_read :
        handle_event L server event
        ≡ some (checked L server (app_package_read L server.app_controller event.fd p event.now))
    unfolding handle_event dispatch on_application handle_app_package
    event_read =
        ap (dispatch L server event) is_application
        ∙ (ap (on_application L server event) a.bytes ∙ rw (read_whole.1, read_whole.2) refl)

    refused :
        app_package_read L server.app_controller event.fd p event.now
          ≡ (minus_one, server.app_controller)
        → handle_event L server event ≡ some (aborted, server)
    unfolding checked
    refused h = event_read ∙ ap (λ r. some (checked L server r)) h

    not_created :
        connection_create
            (connection_type p.client_type)
            event.fd
            p.port
            p.destination
            p.content
            p.data_size
            server.app_controller.timeout
            event.now
          ≡ none
        → app_package_read L server.app_controller event.fd p event.now
          ≡ (minus_one, server.app_controller)
    unfolding app_package_read complete_connection
    not_created h = elim (Bool-cases (p.port == 0)) [
      | inl e ↦ rw e refl
      | inr e ↦ elim (Bool-cases (p.destination == 0)) [
        | inl f ↦ rw (e, f) refl
        | inr f ↦ rw (e, f, a.found_at, app_package_found, h) refl
      ]
    ]

  -- A package in range by which a connected application asks to receive, whatever its port and
  -- destination, ends the daemon's loop with an error, and no connection changes.
  pub receiver_aborts :
      (server : MiptpServer L) (event : Event) (p : ClientPackage) (place : ℕ)
      → Arrives server event p place
      → p.client_type ≡ 2
      → handle_event L server event ≡ some (aborted, server)
  unfolding connection_create
  receiver_aborts server event p place a kind =
      let is_receiver : connection_type p.client_type ≡ conn_receiver =
        ap connection_type kind ∙ receiver_type in
      refused server event p place a (not_created server event p place a (rw is_receiver refl))

  -- A package in range by which a connected application asks to send, with a port and a destination
  -- that are not 0, replaces the application's connection, at the end of the list, by one of a sender:
  -- it is the one that `AppConnection_create` makes of the package's data, and the loop goes on.
  pub sender_registers :
      (server : MiptpServer L) (event : Event) (p : ClientPackage) (place : ℕ)
      → Arrives server event p place
      → p.client_type ≡ 1
      → 0 < p.port
      → 0 < p.destination
      → (next : MiptpServer L) × (connection : AppConnection) × handle_event L server event
          ≡ some (running, next)
        × L.items next.app_controller.connections
          ≡ remove_at place (L.items server.app_controller.connections) ++ connection ∷ []
        × connection_create conn_sender event.fd p.port p.destination p.content p.data_size
            server.app_controller.timeout event.now
          ≡ some connection
        × connection.status ≡ conn_sender
        × connection.socket ≡ event.fd
  unfolding connection_create send_job_create app_package_read complete_connection checked
  sender_registers server event p place a kind some_port some_destination =
      let controller = server.app_controller in
      let is_sender : connection_type p.client_type ≡ conn_sender =
        ap connection_type kind ∙ sender_type in
      let port : p.port == 0 ≡ false = ground arith in
      let destination : p.destination == 0 ≡ false = ground arith in
      let whole = read_at_all p.content p.data_size a.is_package.content in
      let job : SendJob = record {
        port = p.port % 16_384 % 16_384;
        destination = p.destination;
        timeout = controller.timeout;
        last_ack = event.now;
        content = p.content;
        data_size = p.data_size;
        sliding_window = window_create 0 10;
      } in
      let connection : AppConnection = record {
        socket = event.fd;
        port = p.port % 16_384;
        connected_mip = p.destination;
        status = conn_sender;
        r_job = none;
        s_job = some job;
      } in
      let next : AppController L = record controller {
        connections = L.push (L.remove controller.connections place) connection;
      } in
      let taken : app_package_read L controller event.fd p event.now ≡ (code 1, next) =
        rw (port, destination, a.found_at, app_package_found, is_sender, whole) refl in
      (
        record server { app_controller = next },
        connection,
        event_read server event p place a ∙ ap (λ r. some (checked L server r)) taken,
        rw (L.items-push, L.items-remove) refl,
        rw whole refl,
        refl,
        refl,
      )
