-- ===== src/Mipd/Server/Events.antt =====
-- The event loop of mipd, MIPDServer_run of mipd/src/lib/server.c: which handler an event goes to, and
-- what the loop does with what the handler returns.
use in4230_mip.Prelude.{
  ℕ, Bool, false, Option, none, some, List, [], ◌∷◌, if◌then◌else◌, ltb, ◌==◌, length, write_at,
  replicate, ◌>>=◌, Code, minus_one, code, Recv, failed, closed, received,
}
use in4230_mip.Commons.LinkedList.{LinkedList}
use in4230_mip.Commons.MipdMessage
use in4230_mip.Commons.MipdMessage.{MipdMessage, max_mipmessage_size}
use in4230_mip.Routerd.Table.{TablePackage}
use in4230_mip.Mipd.Packaging.{MipPackage}
use in4230_mip.Mipd.Interface.{is_socket_in_table}
use in4230_mip.Mipd.Router.{
  ForwardQueueEntry, MipdServer, forward_found, queue_pop, broadcast_route_table,
}
use in4230_mip.Mipd.Server.{
  Output, to_wire, Step, handle_raw_socket_frame, handle_forward_response,
  handle_domain_socket_request, create_queueable_package, request_forwarding,
}

-- `sizeof(MIPDMessage)`
abbrev pub sizeof_mipd_message : ℕ
sizeof_mipd_message = 16

-- What the calls on an event's descriptor return. `frame` is what `recv_raw_mip_package` gives, `rc`
-- and `queue_rc` what the writes of a handler return, in order, `send_rc` what the sends of a broadcast do.
pub record Event : Type 0 where
  pub fd : ℕ
  pub accepted : Code
  pub table : Recv TablePackage
  pub response : Recv ℕ
  pub frame : Option MipPackage
  pub bytes : Recv (List ℕ)
  pub stop_typed : Bool
  pub rc : Code
  pub queue_rc : Code
  pub send_rc : ℕ → Code
  pub now : ℕ

-- How the loop stands after an event.
pub data Outcome : Type 0 where
  running stopping aborted : Outcome

-- Where the loop finds an event's descriptor, in the order in which it looks.
pub data Source : Type 0 where
  app_listening route_listening forward_listening route_peer forward_peer raw_interface app_peer :
      Source
  standard_input unknown : Source

abbrev pub is_fd : Code → ℕ → Bool
is_fd minus_one fd = false
is_fd (code n) fd = fd == n

abbrev pub on_wire : List (ℕ × MipPackage) → List Output
on_wire [] = []
on_wire (sent ∷ rest) = to_wire sent.0 sent.1 ∷ on_wire rest

module _ (Q : LinkedList ForwardQueueEntry) (src_pointer dst_pointer : List ℕ) where
  abbrev pub Result : Type 0
  Result = Option (Outcome × MipdServer Q × List Output)

  unfoldable pub source_of : MipdServer Q → ℕ → Source
  source_of server fd =
      if fd == server.app_socket.listening_socket_fd
      then app_listening
      else if fd == server.route_socket.listening_socket_fd
      then route_listening
      else if fd == server.forward_socket.listening_socket_fd
      then forward_listening
      else if is_fd server.route_socket.connected_socket_fd fd
      then route_peer
      else if is_fd server.forward_socket.connected_socket_fd fd
      then forward_peer
      else if is_socket_in_table server.i_table fd
      then raw_interface
      else if is_fd server.app_socket.connected_socket_fd fd
      then app_peer
      else if fd == 0
      then standard_input
      else unknown

  -- `check(rc != -1)` around a handler
  unfoldable pub unless_failed : Code × MipdServer Q × List Output → Result
  unless_failed (minus_one, server, out) = some (aborted, server, out)
  unless_failed (code _, server, out) = some (running, server, out)

  unfoldable pub on_step : Step Q → Result
  unfolding unless_failed
  on_step none = none
  on_step (some done) = unless_failed done

  -- A new connection, by the descriptor that `handle_domain_socket_connection` gives.
  unfoldable pub connect : Code → MipdServer Q → MipdServer Q → Result
  connect minus_one server connected = some (aborted, server, [])
  connect (code _) server connected = some (running, connected, [])

  unfoldable pub on_table : MipdServer Q → (ℕ → Code) → Recv TablePackage → Result
  on_table server send_rc failed = some (aborted, server, [])
  on_table server send_rc closed = some (
    running,
    record server {
      route_socket = record (server.route_socket) { connected_socket_fd = minus_one };
    },
    [],
  )
  on_table server send_rc (received t) = do
    done ← broadcast_route_table src_pointer dst_pointer send_rc server.cache server.i_table t
    unless_failed (done.0, server, on_wire done.1)

  unfoldable pub on_response : Code → MipdServer Q → Recv ℕ → Result
  on_response rc server failed = some (aborted, server, [])
  on_response rc server closed = some (
    running,
    record server {
      forward_socket = record (server.forward_socket) { connected_socket_fd = minus_one };
    },
    [],
  )
  on_response rc server (received next_hop) =
      if forward_found next_hop
      then on_step (handle_forward_response Q src_pointer dst_pointer rc server next_hop)
      else elim (queue_pop Q server.forward_queue).0 [
        | none ↦
            some
              (aborted, record server { forward_queue = (queue_pop Q server.forward_queue).1 }, [])
        | some _ ↦
            some
              (running, record server { forward_queue = (queue_pop Q server.forward_queue).1 }, [])
      ]

  -- An application's message that is for no neighbor: it is queued, and a request goes out.
  unfoldable pub queue_message : Code → ℕ → MipdServer Q → MipdMessage → Result
  queue_message queue_rc now server message = do
    made ← create_queueable_package Q src_pointer dst_pointer message
    elim made [
      | none ↦ some (aborted, server, [])
      | some p ↦
          unless_failed
            (request_forwarding Q src_pointer dst_pointer queue_rc now server p.m_header.dst_addr p)
    ]

  unfoldable pub after_request : Code → ℕ → MipdMessage → Code × MipdServer Q × List Output → Result
  after_request queue_rc now message (minus_one, server, out) = some (aborted, server, out)
  after_request queue_rc now message (code n, server, out) =
      if n == 0 then queue_message queue_rc now server message else some (running, server, out)

  -- The bytes of an application, in the zeroed buffer of 1500. Fewer than `sizeof(MIPDMessage)` are
  -- refused with a warning.
  unfoldable pub on_message : Code → Code → ℕ → MipdServer Q → Recv (List ℕ) → Result
  on_message rc queue_rc now server failed = some (
    running,
    record server { app_socket = record (server.app_socket) { connected_socket_fd = minus_one } },
    [],
  )
  on_message rc queue_rc now server closed = some (
    running,
    record server { app_socket = record (server.app_socket) { connected_socket_fd = minus_one } },
    [],
  )
  on_message rc queue_rc now server (received bytes) =
      if ltb (length bytes) sizeof_mipd_message then some (running, server, []) else (do
        read_buffer ← write_at (replicate max_mipmessage_size 0) 0 bytes
        made ← MipdMessage.deserialize read_buffer
        message ← made
        done ← handle_domain_socket_request Q src_pointer dst_pointer rc server message
        after_request queue_rc now message done)

  -- One pass of the `for` over the events.
  unfoldable pub handle_event : MipdServer Q → Event → Result
  unfolding source_of on_step connect on_table on_response on_message
  handle_event server event = elim (source_of server event.fd) [
    | app_listening ↦ connect event.accepted server (record server {
      app_socket = record (server.app_socket) { connected_socket_fd = event.accepted };
    })
    | route_listening ↦ connect event.accepted server (record server {
      route_socket = record (server.route_socket) { connected_socket_fd = event.accepted };
    })
    | forward_listening ↦ connect event.accepted server (record server {
      forward_socket = record (server.forward_socket) { connected_socket_fd = event.accepted };
    })
    | route_peer ↦ on_table server event.send_rc event.table
    | forward_peer ↦ on_response event.rc server event.response
    | raw_interface ↦ on_step (
        handle_raw_socket_frame Q src_pointer dst_pointer event.rc event.now server event.fd
          event.frame)
    | app_peer ↦ on_message event.rc event.queue_rc event.now server event.bytes
    | standard_input ↦ some (if event.stop_typed then stopping else running, server, [])
    | unknown ↦ some (running, server, [])
  ]
