-- ===== src/Miptpd/Server.antt =====
-- The transport daemon's server, miptpd/src/lib/miptp_server.c: the dispatch of an event. A turn of
-- the loop takes the events that `epoll_wait` returned, with what the calls on
-- their descriptors return. `none` is a fault of memory, or NULL from a function that creates.
pub mod Run
pub mod Sockets
pub mod Dispatch
pub mod Applications
mod Tests
use in4230_mip.Prelude.{
  ℕ, suc, ◌+◌, ◌*◌, ◌%◌, Bool, false, not, Option, none, some, List, [], ◌∷◌, ◌++◌, if◌then◌else◌,
  ◌==◌, length, replicate, u8_mod, u16_mod, take, drop, read_at, write_at, value_le, ◌>>=◌, Code,
  minus_one, code, Recv, failed, closed, received,
}
use in4230_mip.Commons.LinkedList.{LinkedList}
use in4230_mip.Commons.MipdMessage.{MipdMessage}
use in4230_mip.Commons.Strings.{strnlen}
use in4230_mip.Commons.Sockets.{
  BoundSocket, bound_socket_create, bound_socket_connect, connect_to_domain_socket, setup_epoll,
}
use in4230_mip.Miptpd.Package.{MiptpPackage}
use in4230_mip.Miptpd.Connection.{AppConnection}
use in4230_mip.Miptpd.Setup.{MiptpServer}
use in4230_mip.Miptpd.Controller.{
  AppController, controller_create, handle_app_package, handle_mipd_package, handle_connection,
  is_a_connection, disconnect, handle_outgoing,
}

-- `PACKET_BUFFER_SIZE`
abbrev pub packet_buffer_size : ℕ
packet_buffer_size = 65_535

-- What the calls on an event's descriptor return: `accept` and `epoll_ctl`, `read`, whether "stop"
-- was typed, and the clock. `memory` gives the bytes that can be read from an address on.
pub record Event : Type 0 where
  pub fd : ℕ
  pub accepted : Code
  pub epoll_rc : Code
  pub bytes : Recv (List ℕ)
  pub stop_typed : Bool
  pub now : ℕ
  pub memory : ℕ → List ℕ

-- A turn: what the sends of `handle_outgoing` return, in order, and the events.
pub record Turn : Type 0 where
  pub send_rc : ℕ → Code
  pub events : List Event

-- How the loop stands.
pub data Outcome : Type 0 where
  running stopping aborted : Outcome

-- The block that `read` fills, as a `MIPDMessage *`: the address, the size two bytes on, and a
-- pointer to the data eight bytes on.
unfoldable pub cast_message : (ℕ → List ℕ) → List ℕ → Option MipdMessage
cast_message memory block = do
  address ← read_at block 0 1
  data_size ← read_at block 2 2
  pointer ← read_at block 8 8
  some (record {
    mip_address = value_le address;
    data_size = value_le data_size;
    content = memory (value_le pointer);
  })

-- Where the loop finds an event's descriptor, in the order in which it looks.
pub data Source : Type 0 where
  link_daemon listening application standard_input unknown : Source

abbrev pub is_fd : Code → ℕ → Bool
is_fd minus_one fd = false
is_fd (code n) fd = fd == n

-- The bytes read, in the zeroed buffer.
unfoldable pub read_buffer : List ℕ → Option (List ℕ)
read_buffer bytes = write_at (replicate packet_buffer_size 0) 0 bytes

module _ (L : LinkedList AppConnection) where
  -- A code of `is_a_connection` counts as true unless it is 0.
  unfoldable pub source_of : MiptpServer L → ℕ → Source
  source_of server fd =
      if is_fd server.mipd_fd fd
      then link_daemon
      else if is_fd server.app_connections_socket.socket_fd fd
      then listening
      else elim (is_a_connection L server.app_controller (code fd)) [
        | minus_one ↦ application
        | code n ↦ if not (n == 0) then application else if fd == 0 then standard_input else unknown
      ]

  abbrev pub Result : Type 0
  Result = Option (Outcome × MiptpServer L)

  -- `check(rc != -1)` around a handler
  unfoldable pub checked : MiptpServer L → Code × AppController L → Outcome × MiptpServer L
  checked server (minus_one, controller) = (aborted, record server { app_controller = controller })
  checked server (code _, controller) = (running, record server { app_controller = controller })

  unfoldable pub on_link_daemon : MiptpServer L → Event → Recv (List ℕ) → Result
  on_link_daemon server event failed = some (stopping, server)
  on_link_daemon server event closed = some (stopping, server)
  on_link_daemon server event (received bytes) = do
    block ← read_buffer bytes
    message ← cast_message event.memory block
    done ← handle_mipd_package L server.app_controller message
    some (checked server done)

  -- A read that fails counts as one of some bytes: its -1 is a `size_t`.
  unfoldable pub on_application : MiptpServer L → Event → Recv (List ℕ) → Result
  on_application server event failed = do
    done ←
        handle_app_package L server.app_controller event.fd (replicate packet_buffer_size 0)
          event.now
    some (checked server done)
  on_application server event closed =
      some (checked server (disconnect L server.app_controller event.fd))
  on_application server event (received bytes) = do
    block ← read_buffer bytes
    done ← handle_app_package L server.app_controller event.fd block event.now
    some (checked server done)

  unfoldable pub dispatch : MiptpServer L → Event → Source → Result
  unfolding on_link_daemon on_application
  dispatch server event link_daemon = on_link_daemon server event event.bytes
  dispatch server event listening = some (
      checked server
        (handle_connection L server.app_controller event.accepted event.epoll_rc event.now))
  dispatch server event application = on_application server event event.bytes
  dispatch server event standard_input =
      some (if event.stop_typed then stopping else running, server)
  dispatch server event unknown = some (running, server)

  -- One pass of the `for` over the events.
  unfoldable pub handle_event : MiptpServer L → Event → Result
  unfolding dispatch source_of
  handle_event server event = dispatch server event (source_of server event.fd)
