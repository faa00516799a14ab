-- ===== src/Miptpd/Server/Sockets.antt =====
-- The events of miptpd's server as calls of its controller: miptpd/src/lib/miptp_server.c.
use in4230_mip.Prelude.{
  ℕ, ◌≡◌, refl, Option, none, some, List, [], ◌∷◌, if◌then◌else◌, replicate, ◌>>=◌, Code, minus_one,
  code, Recv, failed, closed, received, Option-cases, inl, inr,
}
use in4230_mip.Commons.LinkedList.{LinkedList}
use in4230_mip.Miptpd.Connection.{AppConnection}
use in4230_mip.Miptpd.Setup.{MiptpServer}
use in4230_mip.Miptpd.Controller.{
  AppController, handle_app_package, handle_mipd_package, handle_connection, disconnect,
}
use in4230_mip.Miptpd.Controller.Runs.{
  Call, connect, hang_up, app_package, mipd_package, call, calls,
}
use in4230_mip.Miptpd.Server.{
  packet_buffer_size, Event, Outcome, running, stopping, cast_message, Source, link_daemon,
  listening, application, standard_input, unknown, read_buffer, checked, on_link_daemon,
  on_application, dispatch,
}

-- The calls of the controller that an event leads to, by where its descriptor is found.
unfoldable pub calls_read : Event → Source → Recv (List ℕ) → Option (List Call)
calls_read event link_daemon (received bytes) = do
  block ← read_buffer bytes
  message ← cast_message event.memory block
  some (mipd_package message ∷ [])
calls_read event link_daemon failed = some []
calls_read event link_daemon closed = some []
calls_read event listening _ = some (connect event.accepted event.epoll_rc event.now ∷ [])
calls_read event application failed =
    some (app_package event.fd (replicate packet_buffer_size 0) event.now ∷ [])
calls_read event application closed = some (hang_up event.fd ∷ [])
calls_read event application (received bytes) = do
  block ← read_buffer bytes
  some (app_package event.fd block event.now ∷ [])
calls_read event standard_input _ = some []
calls_read event unknown _ = some []

unfoldable pub calls_of : Event → Source → Option (List Call)
unfolding calls_read
calls_of event source = calls_read event source event.bytes

module _ (L : LinkedList AppConnection) where
  checked_controller :
      (server : MiptpServer L) (done : Code × AppController L)
      → (checked L server done).1.app_controller ≡ done.1
  unfolding checked
  checked_controller server (minus_one, controller) = refl
  checked_controller server (code _, controller) = refl

  -- the same server but for its controller
  unfoldable pub Keeps : MiptpServer L → MiptpServer L → Type 0
  Keeps before after =
      after.mipd_fd ≡ before.mipd_fd × after.app_connections_socket ≡ before.app_connections_socket

  checked-Keeps :
      (server : MiptpServer L) (done : Code × AppController L)
      → Keeps server (checked L server done).1
  unfolding checked Keeps
  checked-Keeps server (minus_one, controller) = (refl, refl)
  checked-Keeps server (code _, controller) = (refl, refl)

  -- what the server does where its controller takes the calls of an event
  unfoldable pub Follows :
      MiptpServer L → Option (Outcome × MiptpServer L) → AppController L → Type 0
  Follows server result last =
      (done : Outcome × MiptpServer L) × result ≡ some done
      × done.1.app_controller ≡ last
      × Keeps server done.1

  -- the result of a handler, checked
  follow :
      (server : MiptpServer L) (handled : Option (Code × AppController L)) (last : AppController L)
      → (do next ← (do done ← handled; some done.1); some next) ≡ some last
      → Follows server (do done ← handled; some (checked L server done)) last
  unfolding Follows
  follow server none last e = cc
  follow server (some done) last e = (
    checked L server done,
    refl,
    (let at_end : (checked L server done).1.app_controller ≡ done.1 =
          checked_controller server done in
        cc),
    checked-Keeps server done,
  )

  -- nothing is called
  stay :
      (server : MiptpServer L) (outcome : Outcome) (last : AppController L)
      → some (server.app_controller) ≡ some last
      → Follows server (some (outcome, server)) last
  unfolding Follows Keeps
  stay server outcome last e = ((outcome, server), refl, cc, (refl, refl))

  on_link_daemon-Follows :
      (server : MiptpServer L) (event : Event) (bytes : Recv (List ℕ)) (last : AppController L)
      → (calls_read event link_daemon bytes >>= calls L server.app_controller) ≡ some last
      → Follows server (on_link_daemon L server event bytes) last
  unfolding calls call calls_read on_link_daemon
  on_link_daemon-Follows server event failed last e = stay server stopping last e
  on_link_daemon-Follows server event closed last e = stay server stopping last e
  on_link_daemon-Follows server event (received bytes) last e =
      elim (Option-cases (read_buffer bytes)) [
        | inl f ↦ cc
        | inr (block, f) ↦ elim (Option-cases (cast_message event.memory block)) [
          | inl g ↦ cc
          | inr (message, g) ↦
              rw (f, g)
                (follow server (handle_mipd_package L server.app_controller message) last
                  (rw (f, g) at e))
        ]
      ]

  on_application-Follows :
      (server : MiptpServer L) (event : Event) (bytes : Recv (List ℕ)) (last : AppController L)
      → (calls_read event application bytes >>= calls L server.app_controller) ≡ some last
      → Follows server (on_application L server event bytes) last
  unfolding calls call calls_read on_application
  on_application-Follows server event failed last e = follow server _ last e
  on_application-Follows server event closed last e =
      follow server (some (disconnect L server.app_controller event.fd)) last e
  on_application-Follows server event (received bytes) last e =
      elim (Option-cases (read_buffer bytes)) [
        | inl f ↦ cc
        | inr (block, f) ↦ rw f (
            follow server (handle_app_package L server.app_controller event.fd block event.now) last
              (rw f at e))
      ]

  pub dispatch-Follows :
      (server : MiptpServer L) (event : Event) (source : Source) (last : AppController L)
      → (calls_of event source >>= calls L server.app_controller) ≡ some last
      → Follows server (dispatch L server event source) last
  unfolding calls call calls_of dispatch
  dispatch-Follows server event link_daemon last e =
      on_link_daemon-Follows server event event.bytes last e
  dispatch-Follows server event listening last e =
      follow server
        (some (handle_connection L server.app_controller event.accepted event.epoll_rc event.now))
        last e
  dispatch-Follows server event application last e =
      on_application-Follows server event event.bytes last e
  dispatch-Follows server event standard_input last e =
      stay server (if event.stop_typed then stopping else running) last e
  dispatch-Follows server event unknown last e = stay server running last e
