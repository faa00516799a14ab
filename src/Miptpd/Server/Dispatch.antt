-- ===== src/Miptpd/Server/Dispatch.antt =====
-- The dispatch of miptpd's events against a set of sockets: miptpd/src/lib/miptp_server.c.
use in4230_mip.Prelude.{
  ℕ, ◌≡◌, refl, ap, ◌∙◌, Bool, Option, none, some, List, [], ◌∷◌, if◌then◌else◌, ◌==◌, Code, code,
  Bool-cases, inl, inr, ◌⊎◌,
}
use in4230_mip.Commons.LinkedList.{LinkedList}
use in4230_mip.Miptpd.Package.{MiptpPackage}
use in4230_mip.Miptpd.Connection.{AppConnection}
use in4230_mip.Miptpd.Setup.{MiptpServer}
use in4230_mip.Miptpd.Controller.{is_a_connection}
use in4230_mip.Miptpd.Controller.Registry.{open_in, found-find_socket}
use in4230_mip.Miptpd.Controller.Runs.{Call, opened_by, AllAdmissible, Represents}
use in4230_mip.Miptpd.Controller.Refine.{calls-Stands}
use in4230_mip.Miptpd.Server.{
  Event, Outcome, running, stopping, aborted, Source, link_daemon, listening, application,
  standard_input, unknown, is_fd, source_of, handle_event,
}
use in4230_mip.Miptpd.Server.Run.{later, handle_events}
use in4230_mip.Miptpd.Server.Sockets.{calls_of, Keeps, Follows, dispatch-Follows}

-- Where an event belongs, by the two sockets of the server and the set of its applications' sockets.
unfoldable pub source_in : (mipd_fd app_fd : Code) (is_open : ℕ → Bool) (fd : ℕ) → Source
source_in mipd_fd app_fd is_open fd =
    if is_fd mipd_fd fd
    then link_daemon
    else if is_fd app_fd fd
    then listening
    else if is_open fd
    then application
    else if fd == 0
    then standard_input
    else unknown

-- The set after an event, and after events.
unfoldable pub opened_read : (ℕ → Bool) → Option (List Call) → ℕ → Bool
opened_read is_open none = is_open
opened_read is_open (some cs) = opened_by is_open cs

unfoldable pub opened_event : (mipd_fd app_fd : Code) → (ℕ → Bool) → Event → ℕ → Bool
unfolding opened_read
opened_event mipd_fd app_fd is_open event =
    opened_read is_open (calls_of event (source_in mipd_fd app_fd is_open event.fd))

unfoldable pub opened_events : (mipd_fd app_fd : Code) → (ℕ → Bool) → List Event → ℕ → Bool
opened_events mipd_fd app_fd is_open [] = is_open
opened_events mipd_fd app_fd is_open (event ∷ rest) =
    opened_events mipd_fd app_fd (opened_event mipd_fd app_fd is_open event) rest

-- What is read for an event fits the buffer, what the calls deserialize can be, and the system
-- accepts no descriptor that is in the set.
unfoldable pub AllReadable : (mipd_fd app_fd : Code) → (ℕ → Bool) → List Event → Type 0
AllReadable mipd_fd app_fd is_open [] = Unit
AllReadable mipd_fd app_fd is_open (event ∷ rest) =
    ((cs : List Call) × calls_of event (source_in mipd_fd app_fd is_open event.fd) ≡ some cs
      × AllAdmissible is_open cs)
    × AllReadable mipd_fd app_fd (opened_event mipd_fd app_fd is_open event) rest

opened_event_lem :
    (mipd_fd app_fd : Code) (is_open : ℕ → Bool) (event : Event) (cs : List Call)
    → calls_of event (source_in mipd_fd app_fd is_open event.fd) ≡ some cs
    → opened_event mipd_fd app_fd is_open event ≡ opened_by is_open cs
unfolding opened_event
opened_event_lem mipd_fd app_fd is_open event cs read = rw read refl

module _ (L : LinkedList AppConnection) where
  -- the server has the two sockets, and its controller the set
  unfoldable pub Serves : (mipd_fd app_fd : Code) → (ℕ → Bool) → MiptpServer L → Type 0
  Serves mipd_fd app_fd is_open server =
      Represents (L.items server.app_controller.connections) is_open
      × server.mipd_fd ≡ mipd_fd
      × server.app_connections_socket.socket_fd ≡ app_fd

  source_of-Serves :
      (mipd_fd app_fd : Code) (is_open : ℕ → Bool) (server : MiptpServer L) (fd : ℕ)
      → Serves mipd_fd app_fd is_open server
      → source_of L server fd ≡ source_in mipd_fd app_fd is_open fd
  unfolding Serves source_of source_in is_a_connection open_in
  source_of-Serves mipd_fd app_fd is_open server fd r =
      let found : is_a_connection L server.app_controller (code fd)
          ≡ (if is_open fd then code 1 else code 0) =
        found-find_socket fd (L.items server.app_controller.connections)
        ∙ ap (λ b. if b then code 1 else code 0) (r.0.same fd) in
      elim (Bool-cases (is_open fd)) [
        | inl o ↦ rw (found, r.1, r.2, o) refl
        | inr o ↦ rw (found, r.1, r.2, o) refl
      ]

  handle_event-Serves :
      (mipd_fd app_fd : Code) (is_open : ℕ → Bool) (server : MiptpServer L) (event : Event)
      (cs : List Call)
      → Serves mipd_fd app_fd is_open server
      → calls_of event (source_in mipd_fd app_fd is_open event.fd) ≡ some cs
      → AllAdmissible is_open cs
      → (done : Outcome × MiptpServer L) × handle_event L server event ≡ some done
        × Serves mipd_fd app_fd (opened_event mipd_fd app_fd is_open event) done.1
  unfolding handle_event Serves Follows Keeps
  handle_event-Serves mipd_fd app_fd is_open server event cs r read h =
      let ran = calls-Stands L server.app_controller is_open cs r.0 h in
      let source = source_in mipd_fd app_fd is_open event.fd in
      let followed = dispatch-Follows L server event source ran.0 (rw read ran.1) in
      let kept = followed.3 in
      (
        followed.0,
        rw (source_of-Serves mipd_fd app_fd is_open server event.fd r) followed.1,
        (
          rw (opened_event_lem mipd_fd app_fd is_open event cs read, followed.2) ran.2,
          kept.0 ∙ r.1,
          ap (λ s. s.socket_fd) kept.1 ∙ r.2,
        ),
      )

  -- a check failed, or the server keeps the set and dispatches by it
  abbrev pub Dispatches : (mipd_fd app_fd : Code) → (ℕ → Bool) → Outcome × MiptpServer L → Type 0
  Dispatches mipd_fd app_fd is_open done =
      (done.0 ≡ aborted)
      ⊎ (Serves mipd_fd app_fd is_open done.1
          × ((fd : ℕ) → source_of L done.1 fd ≡ source_in mipd_fd app_fd is_open fd))

  -- the events behind the first
  handle_events_rest :
      (Q : LinkedList MiptpPackage) (mipd_fd app_fd : Code) (is_open : ℕ → Bool)
      (server : MiptpServer L) (event : Event) (rest : List Event) (outcome : Outcome)
      (first : Outcome × MiptpServer L)
      → handle_event L server event ≡ some first
      → ((o : Outcome)
          → (done : Outcome × MiptpServer L) × handle_events L Q first.1 rest o ≡ some done
            × Dispatches mipd_fd app_fd is_open done)
      → (done : Outcome × MiptpServer L) × handle_events L Q server (event ∷ rest) outcome
          ≡ some done
        × Dispatches mipd_fd app_fd is_open done
  unfolding handle_events
  handle_events_rest Q mipd_fd app_fd is_open server event rest outcome (aborted, s) e onward =
      ((aborted, s), rw e refl, inl refl)
  handle_events_rest Q mipd_fd app_fd is_open server event rest outcome (running, s) e onward =
      let next = onward (later L Q outcome running) in (next.0, rw e next.1, next.2)
  handle_events_rest Q mipd_fd app_fd is_open server event rest outcome (stopping, s) e onward =
      let next = onward (later L Q outcome stopping) in (next.0, rw e next.1, next.2)

  -- The server keeps the set of its applications' sockets, and sends each event where it belongs by
  -- that set. Where the server has its two sockets and its controller holds a set of sockets, what is
  -- read for each event fits the buffer, what the handlers deserialize can be, and the system accepts
  -- no descriptor of the set: handling the events faults on none. Unless a handler fails, the server
  -- has its two sockets afterwards, its controller holds the set that the events leave, each socket
  -- once, and the loop finds every descriptor where it belongs by that set.
  pub handle_events-source_of :
      (Q : LinkedList MiptpPackage) (mipd_fd app_fd : Code) (is_open : ℕ → Bool)
      (server : MiptpServer L) (events : List Event) (outcome : Outcome)
      → Serves mipd_fd app_fd is_open server
      → AllReadable mipd_fd app_fd is_open events
      → (done : Outcome × MiptpServer L) × handle_events L Q server events outcome ≡ some done
        × Dispatches mipd_fd app_fd (opened_events mipd_fd app_fd is_open events) done
  unfolding handle_events AllReadable opened_events
  handle_events-source_of Q mipd_fd app_fd is_open server [] outcome r h =
      ((outcome, server), refl, inr (r, λ fd. source_of-Serves mipd_fd app_fd is_open server fd r))
  handle_events-source_of Q mipd_fd app_fd is_open server (event ∷ rest) outcome r h =
      let first = handle_event-Serves mipd_fd app_fd is_open server event h.0.0 r h.0.1 h.0.2 in
      let set = opened_event mipd_fd app_fd is_open event in
      handle_events_rest Q mipd_fd app_fd (opened_events mipd_fd app_fd set rest) server event rest
        outcome first.0 first.1
        (λ o. handle_events-source_of Q mipd_fd app_fd set first.0.1 rest o first.2 h.1)
