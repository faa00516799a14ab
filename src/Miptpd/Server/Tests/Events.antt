-- ===== src/Miptpd/Server/Tests/Events.antt =====
-- Events of the transport daemon's server at a concrete input.
use in4230_mip.Prelude.{ℕ, ◌≡◌, refl, Bool, false, some, List, [], ◌∷◌, code, closed}
use in4230_mip.Miptpd.Setup.{MiptpServer}
use in4230_mip.Miptpd.Controller.Runs.{
  connect, hang_up, AllAdmissible, Admissible, opened, opened_by,
}
use in4230_mip.Miptpd.Controller.Registry.{open_in}
use in4230_mip.Miptpd.Server.{Event, Outcome, running}
use in4230_mip.Miptpd.Server.Run.{handle_events}
use in4230_mip.Miptpd.Server.Sockets.{calls_of}
use in4230_mip.Miptpd.Server.Dispatch.{
  source_in, opened_events, opened_event, AllReadable, Serves, Dispatches, handle_events-source_of,
}
use in4230_mip.Miptpd.Server.Tests.{applications, packages, controller, server, event}

abbrev unused : MiptpServer applications
unused = record server { app_controller = controller [] }

abbrev nobody : ℕ → Bool
nobody socket = false

-- an application comes on socket 6 and goes
abbrev visit : List Event
visit =
    record (event 1) { fd = 4; accepted = code 6; epoll_rc = code 0 }
    ∷ record (event 1) { fd = 6; bytes = closed }
    ∷ []

unused-Serves : Serves applications (code 3) (code 4) nobody unused
unfolding Serves open_in
unused-Serves = (record { same = λ socket. refl; distinct = tt; sound = tt }, refl, refl)

visit-AllReadable : AllReadable (code 3) (code 4) nobody visit
unfolding AllReadable AllAdmissible Admissible opened opened_by opened_event source_in calls_of
visit-AllReadable =
    ((connect (code 6) (code 0) 0 ∷ [], refl, (refl, tt)), ((hang_up 6 ∷ [], refl, (tt, tt)), tt))

handle_events-source_of_example :
    (done : Outcome × MiptpServer applications) × handle_events applications packages unused visit
        running
      ≡ some done
    × Dispatches applications (code 3) (code 4) (opened_events (code 3) (code 4) nobody visit) done
handle_events-source_of_example =
    handle_events-source_of applications packages (code 3) (code 4) nobody unused visit running
      unused-Serves visit-AllReadable
