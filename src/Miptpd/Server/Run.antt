-- ===== src/Miptpd/Server/Run.antt =====
-- The loop of MIPTPServer_run in miptpd/src/lib/miptp_server.c.
use in4230_mip.Prelude.{ℕ, Option, some, List, [], ◌∷◌, ◌++◌, ◌>>=◌, minus_one, code}
use in4230_mip.Commons.LinkedList.{LinkedList}
use in4230_mip.Miptpd.Package.{MiptpPackage}
use in4230_mip.Miptpd.Connection.{AppConnection}
use in4230_mip.Miptpd.Setup.{MiptpServer}
use in4230_mip.Miptpd.Controller.{handle_outgoing}
use in4230_mip.Miptpd.Server.{Event, Turn, Outcome, running, stopping, aborted, handle_event}

module _ (L : LinkedList AppConnection) (Q : LinkedList MiptpPackage) where
  -- The outcome of a turn so far: after "stop" the events left are still handled.
  unfoldable pub later : Outcome → Outcome → Outcome
  later stopping running = stopping
  later stopping stopping = stopping
  later stopping aborted = aborted
  later running next = next
  later aborted next = aborted

  -- The `for` over the events.
  unfoldable pub handle_events :
      MiptpServer L → List Event → Outcome → Option (Outcome × MiptpServer L)
  handle_events server [] outcome = some (outcome, server)
  handle_events server (event ∷ rest) outcome = do
    first ← handle_event L server event
    elim first.0 [
      | aborted ↦ some (aborted, first.1)
      | _ ↦ handle_events first.1 rest (later outcome first.0)
    ]

  -- One turn of the `while`: what goes out, then the events.
  unfoldable pub run_turn : MiptpServer L → Turn → Option (Outcome × MiptpServer L × List (List ℕ))
  unfolding handle_events
  run_turn server turn = do
    sent ← handle_outgoing L Q turn.send_rc server.app_controller
    elim sent.0 [
      | minus_one ↦ some (aborted, server, sent.1)
      | code _ ↦ (do done ← handle_events server turn.events running; some (done.0, done.1, sent.1))
    ]

  -- `MIPTPServer_run` over the turns that there were.
  unfoldable pub run : MiptpServer L → List Turn → Option (Outcome × MiptpServer L × List (List ℕ))
  unfolding run_turn
  run server [] = some (running, server, [])
  run server (turn ∷ rest) = do
    first ← run_turn server turn
    elim first.0 [
      | running ↦ (do onward ← run first.1 rest; some (onward.0, onward.1, first.2 ++ onward.2))
      | _ ↦ some first
    ]
