-- ===== src/Mipd/Server/Run.antt =====
-- MIPDServer_run of mipd/src/lib/server.c: the events of a turn, the turns, and what comes before them.
use in4230_mip.Prelude.{ℕ, Option, some, List, [], ◌∷◌, ◌++◌, Code, minus_one, code, ◌>>=◌}
use in4230_mip.Commons.LinkedList.{LinkedList}
use in4230_mip.Mipd.Interface.{InterfaceRecord}
use in4230_mip.Mipd.Arp.{create_cache, complete_mip_arp, update_arp_cache}
use in4230_mip.Mipd.Router.{ForwardQueueEntry, LocalSocket, MipdServer, queue_create}
use in4230_mip.Mipd.Server.{Output}
use in4230_mip.Mipd.Server.Events.{
  Event, Outcome, running, stopping, aborted, Result, handle_event, on_wire,
}

-- The readings of the clock and the results of `sendto` in `update_arp_cache`, and the events polled.
pub record Turn : Type 0 where
  pub expire_at : ℕ → ℕ
  pub test_at : ℕ
  pub stamp_at : ℕ
  pub arp_rc : ℕ → Code
  pub events : List Event

module _ (Q : LinkedList ForwardQueueEntry) (src_pointer dst_pointer : List ℕ) where
  -- `MIPDServer_create`
  unfoldable pub server_create :
      (app_socket route_socket forward_socket : LocalSocket)
      → List InterfaceRecord
      → ℕ
      → MipdServer Q
  server_create app_socket route_socket forward_socket table cache_update_freq_milli = record {
    app_socket = app_socket;
    route_socket = route_socket;
    forward_socket = forward_socket;
    i_table = table;
    cache = create_cache cache_update_freq_milli;
    forward_queue = queue_create Q;
  }

  abbrev pub Turned : Type 0
  Turned = Outcome × MipdServer Q × List Output

  -- What was written before, ahead of what comes after.
  unfoldable pub prepend : List Output → Turned → Turned
  prepend out (outcome, server, rest) = (outcome, server, out ++ rest)

  -- The `for` over the events: a failed check leaves the function; after "stop" the events left are
  -- still handled.
  unfoldable pub handle_events :
      (MipdServer Q → Event → Result Q src_pointer dst_pointer)
      → Outcome
      → MipdServer Q
      → List Event
      → Option Turned
  unfolding prepend
  handle_events step outcome server [] = some (outcome, server, [])
  handle_events step outcome server (event ∷ rest) = do
    first ← step server event
    elim first.0 [
      | aborted ↦ some first
      | stopping ↦ (do
        onward ← handle_events step stopping first.1 rest
        some (prepend first.2 onward))
      | running ↦ (do
        onward ← handle_events step outcome first.1 rest
        some (prepend first.2 onward))
    ]

  -- One turn of the `while`. What `update_arp_cache` returns is not looked at.
  unfoldable pub run_turn : MipdServer Q → Turn → Option Turned
  unfolding handle_events
  run_turn server turn =
      let aged =
        update_arp_cache turn.expire_at turn.test_at turn.stamp_at turn.arp_rc server.i_table
          server.cache in
      (do
        done ←
            handle_events (handle_event Q src_pointer dst_pointer) running
              (record server { cache = aged.1 }) turn.events
        some (prepend (on_wire aged.2) done))

  -- The `while (running)` over the turns that there were.
  unfoldable pub run_turns : MipdServer Q → List Turn → Option Turned
  unfolding run_turn
  run_turns server [] = some (running, server, [])
  run_turns server (turn ∷ rest) = do
    first ← run_turn server turn
    elim first.0 [
      | aborted ↦ some first
      | stopping ↦ some first
      | running ↦ (do onward ← run_turns first.1 rest; some (prepend first.2 onward))
    ]

  -- `MIPDServer_run`: the first round of requests is checked.
  unfoldable pub run : (ℕ → Code) → ℕ → MipdServer Q → List Turn → Option Turned
  unfolding run_turns
  run send_rc now server turns =
      let asked = complete_mip_arp send_rc now server.i_table server.cache in
      let started = record server { cache = asked.1 } in
      elim asked.0 [
        | minus_one ↦ some (aborted, started, on_wire asked.2)
        | code _ ↦ (do done ← run_turns started turns; some (prepend (on_wire asked.2) done))
      ]
