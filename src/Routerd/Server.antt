-- ===== src/Routerd/Server.antt =====
-- The event loop of the routing daemon, routerd/src/lib/router_server.c. A turn of the loop takes
-- the readings of the clock and the events that `epoll_wait` returned, and gives the new state with
-- what was written to the sockets.
pub mod Invariant
mod Tests
use in4230_mip.Prelude.{
  ℕ, ◌+◌, Bool, true, false, Option, none, some, List, [], ◌∷◌, ◌++◌, if◌then◌else◌, Code,
  minus_one, code, Recv,
}
use in4230_mip.Commons.LinkedList.{LinkedList}
use in4230_mip.Routerd.Table.{
  RouteEntry, RouteTable, TablePackage, create, update, update_routing, remove_old_entries,
}
use in4230_mip.Routerd.Handlers.{
  should_complete_route_broadcast, broadcast_route_table, handle_route_request,
  handle_forwarding_request, send_forwarding_response,
}

pub record RouterServer (L : LinkedList RouteEntry) : Type 0 where
  pub table : RouteTable L
  pub broadcast_freq_milli : ℕ
  pub last_broadcast_milli : ℕ

-- What the daemon writes: a table to the routing socket, an answer to the forwarding socket.
pub data Output : Type 0 where
  broadcast : TablePackage → Output
  answer : ℕ → Output

-- What `read` finds on standard input or another descriptor: nothing, "stop", or something else.
pub data Input : Type 0 where
  nothing stop other : Input

-- An event with what the calls on its descriptor return. `read_at` is the clock for a new table,
-- `merge_at` the clock for its routes.
pub data Event : Type 0 where
  routing_event : Recv TablePackage → (read_at merge_at : ℕ → ℕ) → Event
  forward_event : Recv ℕ → (send_rc : Code) → Event
  input_event : Input → Event

-- How the loop stands: `running` is 1, or `running` is 0 and the function returns 1 when the turn is
-- over, or a check has failed and the function has returned -1.
pub data Outcome : Type 0 where
  running stopping aborted : Outcome

-- The readings of one turn: for the test, for the stamp of a broadcast, and for the expiry; and what
-- `write` returns for a broadcast.
pub record Turn : Type 0 where
  pub test_at : ℕ
  pub stamp_at : ℕ
  pub expire_at : ℕ → ℕ
  pub write_rc : Code
  pub events : List Event

abbrev pub written : Option TablePackage → List Output
written none = []
written (some table_package) = broadcast table_package ∷ []

module _ (L : LinkedList RouteEntry) where
  unfoldable pub add_addresses : (ℕ → ℕ) → ℕ → List ℕ → RouteTable L → RouteTable L
  add_addresses now i [] table = table
  add_addresses now i (address ∷ rest) table =
      add_addresses now (i + 1) rest (update L table address address 0 (now i)).1

  -- `RouterServer_create`: the table holds the host's own addresses at cost 0.
  unfoldable pub server_create : (ℕ → ℕ) → ℕ → List ℕ → RouterServer L
  unfolding add_addresses
  server_create now broadcast_freq mip_addresses = record {
    table = add_addresses now 0 mip_addresses (create L);
    broadcast_freq_milli = broadcast_freq;
    last_broadcast_milli = 0;
  }

  -- The end of a routing event: `check_mem(neighbor_table)`, then the merge.
  unfoldable pub merge_neighbor :
      RouterServer L → (ℕ → ℕ) → Option (RouteTable L) → RouterServer L × List Output × Outcome
  merge_neighbor server merge_at none = (server, [], aborted)
  merge_neighbor server merge_at (some neighbor_table) =
      (record server { table = update_routing L merge_at server.table neighbor_table }, [], running)

  -- One pass of the `for` over the events: the state, what is written, and how the loop stands.
  unfoldable pub handle_event : RouterServer L → Event → RouterServer L × List Output × Outcome
  unfolding merge_neighbor
  handle_event server (routing_event packet read_at merge_at) =
      merge_neighbor server merge_at (handle_route_request L read_at packet)
  handle_event server (forward_event request send_rc) =
      let result = handle_forwarding_request L server.table request in
      (server, answer ((send_forwarding_response result send_rc).1) ∷ [], running)
  handle_event server (input_event nothing) = (server, [], running)
  handle_event server (input_event stop) = (server, [], stopping)
  handle_event server (input_event other) = (server, [], running)

  -- A failed check leaves the function at once; else what follows comes behind.
  unfoldable pub and_then :
      RouterServer L × List Output × Outcome
      → RouterServer L × List Output × Outcome
      → RouterServer L × List Output × Outcome
  and_then (server, out, aborted) onward = (server, out, aborted)
  and_then (server, out, stopping) onward = (onward.0, out ++ onward.1, onward.2)
  and_then (server, out, running) onward = (onward.0, out ++ onward.1, onward.2)

  -- The `for` over the events. After "stop" the events left are still handled.
  unfoldable pub handle_events :
      RouterServer L → List Event → Outcome → RouterServer L × List Output × Outcome
  unfolding and_then
  handle_events server [] outcome = (server, [], outcome)
  handle_events server (event ∷ rest) outcome =
      let first = handle_event server event in
      and_then first
        (handle_events first.0 rest (elim first.2 [ stopping ↦ stopping | _ ↦ outcome ]))

  -- The end of the broadcast, by what it returned.
  unfoldable pub broadcast_done :
      RouterServer L → ℕ → Code × Option TablePackage → RouterServer L × List Output × Outcome
  broadcast_done server stamp_at (minus_one, sent) = (server, written sent, aborted)
  broadcast_done server stamp_at (code n, sent) =
      (record server { last_broadcast_milli = stamp_at }, written sent, running)

  -- The broadcast at the head of a turn, where it is due.
  unfoldable pub broadcast_if_due : RouterServer L → Turn → RouterServer L × List Output × Outcome
  unfolding broadcast_done
  broadcast_if_due server turn =
      if should_complete_route_broadcast turn.test_at server.last_broadcast_milli
        server.broadcast_freq_milli
      then broadcast_done server turn.stamp_at (broadcast_route_table L server.table turn.write_rc)
      else (server, [], running)

  -- The call of `MIPRouteTable_remove_old_entries` in a turn.
  unfoldable pub age : RouterServer L → Turn → RouterServer L
  age server turn = record server { table = (remove_old_entries L turn.expire_at server.table).1 }

  -- One turn of the `while`.
  unfoldable pub run_turn : RouterServer L → Turn → RouterServer L × List Output × Outcome
  unfolding broadcast_if_due handle_events age
  run_turn server turn =
      let sent = broadcast_if_due server turn in
      and_then sent (handle_events (age sent.0 turn) turn.events running)

  -- The `while (running)`: a turn that leaves it at 1 is followed by the next.
  unfoldable pub next_turn :
      RouterServer L × List Output × Outcome
      → RouterServer L × List Output × Outcome
      → RouterServer L × List Output × Outcome
  next_turn (server, out, aborted) onward = (server, out, aborted)
  next_turn (server, out, stopping) onward = (server, out, stopping)
  next_turn (server, out, running) onward = (onward.0, out ++ onward.1, onward.2)

  -- `RouterServer_run` over the turns that there were.
  unfoldable pub run : RouterServer L → List Turn → RouterServer L × List Output × Outcome
  unfolding next_turn run_turn
  run server [] = (server, [], running)
  run server (turn ∷ rest) = let first = run_turn server turn in next_turn first (run first.0 rest)
