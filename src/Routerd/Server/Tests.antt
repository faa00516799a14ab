-- ===== src/Routerd/Server/Tests.antt =====
-- A run of the routing daemon over plain lists, and its theorems at it.
use in4230_mip.Prelude.{ℕ, ◌≡◌, refl, [], ◌∷◌, code, arith, received, replicate}
use in4230_mip.Commons.LinkedList.{plain}
use in4230_mip.Routerd.Table.{
  create, RouteEntry, TablePackage, empty_entry, get, remove, update, update_routing,
  remove_old_entries, create_package, create_table, get_next_hop, challenge, challenger_wins,
  entry_to_old,
}
use in4230_mip.Routerd.Handlers.{
  handle_forwarding_request, handle_route_request, broadcast_route_table,
  should_complete_route_broadcast, send_forwarding_response,
}
use in4230_mip.Routerd.Server.{
  RouterServer, answer, routing_event, forward_event, input_event, stop, Turn, server_create,
  run_turn, run, handle_event,
}
use in4230_mip.Routerd.Server.Invariant.{Serves, run_turn-Serves, own_address_is_served}

abbrev at : ℕ → ℕ → ℕ
at t i = t

-- The neighbor 20 lists itself, and claims the host's own address 10 at cost 1.
abbrev packet : TablePackage
packet = record {
  table_address = 20;
  num_entries = 2;
  entries =
      record { destination = 20; next_hop = 20; cost = 0 }
      ∷ record { destination = 10; next_hop = 50; cost = 1 }
      ∷ replicate 62 empty_entry;
}

abbrev turn : Turn
turn = record {
  test_at = 1000;
  stamp_at = 1000;
  expire_at = at 9000;
  write_rc = code 514;
  events =
      routing_event (received packet) (at 9001) (at 9002)
      ∷ forward_event (received 20) (code 1)
      ∷ forward_event (received 10) (code 1)
      ∷ forward_event (received 99) (code 1)
      ∷ input_event stop
      ∷ [];
}

abbrev start : RouterServer (plain RouteEntry)
start = server_create (plain RouteEntry) (at 0) 2000 (10 ∷ 11 ∷ [])

answers :
    (run (plain RouteEntry) start (turn ∷ turn ∷ [])).1 ≡ answer 20 ∷ answer 10 ∷ answer 255 ∷ []
unfolding run server_create handle_event handle_forwarding_request handle_route_request
    broadcast_route_table should_complete_route_broadcast send_forwarding_response get remove update
    update_routing remove_old_entries create_package create_table get_next_hop challenge
    challenger_wins entry_to_old
answers = refl

run_turn-Serves_example :
    Serves (plain RouteEntry) 10 ((run_turn (plain RouteEntry) start turn).0).table
unfolding server_create create update remove get
run_turn-Serves_example = run_turn-Serves (plain RouteEntry) 10 start turn (
  (refl, (refl, tt)),
  (record { destination = 10; next_hop = 10; cost = 0; last_updated_milli = 0 }, refl, refl, refl),
)

own_address_is_served_example :
    handle_forwarding_request
      (plain RouteEntry)
      ((run (plain RouteEntry) start (turn ∷ turn ∷ [])).0).table
      (received 11)
    ≡ 11
own_address_is_served_example =
    own_address_is_served (plain RouteEntry) (at 0) 2000 (10 ∷ 11 ∷ []) (turn ∷ turn ∷ []) 1 11
      (omega arith) refl (omega arith)
