-- ===== src/Routerd/Handlers.antt =====
-- The socket handlers of the routing daemon, routerd/src/lib/routing_handler.c and
-- forwarding_handler.c. What a socket call returns is an argument.
use in4230_mip.Prelude.{
  ℕ, ◌+◌, Bool, Option, none, some, if◌then◌else◌, ltb, Code, minus_one, Recv, failed, closed,
  received, replicate,
}
use in4230_mip.Commons.LinkedList.{LinkedList}
use in4230_mip.Routerd.Table.{
  RouteEntry, RouteTable, TablePackage, package_entries_max_size, empty_entry, create_package,
  create_table, get_next_hop,
}

-- `recv_forwarding_request`: the destination in the request.
unfoldable pub recv_forwarding_request : Recv ℕ → Option ℕ
recv_forwarding_request failed = none
recv_forwarding_request closed = none
recv_forwarding_request (received destination) = some destination

-- `send_forwarding_response`: the code that it returns and the byte that it hands to `send`.
unfoldable pub send_forwarding_response : ℕ → Code → Code × ℕ
send_forwarding_response next_hop rc = (rc, next_hop)

-- `should_complete_route_broadcast`: a difference of `long`s against a `long`.
unfoldable pub should_complete_route_broadcast : ℕ → ℕ → ℕ → Bool
should_complete_route_broadcast now last_broadcast_milli broadcast_freq_milli =
    ltb (last_broadcast_milli + broadcast_freq_milli) now

-- The package that `calloc` gives, before anything is received into it.
abbrev pub zero_package : TablePackage
zero_package = record {
  table_address = 0;
  num_entries = 0;
  entries = replicate package_entries_max_size empty_entry;
}

module _ (L : LinkedList RouteEntry) where
  -- `handle_forwarding_request`
  unfoldable pub handle_forwarding_request : RouteTable L → Recv ℕ → ℕ
  unfolding recv_forwarding_request
  handle_forwarding_request table request = elim (recv_forwarding_request request) [
    | none ↦ 255
    | some destination ↦ if ltb destination 256 then get_next_hop L table destination else 255
  ]

  -- `broadcast_route_table` of the daemon: what it returns, and what it hands to `write`, which
  -- returns `rc`.
  unfoldable pub broadcast_route_table : RouteTable L → Code → Code × Option TablePackage
  broadcast_route_table table rc = elim (create_package L table) [
    | none ↦ (minus_one, none)
    | some table_package ↦ (rc, some table_package)
  ]

  -- `handle_route_request`. A closed socket leaves the package as `calloc` gave it.
  unfoldable pub handle_route_request : (ℕ → ℕ) → Recv TablePackage → Option (RouteTable L)
  handle_route_request now failed = none
  handle_route_request now closed = create_table L now zero_package
  handle_route_request now (received table_package) = create_table L now table_package
