-- ===== src/Mipd/Tests/Routing.antt =====
-- The link daemon at concrete inputs: the cache, the tables, the queue and the handlers.
use in4230_mip.Mipd.Tests.{on_wire, wide, to_20}
use in4230_mip.Mipd.Server.{
  handle_raw_socket_frame, handle_transport, request_forwarding, load_forward_package,
}
use in4230_mip.Prelude.{
  ℕ, ◌≡◌, refl, ◌+◌, ◌≤◌, none, some, [], ◌∷◌, map, replicate, length, arith, code, Code, inl, inr,
}
use in4230_mip.Commons.LinkedList.{plain}
use in4230_mip.Routerd.Table
use in4230_mip.Routerd.Table.{
  RouteEntry, RouteTable, TablePackage, create_package, create_table, update_routing, get,
  empty_entry,
}
use in4230_mip.Routerd.Table.Lookup.{routes}
use in4230_mip.Routerd.Table.Package.{stamped}
use in4230_mip.Mipd.Packaging.{MipPackage}
use in4230_mip.Mipd.Interface.{InterfaceRecord, get_interface_pos_for_mip_address}
use in4230_mip.Mipd.Arp
use in4230_mip.Mipd.Arp.{
  ArpCache, CacheEntry, live, create_cache, append_to_cache, query_mip_address_src_socket,
  remove_from_cache, update_arp_cache,
}
use in4230_mip.Mipd.Arp.Shift.{remove_from_cache-remove_at}
use in4230_mip.Mipd.Arp.Expiry.{unexpired, update_arp_cache-unexpired}
use in4230_mip.Mipd.Arp.Lookup.{entry_for, query-append_to_cache}
use in4230_mip.Mipd.Router.{
  ForwardQueueEntry, LocalSocket, MipdServer, poison_reverse, queue_create, queue_push,
}
use in4230_mip.Mipd.Router.Queue.{send, receive, popped, fifo, popped-fifo}
use in4230_mip.Mipd.Router.Poison.{poisoned, create_table-poison_reverse, split_horizon}
use in4230_mip.Mipd.Server.Relay.{Host, relays, relays-ttl, relay_at, relayed, newest}

abbrev row : ℕ → ℕ → ℕ → CacheEntry
row address socket at = record {
  mip_address = address;
  src_socket = socket;
  dst_interface = replicate 6 address;
  last_update = at;
}

abbrev cache : ArpCache
cache = record {
  entries = row 20 5 100 ∷ row 30 6 900 ∷ row 40 7 300 ∷ replicate 61 Arp.empty_entry;
  size = 3;
  update_freq = 200;
  last_arp = 0;
}

remove_from_cache-remove_at_example :
    (live (remove_from_cache cache 1) ≡ row 20 5 100 ∷ row 40 7 300 ∷ [])
    × ((remove_from_cache cache 1).size ≡ 2)
    × (length (remove_from_cache cache 1).entries ≡ 64)
remove_from_cache-remove_at_example =
    remove_from_cache-remove_at cache 1 (omega arith) (omega arith)

abbrev eth0 : InterfaceRecord
eth0 = record {
  interface = replicate 6 10;
  sll_addr = replicate 6 10;
  mip_address = 10;
  raw_socket = 5;
}

abbrev eth1 : InterfaceRecord
eth1 = record {
  interface = replicate 6 11;
  sll_addr = replicate 6 11;
  mip_address = 11;
  raw_socket = 9;
}

abbrev at : ℕ → ℕ → ℕ
at t i = t

update_arp_cache-unexpired_example :
    live (update_arp_cache (at 1000) 1001 1002 (λ i. code 18) (eth0 ∷ []) cache).1
    ≡ unexpired 200 (at 1000) 0 (live cache)
update_arp_cache-unexpired_example =
    update_arp_cache-unexpired (at 1000) 1001 1002 (λ i. code 18) (eth0 ∷ []) cache (omega arith)

survivors : unexpired 200 (at 1000) 0 (live cache) ≡ row 30 6 900 ∷ []
unfolding unexpired
survivors = refl

query-append_to_cache_example :
    (out : Code × ArpCache) × append_to_cache cache 9 50 (replicate 6 50) 1000 ≡ some out
    × query_mip_address_src_socket out.1 50 ≡ some 9
    × out.1.size ≤ length out.1.entries
    × length out.1.entries ≡ 64
    × ((out.0 ≡ code 4) × out.1.size ≡ 4)
unfolding entry_for
query-append_to_cache_example =
    query-append_to_cache cache 9 50 (replicate 6 50) 1000 50 (omega arith) refl

popped-fifo_example :
    popped
      (plain ForwardQueueEntry)
      (send 1 on_wire ∷ send 2 wide ∷ receive ∷ receive ∷ receive ∷ [])
      (queue_create (plain ForwardQueueEntry))
    ≡ fifo (send 1 on_wire ∷ send 2 wide ∷ receive ∷ receive ∷ receive ∷ []) []
popped-fifo_example =
    popped-fifo (plain ForwardQueueEntry)
      (send 1 on_wire ∷ send 2 wide ∷ receive ∷ receive ∷ receive ∷ [])

in_order :
    fifo (send 1 on_wire ∷ send 2 wide ∷ receive ∷ receive ∷ receive ∷ []) []
    ≡ some on_wire ∷ some wide ∷ none ∷ []
unfolding fifo
in_order = refl

abbrev sender : RouteTable (plain RouteEntry)
sender = record {
  table_address = 0;
  entry_max_age_milli = 5000;
  entries =
      record { destination = 10; next_hop = 10; cost = 0; last_updated_milli = 0 }
      ∷ record { destination = 30; next_hop = 20; cost = 1; last_updated_milli = 0 }
      ∷ [];
}

create_table-poison_reverse_example :
    (p : TablePackage) × (create_package (plain RouteEntry) sender ≡ some p)
    × (arrived : RouteTable (plain RouteEntry)) × (create_table
          (plain RouteEntry)
          (at 7)
          (poison_reverse (record p { table_address = 10 }) 20)
        ≡ some arrived)
    × (arrived.entries ≡ stamped (at 7) 0 (map (poisoned 20) sender.entries))
    × (arrived.table_address ≡ 10)
unfolding routes
create_table-poison_reverse_example =
    create_table-poison_reverse (plain RouteEntry) (at 7) sender 20 10 (omega arith)
      ((omega arith, omega arith), ((omega arith, omega arith), tt))

-- the neighbor at 20, which has lost its route to 30
abbrev receiver : RouteTable (plain RouteEntry)
receiver = record {
  table_address = 0;
  entry_max_age_milli = 5000;
  entries = record { destination = 20; next_hop = 20; cost = 0; last_updated_milli = 0 } ∷ [];
}

split_horizon_example :
    (p : TablePackage) × (create_package (plain RouteEntry) sender ≡ some p)
    × (arrived : RouteTable (plain RouteEntry)) × (create_table
          (plain RouteEntry)
          (at 7)
          (poison_reverse (record p { table_address = 10 }) 20)
        ≡ some arrived)
    × (get (plain RouteEntry) (update_routing (plain RouteEntry) (at 9) receiver arrived) 30
        ≡ get (plain RouteEntry) receiver 30)
unfolding Table.find_entry
split_horizon_example =
    split_horizon (plain RouteEntry) (at 7) sender 20 10 (omega arith)
      ((omega arith, omega arith), ((omega arith, omega arith), tt)) receiver (at 9) 30 (refl, tt)
      (inl (omega arith), (inr refl, tt))

abbrev announced : TablePackage
announced = record { table_address = 0; num_entries = 0; entries = replicate 64 Table.empty_entry }

abbrev socket : ℕ → LocalSocket
socket n = record { listening_socket_fd = n; connected_socket_fd = code (n + 1) }

-- A host that has learned the neighbor 20, and is asked to forward to 60 through it.
abbrev host : Host (plain ForwardQueueEntry)
host =
    let server : MipdServer (plain ForwardQueueEntry) = record {
      app_socket = socket 20;
      route_socket = socket 22;
      forward_socket = socket 24;
      i_table = eth0 ∷ [];
      cache = cache;
      forward_queue = [];
    } in
    record { receiving = server; answering = server; fd = 5; rc = code 1; now = 7; next_hop = 20 }

abbrev astray : MipPackage
astray = record on_wire { m_header = record to_20 { dst_addr = 60; ttl = 2 } }

relays-ttl_example :
    relays
      (plain ForwardQueueEntry)
      (replicate 8 1)
      (replicate 8 2)
      (host ∷ host ∷ host ∷ host ∷ [])
      astray
    ≤ 2
relays-ttl_example =
    relays-ttl (plain ForwardQueueEntry) (replicate 8 1) (replicate 8 2)
      (host ∷ host ∷ host ∷ host ∷ []) astray

three_hosts : relays (plain ForwardQueueEntry) [] [] (host ∷ host ∷ host ∷ host ∷ []) astray ≡ 2
unfolding relays relay_at relayed handle_raw_socket_frame handle_transport
    get_interface_pos_for_mip_address request_forwarding newest queue_push load_forward_package
    query_mip_address_src_socket Arp.query_mip_address_pos
three_hosts = refl
