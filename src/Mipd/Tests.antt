-- ===== src/Mipd/Tests.antt =====
-- The link daemon at concrete inputs: packages and the link; the child is about the rest.
mod Routing
use in4230_mip.Mipd.Server.{
  handle_raw_socket_frame, handle_transport, request_forwarding, load_forward_package,
}
use in4230_mip.Prelude.{
  ℕ, ◌≡◌, refl, ◌+◌, ◌-◌, ◌*◌, ◌≤◌, ◌<◌, none, some, List, [], ◌∷◌, ◌++◌, map, replicate, drop,
  length, arith, code, Code, All-replicate, inl, inr,
}
use in4230_mip.Commons.LinkedList.{plain}
use in4230_mip.Routerd.Table
use in4230_mip.Routerd.Table.{
  RouteEntry, RouteTable, TablePackage, create_package, create_table, update_routing, get,
  empty_entry,
}
use in4230_mip.Routerd.Table.Lookup.{routes}
use in4230_mip.Routerd.Table.Package.{stamped}
use in4230_mip.Mipd.Packaging.{
  EtherFrame, MipHeader, MipPackage, calculate_mip_payload_words, package_create,
}
use in4230_mip.Mipd.Packaging.Payload.{
  calculate_mip_payload_words_bounds, package_create_lem, package_create_too_large,
}
use in4230_mip.Mipd.Link.{package_bytes, sendto_raw_mip_package, recv_raw_mip_package}
use in4230_mip.Mipd.Link.Wire.{IsWire, recv_raw-sendto_raw, recv_raw_overrun}
use in4230_mip.Mipd.Interface.{InterfaceRecord, get_interface_pos_for_mip_address}
use in4230_mip.Mipd.Arp
use in4230_mip.Mipd.Arp.{
  ArpCache, CacheEntry, Sent, live, create_cache, append_to_cache, query_mip_address_src_socket,
  remove_from_cache, update_arp_cache,
}
use in4230_mip.Mipd.Arp.Shift.{remove_from_cache-remove_at}
use in4230_mip.Mipd.Arp.Expiry.{unexpired, update_arp_cache-unexpired}
use in4230_mip.Mipd.Arp.Lookup.{query-append_to_cache}
use in4230_mip.Mipd.Router.{
  ForwardQueueEntry, LocalSocket, MipdServer, poison_reverse, table_bytes, parse_broadcasted_table,
  broadcast_route_table, queue_create, queue_push,
}
use in4230_mip.Mipd.Router.Queue.{send, receive, popped, fifo, popped-fifo}
use in4230_mip.Mipd.Router.Poison.{poisoned, create_table-poison_reverse, split_horizon}
use in4230_mip.Mipd.Router.Broadcast.{
  IsRow, IsTablePackage, seen, meant, parse_broadcasted_table-table_bytes,
}
use in4230_mip.Mipd.Server.Relay.{Host, relays, relays-ttl, relay_at, relayed, newest}

calculate_mip_payload_words_bounds_example :
    (5 ≤ calculate_mip_payload_words 5 * 4) × (calculate_mip_payload_words 5 * 4 < 5 + 4)
calculate_mip_payload_words_bounds_example = calculate_mip_payload_words_bounds 5

abbrev frame : EtherFrame
frame = record {
  dst_addr = 1 ∷ 2 ∷ 3 ∷ 4 ∷ 5 ∷ 6 ∷ [];
  src_addr = replicate 6 9;
  eth_proto = 0x88 ∷ 0xb5 ∷ [];
}

abbrev pub to_20 : MipHeader
to_20 = record { tra = 3; ttl = 15; payload_len = 0; dst_addr = 20; src_addr = 10 }

abbrev hi : List ℕ
hi = 104 ∷ 105 ∷ 33 ∷ 33 ∷ 33 ∷ []

package_create_lem_example :
    (words padding : ℕ) × (padding < 4)
    × 5 + padding ≡ words * 4
    × package_create frame to_20 hi 5
      ≡ some (
          some (record {
            e_frame = frame;
            m_header = record to_20 { payload_len = words };
            message = some (hi ++ replicate padding 0);
          }))
package_create_lem_example = package_create_lem frame to_20 hi (omega arith) (omega arith)

package_create_too_large_example : package_create frame to_20 (replicate 1497 1) 1497 ≡ some none
package_create_too_large_example =
    package_create_too_large frame to_20 (replicate 1497 1) (omega arith)

abbrev pub on_wire : MipPackage
on_wire = record {
  e_frame = frame;
  m_header = record to_20 { payload_len = 2 };
  message = some (hi ++ 0 ∷ 0 ∷ 0 ∷ []);
}

IsWire-on_wire : IsWire on_wire (hi ++ 0 ∷ 0 ∷ 0 ∷ [])
IsWire-on_wire = record {
  dst = refl;
  src = refl;
  proto = refl;
  tra = omega arith;
  ttl = omega arith;
  payload_len = omega arith;
  mip_dst = omega arith;
  mip_src = omega arith;
  message = refl;
  size = refl;
}

recv_raw-sendto_raw_example :
    (bytes : List ℕ) × (sendto_raw_mip_package (code 34) (replicate 8 7) on_wire
      ≡ some (code 0, bytes))
    × (recv_raw_mip_package (code 34) bytes (replicate 1496 0)
        ≡ some (
          code 34,
          record on_wire { message = some (hi ++ 0 ∷ 0 ∷ 0 ∷ [] ++ drop 8 (replicate 1496 0)) },
        ))
recv_raw-sendto_raw_example =
    recv_raw-sendto_raw on_wire (hi ++ 0 ∷ 0 ∷ 0 ∷ []) (replicate 8 7) IsWire-on_wire refl 34 34
      (replicate 1496 0) (omega arith) (omega arith)

abbrev pub wide : MipPackage
wide = record {
  e_frame = frame;
  m_header = record to_20 { tra = 2; payload_len = 129 };
  message = some (replicate 516 1);
}

IsWire-wide : IsWire wide (replicate 516 1)
IsWire-wide = record {
  dst = refl;
  src = refl;
  proto = refl;
  tra = omega arith;
  ttl = omega arith;
  payload_len = omega arith;
  mip_dst = omega arith;
  mip_src = omega arith;
  message = refl;
  size = refl;
}

recv_raw_overrun_example :
    recv_raw_mip_package
      (code 542)
      (package_bytes (replicate 8 7) wide (replicate 516 1))
      (replicate 1496 0)
    ≡ none
recv_raw_overrun_example =
    recv_raw_overrun wide (replicate 516 1) (replicate 8 7) IsWire-wide refl 542 (replicate 1496 0)
      (omega arith)
