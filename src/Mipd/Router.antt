-- ===== src/Mipd/Router.antt =====
-- What mipd does for the routing daemon, mipd/src/lib/router: forwarding.c and routing.c, with the
-- state of mipd/src/lib/server.h. A socket is its file descriptor; `none` is a fault of memory (a
-- NULL pointer that is followed, an access past a block). A descriptor of -1 is `minus_one`.
pub mod Queue
pub mod Poison
pub mod Broadcast
pub mod Told
use in4230_mip.Prelude.{
  ℕ, zero, suc, ◌+◌, ◌*◌, Bool, true, false, Option, none, some, List, [], ◌∷◌, ◌++◌, if◌then◌else◌,
  ◌==◌, read_at, take, drop, le32, value_le, ◌>>=◌, Code, minus_one, code, get_elem?,
}
use in4230_mip.Commons.LinkedList.{LinkedList}
use in4230_mip.Routerd.Table.{PackageEntry, TablePackage, uint_max, package_entries_max_size}
use in4230_mip.Mipd.Packaging.{
  MipPackage, package_create_raw, create_ethernet_frame, eth_broadcast_addr,
}
use in4230_mip.Mipd.Interface.{InterfaceRecord, get_interface_pos_for_socket}
use in4230_mip.Mipd.Arp.{
  ArpCache, CacheEntry, Sent, query_cache_socket_mip_address, query_mip_address_src_socket,
  query_mip_address_pos,
}

pub record ForwardQueueEntry : Type 0 where
  pub destination : ℕ
  pub p : MipPackage
  pub age_milli : ℕ

pub record LocalSocket : Type 0 where
  pub listening_socket_fd : ℕ
  pub connected_socket_fd : Code

pub record MipdServer (Q : LinkedList ForwardQueueEntry) : Type 0 where
  pub app_socket : LocalSocket
  pub route_socket : LocalSocket
  pub forward_socket : LocalSocket
  pub i_table : List InterfaceRecord
  pub cache : ArpCache
  pub forward_queue : Q.Handle

-- `sizeof(MIPRouteTablePackage)`: two bytes and 64 entries of eight
abbrev pub sizeof_table_package : ℕ
sizeof_table_package = 514

-- An entry in memory: two bytes, two of padding, and the cost.
unfoldable pub entry_bytes : PackageEntry → List ℕ
entry_bytes e = e.destination ∷ e.next_hop ∷ 0 ∷ 0 ∷ le32 e.cost

unfoldable pub entries_bytes : List PackageEntry → List ℕ
unfolding entry_bytes
entries_bytes [] = []
entries_bytes (e ∷ es) = entry_bytes e ++ entries_bytes es

unfoldable pub table_bytes : TablePackage → List ℕ
table_bytes t = t.table_address ∷ t.num_entries ∷ entries_bytes t.entries

unfoldable pub parse_entry : List ℕ → Option PackageEntry
parse_entry bytes = do
  destination ← read_at bytes 0 1
  next_hop ← read_at bytes 1 1
  cost ← read_at bytes 4 4
  some (record {
    destination = value_le destination;
    next_hop = value_le next_hop;
    cost = value_le cost;
  })

unfoldable pub parse_entries : ℕ → List ℕ → Option (List PackageEntry)
unfolding parse_entry
parse_entries zero bytes = some []
parse_entries (suc n) bytes = do
  e ← parse_entry bytes
  es ← parse_entries n (drop 8 bytes)
  some (e ∷ es)

-- `parse_broadcasted_table`: the structure that the first bytes of the message are.
unfoldable pub parse_broadcasted_table : MipPackage → Option TablePackage
parse_broadcasted_table p = do
  message ← p.message
  bytes ← read_at message 0 sizeof_table_package
  table_address ← read_at bytes 0 1
  num_entries ← read_at bytes 1 1
  entries ← parse_entries package_entries_max_size (drop 2 bytes)
  some (record {
    table_address = value_le table_address;
    num_entries = value_le num_entries;
    entries = entries;
  })

unfoldable pub poison_entry : ℕ → PackageEntry → PackageEntry
poison_entry destination e = if e.next_hop == destination then record e { cost = uint_max } else e

-- The loop of `poison_reverse`, over the first `n` entries.
unfoldable pub poison_loop : ℕ → ℕ → List PackageEntry → List PackageEntry
unfolding poison_entry
poison_loop destination zero es = es
poison_loop destination (suc n) [] = []
poison_loop destination (suc n) (e ∷ es) = poison_entry destination e ∷ poison_loop destination n es

-- `poison_reverse`
unfoldable pub poison_reverse : TablePackage → ℕ → TablePackage
unfolding poison_loop
poison_reverse t destination = record t {
  entries = poison_loop destination t.num_entries t.entries;
}

-- `tmp` of `broadcast_route_table` for one interface.
unfoldable pub outgoing_table : ArpCache → TablePackage → InterfaceRecord → TablePackage
unfolding poison_reverse
outgoing_table cache t r =
    let destination = query_cache_socket_mip_address cache r.raw_socket in
    poison_reverse (record t { table_address = r.mip_address })
      (if destination == 255 then r.mip_address else destination)

-- `ForwardQueue_create`, `ForwardQueue_push` and `ForwardQueue_pop`; the pop has `none` for NULL.
-- The push is declared to return a code and has no `return`.
module _ (Q : LinkedList ForwardQueueEntry) where
  unfoldable pub queue_create : Q.Handle
  queue_create = Q.create

  unfoldable pub queue_push : ℕ → Q.Handle → MipPackage → Q.Handle
  queue_push now q p =
      Q.unshift q (record { destination = p.m_header.dst_addr; p = p; age_milli = now })

  unfoldable pub queue_pop : Q.Handle → Option MipPackage × Q.Handle
  queue_pop q = let popped = Q.pop q in (do entry ← popped.0; some entry.p, popped.1)

-- `forward_found`
unfoldable pub forward_found : ℕ → Bool
forward_found forward_response = if forward_response == 255 then false else true

-- One pass of the `for` of `broadcast_route_table`, by the package made and by what `sendto` returns,
-- with the passes behind it.
unfoldable pub send_out :
    ℕ → Option (Option MipPackage) → Code → Option (Bool × List Sent) → Option (Bool × List Sent)
send_out raw_socket none rc onward = none
send_out raw_socket (some none) rc onward = none
send_out raw_socket (some (some p)) minus_one onward = some (false, (raw_socket, p) ∷ [])
send_out raw_socket (some (some p)) (code n) onward = do
  others ← onward
  some (others.0, (raw_socket, p) ∷ others.1)

module _ (src_pointer dst_pointer : List ℕ) (send_rc : ℕ → Code) where
  -- The `for` of `broadcast_route_table`: whether every `sendto` succeeded, and what was sent.
  unfoldable pub broadcast_loop :
      ℕ → ArpCache → TablePackage → List InterfaceRecord → Option (Bool × List Sent)
  unfolding send_out
  broadcast_loop i cache t [] = some (true, [])
  broadcast_loop i cache t (r ∷ rest) =
      send_out r.raw_socket
        (package_create_raw r.mip_address src_pointer 255 dst_pointer
          (table_bytes (outgoing_table cache t r)) sizeof_table_package 2)
        (send_rc i) (broadcast_loop (i + 1) cache t rest)

  -- `broadcast_route_table` of mipd
  unfoldable pub broadcast_route_table :
      ArpCache → List InterfaceRecord → TablePackage → Option (Code × List Sent)
  unfolding broadcast_loop
  broadcast_route_table cache i_table t = do
    out ← broadcast_loop 0 cache t i_table
    some (if out.0 then code 1 else minus_one, out.1)
