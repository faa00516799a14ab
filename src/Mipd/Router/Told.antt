-- ===== src/Mipd/Router/Told.antt =====
-- What broadcast_route_table of mipd tells the neighbor behind an interface, written without the
-- daemon's functions: mipd/src/lib/router/routing.c.
use in4230_mip.Prelude.{
  ℕ, zero, suc, ◌≡◌, refl, List, [], ◌∷◌, ◌++◌, map, if◌then◌else◌, ltb, ◌==◌, take, drop, arith,
  Bool-cases, inl, inr,
}
use in4230_mip.Routerd.Table.{PackageEntry, TablePackage, uint_max}
use in4230_mip.Mipd.Interface.{InterfaceRecord}
use in4230_mip.Mipd.Arp.{
  CacheEntry, ArpCache, live, socket_mip_address_loop, query_cache_socket_mip_address,
}
use in4230_mip.Mipd.Router.{poison_entry, poison_loop, poison_reverse, outgoing_table}

-- The neighbor behind a socket: the address of the first entry with that socket. Without one, or with
-- 255, it is the interface's own address.
unfoldable pub behind : List CacheEntry → (socket own : ℕ) → ℕ
behind [] socket own = own
behind (e ∷ es) socket own =
    if e.src_socket == socket
    then (if ltb e.mip_address 255 then e.mip_address else own)
    else behind es socket own

-- a route as the neighbor is told of it: at the cost UINT_MAX where it goes over that neighbor
unfoldable pub told_entry : ℕ → PackageEntry → PackageEntry
told_entry neighbor e = record {
  destination = e.destination;
  next_hop = e.next_hop;
  cost = if e.next_hop == neighbor then uint_max else e.cost;
}

-- The table that goes out on an interface: under its address, and with the entries in use as the
-- neighbor behind it is told of them.
unfoldable pub told : ArpCache → TablePackage → InterfaceRecord → TablePackage
unfolding told_entry behind
told cache t r = record {
  table_address = r.mip_address;
  num_entries = t.num_entries;
  entries =
      map (told_entry (behind (live cache) r.raw_socket r.mip_address))
        (take t.num_entries t.entries)
      ++ drop t.num_entries t.entries;
}

loop-behind :
    (es : List CacheEntry) (socket own : ℕ)
    → (if socket_mip_address_loop es socket == 255 then own else socket_mip_address_loop es socket)
      ≡ behind es socket own
unfolding socket_mip_address_loop behind
loop-behind [] socket own = refl
loop-behind (e ∷ es) socket own = ground (arith, loop-behind es socket own)

poison_entry-told_entry : (d : ℕ) (e : PackageEntry) → poison_entry d e ≡ told_entry d e
unfolding poison_entry told_entry
poison_entry-told_entry d e = elim (Bool-cases (e.next_hop == d)) [
  | inl h ↦ rw h refl
  | inr h ↦ rw h refl
]

poison_loop-told_entry :
    (d n : ℕ) (es : List PackageEntry)
    → poison_loop d n es ≡ map (told_entry d) (take n es) ++ drop n es
unfolding poison_loop
poison_loop-told_entry d zero es = refl
poison_loop-told_entry d (suc n) [] = refl
poison_loop-told_entry d (suc n) (e ∷ es) =
    rw (poison_entry-told_entry d e, poison_loop-told_entry d n es) refl

pub outgoing_table-told :
    (cache : ArpCache) (t : TablePackage) (r : InterfaceRecord)
    → outgoing_table cache t r ≡ told cache t r
unfolding outgoing_table poison_reverse told query_cache_socket_mip_address
outgoing_table-told cache t r =
    rw
      (
        loop-behind (live cache) r.raw_socket r.mip_address,
        poison_loop-told_entry (behind (live cache) r.raw_socket r.mip_address) t.num_entries
            t.entries,
      )
      refl
