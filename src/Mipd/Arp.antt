-- ===== src/Mipd/Arp.antt =====
-- The MIP-ARP cache, mipd/src/lib/mip_arp.c: an array of 64 entries, of which the first `size` are in
-- use. `none` is an access past the array. Times are milliseconds below 2^63; `now i` is what
-- `get_milli` returns at its i-th call within an operation.
pub mod Shift
pub mod Lookup
pub mod Expiry
use in4230_mip.Prelude.{
  ℕ, zero, suc, ◌+◌, ◌-◌, ◌*◌, Bool, true, false, Option, none, some, List, [], ◌∷◌, ◌++◌,
  if◌then◌else◌, ltb, ◌==◌, sub64, get_or, set, take, length, replicate, ◌>>=◌, Code, minus_one,
  code,
}
use in4230_mip.Mipd.Packaging.{MipPackage, package_create_mip_arp_request}
use in4230_mip.Mipd.Interface.{InterfaceRecord}

pub record CacheEntry : Type 0 where
  pub mip_address : ℕ
  pub src_socket : ℕ
  pub dst_interface : List ℕ
  pub last_update : ℕ

pub record ArpCache : Type 0 where
  pub entries : List CacheEntry
  pub size : ℕ
  pub update_freq : ℕ
  pub last_arp : ℕ

-- What `memset` to 0 leaves.
abbrev pub empty_entry : CacheEntry
empty_entry = record { mip_address = 0; src_socket = 0; dst_interface = []; last_update = 0 }

-- the entries in use
abbrev pub live : ArpCache → List CacheEntry
live cache = take cache.size cache.entries

-- `create_cache`
unfoldable pub create_cache : ℕ → ArpCache
create_cache update_freq = record {
  entries = replicate 64 empty_entry;
  size = 0;
  update_freq = update_freq;
  last_arp = 0;
}

unfoldable pub pos_loop : ℕ → List CacheEntry → ℕ → Option ℕ
pos_loop i [] mip_address = none
pos_loop i (e ∷ rest) mip_address =
    if mip_address == e.mip_address then some i else pos_loop (i + 1) rest mip_address

-- `query_mip_address_pos`, with `none` for -1
unfoldable pub query_mip_address_pos : ArpCache → ℕ → Option ℕ
unfolding pos_loop
query_mip_address_pos cache mip_address = pos_loop 0 (live cache) mip_address

unfoldable pub src_socket_loop : List CacheEntry → ℕ → Option ℕ
src_socket_loop [] mip_address = none
src_socket_loop (e ∷ rest) mip_address =
    if mip_address == e.mip_address then some e.src_socket else src_socket_loop rest mip_address

-- `query_mip_address_src_socket`, with `none` for -1
unfoldable pub query_mip_address_src_socket : ArpCache → ℕ → Option ℕ
unfolding src_socket_loop
query_mip_address_src_socket cache mip_address = src_socket_loop (live cache) mip_address

unfoldable pub socket_mip_address_loop : List CacheEntry → ℕ → ℕ
socket_mip_address_loop [] sock = 255
socket_mip_address_loop (e ∷ rest) sock =
    if sock == e.src_socket
    then (if ltb e.mip_address 255 then e.mip_address else 255)
    else socket_mip_address_loop rest sock

-- `query_cache_socket_mip_address`
unfoldable pub query_cache_socket_mip_address : ArpCache → ℕ → ℕ
unfolding socket_mip_address_loop
query_cache_socket_mip_address cache sock = socket_mip_address_loop (live cache) sock

-- The end of `append_to_cache`, by the position that the query gave. There is no test against the 64
-- places of the array.
unfoldable pub store_entry : ArpCache → CacheEntry → Option ℕ → Option (Code × ArpCache)
store_entry cache new_entry (some entry_pos) =
    some (code entry_pos, record cache { entries = set cache.entries entry_pos new_entry })
store_entry cache new_entry none =
    if ltb cache.size (length cache.entries)
    then some (
      code (cache.size + 1),
      record cache { entries = set cache.entries cache.size new_entry; size = cache.size + 1 },
    )
    else none

-- `append_to_cache`
unfoldable pub append_to_cache : ArpCache → ℕ → ℕ → List ℕ → ℕ → Option (Code × ArpCache)
unfolding store_entry
append_to_cache cache src_socket mip_address interface now =
    let new_entry : CacheEntry = record {
      mip_address = mip_address;
      src_socket = src_socket;
      dst_interface = take 6 interface;
      last_update = now;
    } in
    if mip_address == 255
    then some (minus_one, cache)
    else store_entry cache new_entry (query_mip_address_pos cache mip_address)

-- The `for` of `remove_from_cache`, with the number of rounds left.
unfoldable pub shift_loop : ℕ → ℕ → List CacheEntry → List CacheEntry
shift_loop zero i entries = entries
shift_loop (suc rounds) i entries =
    shift_loop rounds (suc i) (set entries (i - 1) (get_or entries i empty_entry))

-- `remove_from_cache`, called for a position in use
unfoldable pub remove_from_cache : ArpCache → ℕ → ArpCache
unfolding shift_loop
remove_from_cache cache pos =
    let shifted =
      if pos == cache.size - 1
      then cache.entries
      else shift_loop (cache.size - suc pos) (suc pos) cache.entries in
    record cache { entries = set shifted (cache.size - 1) empty_entry; size = cache.size - 1 }

-- `should_complete_new_arp`: the difference is compared as an `unsigned long`.
unfoldable pub should_complete_new_arp : ArpCache → ℕ → Bool
should_complete_new_arp cache now = ltb cache.update_freq (sub64 now cache.last_arp)

-- `is_cache_entry_expired`: the difference is compared as a `long`.
unfoldable pub is_cache_entry_expired : CacheEntry → ℕ → ℕ → Bool
is_cache_entry_expired entry update_freq now = ltb (entry.last_update + update_freq) now

-- The `for` of `update_arp_cache`, on fuel; `r` counts the readings of the clock. After a removal the
-- same place is looked at again.
unfoldable pub expire_loop : ℕ → (ℕ → ℕ) → ℕ → ℕ → ArpCache → ArpCache
expire_loop zero now r i cache = cache
expire_loop (suc fuel) now r i cache = elim (ltb i cache.size) [
  | false ↦ cache
  | true ↦
      elim (is_cache_entry_expired (get_or cache.entries i empty_entry) (cache.update_freq * 2)
        (now r)) [
          | true ↦ expire_loop fuel now (r + 1) i (remove_from_cache cache i)
          | false ↦ expire_loop fuel now (r + 1) (i + 1) cache
        ]
]

-- What goes to `sendto`: a socket and a package.
abbrev pub Sent : Type 0
Sent = ℕ × MipPackage

-- The `for` of `complete_mip_arp`: the requests sent, and whether every `sendto` succeeded. A NULL
-- package does not occur, as a request has no payload.
unfoldable pub arp_loop : (ℕ → Code) → ℕ → List InterfaceRecord → Bool × List Sent
arp_loop send_rc i [] = (true, [])
arp_loop send_rc i (r ∷ rest) = elim (package_create_mip_arp_request r.mip_address r.interface) [
  | none ↦ (false, [])
  | some none ↦ (false, [])
  | some (some request) ↦
      let onward = arp_loop send_rc (i + 1) rest in
      elim (send_rc i) [
        | minus_one ↦ (false, (r.raw_socket, request) ∷ [])
        | code _ ↦ (onward.0, (r.raw_socket, request) ∷ onward.1)
      ]
]

-- `complete_mip_arp`
unfoldable pub complete_mip_arp :
    (ℕ → Code) → ℕ → List InterfaceRecord → ArpCache → Code × ArpCache × List Sent
unfolding arp_loop
complete_mip_arp send_rc now table cache =
    let sent = arp_loop send_rc 0 table in
    if sent.0 then (code 1, record cache { last_arp = now }, sent.1) else (minus_one, cache, sent.1)

-- What `update_arp_cache` returns after a round of requests.
unfoldable pub round_status : Code → Code
round_status minus_one = minus_one
round_status (code _) = code 0

-- `update_arp_cache`, with the readings for the test and for the stamp of a new round
unfoldable pub update_arp_cache :
    (ℕ → ℕ)
    → (test_at stamp_at : ℕ) → (ℕ → Code)
    → List InterfaceRecord
    → ArpCache
    → Code × ArpCache × List Sent
unfolding expire_loop
update_arp_cache now test_at stamp_at send_rc table cache =
    let aged = expire_loop cache.size now 0 0 cache in
    if should_complete_new_arp aged test_at
    then (let done = complete_mip_arp send_rc stamp_at table aged in
        (round_status done.0, done.1, done.2))
    else (code 0, aged, [])
