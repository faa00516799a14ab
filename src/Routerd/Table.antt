-- ===== src/Routerd/Table.antt =====
-- The routing table, routerd/src/lib/mip_route_table.c and .h. The clock is an argument: `now i` is
-- what `get_now_milli` returns at its i-th call within an operation. Entries that a list holds are
-- never NULL and `calloc` does not fail, so the checks for these do not appear.
pub mod Lookup
pub mod Relax
pub mod Routing
pub mod Expiry
pub mod Package
mod Tests
use in4230_mip.Prelude.{
  ℕ, zero, suc, ◌+◌, ◌-◌, ◌%◌, ◌^◌, Bool, true, false, not, ◌&&◌, ◌||◌, Option, none, some, List,
  [], ◌∷◌, ◌++◌, if◌then◌else◌, ltb, leb, ◌==◌, Code, minus_one, code, length, replicate, take,
  u32_mod,
}
use in4230_mip.Commons.LinkedList.{LinkedList}

-- `MIP_BROADCAST_ADDRESS`
abbrev pub broadcast_address : ℕ
broadcast_address = 255

-- `MIP_TABLE_PACKAGE_ENTRIES_MAX_SIZE`
abbrev pub package_entries_max_size : ℕ
package_entries_max_size = 64

-- `MIP_TABLE_ENTRY_MAX_AGE_MILLI`
abbrev pub table_entry_max_age_milli : ℕ
table_entry_max_age_milli = 5000

-- `UINT_MAX`
abbrev pub uint_max : ℕ
uint_max = 2 ^ 32 - 1

pub record RouteEntry : Type 0 where
  pub destination : ℕ
  pub next_hop : ℕ
  pub cost : ℕ
  pub last_updated_milli : ℕ

pub record RouteTable (L : LinkedList RouteEntry) : Type 0 where
  pub table_address : ℕ
  pub entry_max_age_milli : ℕ
  pub entries : L.Handle

pub record PackageEntry : Type 0 where
  pub destination : ℕ
  pub next_hop : ℕ
  pub cost : ℕ

-- `entries` is the array of 64, of which the first `num_entries` are in use.
pub record TablePackage : Type 0 where
  pub table_address : ℕ
  pub num_entries : ℕ
  pub entries : List PackageEntry

-- `MIPRouteEntry_create`
unfoldable pub entry_create : ℕ → ℕ → ℕ → ℕ → Option RouteEntry
entry_create destination next_hop cost now =
    if leb destination broadcast_address
    then some (record {
      destination = destination;
      next_hop = next_hop;
      cost = cost % u32_mod;
      last_updated_milli = now;
    })
    else none

-- The walk of `MIPRouteTable_get`.
unfoldable pub find_entry : ℕ → List RouteEntry → Option RouteEntry
find_entry destination [] = none
find_entry destination (current ∷ rest) =
    if current.destination == destination then some current else find_entry destination rest

-- The walk of `MIPRouteTable_remove`, up to the node that it removes.
unfoldable pub find_position : ℕ → ℕ → List RouteEntry → Option ℕ
find_position destination i [] = none
find_position destination i (current ∷ rest) =
    if current.destination == destination then some i else find_position destination (i + 1) rest

-- `MIPRouteEntry_to_old`: the difference of two `long`s against a `long`.
unfoldable pub entry_to_old : ℕ → ℕ → RouteEntry → Bool
entry_to_old max_age now entry = ltb (entry.last_updated_milli + max_age) now

abbrev pub empty_entry : PackageEntry
empty_entry = record { destination = 0; next_hop = 0; cost = 0 }

abbrev pub to_package_entry : RouteEntry → PackageEntry
to_package_entry e = record { destination = e.destination; next_hop = e.next_hop; cost = e.cost }

-- The loop of `MIPRouteTable_create_package`: the array and the count of entries written.
unfoldable pub fill_package : List RouteEntry → List PackageEntry → ℕ → List PackageEntry × ℕ
fill_package [] room i = (room, i)
fill_package (current ∷ rest) [] i = fill_package rest [] (i + 1)
fill_package (current ∷ rest) (_ ∷ room) i =
    let filled = fill_package rest room (i + 1) in (to_package_entry current ∷ filled.0, filled.1)

-- The test in `MIPRouteTable_update_routing`: a new route, or one that is no worse, and not a
-- poisoned one. The sum is unsigned.
unfoldable pub challenger_wins : Option RouteEntry → RouteEntry → Bool
challenger_wins none challenger = not (challenger.cost == uint_max)
challenger_wins (some champion) challenger =
    leb ((challenger.cost + 1) % u32_mod) champion.cost && not (challenger.cost == uint_max)

module _ (L : LinkedList RouteEntry) where
  -- `MIPRouteTable_create`
  unfoldable pub create : RouteTable L
  create = record {
    table_address = 0;
    entry_max_age_milli = table_entry_max_age_milli;
    entries = L.create;
  }

  -- `MIPRouteTable_get`
  unfoldable pub get : RouteTable L → ℕ → Option RouteEntry
  unfolding find_entry
  get table destination = find_entry destination (L.items table.entries)

  -- `MIPRouteTable_remove`
  unfoldable pub remove : RouteTable L → ℕ → Code × RouteTable L
  unfolding find_position
  remove table destination =
      if L.count table.entries == 0
      then (code 1, table)
      else elim (find_position destination 0 (L.items table.entries)) [
        | none ↦ (code 0, table)
        | some i ↦ (code 1, record table { entries = L.remove table.entries i })
      ]

  -- `MIPRouteTable_update`
  unfoldable pub update : RouteTable L → ℕ → ℕ → ℕ → ℕ → Code × RouteTable L
  unfolding entry_create
  update table destination next_hop cost now = elim (entry_create destination next_hop cost now) [
    | none ↦ (minus_one, table)
    | some entry ↦
        let removed = remove table destination in
        elim removed.0 [
          | minus_one ↦ (minus_one, removed.1)
          | code n ↦ (code 1, record table { entries = L.push removed.1.entries entry })
        ]
  ]

  -- `MIPRouteTable_get_next_hop`
  unfoldable pub get_next_hop : RouteTable L → ℕ → ℕ
  get_next_hop table destination =
      if destination == broadcast_address
      then broadcast_address
      else elim (get table destination) [ none ↦ 255 | some entry ↦ entry.next_hop ]

  -- One round of `MIPRouteTable_update_routing`.
  unfoldable pub challenge : ℕ → ℕ → RouteEntry → RouteTable L → RouteTable L
  challenge neighbor now challenger table =
      if challenger_wins (get table challenger.destination) challenger
      then (update table challenger.destination neighbor ((challenger.cost + 1) % u32_mod) now).1
      else table

  unfoldable pub update_routing_loop :
      ℕ → (ℕ → ℕ) → ℕ → List RouteEntry → RouteTable L → RouteTable L
  update_routing_loop neighbor now i [] table = table
  update_routing_loop neighbor now i (challenger ∷ rest) table =
      update_routing_loop neighbor now (i + 1) rest (challenge neighbor (now i) challenger table)

  -- `MIPRouteTable_update_routing`
  unfoldable pub update_routing : (ℕ → ℕ) → RouteTable L → RouteTable L → RouteTable L
  unfolding update_routing_loop
  update_routing now table neighbor_table =
      update_routing_loop neighbor_table.table_address now 0 (L.items neighbor_table.entries) table

  unfoldable pub remove_old_loop : ℕ → (ℕ → ℕ) → ℕ → List RouteEntry → ℕ → L.Handle → ℕ × L.Handle
  remove_old_loop max_age now i [] num_removed new_list = (num_removed, new_list)
  remove_old_loop max_age now i (entry ∷ rest) num_removed new_list =
      let is_removed = entry_to_old max_age (now i) entry && not (entry.cost == 0) in
      remove_old_loop max_age now (i + 1) rest (if is_removed then num_removed + 1 else num_removed)
        (if is_removed then new_list else L.push new_list entry)

  -- `MIPRouteTable_remove_old_entries`
  unfoldable pub remove_old_entries : (ℕ → ℕ) → RouteTable L → ℕ × RouteTable L
  unfolding remove_old_loop
  remove_old_entries now table =
      let result =
        remove_old_loop table.entry_max_age_milli now 0 (L.items table.entries) 0 L.create in
      (result.0, record table { entries = result.1 })

  -- `MIPRouteTable_create_package`
  unfoldable pub create_package : RouteTable L → Option TablePackage
  unfolding fill_package
  create_package table =
      if ltb (L.count table.entries) package_entries_max_size
      then (let filled =
            fill_package (L.items table.entries) (replicate package_entries_max_size empty_entry)
              0 in
          some (record { table_address = 0; num_entries = filled.1; entries = filled.0 }))
      else none

  unfoldable pub create_table_loop : (ℕ → ℕ) → ℕ → List PackageEntry → L.Handle → L.Handle
  create_table_loop now i [] entries = entries
  create_table_loop now i (current ∷ rest) entries =
      create_table_loop now (i + 1) rest
        (elim (entry_create current.destination current.next_hop current.cost (now i)) [
          | none ↦ entries
          | some entry ↦ L.push entries entry
        ])

  -- `MIPRouteTablePackage_create_table`. An address of the package is a byte, so `entry_create`
  -- gives an entry.
  unfoldable pub create_table : (ℕ → ℕ) → TablePackage → Option (RouteTable L)
  unfolding create_table_loop create
  create_table now table_package =
      if ltb table_package.num_entries package_entries_max_size
      then some (record {
        table_address = table_package.table_address;
        entry_max_age_milli = create.entry_max_age_milli;
        entries =
            create_table_loop now 0 (take table_package.num_entries table_package.entries)
              create.entries;
      })
      else none
