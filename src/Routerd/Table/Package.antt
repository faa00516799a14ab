-- ===== src/Routerd/Table/Package.antt =====
-- MIPRouteTable_create_package and MIPRouteTablePackage_create_table: a table over the wire.
use in4230_mip.Prelude.{
  ℕ, ◌+◌, ◌≤◌, ◌<◌, ◌≡◌, refl, ap, ◌∙◌, true, some, List, [], ◌∷◌, ◌++◌, map, ltb, lt→ltb, arith,
  length, take, replicate, All,
}
use mathlib.Core.List.{append-nil, append_assoc}
use native.Mathlib.Nat.{zero-add}
use in4230_mip.Commons.LinkedList.{LinkedList}
use in4230_mip.Routerd.Table.{
  RouteEntry, RouteTable, PackageEntry, TablePackage, empty_entry, to_package_entry, entry_create,
  fill_package, create_package, create_table_loop, create_table, create,
}
use in4230_mip.Routerd.Table.Lookup.{routes}
use in4230_mip.Routerd.Table.Routing.{IsEntry}

-- the entries as the receiver holds them: each with the time at which it was added
abbrev pub stamped : (ℕ → ℕ) → ℕ → List RouteEntry → List RouteEntry
stamped now i [] = []
stamped now i (e ∷ es) = record e { last_updated_milli = now i } ∷ stamped now (i + 1) es

pub fill-take :
    (es : List RouteEntry) (room : List PackageEntry) (i : ℕ)
    → length es ≤ length room
    → (take (length es) (fill_package es room i).0 ≡ map to_package_entry es)
      × ((fill_package es room i).1 ≡ i + length es)
unfolding fill_package
fill-take [] room i h = (refl, omega arith)
fill-take (e ∷ es) [] i h = absurd (omega arith)
fill-take (e ∷ es) (r ∷ room) i h =
    let rest = fill-take es room (i + 1) (omega arith) in
    (ap (◌∷◌ (to_package_entry e)) rest.0, omega (arith, rest.1))

entry_create_lem :
    (e : RouteEntry) (t : ℕ)
    → IsEntry e
    → entry_create e.destination e.next_hop e.cost t ≡ some (record e { last_updated_milli = t })
unfolding entry_create
entry_create_lem e t h = ground arith

module _ (L : LinkedList RouteEntry) (now : ℕ → ℕ) where
  pub loop-stamped :
      (i : ℕ) (es : List RouteEntry) (l : L.Handle)
      → All IsEntry es
      → L.items (create_table_loop L now i (map to_package_entry es) l)
        ≡ L.items l ++ stamped now i es
  unfolding create_table_loop
  loop-stamped i [] l h = simp append-nil
  loop-stamped i (e ∷ es) l h =
      let added = record e { last_updated_milli = now i } in
      rw (entry_create_lem e (now i) h.0, create_table_loop)
        (loop-stamped (i + 1) es (L.push l added) h.1
          ∙ rw (L.items-push l added)
              (append_assoc (L.items l) (added ∷ []) (stamped now (i + 1) es)))

  -- A table of fewer than 64 routes is packed, and what the receiver unpacks has the same routes in
  -- the same order, each stamped with the receiver's time, under the address in the package.
  pub create_table-create_package :
      (table : RouteTable L)
      → length (routes L table) < 64
      → All IsEntry (routes L table)
      → (p : TablePackage) × (create_package L table ≡ some p)
        × (received : RouteTable L) × (create_table L now p ≡ some received)
        × (routes L received ≡ stamped now 0 (routes L table))
        × (received.table_address ≡ p.table_address)
  unfolding create_package create_table
  create_table-create_package table small entries = (
    packed,
    rw (L.count-items table.entries, lt→ltb _ _ small),
    received,
    rw fits,
    rw (number, zero-add, content)
        (loop-stamped 0 (routes L table) L.create entries ∙ rw L.items-create),
    refl,
  )
    where
      filled : List PackageEntry × ℕ
      filled = fill_package (routes L table) (replicate 64 empty_entry) 0

      packed : TablePackage
      packed = record { table_address = 0; num_entries = filled.1; entries = filled.0 }

      number : filled.1 ≡ 0 + length (routes L table)
      number = (fill-take (routes L table) (replicate 64 empty_entry) 0 (omega arith)).1

      content : take (length (routes L table)) filled.0 ≡ map to_package_entry (routes L table)
      content = (fill-take (routes L table) (replicate 64 empty_entry) 0 (omega arith)).0

      fits : ltb filled.1 64 ≡ true
      fits = lt→ltb _ _ (omega (arith, number))

      received : RouteTable L
      received = record {
        table_address = 0;
        entry_max_age_milli = (create L).entry_max_age_milli;
        entries = create_table_loop L now 0 (take filled.1 filled.0) L.create;
      }
