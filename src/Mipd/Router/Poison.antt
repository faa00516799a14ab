-- ===== src/Mipd/Router/Poison.antt =====
-- poison_reverse and the tables of two routing daemons: split horizon from end to end.
use in4230_mip.Prelude.{
  ℕ, zero, suc, ◌+◌, ◌<◌, ◌≡◌, ◌≢◌, ◌⊎◌, refl, ap, ◌∙◌, true, some, List, [], ◌∷◌, map,
  if◌then◌else◌, ltb, lt→ltb, ◌==◌, arith, length, take, replicate, All, Bool-cases, inl, inr,
}
use native.Mathlib.Nat.{zero-add}
use in4230_mip.Commons.LinkedList.{LinkedList}
use in4230_mip.Routerd.Table.{
  RouteEntry, RouteTable, PackageEntry, TablePackage, empty_entry, to_package_entry, fill_package,
  create_package, create_table_loop, create_table, create, update_routing, get, uint_max,
}
use in4230_mip.Routerd.Table.Lookup.{routes, Distinct}
use in4230_mip.Routerd.Table.Relax.{IsSilent}
use in4230_mip.Routerd.Table.Routing.{IsEntry, update_routing_silent}
use in4230_mip.Routerd.Table.Package.{stamped, fill-take, loop-stamped}
use in4230_mip.Mipd.Router.{poison_entry, poison_loop, poison_reverse}

-- a route as the neighbor at `d` is told of it
unfoldable pub poisoned : ℕ → RouteEntry → RouteEntry
poisoned d e = if e.next_hop == d then record e { cost = uint_max } else e

take-poison_loop :
    (d n : ℕ) (es : List PackageEntry)
    → take n (poison_loop d n es) ≡ map (poison_entry d) (take n es)
unfolding poison_loop
take-poison_loop d zero es = refl
take-poison_loop d (suc n) [] = refl
take-poison_loop d (suc n) (e ∷ es) = ap (◌∷◌ (poison_entry d e)) (take-poison_loop d n es)

poison_entry-to_package_entry :
    (d : ℕ) (e : RouteEntry) → poison_entry d (to_package_entry e) ≡ to_package_entry (poisoned d e)
unfolding poison_entry poisoned
poison_entry-to_package_entry d e = elim (Bool-cases (e.next_hop == d)) [
  | inl h ↦ rw h refl
  | inr h ↦ rw h refl
]

map-poison_entry :
    (d : ℕ) (es : List RouteEntry)
    → map (poison_entry d) (map to_package_entry es) ≡ map to_package_entry (map (poisoned d) es)
map-poison_entry d [] = refl
map-poison_entry d (e ∷ es) = rw (poison_entry-to_package_entry d e, map-poison_entry d es)

IsEntry-poisoned : (d : ℕ) (e : RouteEntry) → IsEntry e → IsEntry (poisoned d e)
unfolding poisoned
IsEntry-poisoned d e h = ground arith

All-poisoned : (d : ℕ) (es : List RouteEntry) → All IsEntry es → All IsEntry (map (poisoned d) es)
All-poisoned d [] h = tt
All-poisoned d (e ∷ es) h = (IsEntry-poisoned d e h.0, All-poisoned d es h.1)

-- not a route to `x`, or one through `d`
abbrev pub IsThrough : ℕ → ℕ → RouteEntry → Type 0
IsThrough d x e = (e.destination ≢ x) ⊎ (e.next_hop ≡ d)

IsSilent-stamped :
    (d x : ℕ) (now : ℕ → ℕ) (i : ℕ) (es : List RouteEntry)
    → All (IsThrough d x) es
    → All (IsSilent x) (stamped now i (map (poisoned d) es))
unfolding poisoned IsThrough
IsSilent-stamped d x now i [] h = tt
IsSilent-stamped d x now i (e ∷ es) h = elim (Bool-cases (e.next_hop == d)) [
  | inl through ↦ (rw through (inr refl), IsSilent-stamped d x now (i + 1) es h.1)
  | inr elsewhere ↦ (rw elsewhere (ground (arith, h.0)), IsSilent-stamped d x now (i + 1) es h.1)
]

All-stamped :
    (now : ℕ → ℕ) (i : ℕ) (es : List RouteEntry) → All IsEntry es → All IsEntry (stamped now i es)
All-stamped now i [] h = tt
All-stamped now i (e ∷ es) h = (h.0, All-stamped now (i + 1) es h.1)

module _ (L : LinkedList RouteEntry) (now : ℕ → ℕ) (table : RouteTable L) (d a : ℕ)
    (small : length (routes L table) < 64) (entries : All IsEntry (routes L table)) where
  -- A table of fewer than 64 routes in range, packed, sent from address `a` to the neighbor at `d` with the
  -- poison for `d`, and unpacked there, has the same routes in the same order, each stamped with the
  -- receiver's time, those with next hop `d` at the cost UINT_MAX.
  pub create_table-poison_reverse :
      (p : TablePackage) × (create_package L table ≡ some p)
      × (received : RouteTable L) × (create_table L now
            (poison_reverse (record p { table_address = a }) d)
          ≡ some received)
      × (routes L received ≡ stamped now 0 (map (poisoned d) (routes L table)))
      × (received.table_address ≡ a)
  unfolding create_package create_table poison_reverse
  create_table-poison_reverse = (
    packed,
    rw (L.count-items table.entries, lt→ltb _ _ small),
    received,
    rw fits,
    rw (number, zero-add, content)
        (loop-stamped L now 0 (map (poisoned d) (routes L table)) L.create
            (All-poisoned d (routes L table) entries)
          ∙ rw L.items-create),
    refl,
  )
    where
      filled : List PackageEntry × ℕ
      filled = fill_package (routes L table) (replicate 64 empty_entry) 0

      packed : TablePackage
      packed = record { table_address = 0; num_entries = filled.1; entries = filled.0 }

      number : filled.1 ≡ 0 + length (routes L table)
      number = (fill-take (routes L table) (replicate 64 empty_entry) 0 (omega arith)).1

      content :
          take (length (routes L table)) (poison_loop d (length (routes L table)) filled.0)
          ≡ map to_package_entry (map (poisoned d) (routes L table))
      content =
          take-poison_loop d (length (routes L table)) filled.0
          ∙ (ap (map (poison_entry d))
                (fill-take (routes L table) (replicate 64 empty_entry) 0 (omega arith)).0
              ∙ map-poison_entry d (routes L table))

      fits : ltb filled.1 64 ≡ true
      fits = lt→ltb _ _ (omega (arith, number))

      received : RouteTable L
      received = record {
        table_address = a;
        entry_max_age_milli = (create L).entry_max_age_milli;
        entries =
            create_table_loop L now 0 (take filled.1 (poison_loop d filled.1 filled.0)) L.create;
      }

  -- Split horizon from end to end, for a sender's table of fewer than 64 routes in range and a
  -- neighbor's table of distinct destinations: where each route of the sender to `x` has the neighbor `d` as its
  -- next hop, the neighbor's merge of the table it receives leaves its route to `x`, or its lack of
  -- one, as it was.
  pub split_horizon :
      (own : RouteTable L) (merge_at : ℕ → ℕ) (x : ℕ)
      → Distinct (routes L own)
      → All (IsThrough d x) (routes L table)
      → (p : TablePackage) × (create_package L table ≡ some p)
        × (received : RouteTable L) × (create_table L now
              (poison_reverse (record p { table_address = a }) d)
            ≡ some received)
        × (get L (update_routing L merge_at own received) x ≡ get L own x)
  split_horizon own merge_at x dist through =
      let sent = create_table-poison_reverse in
      (
        sent.0,
        sent.1,
        sent.2,
        sent.3,
        update_routing_silent L merge_at own sent.2
            (rw sent.4 (All-stamped now 0 _ (All-poisoned d _ entries))) dist x
            (rw sent.4 (IsSilent-stamped d x now 0 _ through)),
      )
