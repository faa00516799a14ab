-- ===== src/Routerd/Table/Tests.antt =====
-- Runs of the routing table over plain lists, and its theorems at them.
use in4230_mip.Prelude.{ℕ, ◌+◌, length, ◌≡◌, refl, none, some, List, [], ◌∷◌, code, arith}
use in4230_mip.Commons.LinkedList.{plain}
use in4230_mip.Routerd.Table.{
  RouteEntry, RouteTable, TablePackage, find_entry, get, remove, update, update_routing,
  remove_old_entries, create_package, create_table, get_next_hop, challenge, challenger_wins,
  entry_to_old,
}
use in4230_mip.Routerd.Table.Lookup.{Distinct, routes, get-update, get-remove}
use in4230_mip.Routerd.Table.Relax.{AtMost, improves, relax, relax_step}
use in4230_mip.Routerd.Table.Routing.{
  update_routing-relax, update_routing_offer, update_routing_mono, update_routing_silent,
  update_routing_local,
}
use in4230_mip.Routerd.Table.Expiry.{kept, remove_old_entries-kept, remove_old_entries_local}
use in4230_mip.Routerd.Table.Package.{stamped, create_table-create_package}

abbrev entry : ℕ → ℕ → ℕ → ℕ → RouteEntry
entry d n c t = record { destination = d; next_hop = n; cost = c; last_updated_milli = t }

abbrev table_of : ℕ → List RouteEntry → RouteTable (plain RouteEntry)
table_of address es = record { table_address = address; entry_max_age_milli = 5000; entries = es }

abbrev at : ℕ → ℕ → ℕ
at t i = t

-- The host owns 10 and reaches 30 through 20.
abbrev home : RouteTable (plain RouteEntry)
home = table_of 0 (entry 10 10 0 100 ∷ entry 30 20 2 100 ∷ [])

-- The neighbor 20 owns 20, reaches 30 at 3 and 40 at 1, and poisons 10.
abbrev neighbor : RouteTable (plain RouteEntry)
neighbor =
    table_of 20
      (entry 20 20 0 0 ∷ entry 30 50 3 0 ∷ entry 40 50 1 0 ∷ entry 10 10 0xffff_ffff 0 ∷ [])

merged :
    routes (plain RouteEntry) (update_routing (plain RouteEntry) (at 900) home neighbor)
    ≡ entry 10 10 0 100 ∷ entry 30 20 2 100 ∷ entry 20 20 1 900 ∷ entry 40 20 2 900 ∷ []
unfolding update_routing challenge get update remove challenger_wins
merged = refl

expired :
    remove_old_entries (plain RouteEntry) (at 9000) home ≡ (1, table_of 0 (entry 10 10 0 100 ∷ []))
unfolding remove_old_entries entry_to_old
expired = refl

next_hop_of_30 : get_next_hop (plain RouteEntry) home 30 ≡ 20
unfolding get_next_hop get
next_hop_of_30 = refl

home-Distinct : Distinct home.entries
unfolding find_entry
home-Distinct = (refl, (refl, tt))

get-update_example : (update (plain RouteEntry) home 30 40 1 200).0 ≡ code 1
get-update_example = (get-update (plain RouteEntry) home 30 40 1 200 (omega arith) home-Distinct).0

get-remove_example : get (plain RouteEntry) (remove (plain RouteEntry) home 30).1 30 ≡ none
get-remove_example = (get-remove (plain RouteEntry) home 30 home-Distinct).0 30

update_routing-relax_example :
    get (plain RouteEntry) (update_routing (plain RouteEntry) (at 900) home neighbor) 40
    ≡ some (entry 40 20 2 900)
unfolding relax get relax_step improves
update_routing-relax_example =
    (update_routing-relax (plain RouteEntry) (at 900) home neighbor (omega arith) home-Distinct
      40).0

update_routing_offer_example :
    AtMost 4 (get (plain RouteEntry) (update_routing (plain RouteEntry) (at 900) home neighbor) 30)
update_routing_offer_example =
    update_routing_offer (plain RouteEntry) (at 900) home neighbor (omega arith) home-Distinct 1
      (entry 30 50 3 0) refl (omega arith)

update_routing_mono_example :
    AtMost 2 (get (plain RouteEntry) (update_routing (plain RouteEntry) (at 900) home neighbor) 30)
unfolding get
update_routing_mono_example =
    update_routing_mono (plain RouteEntry) (at 900) home neighbor (omega arith) home-Distinct 30 2
      (omega arith)

update_routing_silent_example :
    get (plain RouteEntry) (update_routing (plain RouteEntry) (at 900) home neighbor) 10
    ≡ get (plain RouteEntry) home 10
update_routing_silent_example =
    update_routing_silent (plain RouteEntry) (at 900) home neighbor (omega arith) home-Distinct 10
      (omega arith)

update_routing_local_example :
    get (plain RouteEntry) (update_routing (plain RouteEntry) (at 900) home neighbor) 10
    ≡ some (entry 10 10 0 100)
unfolding get
update_routing_local_example =
    update_routing_local (plain RouteEntry) (at 900) home neighbor (omega arith) home-Distinct 10
      (entry 10 10 0 100) refl refl

remove_old_entries-kept_example :
    (routes (plain RouteEntry) (remove_old_entries (plain RouteEntry) (at 9000) home).1
      ≡ kept 5000 (at 9000) 0 home.entries)
    × ((remove_old_entries (plain RouteEntry) (at 9000) home).0
          + length
              (routes (plain RouteEntry) (remove_old_entries (plain RouteEntry) (at 9000) home).1)
        ≡ length home.entries)
    × Distinct (routes (plain RouteEntry) (remove_old_entries (plain RouteEntry) (at 9000) home).1)
remove_old_entries-kept_example =
    remove_old_entries-kept (plain RouteEntry) (at 9000) home home-Distinct

remove_old_entries_local_example :
    get (plain RouteEntry) (remove_old_entries (plain RouteEntry) (at 9000) home).1 10
    ≡ some (entry 10 10 0 100)
unfolding get
remove_old_entries_local_example =
    remove_old_entries_local (plain RouteEntry) (at 9000) home 10 (entry 10 10 0 100) refl refl

create_table-create_package_example :
    (p : TablePackage) × (create_package (plain RouteEntry) home ≡ some p)
    × (received : RouteTable (plain RouteEntry)) × (create_table (plain RouteEntry) (at 7) p
        ≡ some received)
    × (routes (plain RouteEntry) received ≡ stamped (at 7) 0 (routes (plain RouteEntry) home))
    × (received.table_address ≡ p.table_address)
create_table-create_package_example =
    create_table-create_package (plain RouteEntry) (at 7) home (omega arith) (omega arith)
