-- ===== src/Routerd/Table/Lookup.antt =====
-- MIPRouteTable_get, MIPRouteTable_remove and MIPRouteTable_update against a finite map.
use in4230_mip.Prelude.{
  ◌≢◌, ℕ, zero, suc, ◌+◌, ◌%◌, ◌≤◌, ◌≡◌, refl, sym, ap, ◌∙◌, inl, inr, false, Option, none, some,
  List, [], ◌∷◌, ◌++◌, if◌then◌else◌, ◌==◌, Code, minus_one, code, length, remove_at, u32_mod,
  arith, ==_iff, Bool-cases,
}
use native.Mathlib.Nat.{zero-add}
use in4230_mip.Commons.LinkedList.{LinkedList}
use in4230_mip.Routerd.Table.{
  RouteEntry, RouteTable, find_entry, find_position, get, remove, update,
}

-- No destination has two entries.
abbrev pub Distinct : List RouteEntry → Type 0
Distinct [] = Unit
Distinct (e ∷ xs) = (find_entry e.destination xs ≡ none) × Distinct xs

-- The entries without the first one for a destination.
pub erase : ℕ → List RouteEntry → List RouteEntry
erase d [] = []
erase d (e ∷ xs) = if e.destination == d then xs else e ∷ erase d xs

abbrev Locates : ℕ → ℕ → List RouteEntry → Option ℕ → Type 0
Locates d i xs none = erase d xs ≡ xs
Locates d i xs (some j) = (k : ℕ) × (j ≡ i + k) × (remove_at k xs ≡ erase d xs)

find_position-Locates : (d i : ℕ) (xs : List RouteEntry) → Locates d i xs (find_position d i xs)
unfolding find_position erase
find_position-Locates d i [] = refl
find_position-Locates d i (e ∷ xs) = elim (Bool-cases (e.destination == d)) [
  | inl hit ↦ rw (hit, find_position) (zero, omega arith, rw (hit, erase) refl)
  | inr miss ↦
      rw (miss, find_position)
        (later miss (find_position d (i + 1) xs) (find_position-Locates d (i + 1) xs))
]
  where
    later :
        (e.destination == d) ≡ false
        → (o : Option ℕ) → Locates d (i + 1) xs o
        → Locates d i (e ∷ xs) o
    later miss none h = rw miss (ap (◌∷◌ e) h)
    later miss (some j) (k, at, same) = (suc k, omega arith, rw miss (ap (◌∷◌ e) same))

find_entry-erase :
    (d x : ℕ) (xs : List RouteEntry)
    → Distinct xs
    → find_entry x (erase d xs) ≡ (if d == x then none else find_entry x xs)
unfolding erase find_entry
find_entry-erase d x [] h = ground arith
find_entry-erase d x (e ∷ xs) h = ground (arith, find_entry-erase d x xs h.1)

find_entry-append :
    (x : ℕ) (xs : List RouteEntry) (e : RouteEntry)
    → find_entry x (xs ++ e ∷ []) ≡ elim (find_entry x xs) [
      | none ↦ if e.destination == x then some e else none
      | some f ↦ some f
    ]
unfolding find_entry
find_entry-append x [] e = refl
find_entry-append x (f ∷ xs) e = ground (arith, find_entry-append x xs e)

Distinct-erase : (d : ℕ) (xs : List RouteEntry) → Distinct xs → Distinct (erase d xs)
unfolding erase
Distinct-erase d [] h = tt
Distinct-erase d (e ∷ xs) h =
    ground (arith, find_entry-erase d e.destination xs h.1, Distinct-erase d xs h.1)

Distinct-append :
    (xs : List RouteEntry) (e : RouteEntry)
    → Distinct xs
    → find_entry e.destination xs ≡ none
    → Distinct (xs ++ e ∷ [])
unfolding find_entry
Distinct-append [] e h new = (refl, tt)
Distinct-append (f ∷ xs) e h new =
    ground (arith, Distinct-append xs e h.1, find_entry-append f.destination xs e)

erase_nil : (d : ℕ) (xs : List RouteEntry) → length xs ≡ 0 → erase d xs ≡ xs
unfolding erase
erase_nil d [] h = refl
erase_nil d (x ∷ xs) h = absurd (omega arith)

-- the status that `remove` reports for a walk that found a node, or a route
abbrev pub found_code {ℓ} : {A : Type ℓ} → Option A → Code
found_code none = code 0
found_code (some _) = code 1

find_position-find_entry :
    (d i : ℕ) (xs : List RouteEntry)
    → found_code (find_position d i xs) ≡ found_code (find_entry d xs)
unfolding find_position find_entry
find_position-find_entry d i [] = refl
find_position-find_entry d i (e ∷ xs) = ground (arith, find_position-find_entry d (i + 1) xs)

module _ (L : LinkedList RouteEntry) where
  -- the routes that a table holds, in the order of its list
  abbrev pub routes : RouteTable L → List RouteEntry
  routes table = L.items table.entries

  removed_at : RouteTable L → Option ℕ → Code × RouteTable L
  removed_at table none = (code 0, table)
  removed_at table (some i) = (code 1, record table { entries = L.remove table.entries i })

  removed_at-erase :
      (table : RouteTable L) (d : ℕ) (o : Option ℕ)
      → Locates d 0 (routes table) o
      → routes (removed_at table o).1 ≡ erase d (routes table)
  unfolding removed_at
  removed_at-erase table d none h = sym h
  removed_at-erase table d (some j) (k, at, same) =
      L.items-remove table.entries j ∙ rw (at, zero-add) same

  pub remove-erase :
      (table : RouteTable L) (d : ℕ) → routes (remove L table d).1 ≡ erase d (routes table)
  unfolding remove removed_at
  remove-erase table d = elim (Bool-cases (L.count table.entries == 0)) [
    | inl none_held ↦ rw none_held (
        sym (
          erase_nil d (routes table)
            (sym (L.count-items table.entries) ∙ (==_iff _ _).0 none_held)))
    | inr some_held ↦ rw some_held (
        removed_at-erase table d (find_position d 0 (routes table))
          (find_position-Locates d 0 (routes table)))
  ]

  pub remove-ne-minus_one : (table : RouteTable L) (d : ℕ) → (remove L table d).0 ≢ minus_one
  unfolding remove
  remove-ne-minus_one table d h = ground arith

  module _ (table : RouteTable L) (d n c now : ℕ) where
    abbrev pub new_entry : RouteEntry
    new_entry = record {
      destination = d;
      next_hop = n;
      cost = c % u32_mod;
      last_updated_milli = now;
    }

    update_lem :
        d ≤ 255
        → update L table d n c now
          ≡ (code 1, record table { entries = L.push (remove L table d).1.entries new_entry })
    unfolding update
    update_lem h = ground (arith, remove-ne-minus_one table d)

    pub routes-update :
        d ≤ 255 → routes (update L table d n c now).1 ≡ erase d (routes table) ++ new_entry ∷ []
    routes-update h = rw (update_lem h, L.items-push, remove-erase table d)

    -- An update with a byte address succeeds, stores the new route, drops the route that the
    -- destination had, leaves every other destination as it was, and keeps destinations distinct.
    pub get-update :
        d ≤ 255
        → Distinct (routes table)
        → ((update L table d n c now).0 ≡ code 1)
          × ((x : ℕ)
              → get L (update L table d n c now).1 x
                ≡ (if d == x then some new_entry else get L table x))
          × Distinct (routes (update L table d n c now).1)
    unfolding get
    get-update h dist = (
      rw (update_lem h),
      λ x. rw (routes-update h) (
          ground (
            arith,
            find_entry-append x (erase d (routes table)) new_entry,
            find_entry-erase d x (routes table) dist,
          )),
      rw (routes-update h) (
          Distinct-append (erase d (routes table)) new_entry (Distinct-erase d (routes table) dist)
            (ground (arith, find_entry-erase d d (routes table) dist))),
    )

  remove-code :
      (table : RouteTable L) (d : ℕ)
      → (remove L table d).0
        ≡ (if L.count table.entries == 0 then code 1 else found_code (get L table d))
  unfolding remove get
  remove-code table d = ground (arith, find_position-find_entry d 0 (routes table))

  -- Removing a destination from a table without duplicates forgets that destination and no other.
  -- It reports 1 on an empty table, and otherwise 1 or 0 as there was a route or not.
  pub get-remove :
      (table : RouteTable L) (d : ℕ)
      → Distinct (routes table)
      → ((x : ℕ) → get L (remove L table d).1 x ≡ (if d == x then none else get L table x))
        × ((remove L table d).0
            ≡ (if L.count table.entries == 0 then code 1 else found_code (get L table d)))
        × Distinct (routes (remove L table d).1)
  unfolding get
  get-remove table d dist = (
    λ x. rw (remove-erase table d) (find_entry-erase d x (routes table) dist),
    remove-code table d,
    rw (remove-erase table d) (Distinct-erase d (routes table) dist),
  )
