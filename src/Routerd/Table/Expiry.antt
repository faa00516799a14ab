-- ===== src/Routerd/Table/Expiry.antt =====
-- MIPRouteTable_remove_old_entries against a filter.
use in4230_mip.Prelude.{
  ℕ, ◌+◌, ◌≤◌, ◌≡◌, refl, ◌∙◌, not, ◌&&◌, ◌||◌, leb, inl, inr, none, some, List, [], ◌∷◌, ◌++◌,
  if◌then◌else◌, ◌==◌, arith, Bool-cases, length,
}
use mathlib.Core.List.{append-nil, append_assoc}
use in4230_mip.Commons.LinkedList.{LinkedList}
use in4230_mip.Routerd.Table.{
  RouteEntry, RouteTable, find_entry, entry_to_old, get, remove_old_loop, remove_old_entries,
}
use in4230_mip.Routerd.Table.Lookup.{Distinct, routes}

-- the entries that stay: local ones, and those that are not too old when the clock is read for them
pub kept : ℕ → (ℕ → ℕ) → ℕ → List RouteEntry → List RouteEntry
kept max_age now i [] = []
kept max_age now i (e ∷ es) =
    if (e.cost == 0) || leb (now i) (e.last_updated_milli + max_age)
    then e ∷ kept max_age now (i + 1) es
    else kept max_age now (i + 1) es

kept_test :
    (max_age t : ℕ) (e : RouteEntry)
    → ((e.cost == 0) || leb t (e.last_updated_milli + max_age))
      ≡ not (entry_to_old max_age t e && not (e.cost == 0))
unfolding entry_to_old
kept_test max_age t e = ground arith

module _ (max_age : ℕ) (now : ℕ → ℕ) where
  find_entry-kept :
      (i x : ℕ) (es : List RouteEntry)
      → find_entry x es ≡ none
      → find_entry x (kept max_age now i es) ≡ none
  unfolding kept find_entry
  find_entry-kept i x [] h = refl
  find_entry-kept i x (e ∷ es) h = ground (arith, find_entry-kept (i + 1) x es)

  Distinct-kept : (i : ℕ) (es : List RouteEntry) → Distinct es → Distinct (kept max_age now i es)
  unfolding kept
  Distinct-kept i [] h = tt
  Distinct-kept i (e ∷ es) h =
      ground (arith, Distinct-kept (i + 1) es h.1, find_entry-kept (i + 1) e.destination es h.0)

  -- a local route is still found
  kept_local :
      (i x : ℕ) (es : List RouteEntry) {f : RouteEntry}
      → find_entry x es ≡ some f
      → f.cost ≡ 0
      → find_entry x (kept max_age now i es) ≡ some f
  unfolding kept find_entry
  kept_local i x [] h z = cc
  kept_local i x (e ∷ es) {f} h z = ground (arith, kept_local (i + 1) x es {f = f})

  length-kept-le : (i : ℕ) (es : List RouteEntry) → length (kept max_age now i es) ≤ length es
  unfolding kept
  length-kept-le i [] = omega arith
  length-kept-le i (e ∷ es) = ground (arith, length-kept-le (i + 1) es)

module _ (L : LinkedList RouteEntry) where
  loop-kept :
      (max_age : ℕ) (now : ℕ → ℕ) (i : ℕ) (es : List RouteEntry) (n : ℕ) (l : L.Handle)
      → (L.items (remove_old_loop L max_age now i es n l).1 ≡ L.items l ++ kept max_age now i es)
        × ((remove_old_loop L max_age now i es n l).0 + length (kept max_age now i es)
            ≡ n + length es)
  unfolding remove_old_loop kept
  loop-kept max_age now i [] n l = (simp append-nil, refl)
  loop-kept max_age now i (e ∷ es) n l =
      elim (Bool-cases (entry_to_old max_age (now i) e && not (e.cost == 0))) [
        | inl old ↦
            let rest = loop-kept max_age now (i + 1) es (n + 1) l in
            rw (kept_test max_age (now i) e, old, remove_old_loop) (rest.0, omega arith)
        | inr young ↦
            let rest = loop-kept max_age now (i + 1) es n (L.push l e) in
            rw (kept_test max_age (now i) e, young, remove_old_loop)
              (rest.0 ∙ rw (L.items-push l e) (append_assoc (L.items l) (e ∷ []) _), omega arith)
      ]

  routes-kept :
      (now : ℕ → ℕ) (table : RouteTable L)
      → routes L (remove_old_entries L now table).1
        ≡ kept table.entry_max_age_milli now 0 (routes L table)
  unfolding remove_old_entries
  routes-kept now table =
      (loop-kept table.entry_max_age_milli now 0 (routes L table) 0 L.create).0 ∙ rw L.items-create

  -- Expiry keeps, in order, the local routes and those no older than the table allows at the time of
  -- the check, returns how many it dropped, and keeps destinations distinct.
  pub remove_old_entries-kept :
      (now : ℕ → ℕ) (table : RouteTable L)
      → Distinct (routes L table)
      → (routes L (remove_old_entries L now table).1
          ≡ kept table.entry_max_age_milli now 0 (routes L table))
        × ((remove_old_entries L now table).0 + length (routes L (remove_old_entries L now table).1)
            ≡ length (routes L table))
        × Distinct (routes L (remove_old_entries L now table).1)
  unfolding remove_old_entries
  remove_old_entries-kept now table dist =
      let done = loop-kept table.entry_max_age_milli now 0 (routes L table) 0 L.create in
      (
        routes-kept now table,
        rw (routes-kept now table) (omega (arith, done.1)),
        rw (routes-kept now table)
            (Distinct-kept table.entry_max_age_milli now 0 (routes L table) dist),
      )

  -- Expiry never drops a route to an address of the host itself.
  pub remove_old_entries_local :
      (now : ℕ → ℕ) (table : RouteTable L) (x : ℕ) (f : RouteEntry)
      → get L table x ≡ some f
      → f.cost ≡ 0
      → get L (remove_old_entries L now table).1 x ≡ some f
  unfolding get
  remove_old_entries_local now table x f held z =
      rw (routes-kept now table)
        (kept_local table.entry_max_age_milli now 0 x (routes L table) {f = f} held z)
