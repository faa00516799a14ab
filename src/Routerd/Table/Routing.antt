-- ===== src/Routerd/Table/Routing.antt =====
-- MIPRouteTable_update_routing: the loop over the neighbor's table, as a step for each destination.
use in4230_mip.Prelude.{
  ℕ, ◌+◌, ◌%◌, ◌≤◌, ◌<◌, ◌≡◌, refl, sym, true, Option, none, inl, inr, ◌∙◌, some, List, [], ◌∷◌,
  u32_mod, arith, Bool-cases, All, ap, get_elem?,
}
use in4230_mip.Commons.LinkedList.{LinkedList}
use in4230_mip.Routerd.Table.{
  RouteEntry, RouteTable, uint_max, challenger_wins, get, challenge, update_routing_loop,
  update_routing,
}
use in4230_mip.Routerd.Table.Lookup.{Distinct, routes, get-update}
use in4230_mip.Routerd.Table.Relax.{
  improves, relax_step, relax, AtMost, IsSilent, relax_mono, relax_offer, relax_silent, relax_local,
}

-- The destination of an entry is a byte, and its cost an `unsigned int`.
abbrev pub IsEntry : RouteEntry → Type 0
IsEntry e = (e.destination ≤ 255) × (e.cost < u32_mod)

-- The test of the code, whose sum may wrap round, is the one without the sum.
challenger_wins-improves :
    (held : Option RouteEntry) (e : RouteEntry)
    → e.cost < u32_mod
    → challenger_wins held e ≡ improves held e
unfolding challenger_wins improves
challenger_wins-improves none e h = ground arith
challenger_wins-improves (some f) e h = ground arith

improves_exact :
    (held : Option RouteEntry) (e : RouteEntry)
    → improves held e ≡ true
    → (e.cost + 1) % u32_mod ≡ e.cost + 1
unfolding improves
improves_exact none e h = ground arith
improves_exact (some f) e h = ground arith

module _ (L : LinkedList RouteEntry) (neighbor : ℕ) where
  challenge-relax_step :
      (t : ℕ) (e : RouteEntry) (table : RouteTable L) (x : ℕ)
      → IsEntry e
      → Distinct (routes L table)
      → (get L (challenge L neighbor t e table) x ≡ relax_step neighbor t x e (get L table x))
        × Distinct (routes L (challenge L neighbor t e table))
  unfolding challenge relax_step
  challenge-relax_step t e table x h dist =
      let updated = get-update L table e.destination neighbor ((e.cost + 1) % u32_mod) t h.0 dist in
      let same = challenger_wins-improves (get L table e.destination) e h.1 in
      elim (Bool-cases (challenger_wins (get L table e.destination) e)) [
        | inl wins ↦
            let exact : (e.cost + 1) % u32_mod ≡ e.cost + 1 =
              improves_exact (get L table e.destination) e (sym same ∙ wins) in
            (rw wins (ground (arith, updated.1 x, same, exact)), rw wins updated.2)
        | inr loses ↦ (rw loses (ground (arith, same)), rw loses dist)
      ]

  loop-relax :
      (now : ℕ → ℕ) (i : ℕ) (es : List RouteEntry) (table : RouteTable L) (x : ℕ)
      → All IsEntry es
      → Distinct (routes L table)
      → (get L (update_routing_loop L neighbor now i es table) x
          ≡ relax neighbor now i x es (get L table x))
        × Distinct (routes L (update_routing_loop L neighbor now i es table))
  unfolding update_routing_loop relax
  loop-relax now i [] table x h dist = (refl, dist)
  loop-relax now i (e ∷ es) table x h dist =
      let one = challenge-relax_step (now i) e table x h.0 dist in
      let rest = loop-relax now (i + 1) es (challenge L neighbor (now i) e table) x h.1 one.1 in
      (rest.0 ∙ ap (relax neighbor now (i + 1) x es) one.0, rest.1)

module _ (L : LinkedList RouteEntry) (now : ℕ → ℕ) (table neighbor_table : RouteTable L)
    (entries : All IsEntry (routes L neighbor_table)) (dist : Distinct (routes L table)) where
  -- For a neighbor's table with its entries in range and an own table of distinct destinations:
  -- Taking in a neighbor's table acts on each destination by itself. The route afterwards comes of
  -- the route before by one step for each of the neighbor's entries in order: an entry for the
  -- destination that does not cost UINT_MAX, where there is no route or the entry costs less than
  -- it, replaces it by a route over the neighbor at the entry's cost and one, with the time of that
  -- step; any other entry changes nothing. The destinations stay distinct.
  pub update_routing-relax :
      (x : ℕ)
      → (get L (update_routing L now table neighbor_table) x
          ≡ relax neighbor_table.table_address now 0 x (routes L neighbor_table) (get L table x))
        × Distinct (routes L (update_routing L now table neighbor_table))
  unfolding update_routing
  update_routing-relax x =
      loop-relax L neighbor_table.table_address now 0 (routes L neighbor_table) table x entries dist

  -- For a neighbor's table in range and an own one of distinct destinations:
  -- The distance-vector inequality: for an entry of the neighbor's table that is not poisoned,
  -- there is afterwards a route to its destination that costs at most one more than the entry.
  pub update_routing_offer :
      (k : ℕ) (e : RouteEntry)
      → get_elem? (routes L neighbor_table) k ≡ some e
      → e.cost < uint_max
      → AtMost (e.cost + 1) (get L (update_routing L now table neighbor_table) e.destination)
  update_routing_offer k e at low =
      rw ((update_routing-relax e.destination).0)
        (relax_offer _ now e.destination 0 k (routes L neighbor_table) _ {e = e} at refl low)

  -- For a neighbor's table in range and an own one of distinct destinations:
  -- A destination with a route of some cost afterwards still has one that costs no more.
  pub update_routing_mono :
      (x c : ℕ)
      → AtMost c (get L table x)
      → AtMost c (get L (update_routing L now table neighbor_table) x)
  update_routing_mono x c h =
      rw ((update_routing-relax x).0) (relax_mono _ now x 0 c (routes L neighbor_table) _ h)

  -- For a neighbor's table in range and an own one of distinct destinations:
  -- A destination that the neighbor does not list, or lists as poisoned only, keeps its route or
  -- its lack of one.
  pub update_routing_silent :
      (x : ℕ)
      → All (IsSilent x) (routes L neighbor_table)
      → get L (update_routing L now table neighbor_table) x ≡ get L table x
  update_routing_silent x h =
      (update_routing-relax x).0 ∙ relax_silent _ now x 0 (routes L neighbor_table) _ h

  -- For a neighbor's table in range and an own one of distinct destinations:
  -- A route of cost 0, to an address of the host itself, is never displaced.
  pub update_routing_local :
      (x : ℕ) (f : RouteEntry)
      → get L table x ≡ some f
      → f.cost ≡ 0
      → get L (update_routing L now table neighbor_table) x ≡ some f
  update_routing_local x f held z =
      (update_routing-relax x).0
      ∙ rw held (relax_local _ now x 0 (routes L neighbor_table) {f = f} z)
