-- ===== src/Routerd/Table/Relax.antt =====
-- One destination's view of MIPRouteTable_update_routing: the Bellman step on a single route.
use in4230_mip.Prelude.{
  ℕ, zero, suc, ◌+◌, ◌≤◌, ◌<◌, ◌≡◌, ◌≢◌, refl, ◌⊎◌, ◌&&◌, Option, none, some, List, [], ◌∷◌,
  if◌then◌else◌, ltb, Bool, ◌==◌, arith, All, get_elem?,
}
use in4230_mip.Routerd.Table.{RouteEntry, uint_max}

-- The route that replaces another: one hop further than the neighbor's.
abbrev pub via : ℕ → ℕ → RouteEntry → RouteEntry
via neighbor now e = record {
  destination = e.destination;
  next_hop = neighbor;
  cost = e.cost + 1;
  last_updated_milli = now;
}

-- An offer of a neighbor's: not a poisoned one, and where a route is held one hop more than the offer
-- must not cost more than that.
unfoldable pub improves : Option RouteEntry → RouteEntry → Bool
improves none offer = ltb offer.cost uint_max
improves (some held) offer = ltb offer.cost held.cost && ltb offer.cost uint_max

-- What one entry of the neighbor's does to the route to `x`.
unfoldable pub relax_step : ℕ → ℕ → ℕ → RouteEntry → Option RouteEntry → Option RouteEntry
relax_step neighbor now x e held =
    if (e.destination == x) && improves held e then some (via neighbor now e) else held

-- What the neighbor's table does to the route to `x`, whatever else is in the table.
unfoldable pub relax : ℕ → (ℕ → ℕ) → ℕ → ℕ → List RouteEntry → Option RouteEntry → Option RouteEntry
relax neighbor now i x [] held = held
relax neighbor now i x (e ∷ es) held =
    relax neighbor now (i + 1) x es (relax_step neighbor (now i) x e held)

-- There is a route, and it costs at most so much.
abbrev pub AtMost : ℕ → Option RouteEntry → Type 0
AtMost c none = ⊥
AtMost c (some e) = e.cost ≤ c

-- An entry that says nothing of `x`, or that is poisoned.
abbrev pub IsSilent : ℕ → RouteEntry → Type 0
IsSilent x e = (e.destination ≢ x) ⊎ (e.cost ≡ uint_max)

module _ (neighbor : ℕ) (now : ℕ → ℕ) (x : ℕ) where
  step_mono :
      (t c : ℕ) (e : RouteEntry) (held : Option RouteEntry)
      → AtMost c held
      → AtMost c (relax_step neighbor t x e held)
  unfolding relax_step improves
  step_mono t c e none h = absurd h
  step_mono t c e (some f) h = ground arith

  step_offer :
      (t : ℕ) (e : RouteEntry) (held : Option RouteEntry)
      → e.destination ≡ x
      → e.cost < uint_max
      → AtMost (e.cost + 1) (relax_step neighbor t x e held)
  unfolding relax_step improves
  step_offer t e none same low = ground arith
  step_offer t e (some f) same low = ground arith

  step_silent :
      (t : ℕ) (e : RouteEntry) (held : Option RouteEntry)
      → IsSilent x e
      → relax_step neighbor t x e held ≡ held
  unfolding relax_step improves
  step_silent t e none h = ground arith
  step_silent t e (some f) h = ground arith

  step_local :
      (t : ℕ) (e : RouteEntry) {f : RouteEntry}
      → f.cost ≡ 0
      → relax_step neighbor t x e (some f) ≡ some f
  unfolding relax_step improves
  step_local t e z = ground arith

  -- Costs never rise.
  pub relax_mono :
      (i c : ℕ) (es : List RouteEntry) (held : Option RouteEntry)
      → AtMost c held
      → AtMost c (relax neighbor now i x es held)
  unfolding relax
  relax_mono i c [] held h = h
  relax_mono i c (e ∷ es) held h =
      relax_mono (i + 1) c es (relax_step neighbor (now i) x e held) (step_mono (now i) c e held h)

  -- Every offer is met.
  pub relax_offer :
      (i k : ℕ) (es : List RouteEntry) (held : Option RouteEntry) {e : RouteEntry}
      → get_elem? es k ≡ some e
      → e.destination ≡ x
      → e.cost < uint_max
      → AtMost (e.cost + 1) (relax neighbor now i x es held)
  unfolding relax
  relax_offer i k [] held at same low = cc
  relax_offer i zero (f ∷ es) held {e} at same low =
      let is_head : f ≡ e = cc in
      rw is_head (relax_mono (i + 1) (e.cost + 1) es _ (step_offer (now i) e held same low))
  relax_offer i (suc k) (f ∷ es) held {e} at same low =
      relax_offer (i + 1) k es (relax_step neighbor (now i) x f held) {e = e} at same low

  pub relax_silent :
      (i : ℕ) (es : List RouteEntry) (held : Option RouteEntry)
      → All (IsSilent x) es
      → relax neighbor now i x es held ≡ held
  unfolding relax
  relax_silent i [] held h = refl
  relax_silent i (e ∷ es) held h =
      rw (step_silent (now i) e held h.0) (relax_silent (i + 1) es held h.1)

  pub relax_local :
      (i : ℕ) (es : List RouteEntry) {f : RouteEntry}
      → f.cost ≡ 0
      → relax neighbor now i x es (some f) ≡ some f
  unfolding relax
  relax_local i [] z = refl
  relax_local i (e ∷ es) {f} z = rw (step_local (now i) e {f = f} z) (relax_local (i + 1) es z)
