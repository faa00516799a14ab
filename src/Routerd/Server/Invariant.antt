-- ===== src/Routerd/Server/Invariant.antt =====
-- What every turn of the routing daemon keeps: no destination has two routes, and each address of the
-- host has its own route of cost 0.
use in4230_mip.Prelude.{
  ℕ, zero, suc, ◌+◌, ◌≤◌, ◌<◌, ◌≡◌, refl, subst, ◌∙◌, Option, none, some, List, [], ◌∷◌, ◌==◌, ltb,
  arith, ==_iff, ==_refl, Bool-cases, inl, inr, All, All-append, leb, tests, Code, code, minus_one,
  Recv, failed, closed, received, take, get_elem?,
}
use in4230_mip.Commons.LinkedList.{LinkedList}
use in4230_mip.Routerd.Table.{
  RouteEntry, RouteTable, broadcast_address, PackageEntry, TablePackage, create, get, update,
  update_routing, remove_old_entries, entry_create, create_table_loop, create_table, get_next_hop,
}
use in4230_mip.Routerd.Table.Lookup.{Distinct, routes, new_entry, get-update}
use in4230_mip.Routerd.Table.Routing.{IsEntry, update_routing-relax, update_routing_local}
use in4230_mip.Routerd.Table.Expiry.{remove_old_entries-kept, remove_old_entries_local}
use in4230_mip.Routerd.Handlers.{
  handle_route_request, handle_forwarding_request, should_complete_route_broadcast,
}
use in4230_mip.Routerd.Server.{
  RouterServer, Output, Event, routing_event, forward_event, input_event, Turn, Outcome, running,
  stopping, aborted, nothing, stop, other, add_addresses, server_create, handle_event,
  merge_neighbor, and_then, handle_events, broadcast_done, broadcast_if_due, age, run_turn,
  next_turn, run,
}

-- The entry is a route of cost 0 to the address itself.
abbrev pub IsOwn : ℕ → Option RouteEntry → Type 0
IsOwn a o = (f : RouteEntry) × (o ≡ some f) × (f.cost ≡ 0) × (f.next_hop ≡ a)

-- an entry, if there is one
abbrev IsEntry? : Option RouteEntry → Type 0
IsEntry? none = Unit
IsEntry? (some e) = IsEntry e

entry_create-IsEntry : (d n c t : ℕ) → IsEntry? (entry_create d n c t)
unfolding entry_create
entry_create-IsEntry d n c t = elim (Bool-cases (leb d broadcast_address)) [
  | inl fits ↦ rw fits (omega (tests, fits))
  | inr wide ↦ rw wide tt
]

module _ (L : LinkedList RouteEntry) where
  abbrev pub Owns : RouteTable L → ℕ → Type 0
  Owns table a = IsOwn a (get L table a)

  -- the invariant, for one address of the host
  abbrev pub Serves : ℕ → RouteTable L → Type 0
  Serves a table = Distinct (routes L table) × Owns table a

  push-IsEntry :
      (l : L.Handle) (o : Option RouteEntry)
      → All IsEntry (L.items l)
      → IsEntry? o
      → All IsEntry (L.items (elim o [ none ↦ l | some entry ↦ L.push l entry ]))
  push-IsEntry l none h e = h
  push-IsEntry l (some x) h e =
      rw (L.items-push l x) (All-append IsEntry (L.items l) (x ∷ []) h (e, tt))

  loop-IsEntry :
      (now : ℕ → ℕ) (i : ℕ) (es : List PackageEntry) (l : L.Handle)
      → All IsEntry (L.items l)
      → All IsEntry (L.items (create_table_loop L now i es l))
  unfolding create_table_loop
  loop-IsEntry now i [] l h = h
  loop-IsEntry now i (e ∷ es) l h =
      loop-IsEntry now (i + 1) es _
        (push-IsEntry l _ h (entry_create-IsEntry e.destination e.next_hop e.cost (now i)))

  abbrev IsTable? : Option (RouteTable L) → Type 0
  IsTable? none = Unit
  IsTable? (some table) = All IsEntry (routes L table)

  -- Whatever the bytes of a package are, the table made from it has entries within range.
  create_table-IsTable? : (now : ℕ → ℕ) (p : TablePackage) → IsTable? (create_table L now p)
  unfolding create_table create
  create_table-IsTable? now p = elim (Bool-cases (ltb p.num_entries 64)) [
    | inl fits ↦
        rw fits (loop-IsEntry now 0 (take p.num_entries p.entries) L.create (rw L.items-create tt))
    | inr full ↦ rw full tt
  ]

  handle_route_request-IsTable? :
      (now : ℕ → ℕ) (r : Recv TablePackage) → IsTable? (handle_route_request L now r)
  unfolding handle_route_request
  handle_route_request-IsTable? now failed = tt
  handle_route_request-IsTable? now closed = create_table-IsTable? now _
  handle_route_request-IsTable? now (received p) = create_table-IsTable? now p

  update-Serves :
      (table : RouteTable L) (a b t : ℕ)
      → b ≤ 255
      → Serves a table
      → Serves a (update L table b b 0 t).1
  update-Serves table a b t h (dist, (f, held, z, hop)) =
      let done = get-update L table b b 0 t h dist in
      elim (Bool-cases (b == a)) [
        | inl same ↦
            (done.2, (new_entry L table b b 0 t, done.1 a ∙ rw same, refl, (==_iff b a).0 same))
        | inr apart ↦ (done.2, (f, done.1 a ∙ rw apart held, z, hop))
      ]

  update-Serves_self :
      (table : RouteTable L) (a t : ℕ)
      → a ≤ 255
      → Distinct (routes L table)
      → Serves a (update L table a a 0 t).1
  update-Serves_self table a t h dist =
      let done = get-update L table a a 0 t h dist in
      (done.2, (new_entry L table a a 0 t, done.1 a ∙ rw (==_refl a), refl, refl))

  update_routing-Serves :
      (now : ℕ → ℕ) (table neighbor_table : RouteTable L) (a : ℕ)
      → All IsEntry (routes L neighbor_table)
      → Serves a table
      → Serves a (update_routing L now table neighbor_table)
  update_routing-Serves now table nb a h (dist, (f, held, z, hop)) = (
    (update_routing-relax L now table nb h dist a).1,
    (f, update_routing_local L now table nb h dist a f held z, z, hop),
  )

  remove_old_entries-Serves :
      (now : ℕ → ℕ) (table : RouteTable L) (a : ℕ)
      → Serves a table
      → Serves a (remove_old_entries L now table).1
  remove_old_entries-Serves now table a (dist, (f, held, z, hop)) = (
    (remove_old_entries-kept L now table dist).2,
    (f, remove_old_entries_local L now table a f held z, z, hop),
  )

  add_addresses-Serves :
      (now : ℕ → ℕ) (i : ℕ) (addresses : List ℕ) (table : RouteTable L) (a : ℕ)
      → All (λ b. b ≤ 255) addresses
      → Serves a table
      → Serves a (add_addresses L now i addresses table)
  unfolding add_addresses
  add_addresses-Serves now i [] table a h s = s
  add_addresses-Serves now i (b ∷ bs) table a h s =
      add_addresses-Serves now (i + 1) bs _ a h.1 (update-Serves table a b (now i) h.0 s)

  add_addresses-Serves-All :
      (now : ℕ → ℕ) (i k : ℕ) (addresses : List ℕ) (table : RouteTable L) {a : ℕ}
      → All (λ b. b ≤ 255) addresses
      → Distinct (routes L table)
      → get_elem? addresses k ≡ some a
      → Serves a (add_addresses L now i addresses table)
  unfolding add_addresses
  add_addresses-Serves-All now i k [] table h dist at = cc
  add_addresses-Serves-All now i zero (b ∷ bs) table {a} h dist at =
      let same : b ≡ a = cc in
      subst (λ c. Serves c (add_addresses L now i (b ∷ bs) table)) same
        (add_addresses-Serves now (i + 1) bs _ b h.1 (update-Serves_self table b (now i) h.0 dist))
  add_addresses-Serves-All now i (suc k) (b ∷ bs) table {a} h dist at =
      add_addresses-Serves-All now (i + 1) k bs _ {a = a} h.1
        (update-Serves_self table b (now i) h.0 dist).0 at

  module _ (a : ℕ) where
    -- the state after a step serves the address
    abbrev Keeps : RouterServer L × List Output × Outcome → Type 0
    Keeps r = Serves a (r.0).table

    merge-Keeps :
        (server : RouterServer L) (merge_at : ℕ → ℕ) (o : Option (RouteTable L))
        → Serves a server.table
        → IsTable? o
        → Keeps (merge_neighbor L server merge_at o)
    unfolding merge_neighbor
    merge-Keeps server merge_at none s h = s
    merge-Keeps server merge_at (some nb) s h = update_routing-Serves merge_at server.table nb a h s

    event-Keeps :
        (server : RouterServer L) (event : Event)
        → Serves a server.table
        → Keeps (handle_event L server event)
    unfolding handle_event
    event-Keeps server (routing_event packet read_at merge_at) s =
        merge-Keeps server merge_at _ s (handle_route_request-IsTable? read_at packet)
    event-Keeps server (forward_event request rc) s = s
    event-Keeps server (input_event nothing) s = s
    event-Keeps server (input_event stop) s = s
    event-Keeps server (input_event other) s = s

    and_then-Keeps :
        (r q : RouterServer L × List Output × Outcome) → Keeps r → Keeps q → Keeps (and_then L r q)
    unfolding and_then
    and_then-Keeps (server, out, aborted) q s t = s
    and_then-Keeps (server, out, stopping) q s t = t
    and_then-Keeps (server, out, running) q s t = t

    events-Keeps :
        (events : List Event) (server : RouterServer L) (outcome : Outcome)
        → Serves a server.table
        → Keeps (handle_events L server events outcome)
    unfolding handle_events
    events-Keeps [] server outcome s = s
    events-Keeps (event ∷ rest) server outcome s =
        let first = event-Keeps server event s in
        and_then-Keeps (handle_event L server event) _ first (events-Keeps rest _ _ first)

    broadcast_done-Keeps :
        (server : RouterServer L) (t : ℕ) (sent : Code × Option TablePackage)
        → Serves a server.table
        → Keeps (broadcast_done L server t sent)
    unfolding broadcast_done
    broadcast_done-Keeps server t (minus_one, sent) s = s
    broadcast_done-Keeps server t (code n, sent) s = s

    broadcast-Keeps :
        (server : RouterServer L) (turn : Turn)
        → Serves a server.table
        → Keeps (broadcast_if_due L server turn)
    unfolding broadcast_if_due
    broadcast-Keeps server turn s =
        elim (Bool-cases (
          should_complete_route_broadcast turn.test_at server.last_broadcast_milli
            server.broadcast_freq_milli)) [
              | inl due ↦ rw due (broadcast_done-Keeps server turn.stamp_at _ s)
              | inr early ↦ rw early s
            ]

    -- A turn of the loop, whatever its events, keeps the invariant: no destination has two routes,
    -- and the host's own address has a route of cost 0 to itself.
    pub run_turn-Serves :
        (server : RouterServer L) (turn : Turn)
        → Serves a server.table
        → Serves a ((run_turn L server turn).0).table
    unfolding run_turn age
    run_turn-Serves server turn s =
        let sent = broadcast-Keeps server turn s in
        and_then-Keeps (broadcast_if_due L server turn) _ sent
          (events-Keeps turn.events _ running (remove_old_entries-Serves turn.expire_at _ a sent))

    next_turn-Keeps :
        (r q : RouterServer L × List Output × Outcome) → Keeps r → Keeps q → Keeps (next_turn L r q)
    unfolding next_turn
    next_turn-Keeps (server, out, aborted) q s t = s
    next_turn-Keeps (server, out, stopping) q s t = s
    next_turn-Keeps (server, out, running) q s t = t

    run-Serves :
        (turns : List Turn) (server : RouterServer L)
        → Serves a server.table
        → Serves a ((run L server turns).0).table
    unfolding run
    run-Serves [] server s = s
    run-Serves (turn ∷ rest) server s =
        let first = run_turn-Serves server turn s in
        next_turn-Keeps (run_turn L server turn) _ first (run-Serves rest _ first)

  create-Distinct : Distinct (routes L (create L))
  unfolding create
  create-Distinct = rw L.items-create tt

  -- From start-up on, whatever the neighbors send and however time passes, a request for the next hop
  -- to one of the host's own addresses is answered with that address.
  pub own_address_is_served :
      (now : ℕ → ℕ) (freq : ℕ) (addresses : List ℕ) (turns : List Turn) (k a : ℕ)
      → All (λ b. b ≤ 255) addresses
      → get_elem? addresses k ≡ some a
      → a < 255
      → handle_forwarding_request L
          ((run L (server_create L now freq addresses) turns).0).table
          (received a)
        ≡ a
  unfolding handle_forwarding_request get_next_hop server_create
  own_address_is_served now freq addresses turns k a h at small =
      let started =
        add_addresses-Serves-All now 0 k addresses (create L) {a = a} h create-Distinct at in
      let (f, held, z, hop) = (run-Serves a turns (server_create L now freq addresses) started).1 in
      ground (arith, held, hop)
