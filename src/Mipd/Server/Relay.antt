-- ===== src/Mipd/Server/Relay.antt =====
-- handle_raw_socket_frame and load_forward_package along a path of hosts: a package is relayed at most
-- as often as its time to live says.
use in4230_mip.Prelude.{
  ℕ, suc, ◌+◌, ◌-◌, ◌≤◌, ◌≡◌, refl, sym, ap, ◌∙◌, Option, none, some, List, [], ◌∷◌, get_or, ◌>>=◌,
  Code, minus_one, code, arith, Option-cases, inl, inr,
}
use in4230_mip.Commons.LinkedList.{LinkedList}
use in4230_mip.Mipd.Packaging.{MipPackage}
use in4230_mip.Mipd.Interface.{InterfaceRecord, empty_interface, get_interface_pos_for_socket}
use in4230_mip.Mipd.Router.{ForwardQueueEntry, MipdServer, queue_push}
use in4230_mip.Mipd.Server.{
  to_wire, to_routerd, request, to_application, Step, checked, handle_mip_arp_request,
  recv_route_table_broadcast, request_forwarding, handle_package_for_application, handle_transport,
  handle_received, handle_raw_socket_frame, load_forward_package,
}

unfoldable pub newest : List ForwardQueueEntry → Option MipPackage
newest [] = none
newest (e ∷ es) = some e.p

module _ (Q : LinkedList ForwardQueueEntry) where
  -- the package queued for forwarding, where a handler asks for a route
  unfoldable pub relayed : Step Q → Option MipPackage
  relayed none = none
  relayed (some (c, server, [])) = none
  relayed (some (c, server, to_wire s p ∷ out)) = none
  relayed (some (c, server, to_routerd t ∷ out)) = none
  relayed (some (c, server, request d ∷ out)) = newest (Q.items server.forward_queue)
  relayed (some (c, server, to_application bytes ∷ out)) = none

  relayed-checked :
      (step : Step Q)
      → relayed (step >>= λ done. some (checked done.0 0, done.1, done.2)) ≡ relayed step
  unfolding relayed
  relayed-checked none = refl
  relayed-checked (some (c, server, [])) = refl
  relayed-checked (some (c, server, to_wire s p ∷ out)) = refl
  relayed-checked (some (c, server, to_routerd t ∷ out)) = refl
  relayed-checked (some (c, server, request d ∷ out)) = refl
  relayed-checked (some (c, server, to_application bytes ∷ out)) = refl

  module _ (src_pointer dst_pointer : List ℕ) where
    quiet_arp :
        (rc : Code) (now : ℕ) (server : MipdServer Q) (p : MipPackage) (r : InterfaceRecord)
        → relayed (handle_mip_arp_request Q src_pointer dst_pointer rc now server p r) ≡ none
    unfolding handle_mip_arp_request relayed
    quiet_arp rc now server p r = ground arith

    quiet_table :
        (rc : Code) (server : MipdServer Q) (p : MipPackage)
        → relayed (recv_route_table_broadcast Q src_pointer dst_pointer rc server p) ≡ none
    unfolding recv_route_table_broadcast relayed
    quiet_table rc server p = ground arith

    quiet_application :
        (rc : Code) (server : MipdServer Q) (p : MipPackage)
        → relayed (handle_package_for_application Q src_pointer dst_pointer rc server p) ≡ none
    unfolding handle_package_for_application relayed
    quiet_application rc server p = ground arith

    queued :
        (rc : Code) (now : ℕ) (server : MipdServer Q) (d : ℕ) (p q : MipPackage)
        → relayed (some (request_forwarding Q src_pointer dst_pointer rc now server d p)) ≡ some q
        → p ≡ q
    unfolding relayed request_forwarding queue_push newest
    queued minus_one now server d p q h = absurd cc
    queued (code n) now server d p q h =
        let front = ap newest (
          Q.items-unshift server.forward_queue
            (record { destination = p.m_header.dst_addr; p = p; age_milli = now })) in
        cc (sym front ∙ h)

    -- Only a transport package with time left to live is relayed, and it has lost one hop.
    transport-ttl :
        (rc : Code) (now : ℕ) (server : MipdServer Q) (p q : MipPackage)
        → relayed (handle_transport Q src_pointer dst_pointer rc now server p) ≡ some q
        → suc q.m_header.ttl ≡ p.m_header.ttl
    unfolding handle_transport relayed
    transport-ttl rc now server p q h =
        let lower = record p { m_header = record (p.m_header) { ttl = p.m_header.ttl - 1 } } in
        ground
          (arith, quiet_application rc server p, queued rc now server p.m_header.dst_addr lower q)

    received-ttl :
        (rc : Code) (now : ℕ) (server : MipdServer Q) (fd : ℕ) (p q : MipPackage)
        → relayed (handle_received Q src_pointer dst_pointer rc now server fd p) ≡ some q
        → suc q.m_header.ttl ≡ p.m_header.ttl
    unfolding handle_received relayed
    received-ttl rc now server fd p q h = ground (
      arith,
      quiet_table rc server p,
      transport-ttl rc now server p q,
      quiet_arp rc now server p
          (get_or server.i_table (get_interface_pos_for_socket server.i_table fd) empty_interface),
    )

-- a host on the path of a package: its state when the frame is handled and when the route daemon has
-- answered, the raw socket, what the write to the route daemon returns, the clock, and the answer
pub record Host (Q : LinkedList ForwardQueueEntry) : Type 0 where
  pub receiving : MipdServer Q
  pub answering : MipdServer Q
  pub fd : ℕ
  pub rc : Code
  pub now : ℕ
  pub next_hop : ℕ

module _ (Q : LinkedList ForwardQueueEntry) (src_pointer dst_pointer : List ℕ) where
  unfoldable pub relay_at : Host Q → MipPackage → Option MipPackage
  relay_at host p = relayed Q (
      handle_raw_socket_frame Q src_pointer dst_pointer host.rc host.now host.receiving host.fd
        (some p))

  -- How many hosts of a path relay a package, which each loads for the next before it goes on.
  unfoldable pub relays : List (Host Q) → MipPackage → ℕ
  relays [] p = 0
  relays (host ∷ path) p = elim (relay_at host p) [
    | none ↦ 0
    | some q ↦
        elim (load_forward_package Q src_pointer dst_pointer host.answering q host.next_hop) [
          | none ↦ 1
          | some loaded ↦ 1 + relays path loaded
        ]
  ]

  relay_at-ttl :
      (host : Host Q) (p q : MipPackage)
      → relay_at host p ≡ some q
      → suc q.m_header.ttl ≡ p.m_header.ttl
  unfolding relay_at handle_raw_socket_frame
  relay_at-ttl host p q h =
      received-ttl Q src_pointer dst_pointer host.rc host.now host.receiving host.fd p q
        (sym (relayed-checked Q _) ∙ h)

  load-ttl :
      (server : MipdServer Q) (p loaded : MipPackage) (next_hop : ℕ)
      → load_forward_package Q src_pointer dst_pointer server p next_hop ≡ some loaded
      → loaded.m_header.ttl ≡ p.m_header.ttl
  unfolding load_forward_package
  load-ttl server p loaded next_hop h = ground arith

  -- Whatever the path, a loop of hosts with wrong or changing routes included, and whatever their
  -- states, no more hosts relay a package than its time to live says.
  pub relays-ttl : (path : List (Host Q)) (p : MipPackage) → relays path p ≤ p.m_header.ttl
  unfolding relays
  relays-ttl [] p = omega arith
  relays-ttl (host ∷ path) p = elim (Option-cases (relay_at host p)) [
    | inl e ↦ rw (e, relays) (omega arith)
    | inr (q, e) ↦
        let hop = relay_at-ttl host p q e in
        elim (Option-cases
          (load_forward_package Q src_pointer dst_pointer host.answering q host.next_hop)) [
            | inl f ↦ rw (e, relays, f) (omega (arith, hop))
            | inr (loaded, f) ↦
                rw (e, relays, f)
                  (omega (
                    arith,
                    hop,
                    load-ttl host.answering q loaded host.next_hop f,
                    relays-ttl path loaded,
                  ))
          ]
  ]
