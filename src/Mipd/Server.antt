-- ===== src/Mipd/Server.antt =====
-- The handlers of mipd: mipd/src/lib/server.c, app_connection.c, router/forwarding.c, and the end of
-- mip_arp.c. A handler gives the code that it returns, the state after it and what it handed to the
-- sockets; `none` is a fault of memory. What a call of the system returns is an argument: `rc` for the
-- one `sendto`, `send` or `write` of a handler, `now` for its reading of the clock.
pub mod Relay
pub mod Events
pub mod Run
use in4230_mip.Prelude.{
  ℕ, zero, suc, ◌+◌, ◌-◌, ◌*◌, Bool, true, false, Option, none, some, List, [], ◌∷◌, ◌++◌,
  if◌then◌else◌, ◌==◌, get_or, take, replicate, ◌>>=◌, Code, minus_one, code,
}
use in4230_mip.Commons.LinkedList.{LinkedList}
use in4230_mip.Commons.MipdMessage
use in4230_mip.Commons.MipdMessage.{MipdMessage, max_mipmessage_size}
use in4230_mip.Routerd.Table.{TablePackage}
use in4230_mip.Mipd.Packaging.{
  MipPackage, package_create, package_create_raw, create_ethernet_frame,
  create_transport_mip_header,
}
use in4230_mip.Mipd.Interface.{
  InterfaceRecord, empty_interface, get_interface_pos_for_socket, get_interface_pos_for_mip_address,
}
use in4230_mip.Mipd.Arp.{
  ArpCache, CacheEntry, append_to_cache, query_mip_address_src_socket, query_mip_address_pos,
}
use in4230_mip.Mipd.Arp
use in4230_mip.Mipd.Link.{message_bytes}
use in4230_mip.Mipd.Router.{
  ForwardQueueEntry, LocalSocket, MipdServer, parse_broadcasted_table, queue_push, queue_pop,
}

-- What is handed to the sockets: a package to a raw socket, a table to the route socket, a request to
-- the forward socket, bytes to the application.
pub data Output : Type 0 where
  to_wire : ℕ → MipPackage → Output
  to_routerd : TablePackage → Output
  request : ℕ → Output
  to_application : List ℕ → Output

abbrev pub Step : LinkedList ForwardQueueEntry → Type 0
Step Q = Option (Code × MipdServer Q × List Output)

-- `check(rc != -1)` on the way to `return n`
unfoldable pub checked : Code → ℕ → Code
checked minus_one n = minus_one
checked (code _) n = code n

module _ (Q : LinkedList ForwardQueueEntry) (src_pointer dst_pointer : List ℕ) where
  -- `handle_mip_arp_request`: the code of `append_to_cache` is not looked at.
  unfoldable pub handle_mip_arp_request :
      Code → ℕ → MipdServer Q → MipPackage → InterfaceRecord → Step Q
  handle_mip_arp_request rc now server received r = do
    made ←
        package_create_raw r.mip_address src_pointer received.m_header.src_addr dst_pointer [] 0 0
    response ← made
    elim rc [
      | minus_one ↦ some (minus_one, server, to_wire r.raw_socket response ∷ [])
      | code _ ↦ (do
        appended ←
            append_to_cache server.cache r.raw_socket received.m_header.src_addr r.sll_addr now
        some (code 1, record server { cache = appended.1 }, to_wire r.raw_socket response ∷ []))
    ]

  -- `recv_route_table_broadcast`
  unfoldable pub recv_route_table_broadcast : Code → MipdServer Q → MipPackage → Step Q
  recv_route_table_broadcast rc server received = elim server.route_socket.connected_socket_fd [
    | minus_one ↦ some (code 0, server, [])
    | code _ ↦ (do
      table ← parse_broadcasted_table received
      some (checked rc 1, server, to_routerd table ∷ []))
  ]

  -- `request_forwarding`: the package is queued where the request was written.
  unfoldable pub request_forwarding :
      Code → ℕ → MipdServer Q → ℕ → MipPackage → Code × MipdServer Q × List Output
  request_forwarding minus_one now server destination p = (code 0, server, [])
  request_forwarding (code _) now server destination p = (
    code 1,
    record server { forward_queue = queue_push Q now server.forward_queue p },
    request destination ∷ [],
  )

  -- `handle_MIPPackage_for_application`
  unfoldable pub handle_package_for_application : Code → MipdServer Q → MipPackage → Step Q
  handle_package_for_application rc server received = elim server.app_socket.connected_socket_fd [
    | minus_one ↦ some (code 0, server, [])
    | code _ ↦ (do
      let size = received.m_header.payload_len * 4
      bytes ← message_bytes received.message size
      made ← MipdMessage.create received.m_header.src_addr size bytes
      elim made [
        | none ↦ some (minus_one, server, [])
        | some message ↦ (do
          written ← MipdMessage.serialize (replicate max_mipmessage_size 0) message
          elim written.0 [
            | minus_one ↦ some (minus_one, server, [])
            | code n ↦ some (checked rc 1, server, to_application (take n written.1) ∷ [])
          ])
      ])
  ]

  -- The branch of `handle_raw_socket_frame` for a transport package.
  unfoldable pub handle_transport : Code → ℕ → MipdServer Q → MipPackage → Step Q
  handle_transport rc now server received =
      elim (get_interface_pos_for_mip_address server.i_table received.m_header.dst_addr) [
        | code _ ↦ handle_package_for_application rc server received
        | minus_one ↦
            if received.m_header.ttl == 0
            then some (code 0, server, [])
            else some (
                request_forwarding rc now server received.m_header.dst_addr (record received {
                  m_header = record (received.m_header) { ttl = received.m_header.ttl - 1 };
                }))
      ]

  -- The branches on `tra`.
  unfoldable pub handle_received : Code → ℕ → MipdServer Q → ℕ → MipPackage → Step Q
  handle_received rc now server fd received =
      let r =
        get_or server.i_table (get_interface_pos_for_socket server.i_table fd) empty_interface in
      if received.m_header.tra == 0
      then (do
        appended ← append_to_cache server.cache fd received.m_header.src_addr r.sll_addr now
        some (appended.0, record server { cache = appended.1 }, []))
      else if received.m_header.tra == 1
      then handle_mip_arp_request rc now server received r
      else if received.m_header.tra == 2
      then recv_route_table_broadcast rc server received
      else if received.m_header.tra == 3
      then handle_transport rc now server received
      else some (code 0, server, [])

  -- `handle_raw_socket_frame`, by what `recv_raw_mip_package` gave; each branch is checked, and 0 is
  -- returned where it did not fail.
  unfoldable pub handle_raw_socket_frame : Code → ℕ → MipdServer Q → ℕ → Option MipPackage → Step Q
  unfolding handle_received
  handle_raw_socket_frame rc now server fd none = some (minus_one, server, [])
  handle_raw_socket_frame rc now server fd (some received) = do
    done ← handle_received rc now server fd received
    some (checked done.0 0, done.1, done.2)

  -- `load_forward_package`, with `none` inside for -1. The socket of a cache entry that is not in the
  -- table gives the first interface.
  unfoldable pub load_forward_package : MipdServer Q → MipPackage → ℕ → Option MipPackage
  load_forward_package server p next_hop = do
    sock ← query_mip_address_src_socket server.cache next_hop
    cache_pos ← query_mip_address_pos server.cache next_hop
    let r = get_or server.i_table (get_interface_pos_for_socket server.i_table sock) empty_interface
    let entry = get_or server.cache.entries cache_pos Arp.empty_entry
    some (record p {
      e_frame = create_ethernet_frame entry.dst_interface r.sll_addr;
      m_header = record (p.m_header) {
        src_addr = if p.m_header.src_addr == 255 then r.mip_address else p.m_header.src_addr;
      };
    })

  -- The rest of `handle_forward_response`, once a package is popped.
  unfoldable pub send_forward :
      Code → MipdServer Q → MipPackage → ℕ → Code × MipdServer Q × List Output
  send_forward rc server p next_hop = elim (query_mip_address_src_socket server.cache next_hop) [
    | none ↦ (minus_one, server, [])
    | some sock ↦ elim (load_forward_package server p next_hop) [
      | none ↦ (minus_one, server, [])
      | some loaded ↦ (checked rc 1, server, to_wire sock loaded ∷ [])
    ]
  ]

  -- `handle_forward_response`. A NULL package is followed only where the next hop is in the cache.
  unfoldable pub handle_forward_response : Code → MipdServer Q → ℕ → Step Q
  handle_forward_response rc server next_hop =
      let popped = queue_pop Q server.forward_queue in
      let onward = record server { forward_queue = popped.1 } in
      elim popped.0 [
        | some p ↦ some (send_forward rc onward p next_hop)
        | none ↦ elim (query_mip_address_src_socket server.cache next_hop) [
          | none ↦ some (minus_one, onward, [])
          | some _ ↦ none
        ]
      ]

  -- `handle_domain_socket_request`; a message that no package can hold is a NULL package to send.
  unfoldable pub handle_domain_socket_request : Code → MipdServer Q → MipdMessage → Step Q
  handle_domain_socket_request rc server message =
      elim (query_mip_address_src_socket server.cache message.mip_address) [
        | none ↦ some (code 0, server, [])
        | some sock ↦ (do
          cache_pos ← query_mip_address_pos server.cache message.mip_address
          let r =
              get_or server.i_table (get_interface_pos_for_socket server.i_table sock)
                empty_interface
          let entry = get_or server.cache.entries cache_pos Arp.empty_entry
          made ←
              package_create (create_ethernet_frame entry.dst_interface r.sll_addr)
                (create_transport_mip_header r.mip_address message.mip_address) message.content
                message.data_size
          p ← made
          some (checked rc 1, server, to_wire sock p ∷ []))
      ]

  -- `create_queueable_MIPDMessage_MIPPackage`
  unfoldable pub create_queueable_package : MipdMessage → Option (Option MipPackage)
  create_queueable_package message =
      package_create_raw 255 src_pointer message.mip_address dst_pointer message.content
        message.data_size 3
