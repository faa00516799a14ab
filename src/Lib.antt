-- ===== src/Lib.antt =====
-- MIP: a network stack of user-space daemons in C, modelled and proved.
--
-- The program has three daemons that talk over local sockets, and the neighbors' link daemons over
-- raw Ethernet sockets. `routerd` keeps a distance-vector routing table, answers "what is the next hop
-- to this address?", and broadcasts its table. `mipd` speaks the MIP protocol on the link: it resolves
-- addresses (MIP-ARP), sends and receives packages, queues those that wait for a route, and carries
-- the routing tables, with the poison of split horizon put in. `miptpd` is a transport on top.
--
-- Which file models what:
--   Commons.ClientPackage     commons/src/client_package.c, the messages to the transport daemon
--   Commons.MipdMessage       commons/src/mipd_message.c, the messages to the link daemon
--   Commons.LinkedList        the interface of the list and queue of liblcthw (commons/src/list.h, queue.h)
--   Routerd.Table             routerd/src/lib/mip_route_table.c and .h; its children prove: Lookup (get,
--                             update, remove), Relax and Routing (MIPRouteTable_update_routing against the
--                             Bellman step), Expiry (remove_old_entries), Package (the table over the wire)
--   Routerd.Handlers          routerd/src/lib/routing_handler.c and forwarding_handler.c
--   Routerd.Server            routerd/src/lib/router_server.c: RouterServer_create and RouterServer_run
--   Mipd.Packaging            mipd/src/lib/packaging: ether_frame.c, mip_header.c, mip_package.c
--   Mipd.Link                 mipd/src/lib/link.c: sendto_raw_mip_package and recv_raw_mip_package
--   Mipd.Interface            the lookups of mipd/src/lib/interface.c
--   Mipd.Arp                  mipd/src/lib/mip_arp.c; children: Shift, Expiry, Lookup
--   Mipd.Router               mipd/src/lib/router/routing.c, the ForwardQueue of forwarding.c, and the
--                             state of mipd/src/lib/server.h; children: Queue, Poison, Broadcast, Told
--   Mipd.Server               the handlers of mipd/src/lib/server.c, app_connection.c and forwarding.c;
--                             children: Events (the dispatch of MIPDServer_run), Run (its loops), Relay
--                             (the time to live)
--   Miptpd.Window             miptpd/src/lib/sliding_window.c
--   Miptpd.Package            miptpd/src/lib/miptp_package.c; Wire proves what comes over the wire
--   Miptpd.SendJob            miptpd/src/lib/miptp_send_job.c; Slice proves what a window's packages carry
--   Miptpd.ReceiveJob         miptpd/src/lib/miptp_receive_job.c
--   Miptpd.Connection         miptpd/src/lib/app_connection.c; Progress is about a sender's connection
--                             Exchange and Completes are about one against a peer that acknowledges
--   Miptpd.Sending            what miptpd/src/lib/miptp_app_controller.c sends
--   Miptpd.Controller         the handlers of miptp_app_controller.c; children: Registry, Represent, Runs and
--                             Refine (the set of sockets), Delivery (packages in), Carried, Sent and
--                             Outgoing (packages out)
--   Miptpd.Setup, .Server     miptpd/src/lib/miptp_server.c; children: Run (its loop), Applications, Sockets
--                             and Dispatch (events against the set of sockets)
--   Miptpd.Config, .Main      miptpd/src/lib/miptp_config.c and miptpd/src/main/miptpd.c; child: Startup
--   Routerd.Cli, .Startup     routerd/src/lib/cli.c, and the set-up in router_server.c
--   Routerd.Main              routerd/src/main/routerd.c
--   Mipd.Cli, .Startup        mipd/src/main/cli.c; app_connection.c and mipd/src/main/mipd.c up to the loop
--   Mipd.Interface.Setup      the rest of mipd/src/lib/interface.c; Loaded proves
--   Commons.Strings           strings of C as blocks of memory: strlen, strnlen, strncpy, strncmp
--   Commons.Sockets           commons/src/domain_socket.c, bound_socket.c and polling.c
--   Clients                   ping-client/src, ping-server/src and tpclient/src: what they send and read
--   Prelude                   lists, Boolean tests, machine words, and blocks of memory over the native numbers
--
-- How the code is modelled. A handler is a function of the state, of the input and of what the calls
-- of the system return; it gives the new state, the return code and what it handed to the sockets.
-- A return code is `Code`: `minus_one` or `code n`. The clock is an argument: `now i` is what the i-th
-- call of it within an operation returns. Memory is a list of bytes, and `none` of `Option` is a fault
-- of memory: an access past a block, or a NULL pointer that is followed. `calloc` does not fail, a list
-- holds no NULL value, and an int, a long and a size_t are 32, 64 and 64 bits wide. Times are
-- milliseconds below 2^63. Unsigned arithmetic that can wrap is written with its modulus: the costs of
-- routes and the difference that decides on a new MIP-ARP round. The list library is a copy of
-- liblcthw: its calls are the interface `LinkedList`, whose laws state what its header promises, and
-- plain lists meet it.
--
-- Loops are structural recursion over the list or the count they walk. The one loop on fuel is that of
-- update_arp_cache, which looks at a place again after a removal; its fuel is the number of entries in
-- use, as each round either removes an entry or moves on.
--
-- A connection is a pointer that AppConnection_create returns as an int; that the address survives this
-- is taken for granted, as it does where the heap lies below 2^31.
--
-- Not modelled: the logs and the printing of packages, the release of memory, and, of the C library and
-- the system, getopt, sscanf, atoi, getifaddrs, the sockets and epoll, whose results are arguments; of
-- the sample clients the set-up of their sockets; tpserver, which does not compile.
pub mod Prelude
pub mod Commons
pub mod Routerd
pub mod Mipd
pub mod Miptpd
pub mod Clients
