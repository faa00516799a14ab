-- ===== src/Routerd/Startup.antt =====
-- The start of the routing daemon: the copies of paths in RouterServer_create and RouterServer_init of
-- routerd/src/lib/router_server.c. What the system's calls return is given; `none` is a fault of
-- memory.
use in4230_mip.Prelude.{
  ℕ, ◌<◌, ◌≡◌, refl, Bool, false, Option, none, some, List, [], ◌∷◌, length, read_at, ◌>>=◌, Code,
  minus_one, code, arith,
}
use in4230_mip.Commons.LinkedList.{LinkedList}
use in4230_mip.Commons.Strings.{strlen, starts_with, c_string, NoEnd}
use in4230_mip.Commons.Sockets.{connect_to_domain_socket, setup_epoll}
use in4230_mip.Routerd.Table.{RouteEntry}
use in4230_mip.Routerd.Server.{RouterServer, server_create}
use in4230_mip.Routerd.Cli.{
  RouterdConfig, help_flag, debug_flag, flagged, parse_args, parse_args_lem,
}

-- The server with the paths and descriptors that it is set up with.
pub record Initialized (L : LinkedList RouteEntry) : Type 0 where
  pub server : RouterServer L
  pub debug_active : ℕ
  pub routing_domain_sock : List ℕ
  pub forward_domain_sock : List ℕ
  pub routing_fd : Code
  pub forward_fd : Code
  pub epoll_fd : Code

-- `calloc(1, strlen(...))` and `memcpy`: the string without its end. A NULL pointer is followed.
unfoldable pub copy_unended : Option (List ℕ) → Option (List ℕ)
copy_unended none = none
copy_unended (some block) = do n ← strlen block; read_at block 0 n

module _ (L : LinkedList RouteEntry) (A : LinkedList ℕ) where
  -- `RouterServer_create`
  unfoldable pub create_initialized : (ℕ → ℕ) → RouterdConfig A → Option (Initialized L)
  unfolding copy_unended
  create_initialized now config = do
    routing ← copy_unended config.routing_socket
    forward ← copy_unended config.forwarding_socket
    some (record {
      server = server_create L now config.broadcast_freq (A.items config.mip_addresses);
      debug_active = config.debug_active;
      routing_domain_sock = routing;
      forward_domain_sock = forward;
      routing_fd = minus_one;
      forward_fd = minus_one;
      epoll_fd = minus_one;
    })

  -- The end of `RouterServer_init`.
  unfoldable pub init_epoll : Initialized L → ℕ → ℕ → Code → (ℕ → Code) → Code × Initialized L
  init_epoll s routing forward epoll_rc ctl_rc =
      let epoll = setup_epoll epoll_rc ctl_rc (0 ∷ routing ∷ forward ∷ []) in
      (elim epoll [ minus_one ↦ minus_one | code _ ↦ code 1 ], record s { epoll_fd = epoll })

  unfoldable pub init_forward : Initialized L → ℕ → Code → Code → (ℕ → Code) → Code × Initialized L
  unfolding init_epoll
  init_forward s routing minus_one epoll_rc ctl_rc =
      (minus_one, record s { forward_fd = minus_one })
  init_forward s routing (code fd) epoll_rc ctl_rc =
      init_epoll (record s { forward_fd = code fd }) routing fd epoll_rc ctl_rc

  -- `RouterServer_init`, by the codes of `socket` and `connect` for each path, and of epoll's calls
  unfoldable pub init :
      Initialized L
      → (routing_rc routing_connect forward_rc forward_connect epoll_rc : Code) → (ℕ → Code)
      → Option (Code × Initialized L)
  unfolding init_forward
  init s routing_rc routing_connect forward_rc forward_connect epoll_rc ctl_rc = do
    routing ← connect_to_domain_socket s.routing_domain_sock routing_rc routing_connect
    elim routing [
      | minus_one ↦ some (minus_one, record s { routing_fd = minus_one })
      | code fd ↦ (do
        forward ← connect_to_domain_socket s.forward_domain_sock forward_rc forward_connect
        some (init_forward (record s { routing_fd = code fd }) fd forward epoll_rc ctl_rc))
    ]

strlen_past : (s : List ℕ) → NoEnd s → strlen s ≡ none
unfolding strlen
strlen_past [] h = refl
strlen_past (b ∷ s) h = rw (strlen_past s h.1) (ground (arith, h.0))

-- Started with at least three and at most 256 arguments, "-d" in front or not, then a path that starts
-- with neither flag, a second path, and numbers, the daemon has a configuration, and faults as it
-- creates the server from it: the path of the routing socket was copied without its end.
pub create_initialized-parse_args :
    (L : LinkedList RouteEntry) (A : LinkedList ℕ) (scan_u8 : List ℕ → Option ℕ) (now : ℕ → ℕ)
    (routing forwarding : List ℕ) (blocks : List (List ℕ)) (debug : Bool)
    → NoEnd routing
    → NoEnd forwarding
    → starts_with help_flag (c_string routing) ≡ some false
    → starts_with debug_flag (c_string routing) ≡ some false
    → 2 < length (flagged debug (c_string routing ∷ c_string forwarding ∷ blocks))
    → length (flagged debug (c_string routing ∷ c_string forwarding ∷ blocks)) < 257
    → (config : RouterdConfig A) × parse_args A scan_u8
          (flagged debug (c_string routing ∷ c_string forwarding ∷ blocks))
        ≡ some (some config)
      × create_initialized L A now config ≡ none
unfolding create_initialized
create_initialized-parse_args L A scan_u8 now routing forwarding blocks debug hr hf no_help no_debug
      enough few =
    let parsed =
      parse_args_lem A scan_u8 routing forwarding blocks hr hf debug no_help no_debug enough few in
    (parsed.0, parsed.1, rw (parsed.2, copy_unended, strlen_past routing hr) refl)
