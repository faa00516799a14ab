-- ===== src/Mipd/Startup.antt =====
-- The start of the link daemon: the sockets of mipd/src/lib/app_connection.c, and `main` of
-- mipd/src/main/mipd.c up to the call of MIPDServer_run. What the system's calls return is given;
-- `none` is a fault of memory.
use in4230_mip.Prelude.{
  ℕ, Bool, true, false, Option, none, some, List, [], ◌∷◌, if◌then◌else◌, leb, ltb, length, ◌>>=◌,
  Code, minus_one, code, Recv, failed, closed, received,
}
use in4230_mip.Commons.LinkedList.{LinkedList}
use in4230_mip.Commons.Strings.{strnlen, strncpy, starts_with}
use in4230_mip.Commons.Sockets.{sizeof_sun_path, create_domain_socket}
use in4230_mip.Mipd.Interface.{InterfaceRecord}
use in4230_mip.Mipd.Interface.Setup.{
  UnboundRecord, Listed, create_loaded_interface_table, apply_mip_addresses,
  bind_table_to_raw_sockets, add_to_table_to_epoll,
}
use in4230_mip.Mipd.Router.{ForwardQueueEntry, LocalSocket, MipdServer}
use in4230_mip.Mipd.Server.Run.{server_create}
use in4230_mip.Mipd.Cli.{UserConfig, user_config_from_cli}

-- The codes of the calls that set up a socket.
pub record SocketCodes : Type 0 where
  pub socket_rc : Code
  pub bind_rc : Code
  pub listen_rc : Code

-- The end of `LocalSocket_create`: the system does not bind where there is no socket, and only a
-- socket of the type SOCK_STREAM listens.
unfoldable pub local_socket_bound : Bool → Code → Code → Code → Option LocalSocket
local_socket_bound stream minus_one bind_rc listen_rc = none
local_socket_bound stream (code fd) minus_one listen_rc = none
local_socket_bound true (code fd) (code _) minus_one = none
local_socket_bound true (code fd) (code _) (code _) =
    some (record { listening_socket_fd = fd; connected_socket_fd = minus_one })
local_socket_bound false (code fd) (code _) listen_rc =
    some (record { listening_socket_fd = fd; connected_socket_fd = minus_one })

-- `LocalSocket_create`: the inner option is NULL. The file is unlinked and bound under the path as far
-- as `strncpy` copies it.
unfoldable pub local_socket_create : List ℕ → Bool → SocketCodes → Option (Option LocalSocket)
unfolding local_socket_bound
local_socket_create path stream codes = do
  path_len ← strnlen path 255
  sun_path ← strncpy path 107
  some (
      if leb path_len sizeof_sun_path
      then local_socket_bound stream (create_domain_socket codes.socket_rc) codes.bind_rc
          codes.listen_rc
      else none)

-- `read_from_domain_socket`: the number of bytes read, 0 where the peer has closed, or -1
unfoldable pub read_from_domain_socket : Recv (List ℕ) → Code
read_from_domain_socket failed = minus_one
read_from_domain_socket closed = code 0
read_from_domain_socket (received bytes) = code (length bytes)

-- `handle_domain_socket_connection`: `epoll_ctl` fails where `accept` gave no socket.
unfoldable pub handle_domain_socket_connection : Code → Code → Code
handle_domain_socket_connection accepted minus_one = minus_one
handle_domain_socket_connection accepted (code _) = accepted

-- What the calls of `main` return: those on the raw socket that tests the rights, on the interfaces'
-- sockets by position, on the three local sockets, and on epoll.
pub record Calls : Type 0 where
  pub listed : Option (List Listed)
  pub raw_rc : Code
  pub raw_socket_rc : ℕ → Code
  pub raw_bind_rc : ℕ → Code
  pub app : SocketCodes
  pub route : SocketCodes
  pub forward : SocketCodes
  pub epoll_rc : Code
  pub ctl_rc : ℕ → Code

module _ (Q : LinkedList ForwardQueueEntry) (src_pointer dst_pointer : List ℕ)
    (atoi : List ℕ → ℕ) where
  -- How `main` comes out before the loop: the daemon exits with 0 or -1, or it serves.
  pub data Start : Type 0 where
    exits : Code → Start
    serves : MipdServer Q → Start

  -- `CACHE_UPDATE_FREQ_MILLI`
  abbrev pub cache_update_freq_milli : ℕ
  cache_update_freq_milli = 10_000

  -- The interfaces are bound, and epoll watches them; what `setup_epoll` returns is not looked at.
  unfoldable pub start_bound :
      Calls → (app route forward : LocalSocket) → Option (List InterfaceRecord) → Start
  start_bound calls app route forward none = exits minus_one
  start_bound calls app route forward (some table) =
      elim (add_to_table_to_epoll calls.ctl_rc table) [
        | minus_one ↦ exits minus_one
        | code _ ↦ serves (
            server_create Q src_pointer dst_pointer app route forward table cache_update_freq_milli)
      ]

  -- `check_mem` for each of the three sockets
  unfoldable pub start_sockets :
      Calls → List UnboundRecord → (app route forward : Option LocalSocket) → Start
  unfolding start_bound
  start_sockets calls table (some app) (some route) (some forward) =
      start_bound calls app route forward
        (bind_table_to_raw_sockets calls.raw_socket_rc calls.raw_bind_rc 0 table)
  start_sockets calls table none route forward = exits minus_one
  start_sockets calls table (some app) none forward = exits minus_one
  start_sockets calls table (some app) (some route) none = exits minus_one

  unfoldable pub start_configured : Calls → List UnboundRecord → Option UserConfig → Option Start
  unfolding start_sockets
  start_configured calls loaded none = some (exits minus_one)
  start_configured calls loaded (some u_config) = do
    table ← apply_mip_addresses loaded u_config.mip_addresses u_config.num_mip_addresses
    app ← local_socket_create u_config.app_socket true calls.app
    route ← local_socket_create u_config.route_socket true calls.route
    forward ← local_socket_create u_config.forward_socket true calls.forward
    some (start_sockets calls table app route forward)

  unfoldable pub start_args : Calls → Bool → List (List ℕ) → Option Start
  unfolding start_configured
  start_args calls true args = some (exits (code 0))
  start_args calls false args =
      if ltb 3 (length args)
      then (let loaded = create_loaded_interface_table calls.listed in
          user_config_from_cli atoi args (length loaded) >>= start_configured calls loaded)
      else some (exits minus_one)

  -- `main`, of the arguments behind the program's name
  unfoldable pub start : Calls → List (List ℕ) → Option Start
  unfolding start_args
  start calls args = elim calls.raw_rc [
    | minus_one ↦ some (exits minus_one)
    | code _ ↦ elim args [
      | [] ↦ some (exits minus_one)
      | block ∷ rest ↦ (do
        help ← starts_with (45 ∷ 104 ∷ []) block
        start_args calls help (block ∷ rest))
    ]
  ]
