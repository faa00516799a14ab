-- ===== src/Miptpd/Setup.antt =====
-- The set-up of the transport daemon's server, MIPTPServer_create and MIPTPServer_init of
-- miptpd/src/lib/miptp_server.c. `none` is a fault of memory, or NULL from a function that creates.
use in4230_mip.Prelude.{
  ℕ, ◌%◌, Option, none, some, List, [], ◌∷◌, if◌then◌else◌, ◌==◌, u16_mod, read_at, ◌>>=◌, Code,
  minus_one, code,
}
use in4230_mip.Commons.LinkedList.{LinkedList}
use in4230_mip.Commons.Strings.{strnlen}
use in4230_mip.Commons.Sockets.{
  BoundSocket, bound_socket_create, bound_socket_connect, connect_to_domain_socket, setup_epoll,
}
use in4230_mip.Miptpd.Connection.{AppConnection}
use in4230_mip.Miptpd.Controller.{AppController, controller_create}

-- `MAX_APP_CONNECTIONS`
abbrev pub max_app_connections : ℕ
max_app_connections = 10

pub record MiptpServer (L : LinkedList AppConnection) : Type 0 where
  pub debug_active : ℕ
  pub mipd_socket : List ℕ
  pub mipd_fd : Code
  pub app_connections_socket : BoundSocket
  pub timeout : ℕ
  pub epoll_fd : Code
  pub app_controller : AppController L

module _ (L : LinkedList AppConnection) where
  unfoldable pub server_made : List ℕ → List ℕ → ℕ → ℕ → Option (MiptpServer L)
  server_made mipd_socket app_connections_socket debug_active timeout = do
    b_socket ← bound_socket_create app_connections_socket
    n ← strnlen mipd_socket 256
    copied ← read_at mipd_socket 0 n
    some (record {
      debug_active = debug_active % u16_mod;
      mipd_socket = copied;
      mipd_fd = code 0;
      app_connections_socket = b_socket;
      timeout = timeout;
      epoll_fd = code 0;
      app_controller = controller_create L minus_one max_app_connections;
    })

  -- `MIPTPServer_create`: the path of the link daemon's socket is copied without its end.
  unfoldable pub server_create : List ℕ → List ℕ → ℕ → ℕ → Option (MiptpServer L)
  unfolding server_made
  server_create mipd_socket app_connections_socket debug_active timeout = do
    some_mipd ← strnlen mipd_socket 2
    some_app ← strnlen app_connections_socket 2
    let made = server_made mipd_socket app_connections_socket debug_active timeout
    (if some_mipd == 0 then none else if some_app == 0 then none else made)

  -- The end of `MIPTPServer_init`, once both sockets are there.
  unfoldable pub init_epoll : MiptpServer L → Code → Code × MiptpServer L
  init_epoll server minus_one = (minus_one, record server { epoll_fd = minus_one })
  init_epoll server (code fd) = (
    code 1,
    record server {
      epoll_fd = code fd;
      app_controller = record (server.app_controller) { mipd_socket = server.mipd_fd };
    },
  )

  -- `MIPTPServer_init` behind the connection to the link daemon: the codes are those of `socket`,
  -- `bind` and `listen`, and of epoll's calls.
  unfoldable pub init_sockets :
      MiptpServer L
      → (socket_rc bind_rc listen_rc epoll_rc : Code) → (ℕ → Code)
      → Code × MiptpServer L
  unfolding init_epoll
  init_sockets server socket_rc bind_rc listen_rc epoll_rc ctl_rc =
      let bound = bound_socket_connect server.app_connections_socket socket_rc bind_rc listen_rc in
      let next = record server { app_connections_socket = bound.1 } in
      let number : Code → ℕ = λ c. elim c [ minus_one ↦ 0 | code n ↦ n ] in
      elim bound.0 [
        | minus_one ↦ (minus_one, next)
        | code _ ↦
            init_epoll next (
              setup_epoll epoll_rc ctl_rc (0 ∷ number next.mipd_fd ∷ number bound.1.socket_fd ∷ []))
      ]

  -- `MIPTPServer_init`
  unfoldable pub init :
      MiptpServer L
      → (mipd_rc connect_rc socket_rc bind_rc listen_rc epoll_rc : Code) → (ℕ → Code)
      → Option (Code × MiptpServer L)
  unfolding init_sockets
  init server mipd_rc connect_rc socket_rc bind_rc listen_rc epoll_rc ctl_rc = do
    fd ← connect_to_domain_socket server.mipd_socket mipd_rc connect_rc
    let connected = record server { mipd_fd = fd }
    some (elim fd [
      | minus_one ↦ (minus_one, connected)
      | code _ ↦ init_sockets connected socket_rc bind_rc listen_rc epoll_rc ctl_rc
    ])
