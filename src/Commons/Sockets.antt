-- ===== src/Commons/Sockets.antt =====
-- Sockets and polling, commons/src/domain_socket.c, commons/src/bound_socket.c and
-- commons/src/polling.c. What the system's calls return are arguments; `none` is a read past the end
-- of a block. The system is told of closed and unlinked files in calls that return nothing.
use in4230_mip.Prelude.{
  ℕ, Option, some, List, [], ◌∷◌, if◌then◌else◌, leb, ◌>>=◌, read_at, Code, minus_one, code,
}
use in4230_mip.Commons.Strings.{strnlen, strncpy}

-- `sizeof(so_name->sun_path)`
abbrev pub sizeof_sun_path : ℕ
sizeof_sun_path = 108

-- `file_path` is a block, `sun_path` the string in the zeroed name.
pub record BoundSocket : Type 0 where
  pub socket_fd : Code
  pub file_path : List ℕ
  pub sun_path : List ℕ

-- `BoundSocket_create`
unfoldable pub bound_socket_create : List ℕ → Option BoundSocket
bound_socket_create file_path = do
  n ← strnlen file_path 256
  copied ← read_at file_path 0 n
  sun_path ← strncpy file_path 107
  some (record { socket_fd = minus_one; file_path = copied; sun_path = sun_path })

-- `create_domain_socket`, by what `socket` returns
unfoldable pub create_domain_socket : Code → Code
create_domain_socket minus_one = minus_one
create_domain_socket (code so) = code so

-- The calls of `bind` and `listen`, which the code of a socket waits for.
unfoldable pub bound : Code → Code → Code → Code
bound result minus_one listen_rc = minus_one
bound result (code _) minus_one = minus_one
bound result (code _) (code _) = result

-- `BoundSocket_connect`
unfoldable pub bound_socket_connect : BoundSocket → Code → Code → Code → Code × BoundSocket
unfolding create_domain_socket bound
bound_socket_connect b_socket socket_rc bind_rc listen_rc =
    let opened = record b_socket { socket_fd = create_domain_socket socket_rc } in
    elim opened.socket_fd [
      | minus_one ↦ (minus_one, opened)
      | code _ ↦ (bound (code 1) bind_rc listen_rc, opened)
    ]

-- `setup_domain_socket`: the code, and the name that the socket is bound to, where it comes to that.
-- What `create_domain_socket` returns is not looked at.
unfoldable pub setup_domain_socket : List ℕ → ℕ → Code → Code → Code → Option (Code × List ℕ)
unfolding create_domain_socket bound
setup_domain_socket socket_name socket_name_size socket_rc bind_rc listen_rc =
    if leb socket_name_size sizeof_sun_path
    then (do
      sun_path ← strncpy socket_name 107
      some (bound (create_domain_socket socket_rc) bind_rc listen_rc, sun_path))
    else some (minus_one, [])

-- `connect_to_domain_socket`: where there is no socket it returns `rc`, which is still 0.
unfoldable pub connect_to_domain_socket : List ℕ → Code → Code → Option Code
connect_to_domain_socket socket_file minus_one connect_rc = some (code 0)
connect_to_domain_socket socket_file (code so) connect_rc = do
  sun_path ← strncpy socket_file 107
  some (elim connect_rc [ minus_one ↦ minus_one | code _ ↦ code so ])

-- The loop of `setup_epoll`, by what `epoll_ctl` returns for a descriptor.
unfoldable pub watch_all : (ℕ → Code) → List ℕ → Code
watch_all ctl_rc [] = code 0
watch_all ctl_rc (fd ∷ rest) =
    let onward = watch_all ctl_rc rest in
    elim (ctl_rc fd) [ minus_one ↦ minus_one | code _ ↦ onward ]

-- `setup_epoll`
unfoldable pub setup_epoll : Code → (ℕ → Code) → List ℕ → Code
unfolding watch_all
setup_epoll minus_one ctl_rc fds = minus_one
setup_epoll (code epoll_fd) ctl_rc fds = elim (watch_all ctl_rc fds) [
  | minus_one ↦ minus_one
  | code _ ↦ code epoll_fd
]
