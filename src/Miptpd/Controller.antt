-- ===== src/Miptpd/Controller.antt =====
-- The connections of the transport daemon, miptpd/src/lib/miptp_app_controller.c. A handler gives
-- `none` for a fault of memory, else the code that it returns and the controller; `socket` is the
-- number of a descriptor.
pub mod Registry
pub mod Delivery
pub mod Outgoing
mod Carried
pub mod Sent
pub mod Runs
mod Represent
pub mod Refine
use in4230_mip.Prelude.{
  ℕ, suc, Option, none, some, List, [], ◌∷◌, if◌then◌else◌, ◌==◌, ◌>>=◌, Code, minus_one, code,
}
use in4230_mip.Commons.LinkedList.{LinkedList}
use in4230_mip.Commons.ClientPackage
use in4230_mip.Commons.ClientPackage.{ClientPackage}
use in4230_mip.Commons.MipdMessage.{MipdMessage}
use in4230_mip.Miptpd.Sending.{send_client_package, outgoing_loop}
use in4230_mip.Miptpd.Package
use in4230_mip.Miptpd.Package.{MiptpPackage, max_miptp_package_size}
use in4230_mip.Miptpd.Connection.{
  AppConnection, conn_complete, connection_create, connection_create_not_ready, connection_type,
  connection_receive_package, connection_result,
}

pub record AppController (L : LinkedList AppConnection) : Type 0 where
  pub connections : L.Handle
  pub max_connections : ℕ
  pub timeout : ℕ
  pub mipd_socket : Code

-- the position of the first connection with a socket, where the LIST_FOREACH of a handler stops
unfoldable pub find_socket : ℕ → List AppConnection → Option ℕ
find_socket socket [] = none
find_socket socket (connection ∷ rest) =
    let onward = find_socket socket rest in
    if connection.socket == socket then some 0 else (do i ← onward; some (suc i))

-- what a handler that looks for a socket returns
unfoldable pub found : Option ℕ → Code
found none = code 0
found (some i) = code 1

-- The loop of `MIPTPAppController_handle_mipd_package` over the connections: it ends at the first
-- that fails, and the ones before have taken the package.
unfoldable pub mipd_package_loop :
    ℕ → MiptpPackage → List AppConnection → Option (Code × List AppConnection)
mipd_package_loop sender p [] = some (code 1, [])
mipd_package_loop sender p (connection ∷ rest) =
    let onward = mipd_package_loop sender p rest in
    if connection.port == p.miptp_header.port
    then (do
      received ← connection_receive_package connection sender p
      elim received.0 [
        | minus_one ↦ some (minus_one, received.1 ∷ rest)
        | code _ ↦ (do done ← onward; some (done.0, received.1 ∷ done.1))
      ])
    else (do done ← onward; some (done.0, connection ∷ done.1))

module _ (L : LinkedList AppConnection) where
  -- `MIPTPAppController_create`: the timeout is 0, as `calloc` leaves it.
  unfoldable pub controller_create : Code → ℕ → AppController L
  controller_create mipd_socket max_connections = record {
    connections = L.create;
    max_connections = max_connections;
    timeout = 0;
    mipd_socket = mipd_socket;
  }

  -- The end of `MIPTPAppController_handle_app_package`, for the connection at a position. `none` of
  -- the connection is NULL.
  unfoldable pub complete_connection :
      AppController L → ℕ → Option AppConnection → Code × AppController L
  complete_connection controller i none = (minus_one, controller)
  complete_connection controller i (some connection) = (
    code 1,
    record controller { connections = L.push (L.remove controller.connections i) connection },
  )

  unfoldable pub app_package_found :
      AppController L → ℕ → ClientPackage → ℕ → Option ℕ → Code × AppController L
  unfolding complete_connection
  app_package_found controller socket p now none = (code 1, controller)
  app_package_found controller socket p now (some i) = complete_connection controller i (
      connection_create (connection_type p.client_type) socket p.port p.destination p.content
        p.data_size controller.timeout now)

  -- The checks of `MIPTPAppController_handle_app_package`, and its loop.
  unfoldable pub app_package_read : AppController L → ℕ → ClientPackage → ℕ → Code × AppController L
  unfolding app_package_found
  app_package_read controller socket p now =
      if p.port == 0
      then (minus_one, controller)
      else if p.destination == 0
      then (minus_one, controller)
      else app_package_found controller socket p now
          (find_socket socket (L.items controller.connections))

  -- `MIPTPAppController_handle_app_package`
  unfoldable pub handle_app_package :
      AppController L → ℕ → List ℕ → ℕ → Option (Code × AppController L)
  unfolding app_package_read
  handle_app_package controller socket s_package now = do
    p ← ClientPackage.deserialize s_package
    some (app_package_read controller socket p now)

  -- The list that a loop leaves which writes through `cur->value`.
  unfoldable pub with_values : List AppConnection → L.Handle
  with_values [] = L.create
  with_values (connection ∷ rest) = L.unshift (with_values rest) connection

  -- `MIPTPAppController_handle_mipd_package`, of pointers that are not NULL
  unfoldable pub handle_mipd_package :
      AppController L → MipdMessage → Option (Code × AppController L)
  handle_mipd_package controller message = do
    p ← Package.deserialize message.content message.data_size
    done ← mipd_package_loop message.mip_address p (L.items controller.connections)
    some (done.0, record controller { connections = with_values done.1 })

  unfoldable pub register : AppController L → ℕ → Option AppConnection → Code × AppController L
  register controller socket none = (minus_one, controller)
  register controller socket (some connection) =
      (code socket, record controller { connections = L.push controller.connections connection })

  -- `MIPTPAppController_handle_connection`, by what `accept` and `epoll_ctl` return
  unfoldable pub handle_connection : AppController L → Code → Code → ℕ → Code × AppController L
  unfolding register
  handle_connection controller minus_one epoll_rc now = (minus_one, controller)
  handle_connection controller (code socket) minus_one now = (minus_one, controller)
  handle_connection controller (code socket) (code _) now =
      register controller socket (connection_create_not_ready socket now)

  -- `MIPTPAppController_is_a_connection`
  unfoldable pub is_a_connection : AppController L → Code → Code
  unfolding found
  is_a_connection controller minus_one = minus_one
  is_a_connection controller (code socket) =
      found (find_socket socket (L.items controller.connections))

  unfoldable pub removed : AppController L → Option ℕ → AppController L
  removed controller none = controller
  removed controller (some i) = record controller {
    connections = L.remove controller.connections i;
  }

  -- `MIPTPAppController_disconnect`
  unfoldable pub disconnect : AppController L → ℕ → Code × AppController L
  unfolding found removed
  disconnect controller socket =
      let place = find_socket socket (L.items controller.connections) in
      (found place, removed controller place)

  -- `MIPTPAppController_handle_outgoing`: the code, and what was handed to the link daemon's socket
  unfoldable pub handle_outgoing :
      LinkedList MiptpPackage → (ℕ → Code) → AppController L → Option (Code × List (List ℕ))
  handle_outgoing Q send_rc controller = outgoing_loop Q send_rc 0 (L.items controller.connections)

-- The loop of `MIPTPAppController_handle_completes`. What `send` returns is not looked at. After
-- `List_remove` has released the node, the loop reads its `next`: a fault.
unfoldable pub completes_loop : Code → List AppConnection → Option Code
completes_loop rc [] = some (code 1)
completes_loop rc (connection ∷ rest) =
    let onward = completes_loop rc rest in
    elim connection.status [
      | conn_complete ↦ (do sent ← send_client_package rc (connection_result 1 2 connection); none)
      | _ ↦ onward
    ]

-- `MIPTPAppController_handle_completes`: where it does not fault the controller is as it was.
unfoldable pub handle_completes :
    (L : LinkedList AppConnection) → Code → AppController L → Option Code
unfolding completes_loop
handle_completes L rc controller = completes_loop rc (L.items controller.connections)
