-- ===== src/Miptpd/Sending.antt =====
-- What the transport daemon sends, miptpd/src/lib/miptp_app_controller.c: the packages of its
-- connections to the link daemon, results to the applications. A function gives `none` for a fault of
-- memory, else a code and what it handed to the sockets. The blocks on the stack start as zeros here:
-- only bytes that have been written are read from them.
use in4230_mip.Prelude.{
  ℕ, ◌+◌, ◌-◌, Option, none, some, List, [], ◌∷◌, ◌++◌, length, replicate, u16_mod, read_at, ◌>>=◌,
  Code, minus_one, code,
}
use in4230_mip.Commons.LinkedList.{LinkedList}
use in4230_mip.Commons.ClientPackage
use in4230_mip.Commons.ClientPackage.{ClientPackage}
use in4230_mip.Commons.MipdMessage
use in4230_mip.Commons.MipdMessage.{MipdMessage, max_mipmessage_size}
use in4230_mip.Miptpd.Package
use in4230_mip.Miptpd.Package.{MiptpPackage, max_miptp_package_size}
use in4230_mip.Miptpd.Connection.{
  AppConnection, NextQueue, null_queue, queue, not_a_queue, connection_next_packages,
}

-- `MIPTPAppController_send_MIPDMessage`, by what `send` returns: the code, and the bytes handed to
-- the socket. The size is a uint16_t, which is never -1.
unfoldable pub send_mipd_message : Code → MipdMessage → Option (Code × List (List ℕ))
send_mipd_message rc message = do
  written ← MipdMessage.serialize (replicate max_mipmessage_size 0) message
  bytes ← read_at written.1 0 (elim written.0 [ minus_one ↦ u16_mod - 1 | code n ↦ n ])
  some (elim rc [ minus_one ↦ minus_one | code _ ↦ code 1 ], bytes ∷ [])

-- `MIPTPAppController_send_ClientPackage`, with the block of `sizeof(ClientPackage)` and the data.
unfoldable pub send_client_package : Code → Option ClientPackage → Option (Code × List (List ℕ))
send_client_package rc none = some (minus_one, [])
send_client_package rc (some p) = do
  written ← ClientPackage.serialize (replicate (24 + p.data_size) 0) p
  bytes ← read_at written.1 0 written.0
  some (elim rc [ minus_one ↦ minus_one | code _ ↦ code 1 ], bytes ∷ [])

-- The body of the inner loop of `MIPTPAppController_handle_outgoing`. The number that
-- `MIPTPPackage_serialize` returns is a uint16_t, which is never -1.
unfoldable pub send_package : Code → ℕ → MiptpPackage → Option (Code × List (List ℕ))
send_package rc connected_mip p = do
  written ← Package.serialize (replicate max_miptp_package_size 0) p
  made ← MipdMessage.create connected_mip written.0 written.1
  elim made [ none ↦ some (minus_one, []) | some message ↦ send_mipd_message rc message ]

-- The package after those that have gone out.
unfoldable pub send_next :
    (ℕ → Code) → ℕ → ℕ → MiptpPackage → Code × List (List ℕ) → Option (Code × List (List ℕ))
send_next send_rc i connected_mip p (minus_one, sent) = some (minus_one, sent)
send_next send_rc i connected_mip p (code _, sent) = do
  one ← send_package (send_rc (i + length sent)) connected_mip p
  some (one.0, sent ++ one.1)

-- The QUEUE_FOREACH, which starts at `last`. `send_rc` is what the sends return, from the i-th on.
unfoldable pub send_packages :
    (ℕ → Code) → ℕ → ℕ → List MiptpPackage → Option (Code × List (List ℕ))
send_packages send_rc i connected_mip [] = some (code 1, [])
send_packages send_rc i connected_mip (p ∷ ps) =
    send_packages send_rc i connected_mip ps >>= send_next send_rc i connected_mip p

module _ (Q : LinkedList MiptpPackage) where
  -- The queue of a connection. A package in its place is followed as a queue.
  unfoldable pub send_queue :
      (ℕ → Code) → ℕ → ℕ → NextQueue Q.Handle → Option (Code × List (List ℕ))
  send_queue send_rc i connected_mip null_queue = some (minus_one, [])
  send_queue send_rc i connected_mip (queue handle) =
      send_packages send_rc i connected_mip (Q.items handle)
  send_queue send_rc i connected_mip (not_a_queue p) = none

  -- The body of the outer loop for a connection. It stays as it is: only a job that returns a package
  -- in place of a queue changes, and that faults.
  unfoldable pub send_connection : (ℕ → Code) → ℕ → AppConnection → Option (Code × List (List ℕ))
  unfolding send_queue
  send_connection send_rc i connection = do
    next ← connection_next_packages Q connection
    send_queue send_rc i connection.connected_mip next.0

  -- The outer loop.
  unfoldable pub outgoing_loop : (ℕ → Code) → ℕ → List AppConnection → Option (Code × List (List ℕ))
  outgoing_loop send_rc i [] = some (code 1, [])
  outgoing_loop send_rc i (connection ∷ rest) = do
    done ← send_connection send_rc i connection
    elim done.0 [
      | minus_one ↦ some (minus_one, done.1)
      | code _ ↦ (do
        onward ← outgoing_loop send_rc (i + length done.1) rest
        some (onward.0, done.1 ++ onward.1))
    ]
