-- ===== src/Miptpd/Connection.antt =====
-- A connection to an application, miptpd/src/lib/app_connection.c: the job of a sender or of a
-- receiver, with a status. `none` is NULL.
pub mod Progress
pub mod Exchange
pub mod Completes
use in4230_mip.Prelude.{
  ℕ, ◌%◌, Bool, true, false, Option, none, some, List, [], ◌∷◌, if◌then◌else◌, ◌==◌, ◌>>=◌, Code,
  minus_one, code,
}
use in4230_mip.Commons.LinkedList.{LinkedList}
use in4230_mip.Commons.ClientPackage.{ClientPackage}
use in4230_mip.Miptpd.Package.{MiptpPackage}
use in4230_mip.Miptpd.SendJob.{
  SendJob, send_job_create, next_packages, send_job_receive_package, is_complete, send_job_result,
}
use in4230_mip.Miptpd.ReceiveJob.{
  ReceiveJob, NextPackages, no_packages, null, one_package, next_acks, receive_job_create,
  receive_job_receive_package, receive_job_is_complete, receive_job_result,
}

pub data ConnectionStatus : Type 0 where
  conn_sender conn_receiver conn_not_ready conn_complete conn_finished : ConnectionStatus

pub record AppConnection : Type 0 where
  pub socket : ℕ
  pub port : ℕ
  pub connected_mip : ℕ
  pub status : ConnectionStatus
  pub r_job : Option ReceiveJob
  pub s_job : Option SendJob

-- `AppConnection_create`, of a status of the enum. For a receiver it tests `s_job`, which is NULL.
unfoldable pub connection_create :
    ConnectionStatus → ℕ → ℕ → ℕ → List ℕ → ℕ → ℕ → ℕ → Option AppConnection
connection_create status socket port destination bytes data_size timeout now =
    let connection : AppConnection = record {
      socket = socket;
      port = port % 16_384;
      connected_mip = destination;
      status = status;
      r_job = none;
      s_job = none;
    } in
    elim status [
      | conn_sender ↦ (do
        job ← send_job_create (port % 16_384) destination bytes data_size timeout now
        some (record connection { s_job = some job }))
      | conn_receiver ↦ none
      | conn_not_ready ↦ some connection
      | conn_complete ↦ some connection
      | conn_finished ↦ some connection
    ]

-- `AppConnection_create_not_ready`: port -1 is 65535, of which the field keeps fourteen bits.
unfoldable pub connection_create_not_ready : ℕ → ℕ → Option AppConnection
unfolding connection_create
connection_create_not_ready socket now = connection_create conn_not_ready socket 65_535 0 [] 0 0 now

-- `connection_type`, of any number that the wire holds
unfoldable pub connection_type : ℕ → ConnectionStatus
connection_type client_type =
    if client_type == 1
    then conn_sender
    else if client_type == 2
    then conn_receiver
    else conn_not_ready

-- What `AppConnection_next_packages` returns as a queue: NULL, a queue, or the package that a receive
-- job returns in place of one.
pub data NextQueue (H : Type 0) : Type 0 where
  null_queue : NextQueue H
  queue : H → NextQueue H
  not_a_queue : MiptpPackage → NextQueue H

module _ (Q : LinkedList MiptpPackage) where
  unfoldable pub acks_queue : NextPackages → NextQueue Q.Handle
  acks_queue no_packages = queue Q.create
  acks_queue null = null_queue
  acks_queue (one_package p) = not_a_queue p

  unfoldable pub sender_next : AppConnection → Option (NextQueue Q.Handle × AppConnection)
  sender_next connection = do job ← connection.s_job; some (queue (next_packages Q job), connection)

  unfoldable pub receiver_next : AppConnection → Option (NextQueue Q.Handle × AppConnection)
  unfolding acks_queue
  receiver_next connection = do
    job ← connection.r_job
    some (acks_queue (next_acks job).0, record connection { r_job = some (next_acks job).1 })

  -- The `switch` of `AppConnection_next_packages`.
  unfoldable pub next_by_status :
      ConnectionStatus → AppConnection → Option (NextQueue Q.Handle × AppConnection)
  unfolding sender_next receiver_next
  next_by_status conn_sender connection = sender_next connection
  next_by_status conn_receiver connection = receiver_next connection
  next_by_status conn_not_ready connection = some (queue Q.create, connection)
  next_by_status conn_complete connection = some (queue Q.create, connection)
  next_by_status conn_finished connection = some (queue Q.create, connection)

  -- `AppConnection_next_packages`, of a pointer that is not NULL
  unfoldable pub connection_next_packages :
      AppConnection → Option (NextQueue Q.Handle × AppConnection)
  unfolding next_by_status
  connection_next_packages connection = next_by_status connection.status connection

-- The end of the branches of `AppConnection_receive_package`.
unfoldable pub completed : Bool → AppConnection → AppConnection
completed true connection = record connection { status = conn_complete }
completed false connection = connection

-- The branch of `AppConnection_receive_package` for a sender: the job's receive always returns 1.
unfoldable pub sender_receive :
    AppConnection → MiptpPackage → Option SendJob → Option (Code × AppConnection)
unfolding completed
sender_receive connection p none = none
sender_receive connection p (some job) =
    let next = send_job_receive_package job p in
    some (code 1, completed (is_complete next) (record connection { s_job = some next }))

unfoldable pub receiver_receive :
    AppConnection → ℕ → MiptpPackage → Option ReceiveJob → Option (Code × AppConnection)
receiver_receive connection sender p none = none
receiver_receive connection sender p (some job) = do
  done ← receive_job_receive_package job sender p
  let next = record connection { r_job = some done.1 }
  elim done.0 [
    | minus_one ↦ some (minus_one, next)
    | code _ ↦ some (code 1, completed (receive_job_is_complete done.1) next)
  ]

-- The `switch` of `AppConnection_receive_package`.
unfoldable pub receive_by_status :
    ConnectionStatus → AppConnection → ℕ → MiptpPackage → Option (Code × AppConnection)
unfolding sender_receive receiver_receive
receive_by_status conn_sender connection sender p = sender_receive connection p connection.s_job
receive_by_status conn_receiver connection sender p =
    receiver_receive connection sender p connection.r_job
receive_by_status conn_not_ready connection sender p = some (code 1, connection)
receive_by_status conn_complete connection sender p = some (code 1, connection)
receive_by_status conn_finished connection sender p = some (code 1, connection)

-- `AppConnection_receive_package`, of pointers that are not NULL
unfoldable pub connection_receive_package :
    AppConnection → ℕ → MiptpPackage → Option (Code × AppConnection)
unfolding receive_by_status
connection_receive_package connection sender p =
    receive_by_status connection.status connection sender p

-- `AppConnection_result`, with the numbers of the client types. A connection that is complete has
-- another status than the two that are tested for, and gives NULL.
unfoldable pub connection_result :
    (miptp_sender miptp_receiver : ℕ) → AppConnection → Option ClientPackage
connection_result miptp_sender miptp_receiver connection = elim connection.status [
  | conn_sender ↦ (do job ← connection.s_job; send_job_result miptp_receiver job)
  | conn_receiver ↦ (do job ← connection.r_job; receive_job_result miptp_sender job)
  | conn_not_ready ↦ none
  | conn_complete ↦ none
  | conn_finished ↦ none
]
