-- ===== src/Miptpd/Controller/Delivery.antt =====
-- MIPTPAppController_handle_mipd_package of miptpd/src/lib/miptp_app_controller.c: which connections
-- take a package of the link daemon, and how.
use in4230_mip.Prelude.{
  ℕ, ◌≡◌, refl, sym, ap, ◌∙◌, Bool, true, false, Option, none, some, List, [], ◌∷◌, if◌then◌else◌,
  ◌==◌, map, code, All, Bool-cases, inl, inr,
}
use in4230_mip.Commons.LinkedList.{LinkedList}
use in4230_mip.Commons.MipdMessage.{MipdMessage}
use in4230_mip.Miptpd.Package
use in4230_mip.Miptpd.Package.{MiptpPackage}
use in4230_mip.Miptpd.SendJob.{SendJob, send_job_receive_package, is_complete}
use in4230_mip.Miptpd.Connection.{
  AppConnection, ConnectionStatus, conn_sender, conn_receiver, conn_not_ready, conn_complete,
  conn_finished, completed, sender_receive, receive_by_status, connection_receive_package,
}
use in4230_mip.Miptpd.Controller.{
  AppController, mipd_package_loop, with_values, handle_mipd_package,
}
use in4230_mip.Miptpd.Controller.Registry.{sockets, IsSound, SoundAs}

-- the connection of a sender with the package taken as an acknowledgement, any other as it is
unfoldable pub acknowledged_by :
    ConnectionStatus → Option SendJob → MiptpPackage → AppConnection → AppConnection
acknowledged_by conn_sender (some job) p connection =
    let next = send_job_receive_package job p in
    completed (is_complete next) (record connection { s_job = some next })
acknowledged_by _ _ p connection = connection

-- what becomes of a connection as a package comes: only the senders of its port take it
unfoldable pub deliver : MiptpPackage → AppConnection → AppConnection
deliver p connection =
    if connection.port == p.miptp_header.port
    then acknowledged_by connection.status connection.s_job p connection
    else connection

receive_as :
    (status : ConnectionStatus) (connection : AppConnection) (sender : ℕ) (p : MiptpPackage)
    → SoundAs status connection
    → receive_by_status status connection sender p
      ≡ some (code 1, acknowledged_by status connection.s_job p connection)
unfolding receive_by_status sender_receive acknowledged_by SoundAs
receive_as conn_sender connection sender p (job, h) =
    ap (λ o. sender_receive connection p o) h
    ∙ ap (λ o. some (code 1, acknowledged_by conn_sender o p connection)) (sym h)
receive_as conn_receiver connection sender p h = absurd h
receive_as conn_not_ready connection sender p h = refl
receive_as conn_complete connection sender p h = refl
receive_as conn_finished connection sender p h = refl

completed-IsSound :
    (b : Bool) (connection : AppConnection) (job : SendJob)
    → connection.status ≡ conn_sender
    → connection.s_job ≡ some job
    → IsSound (completed b connection)
unfolding completed IsSound SoundAs
completed-IsSound true connection job s j = tt
completed-IsSound false connection job s j = rw s (job, j)

completed_socket :
    (b : Bool) (connection : AppConnection) → (completed b connection).socket ≡ connection.socket
unfolding completed
completed_socket true connection = refl
completed_socket false connection = refl

acknowledged_by-IsSound :
    (status : ConnectionStatus) (o : Option SendJob) (p : MiptpPackage) (connection : AppConnection)
    → connection.status ≡ status
    → IsSound connection
    → IsSound (acknowledged_by status o p connection)
unfolding acknowledged_by
acknowledged_by-IsSound conn_sender none p connection e h = h
acknowledged_by-IsSound conn_sender (some job) p connection e h = completed-IsSound _ _ _ e refl
acknowledged_by-IsSound conn_receiver o p connection e h = h
acknowledged_by-IsSound conn_not_ready o p connection e h = h
acknowledged_by-IsSound conn_complete o p connection e h = h
acknowledged_by-IsSound conn_finished o p connection e h = h

acknowledged_socket :
    (status : ConnectionStatus) (o : Option SendJob) (p : MiptpPackage) (connection : AppConnection)
    → (acknowledged_by status o p connection).socket ≡ connection.socket
unfolding acknowledged_by
acknowledged_socket conn_sender none p connection = refl
acknowledged_socket conn_sender (some job) p connection = completed_socket _ _
acknowledged_socket conn_receiver o p connection = refl
acknowledged_socket conn_not_ready o p connection = refl
acknowledged_socket conn_complete o p connection = refl
acknowledged_socket conn_finished o p connection = refl

module _ (p : MiptpPackage) where
  pub All-deliver :
      (connections : List AppConnection)
      → All IsSound connections
      → All IsSound (map (deliver p) connections)
  unfolding deliver
  All-deliver [] h = tt
  All-deliver (c ∷ rest) h = elim (Bool-cases (c.port == p.miptp_header.port)) [
    | inl e ↦ rw e (acknowledged_by-IsSound c.status c.s_job p c refl h.0, All-deliver rest h.1)
    | inr e ↦ rw e (h.0, All-deliver rest h.1)
  ]

  pub sockets-deliver :
      (connections : List AppConnection)
      → sockets (map (deliver p) connections) ≡ sockets connections
  unfolding deliver
  sockets-deliver [] = refl
  sockets-deliver (c ∷ rest) = elim (Bool-cases (c.port == p.miptp_header.port)) [
    | inl e ↦ rw (e, acknowledged_socket, sockets-deliver rest) refl
    | inr e ↦ rw (e, sockets-deliver rest) refl
  ]

  mipd_package_loop_lem :
      (sender : ℕ) (connections : List AppConnection)
      → All IsSound connections
      → mipd_package_loop sender p connections ≡ some (code 1, map (deliver p) connections)
  unfolding mipd_package_loop deliver connection_receive_package IsSound
  mipd_package_loop_lem sender [] h = refl
  mipd_package_loop_lem sender (c ∷ rest) h =
      let onward = mipd_package_loop_lem sender rest h.1 in
      elim (Bool-cases (c.port == p.miptp_header.port)) [
        | inl e ↦ rw (e, receive_as c.status c sender p h.0, onward) refl
        | inr e ↦ rw (e, onward) refl
      ]

module _ (L : LinkedList AppConnection) where
  items-with_values :
      (connections : List AppConnection) → L.items (with_values L connections) ≡ connections
  unfolding with_values
  items-with_values [] = L.items-create
  items-with_values (c ∷ rest) = L.items-unshift _ c ∙ ap (λ cs. c ∷ cs) (items-with_values rest)

  -- A package of the link daemon that can be deserialized is taken, where every sender has a job and
  -- no connection is a receiver's, by all connections of its port that are senders, and by no other:
  -- the code is 1, the others stay as they are, and so does the order.
  pub handle_mipd_package_lem :
      (controller : AppController L) (message : MipdMessage) (p : MiptpPackage)
      → Package.deserialize message.content message.data_size ≡ some p
      → All IsSound (L.items controller.connections)
      → (next : AppController L) × handle_mipd_package L controller message ≡ some (code 1, next)
        × L.items next.connections ≡ map (deliver p) (L.items controller.connections)
  unfolding handle_mipd_package
  handle_mipd_package_lem controller message p readable sound =
      let connections = map (deliver p) (L.items controller.connections) in
      (
        record controller { connections = with_values L connections },
        rw (readable, mipd_package_loop_lem p message.mip_address _ sound) refl,
        items-with_values connections,
      )
