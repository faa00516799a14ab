-- ===== src/Miptpd/Controller/Sent.antt =====
-- MIPTPAppController_handle_outgoing of miptpd/src/lib/miptp_app_controller.c: what goes out for jobs of
-- one package.
use in4230_mip.Prelude.{
  ℕ, zero, suc, ◌+◌, ◌-◌, ◌%◌, ◌≤◌, ◌<◌, ◌≡◌, refl, ap, ◌∙◌, false, true, none, some, List, [], ◌∷◌,
  ◌++◌, ◌>>=◌, ltb, leb, length, read_at_all, Code, code, All, arith,
}
use in4230_mip.Commons.LinkedList.{LinkedList}
use in4230_mip.Miptpd.Package
use in4230_mip.Miptpd.Package.{MiptpPackage, IsPackage, header_bytes, max_miptp_package_size}
use in4230_mip.Miptpd.SendJob.{SendJob, next_package, packages_loop, next_packages}
use in4230_mip.Miptpd.SendJob.Slice.{IsJob}
use in4230_mip.Miptpd.Connection.{
  AppConnection, ConnectionStatus, conn_sender, conn_receiver, conn_not_ready, conn_complete,
  conn_finished, sender_next, next_by_status, connection_next_packages,
}
use in4230_mip.Miptpd.Sending.{send_next, send_packages, send_queue, send_connection, outgoing_loop}
use in4230_mip.Miptpd.Controller.{AppController, handle_outgoing}
use in4230_mip.Miptpd.Controller.Carried.{carried_in, send_package_lem}

-- the one package of a job of no more than 1490 bytes
abbrev pub only_package : SendJob → MiptpPackage
only_package job = record {
  miptp_header = record {
    pl = Package.calc_pl job.data_size % 4;
    port = job.port % 16_384;
    psn = 0;
  };
  content = job.content;
  data_size = job.data_size;
}

-- a job of no more than 1490 bytes of which nothing is acknowledged
pub record IsBrief (job : SendJob) : Type 0 where
  pub is_job : IsJob job
  pub small : job.data_size ≤ 1490
  pub base : job.sliding_window.sequence_base ≡ 0
  pub room : 0 < job.sliding_window.sequence_max

module _ (job : SendJob) (v : IsBrief job) where
  IsPackage-only_package : IsPackage (only_package job)
  IsPackage-only_package = record {
    pl = omega arith;
    port = omega arith;
    psn = omega arith;
    size = omega (arith, v.small);
    content = v.is_job.size;
  }

  only_package_first : next_package job 0 ≡ some (only_package job)
  unfolding next_package Package.create Package.create_raw
  only_package_first =
      let inside : ltb job.data_size 0 ≡ false = ground arith in
      let short : ltb job.data_size 1492 ≡ true = ground (arith, v.small) in
      let size : job.data_size - 0 ≡ job.data_size = omega arith in
      let fits : leb job.data_size 1492 ≡ true = ground (arith, v.small) in
      let whole = read_at_all job.content job.data_size v.is_job.size in
      rw (inside, short, size, whole, fits, whole) refl

  nothing_second : next_package job 1 ≡ none
  unfolding next_package
  nothing_second =
      let past : ltb job.data_size 1492 ≡ true = ground (arith, v.small) in rw past refl

  module _ (Q : LinkedList MiptpPackage) where
    rest_stays : (rounds : ℕ) (q : Q.Handle) → packages_loop Q rounds 1 job q ≡ q
    unfolding packages_loop
    rest_stays zero q = refl
    rest_stays (suc rounds) q = rw (nothing_second, packages_loop) refl

    loop_once :
        (rounds k : ℕ)
        → rounds ≡ suc k
        → Q.items (packages_loop Q rounds 0 job Q.create) ≡ only_package job ∷ []
    unfolding packages_loop
    loop_once rounds k e =
        let first = only_package job in
        rw (e, packages_loop, only_package_first)
          (ap Q.items (rest_stays k (Q.unshift Q.create first))
            ∙ rw (Q.items-unshift, Q.items-create) refl)

    items-next_packages : Q.items (next_packages Q job) ≡ only_package job ∷ []
    unfolding next_packages
    items-next_packages =
        let max = job.sliding_window.sequence_max in
        ap (λ b. Q.items (packages_loop Q (max - b) b job Q.create)) v.base
        ∙ loop_once (max - 0) (max - 1) (omega (arith, v.room))

-- what a connection sends: a sender its package, the others nothing
unfoldable pub messages : ConnectionStatus → AppConnection → List (List ℕ)
messages conn_sender connection = elim connection.s_job [
  | none ↦ []
  | some job ↦ carried_in connection.connected_mip (only_package job) ∷ []
]
messages _ connection = []

unfoldable pub all_messages : List AppConnection → List (List ℕ)
unfolding messages
all_messages [] = []
all_messages (c ∷ rest) = messages c.status c ++ all_messages rest

-- a sender whose job is brief and whose peer's address is a byte, or a connection without a job
unfoldable pub BriefAs : ConnectionStatus → AppConnection → Type 0
BriefAs conn_sender connection =
    (job : SendJob) × (connection.s_job ≡ some job) × IsBrief job × (connection.connected_mip < 256)
BriefAs conn_receiver connection = ⊥
BriefAs conn_not_ready connection = Unit
BriefAs conn_complete connection = Unit
BriefAs conn_finished connection = Unit

unfoldable pub BriefSender : AppConnection → Type 0
unfolding BriefAs
BriefSender connection = BriefAs connection.status connection

module _ (Q : LinkedList MiptpPackage) (sent_rc : ℕ → ℕ) where
  abbrev accepts : ℕ → Code
  accepts i = code (sent_rc i)

  -- the messages of a connection by its status
  queue_sent :
      (status : ConnectionStatus) (i : ℕ) (connection : AppConnection)
      → BriefAs status connection
      → (next_by_status Q status connection >>= λ next.
          send_queue Q accepts i connection.connected_mip next.0)
        ≡ some (code 1, messages status connection)
  unfolding next_by_status sender_next send_queue send_packages send_next messages BriefAs
  queue_sent conn_sender i connection (job, has_job, brief, byte) =
      rw
        (
          has_job,
          items-next_packages job brief Q,
          send_package_lem (only_package job) (IsPackage-only_package job brief)
              connection.connected_mip brief.small byte,
        )
        refl
  queue_sent conn_receiver i connection h = absurd h
  queue_sent conn_not_ready i connection h = rw (Q.items-create, send_packages) refl
  queue_sent conn_complete i connection h = rw (Q.items-create, send_packages) refl
  queue_sent conn_finished i connection h = rw (Q.items-create, send_packages) refl

  outgoing_loop_lem :
      (i : ℕ) (connections : List AppConnection)
      → All BriefSender connections
      → outgoing_loop Q accepts i connections ≡ some (code 1, all_messages connections)
  unfolding outgoing_loop all_messages send_connection connection_next_packages BriefSender
  outgoing_loop_lem i [] h = refl
  outgoing_loop_lem i (c ∷ rest) h =
      rw
        (queue_sent c.status i c h.0, outgoing_loop_lem (i + length (messages c.status c)) rest h.1)
        refl

-- Where every sender has a job of no more than 1490 bytes of which nothing is acknowledged, no
-- connection is a receiver's, and the link daemon's socket takes what is sent, each sender's package
-- goes out once, in the order of the connections, in a message to its peer of four bytes more than its
-- data: the header, two bytes of size that are not counted, and the data less its last two bytes.
pub handle_outgoing_lem :
    (L : LinkedList AppConnection) (Q : LinkedList MiptpPackage) (sent_rc : ℕ → ℕ)
    (controller : AppController L)
    → All BriefSender (L.items controller.connections)
    → handle_outgoing L Q (λ i. code (sent_rc i)) controller
      ≡ some (code 1, all_messages (L.items controller.connections))
unfolding handle_outgoing
handle_outgoing_lem L Q sent_rc controller brief =
    outgoing_loop_lem Q sent_rc 0 (L.items controller.connections) brief
