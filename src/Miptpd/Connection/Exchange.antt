-- ===== src/Miptpd/Connection/Exchange.antt =====
-- A sender's connection of miptpd/src/lib/app_connection.c against a peer that acknowledges: in each
-- round the packages of AppConnection_next_packages go out, and the newest of them is acknowledged to
-- AppConnection_receive_package.
use in4230_mip.Prelude.{ℕ, zero, suc, ◌+◌, ◌≡◌, refl, ap, ◌∙◌, Option, none, some, [], ◌>>=◌}
use in4230_mip.Commons.LinkedList.{LinkedList}
use in4230_mip.Miptpd.Package.{MiptpPackage}
use in4230_mip.Miptpd.SendJob.{SendJob, next_packages, send_job_receive_package, is_complete}
use in4230_mip.Miptpd.SendJob.Slice.{IsJob}
use in4230_mip.Miptpd.SendJob.Newest.{newest}
use in4230_mip.Miptpd.Connection.{
  AppConnection, conn_sender, conn_complete, NextQueue, null_queue, queue, not_a_queue, sender_next,
  next_by_status, connection_next_packages, completed, sender_receive, receive_by_status,
  connection_receive_package,
}

-- a package with no data that acknowledges another
abbrev pub acknowledge : MiptpPackage → MiptpPackage
acknowledge p = record {
  miptp_header = record { pl = 0; port = p.miptp_header.port; psn = p.miptp_header.psn };
  content = [];
  data_size = 0;
}

module _ (Q : LinkedList MiptpPackage) (peer : ℕ) where
  unfoldable pub answered : AppConnection → Option MiptpPackage → Option AppConnection
  answered connection none = some connection
  answered connection (some p) = do
    done ← connection_receive_package connection peer (acknowledge p)
    some done.1

  unfoldable pub answered_queue : AppConnection → NextQueue Q.Handle → Option AppConnection
  unfolding answered
  answered_queue connection null_queue = some connection
  answered_queue connection (queue handle) = answered connection (newest (Q.items handle))
  answered_queue connection (not_a_queue p) = none

  unfoldable pub exchange : AppConnection → Option AppConnection
  unfolding answered_queue
  exchange connection = do
    next ← connection_next_packages Q connection
    answered_queue next.1 next.0

  unfoldable pub exchanges : ℕ → AppConnection → Option AppConnection
  exchanges zero connection = some connection
  exchanges (suc rounds) connection = exchange connection >>= λ next. exchanges rounds next

  exchange_complete :
      (connection : AppConnection)
      → connection.status ≡ conn_complete
      → exchange connection ≡ some connection
  unfolding exchange connection_next_packages next_by_status answered newest
  exchange_complete connection h =
      ap (λ s. next_by_status Q s connection >>= λ next. answered_queue next.1 next.0) h
      ∙ rw (Q.items-create, newest, answered) refl

  pub complete_stays :
      (rounds : ℕ) (connection : AppConnection)
      → connection.status ≡ conn_complete
      → exchanges rounds connection ≡ some connection
  unfolding exchanges
  complete_stays zero connection h = refl
  complete_stays (suc rounds) connection h =
      ap (λ o. o >>= λ next. exchanges rounds next) (exchange_complete connection h)
      ∙ complete_stays rounds connection h

  -- a sender with its data, the base of whose window has come this far
  pub record Sends (reached total : ℕ) (connection : AppConnection) : Type 0 where
    pub job : SendJob
    pub status : connection.status ≡ conn_sender
    pub s_job : connection.s_job ≡ some job
    pub is_job : IsJob job
    pub bytes : job.data_size ≡ total
    pub base : job.sliding_window.sequence_base ≡ reached
    pub width : job.sliding_window.sequence_max ≡ reached + 11

  answered_sender :
      (connection : AppConnection) (job : SendJob) (p : MiptpPackage)
      → connection.status ≡ conn_sender
      → connection.s_job ≡ some job
      → answered connection (some p) ≡ (
          let next = send_job_receive_package job (acknowledge p) in
          some (completed (is_complete next) (record connection { s_job = some next })))
  unfolding answered connection_receive_package receive_by_status sender_receive
  answered_sender connection job p is_sender has_job = rw (is_sender, has_job) refl

  sent_queue : Option (NextQueue Q.Handle × AppConnection) → Option AppConnection
  sent_queue o = o >>= λ next. answered_queue next.1 next.0

  pub exchange-queue :
      (connection : AppConnection) (job : SendJob) (p : MiptpPackage)
      → connection.status ≡ conn_sender
      → connection.s_job ≡ some job
      → newest (Q.items (next_packages Q job)) ≡ some p
      → exchange connection ≡ (
          let next = send_job_receive_package job (acknowledge p) in
          some (completed (is_complete next) (record connection { s_job = some next })))
  unfolding exchange connection_next_packages next_by_status sender_next answered_queue sent_queue
  exchange-queue connection job p is_sender has_job last_in =
      ap (λ s. sent_queue (next_by_status Q s connection)) is_sender
      ∙ (ap (λ o. sent_queue (o >>= λ j. some (queue (next_packages Q j), connection))) has_job
          ∙ (ap (answered connection) last_in ∙ answered_sender connection job p is_sender has_job))
