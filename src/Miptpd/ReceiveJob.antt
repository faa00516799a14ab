-- ===== src/Miptpd/ReceiveJob.antt =====
-- A job of the receiver, miptpd/src/lib/miptp_receive_job.c. The status is the enum's number, and 0 as
-- `calloc` leaves it. `none` is an access past a block, or NULL.
use in4230_mip.Prelude.{
  ℕ, ◌≡◌, refl, Bool, true, Option, none, some, List, [], ◌∷◌, if◌then◌else◌, ltb, ◌==◌, ◌%◌, ◌^◌,
  length, replicate, sub64, arith, read_at, read_at_within, write_at, value_le, ◌>>=◌, Code,
  minus_one, code,
}
use in4230_mip.Commons.ClientPackage
use in4230_mip.Commons.ClientPackage.{ClientPackage, max_data_size_bytes}
use in4230_mip.Miptpd.Package.{MiptpPackage}

pub record ReceiveJob : Type 0 where
  pub port : ℕ
  pub sender : ℕ
  pub status : ℕ
  pub timeout : ℕ
  pub last_package_time : ℕ
  pub content : List ℕ
  pub data_received : ℕ
  pub data_size : ℕ
  pub request_nr : ℕ

-- `RJOB_WAITING_FOR_CONNECTION`, `RJOB_WAITING_FOR_PACKAGE` and `RJOB_ACK_READY`
abbrev pub waiting_for_connection : ℕ
waiting_for_connection = 1

abbrev pub waiting_for_package : ℕ
waiting_for_package = 2

abbrev pub ack_ready : ℕ
ack_ready = 3

-- `MIPTPReceiveJob_create`: the port has 14 bits, and the status is not set.
unfoldable pub receive_job_create : ℕ → ℕ → ReceiveJob
receive_job_create port timeout = record {
  port = port % 2 ^ 14;
  sender = 0;
  status = 0;
  timeout = timeout;
  last_package_time = 0;
  content = replicate max_data_size_bytes 0;
  data_received = 0;
  data_size = 0;
  request_nr = 0;
}

-- What `MIPTPReceiveJob_next_packages` returns as a queue: an empty queue, a package, or NULL.
pub data NextPackages : Type 0 where
  no_packages null : NextPackages
  one_package : MiptpPackage → NextPackages

-- `MIPTPReceiveJob_next_package` hands NULL for data to `MIPTPPackage_create`, which refuses that.
unfoldable pub next_ack : ReceiveJob → ℕ → Option MiptpPackage
next_ack job sequence_nr = none

-- `MIPTPReceiveJob_next_packages`
unfoldable pub next_acks : ReceiveJob → NextPackages × ReceiveJob
next_acks job =
    if job.status == ack_ready
    then elim (next_ack job job.request_nr) [
      | none ↦ (null, job)
      | some p ↦ (one_package p, record job { status = waiting_for_package })
    ]
    else (no_packages, job)

-- `MIPTPReceiveJob_get_data_size_from_package`
unfoldable pub data_size_from_package : MiptpPackage → Option ℕ
data_size_from_package p = do bytes ← read_at p.content 0 2; some (value_le bytes)

-- `MIPTPReceiveJob_append_data`: it copies, and has no `return` before the error's. `data_received`
-- stays as it was.
unfoldable pub append_data : ReceiveJob → List ℕ → ℕ → Option (Code × ReceiveJob)
append_data job bytes data_size = do
  batch ← read_at bytes 0 data_size
  content ← write_at job.content job.data_received batch
  some (minus_one, record job { content = content })

-- `MIPTPReceiveJob_is_complete`
unfoldable pub receive_job_is_complete : ReceiveJob → Bool
receive_job_is_complete job = job.data_received == job.data_size

-- `MIPTPReceiveJob_timedout`
unfoldable pub receive_job_timedout : ReceiveJob → ℕ → Bool
receive_job_timedout job now = ltb job.timeout (sub64 now job.last_package_time)

-- `MIPTPReceiveJob_receive_package`, of pointers that are not NULL
unfoldable pub receive_job_receive_package :
    ReceiveJob → ℕ → MiptpPackage → Option (Code × ReceiveJob)
receive_job_receive_package job sender p =
    if job.status == waiting_for_connection
    then (do
      data_size ← data_size_from_package p
      some (
        code 1,
        record job { sender = sender; data_size = data_size; status = waiting_for_package },
      ))
    else if receive_job_is_complete job
    then some (code 1, job)
    else (do
      appended ← append_data job p.content p.data_size
      elim appended.0 [
        | minus_one ↦ some (minus_one, appended.1)
        | code _ ↦ some (code 1, appended.1)
      ])

-- `MIPTPReceiveJob_result`, with the number of `MIPTP_SENDER`
unfoldable pub receive_job_result : ℕ → ReceiveJob → Option ClientPackage
receive_job_result miptp_sender job =
    if receive_job_is_complete job
    then ClientPackage.create 0 0 miptp_sender job.content job.data_received
    else none

-- the codes that a job returns for packages from senders, in order, and the job afterwards
unfoldable pub receive_all : ReceiveJob → List (ℕ × MiptpPackage) → Option (List Code × ReceiveJob)
receive_all job [] = some ([], job)
receive_all job (sent ∷ rest) = do
  first ← receive_job_receive_package job sent.0 sent.1
  onward ← receive_all first.1 rest
  some (first.0 ∷ onward.0, onward.1)

receive_all-receive_job_create :
    (port timeout : ℕ) (packages : List (ℕ × MiptpPackage))
    → receive_all (receive_job_create port timeout) packages
      ≡ some (replicate (length packages) (code 1), receive_job_create port timeout)
unfolding receive_all receive_job_receive_package receive_job_create receive_job_is_complete
receive_all-receive_job_create port timeout [] = refl
receive_all-receive_job_create port timeout (sent ∷ rest) =
    rw (receive_all-receive_job_create port timeout rest) refl

-- A job as it is created takes any packages from any senders, returns 1 for each of them, and stays as
-- it was created: it learns no size, stores no data, has no acknowledgement to send, and counts as
-- complete afterwards, with a result of no bytes.
pub receive_all-unchanged :
    (port timeout miptp_sender : ℕ) (packages : List (ℕ × MiptpPackage))
    → (job : ReceiveJob) × receive_all (receive_job_create port timeout) packages
        ≡ some (replicate (length packages) (code 1), job)
      × job ≡ receive_job_create port timeout
      × receive_job_is_complete job ≡ true
      × next_acks job ≡ (no_packages, job)
      × (result : ClientPackage) × receive_job_result miptp_sender job ≡ some result
      × result.content ≡ []
unfolding receive_job_is_complete receive_job_create next_acks receive_job_result
    ClientPackage.create
receive_all-unchanged port timeout miptp_sender packages = (
  receive_job_create port timeout,
  receive_all-receive_job_create port timeout packages,
  refl,
  refl,
  refl,
  record { port = 0; destination = 0; client_type = miptp_sender; data_size = 0; content = [] },
  rw (read_at_within (replicate max_data_size_bytes 0) 0 0 (omega arith)) refl,
  refl,
)
