-- ===== src/Miptpd/SendJob.antt =====
-- A job of the sender, miptpd/src/lib/miptp_send_job.c: data that goes out in packages of 1492 bytes
-- within a window. `none` is NULL.
use in4230_mip.Prelude.{
  ℕ, zero, suc, ◌+◌, ◌-◌, ◌*◌, ◌/◌, ◌%◌, ◌≤◌, ◌<◌, ◌≡◌, refl, sym, ap, ◌∙◌, Bool, true, false,
  Option, none, some, List, [], ◌∷◌, ◌++◌, if◌then◌else◌, ltb, leb, ◌==◌, length, take, drop,
  u16_mod, u32_mod, sub64, read_at, ◌>>=◌, arith,
}
use in4230_mip.Commons.LinkedList.{LinkedList}
use in4230_mip.Commons.ClientPackage
use in4230_mip.Commons.ClientPackage.{ClientPackage}
use in4230_mip.Miptpd.Window.{SlidingWindow, window_create, window_update}
use in4230_mip.Miptpd.Package
use in4230_mip.Miptpd.Package.{MiptpPackage}
pub mod Slice
pub mod Newest

pub record SendJob : Type 0 where
  pub port : ℕ
  pub destination : ℕ
  pub timeout : ℕ
  pub last_ack : ℕ
  pub content : List ℕ
  pub data_size : ℕ
  pub sliding_window : SlidingWindow

-- `WINDOW_SIZE`
abbrev pub window_size : ℕ
window_size = 10

-- `MAX_DATA_BATCH_SIZE_BYTES`
abbrev pub max_data_batch_size_bytes : ℕ
max_data_batch_size_bytes = 1492

-- `MIPTPSendJob_create`, of a block of at least `data_size` bytes
unfoldable pub send_job_create : ℕ → ℕ → List ℕ → ℕ → ℕ → ℕ → Option SendJob
send_job_create port destination bytes data_size timeout now = do
  content ← read_at bytes 0 data_size
  some (record {
    port = port % 16_384;
    destination = destination;
    timeout = timeout;
    last_ack = now;
    content = content;
    data_size = data_size;
    sliding_window = window_create 0 window_size;
  })

-- `MIPTPSendJob_next_package`. `index` and `limit` are uint16_t, the sum compared with is an int.
unfoldable pub next_package : SendJob → ℕ → Option MiptpPackage
next_package job sequence_nr =
    let index = sequence_nr * max_data_batch_size_bytes % u16_mod in
    if ltb job.data_size index
    then none
    else (let limit =
          if ltb job.data_size (index + max_data_batch_size_bytes)
          then job.data_size
          else (index + max_data_batch_size_bytes) % u16_mod in
        (do
          batch ← read_at job.content index (limit - index)
          Package.create job.port sequence_nr batch (limit - index)))

module _ (Q : LinkedList MiptpPackage) where
  -- The `for` of `MIPTPSendJob_next_packages`, with the rounds left.
  unfoldable pub packages_loop : ℕ → ℕ → SendJob → Q.Handle → Q.Handle
  packages_loop zero i job packages = packages
  packages_loop (suc rounds) i job packages = elim (next_package job i) [
    | none ↦ packages
    | some p ↦ packages_loop rounds (suc i) job (Q.unshift packages p)
  ]

  -- `MIPTPSendJob_next_packages`
  unfoldable pub next_packages : SendJob → Q.Handle
  unfolding packages_loop
  next_packages job =
      packages_loop (job.sliding_window.sequence_max - job.sliding_window.sequence_base)
        job.sliding_window.sequence_base job Q.create

-- `MIPTPSendJob_receive_package`, of a package that acknowledges
unfoldable pub send_job_receive_package : SendJob → MiptpPackage → SendJob
send_job_receive_package job p = record job {
  sliding_window = window_update job.sliding_window p.miptp_header.psn;
}

-- `MIPTPSendJob_is_complete`: the number of packages less one is an unsigned int.
unfoldable pub is_complete : SendJob → Bool
is_complete job =
    let whole = job.data_size / max_data_batch_size_bytes in
    let num_packages =
      if job.data_size % max_data_batch_size_bytes == 0 then whole else whole + 1 in
    leb ((num_packages + u32_mod - 1) % u32_mod) job.sliding_window.sequence_base

-- `MIPTPSendJob_is_timed_out`
unfoldable pub is_timed_out : SendJob → ℕ → Bool
is_timed_out job now = ltb job.timeout (sub64 now job.last_ack)

-- `MIPTPSendJob_result`: the three bytes of "OK", to `MIPTP_RECEIVER`
unfoldable pub send_job_result : ℕ → SendJob → Option ClientPackage
send_job_result miptp_receiver job =
    if is_complete job
    then ClientPackage.create job.port job.destination miptp_receiver (79 ∷ 75 ∷ 0 ∷ []) 3
    else none
