-- ===== src/Miptpd/Connection/Completes.antt =====
-- A sender's connection of miptpd/src/lib/app_connection.c against a peer that acknowledges comes to
-- its end.
use in4230_mip.Prelude.{
  ℕ, zero, suc, ◌+◌, ◌*◌, ◌/◌, ◌%◌, ◌≤◌, ◌<◌, min, ◌≡◌, refl, ap, ◌∙◌, ◌⊎◌, Bool, true, false, none,
  some, List, length, leb, read_at_within, length-take, take, arith, inl, inr,
}
use in4230_mip.Commons.LinkedList.{LinkedList}
use in4230_mip.Miptpd.Window.{window_create, window_update}
use in4230_mip.Miptpd.Package.{MiptpPackage}
use in4230_mip.Miptpd.SendJob.{SendJob, send_job_create, send_job_receive_package, is_complete}
use in4230_mip.Miptpd.SendJob.Slice.{is_complete_lem}
use in4230_mip.Miptpd.SendJob.Newest.{next_packages-Ends}
use in4230_mip.Miptpd.Connection.{
  AppConnection, conn_sender, conn_complete, connection_create, completed,
}
use in4230_mip.Miptpd.Connection.Exchange.{
  acknowledge, exchange, exchanges, complete_stays, Sends, exchange-queue,
}

module _ (Q : LinkedList MiptpPackage) (peer : ℕ) where
  -- the connection after a round: complete, or further on with data left
  abbrev Onward : ℕ → ℕ → AppConnection → Type 0
  Onward reached total next =
      (next.status ≡ conn_complete)
      ⊎ (Sends Q peer reached total next × reached * 1492 + 1492 < total)

  completed-Onward :
      (b : Bool) (reached total : ℕ) (connection : AppConnection)
      → b ≡ leb total (reached * 1492 + 1492)
      → Sends Q peer reached total connection
      → Onward reached total (completed b connection)
  unfolding completed
  completed-Onward true reached total connection e s = inl refl
  completed-Onward false reached total connection e s = inr (s, ground arith)

  advance :
      (reached total top : ℕ) (connection : AppConnection) (p : MiptpPackage)
      (s : Sends Q peer reached total connection)
      → p.miptp_header.psn ≡ top
      → reached ≤ top
      → top < 100
      → Sends Q peer top total
          (record connection { s_job = some (send_job_receive_package s.job (acknowledge p)) })
  unfolding send_job_receive_package window_update
  advance reached total top connection p s psn further small = record {
    job = send_job_receive_package s.job (acknowledge p);
    status = s.status;
    s_job = refl;
    is_job = record { size = s.is_job.size; small = s.is_job.small };
    bytes = s.bytes;
    base = ground (arith, s.base, psn);
    width = ground (arith, s.base, s.width, psn);
  }

  complete_as :
      (reached total : ℕ) (connection : AppConnection) (s : Sends Q peer reached total connection)
      → 0 < total
      → is_complete s.job ≡ leb total (reached * 1492 + 1492)
  complete_as reached total connection s some_bytes =
      is_complete_lem s.job (omega (arith, s.bytes)) s.is_job.small
      ∙ ground (arith, s.bytes, s.base)

  advance_complete :
      (reached total top : ℕ) (connection : AppConnection) (p : MiptpPackage)
      (s : Sends Q peer reached total connection)
      → p.miptp_header.psn ≡ top
      → reached ≤ top
      → top < 100
      → 0 < total
      → is_complete (send_job_receive_package s.job (acknowledge p)) ≡ leb total (top * 1492 + 1492)
  unfolding advance
  advance_complete reached total top connection p s psn further small some_bytes =
      complete_as top total
        (record connection { s_job = some (send_job_receive_package s.job (acknowledge p)) })
        (advance reached total top connection p s psn further small) some_bytes

  exchange-Onward :
      (reached total last : ℕ) (connection : AppConnection)
      → Sends Q peer reached total connection
      → 0 < total
      → total < 64_156
      → last ≡ total / 1492
      → reached ≤ last
      → (next : AppConnection) × exchange Q peer connection ≡ some next
        × Onward (min (reached + 10) last) total next
  exchange-Onward reached total last connection s some_bytes small whole within =
      let job = s.job in
      let top = min (reached + 10) last in
      let same : last ≡ job.data_size / 1492 = omega (arith, s.bytes, whole) in
      let ends =
        next_packages-Ends Q job s.is_job last (omega (arith, s.bytes)) same (omega (arith, s.base))
          (omega (arith, s.base, s.width)) in
      let number : ends.0.miptp_header.psn ≡ top = ends.2 ∙ ap (λ b. min (b + 10) last) s.base in
      let further_on : reached ≤ top = ground arith in
      let low : top < 100 = ground (arith, whole) in
      let on = advance reached total top connection ends.0 s number further_on low in
      let next = send_job_receive_package job (acknowledge ends.0) in
      let further = record connection { s_job = some next } in
      (
        completed (is_complete next) further,
        exchange-queue Q peer connection job ends.0 s.status s.s_job ends.1,
        completed-Onward (is_complete next) top total further
            (advance_complete reached total top connection ends.0 s number further_on low
              some_bytes)
            on,
      )

  exchanges_complete :
      (rounds reached total last : ℕ) (connection : AppConnection)
      → Sends Q peer reached total connection
      → 0 < total
      → total < 64_156
      → last ≡ total / 1492
      → reached ≤ last
      → total ≤ (reached + 10 * suc rounds) * 1492 + 1492
      → (done : AppConnection) × exchanges Q peer (suc rounds) connection ≡ some done
        × done.status ≡ conn_complete
  unfolding exchanges
  exchanges_complete zero reached total last connection s some_bytes small whole within enough =
      let first = exchange-Onward reached total last connection s some_bytes small whole within in
      elim first.2 [
        | inl complete ↦ (first.0, rw first.1 refl, complete)
        | inr (on, left) ↦ absurd (ground (arith, whole))
      ]
  exchanges_complete (suc rounds) reached total last connection s some_bytes small whole within
        enough =
      let first = exchange-Onward reached total last connection s some_bytes small whole within in
      elim first.2 [
        | inl complete ↦
            (first.0, rw first.1 (complete_stays Q peer (suc rounds) first.0 complete), complete)
        | inr (on, left) ↦
            let onward =
              exchanges_complete rounds (min (reached + 10) last) total last first.0 on some_bytes
                small whole (ground arith) (ground (arith, whole)) in
            (onward.0, rw first.1 onward.1, onward.2)
      ]

  -- A sender's connection of at most 64155 bytes, and at least one, against a peer that acknowledges
  -- the newest package of each round: it is created, no round faults, and after so many rounds, at
  -- least one, that ten packages of 1492 bytes a round and one more hold the data, it is complete.
  pub connection_create_completes :
      (rounds socket port destination : ℕ) (bytes : List ℕ) (data_size timeout now : ℕ)
      → data_size ≤ length bytes
      → 0 < data_size
      → data_size < 64_156
      → data_size ≤ 14_920 * suc rounds + 1492
      → (connection : AppConnection) × (done : AppConnection) × connection_create conn_sender socket
            port destination bytes data_size timeout now
          ≡ some connection
        × exchanges Q peer (suc rounds) connection ≡ some done
        × done.status ≡ conn_complete
  unfolding connection_create send_job_create window_create
  connection_create_completes rounds socket port destination bytes data_size timeout now held
        some_bytes small enough =
      let content = take data_size bytes in
      let job : SendJob = record {
        port = port % 16_384 % 16_384;
        destination = destination;
        timeout = timeout;
        last_ack = now;
        content = content;
        data_size = data_size;
        sliding_window = window_create 0 10;
      } in
      let connection : AppConnection = record {
        socket = socket;
        port = port % 16_384;
        connected_mip = destination;
        status = conn_sender;
        r_job = none;
        s_job = some job;
      } in
      let sends : Sends Q peer 0 data_size connection = record {
        job = job;
        status = refl;
        s_job = refl;
        is_job = record { size = omega (arith, length-take data_size bytes); small = omega arith };
        bytes = refl;
        base = refl;
        width = refl;
      } in
      let run =
        exchanges_complete rounds 0 data_size (data_size / 1492) connection sends some_bytes small
          refl (omega arith) (omega arith) in
      (connection, run.0, rw (read_at_within bytes 0 data_size (omega arith)) refl, run.1, run.2)
