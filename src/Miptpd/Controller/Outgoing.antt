-- ===== src/Miptpd/Controller/Outgoing.antt =====
-- MIPTPAppController_handle_outgoing of miptpd/src/lib/miptp_app_controller.c: packages that are
-- larger than the block on the stack.
use in4230_mip.Prelude.{
  ℕ, zero, suc, ◌+◌, ◌-◌, ◌*◌, ◌≤◌, ◌<◌, ◌≡◌, refl, sym, ap, ◌∙◌, none, some, List, ◌∷◌, length,
  length-replicate, length-take, length-drop, drop, replicate, Code, arith, Option-cases, inl, inr,
}
use in4230_mip.Commons.LinkedList.{LinkedList}
use in4230_mip.Miptpd.Package.{MiptpPackage, max_miptp_package_size}
use in4230_mip.Miptpd.Package.Wire.{serialize_past}
use in4230_mip.Miptpd.SendJob.{SendJob, next_package, packages_loop, next_packages}
use in4230_mip.Miptpd.SendJob.Slice.{IsJob, next_package_lem}
use in4230_mip.Miptpd.Connection.{
  AppConnection, conn_sender, sender_next, next_by_status, connection_next_packages,
}
use in4230_mip.Miptpd.Sending.{
  send_package, send_next, send_packages, send_queue, send_connection, outgoing_loop,
}
use in4230_mip.Miptpd.Controller.{AppController, handle_outgoing}

send_package_past :
    (rc : Code) (connected_mip : ℕ) (p : MiptpPackage)
    → p.data_size ≤ 1492
    → p.data_size ≡ length p.content
    → 1490 < p.data_size
    → send_package rc connected_mip p ≡ none
unfolding send_package
send_package_past rc connected_mip p size whole large =
    let block : ℕ = max_miptp_package_size in
    let room = length-replicate {A = ℕ} block 0 in
    rw
      (serialize_past p (replicate block 0) size whole (omega (arith, room))
        (omega (arith, room, whole)))
      refl

module _ (Q : LinkedList MiptpPackage) (send_rc : ℕ → Code) (i connected_mip : ℕ) where
  -- A fault at a package is a fault of the queue, whatever is put in behind it.
  loop_faults :
      (rounds nr : ℕ) (job : SendJob) (q : Q.Handle)
      → send_packages send_rc i connected_mip (Q.items q) ≡ none
      → send_packages send_rc i connected_mip (Q.items (packages_loop Q rounds nr job q)) ≡ none
  unfolding packages_loop send_packages
  loop_faults zero nr job q h = h
  loop_faults (suc rounds) nr job q h = elim (Option-cases (next_package job nr)) [
    | inl e ↦ rw (e, packages_loop) h
    | inr (p, e) ↦
        rw (e, packages_loop)
          (loop_faults rounds (suc nr) job (Q.unshift q p) (rw (Q.items-unshift q p, h) refl))
  ]

  first_faults :
      (base rounds all : ℕ) (job : SendJob) (p : MiptpPackage)
      → all ≡ suc rounds
      → next_package job base ≡ some p
      → ((rc : Code) → send_package rc connected_mip p ≡ none)
      → send_packages send_rc i connected_mip (Q.items (packages_loop Q all base job Q.create))
        ≡ none
  unfolding packages_loop send_packages send_next
  first_faults base rounds all job p whole made past =
      rw (whole, packages_loop, made)
        (loop_faults rounds (suc base) job (Q.unshift Q.create p)
          (rw (Q.items-unshift Q.create p, Q.items-create, past) refl))

  queue_faults :
      (job : SendJob)
      → IsJob job
      → job.sliding_window.sequence_base < job.sliding_window.sequence_max
      → job.sliding_window.sequence_base * 1492 + 1490 < job.data_size
      → send_packages send_rc i connected_mip (Q.items (next_packages Q job)) ≡ none
  unfolding next_packages
  queue_faults job v wide long =
      let base = job.sliding_window.sequence_base in
      let max = job.sliding_window.sequence_max in
      let first = next_package_lem job v base (omega (arith, v.size, long)) in
      let past : (rc : Code) → send_package rc connected_mip first.0 ≡ none = λ rc.
        send_package_past rc connected_mip first.0 (omega (arith, first.4))
          (first.4
            ∙ (omega (
              arith,
              v.size,
              length-take 1492 (drop (base * 1492) job.content),
              length-drop (base * 1492) job.content,
            )
                ∙ sym (ap length first.2)))
          (omega (arith, first.4, long)) in
      first_faults base (max - base - 1) (max - base) job first.0 (omega (arith, wide)) first.1 past

-- Where the first connection is a sender's that has a job with its data, a window that is not empty,
-- and more than 1490 bytes left from the base of the window on, sending faults: the package is
-- written past the end of the 1496 bytes on the stack, whatever the socket returns.
pub handle_outgoing_overflow :
    (L : LinkedList AppConnection) (Q : LinkedList MiptpPackage) (send_rc : ℕ → Code)
    (controller : AppController L) (connection : AppConnection) (rest : List AppConnection)
    (job : SendJob)
    → L.items controller.connections ≡ connection ∷ rest
    → connection.status ≡ conn_sender
    → connection.s_job ≡ some job
    → IsJob job
    → job.sliding_window.sequence_base < job.sliding_window.sequence_max
    → job.sliding_window.sequence_base * 1492 + 1490 < job.data_size
    → handle_outgoing L Q send_rc controller ≡ none
unfolding handle_outgoing outgoing_loop send_connection connection_next_packages next_by_status
    sender_next send_queue
handle_outgoing_overflow L Q send_rc controller connection rest job first is_sender has_job v wide
      long =
    rw
      (
        first,
        outgoing_loop,
        is_sender,
        next_by_status,
        has_job,
        queue_faults Q send_rc 0 connection.connected_mip job v wide long,
      )
      refl
