-- ===== src/Miptpd/SendJob/Newest.antt =====
-- MIPTPSendJob_next_packages of miptpd/src/lib/miptp_send_job.c: the last package of a window.
use in4230_mip.Prelude.{
  ℕ, zero, suc, ◌+◌, ◌-◌, ◌*◌, ◌/◌, ◌≤◌, ◌<◌, min, ◌≡◌, refl, ◌∙◌, Option, none, some, List, [],
  ◌∷◌, leb, length, arith, Bool-cases, inl, inr,
}
use in4230_mip.Commons.LinkedList.{LinkedList}
use in4230_mip.Miptpd.Package.{MiptpPackage}
use in4230_mip.Miptpd.SendJob.{SendJob, packages_loop, next_packages}
use in4230_mip.Miptpd.SendJob.Slice.{IsJob, next_package_lem, next_package_beyond}

-- the package of a queue that was put in last
unfoldable pub newest : List MiptpPackage → Option MiptpPackage
newest [] = none
newest (p ∷ ps) = some p

-- a queue whose newest package has a number
abbrev pub Ends : ℕ → List MiptpPackage → Type 0
Ends nr packages = (p : MiptpPackage) × newest packages ≡ some p × p.miptp_header.psn ≡ nr

module _ (Q : LinkedList MiptpPackage) (job : SendJob) (v : IsJob job) where
  pushed_Ends :
      (q : Q.Handle) (p : MiptpPackage) (nr : ℕ)
      → p.miptp_header.psn ≡ nr
      → Ends nr (Q.items (Q.unshift q p))
  unfolding newest
  pushed_Ends q p nr e = (p, rw (Q.items-unshift q p) refl, e)

  loop_Ends :
      (rounds nr last : ℕ) (q : Q.Handle)
      → job.data_size < 64_156
      → last ≡ job.data_size / 1492
      → nr ≤ last
      → Ends nr (Q.items q)
      → Ends (min (nr + rounds) last) (Q.items (packages_loop Q rounds (suc nr) job q))
  unfolding packages_loop
  loop_Ends zero nr last q small whole within ends =
      let stays : nr ≡ min (nr + 0) last = ground arith in (ends.0, ends.1, ends.2 ∙ stays)
  loop_Ends (suc rounds) nr last q small whole within ends =
      elim (Bool-cases (leb (suc nr * 1492) (length job.content))) [
        | inl inside ↦
            let one = next_package_lem job v (suc nr) (ground arith) in
            let onward =
              loop_Ends rounds (suc nr) last (Q.unshift q one.0) small whole
                (ground (arith, v.size)) (pushed_Ends q one.0 (suc nr) one.3) in
            let same : min (suc nr + rounds) last ≡ min (nr + suc rounds) last = ground arith in
            rw (one.1, packages_loop) (onward.0, onward.1, onward.2 ∙ same)
        | inr beyond ↦
            let nothing =
              next_package_beyond job v (suc nr) (ground (arith, v.size)) (ground arith) in
            let stays : nr ≡ min (nr + suc rounds) last = ground (arith, v.size) in
            rw (nothing, packages_loop) (ends.0, ends.1, ends.2 ∙ stays)
      ]

  -- The newest package has the number of the window's end, or of the end of the data.
  pub next_packages-Ends :
      (last : ℕ)
      → job.data_size < 64_156
      → last ≡ job.data_size / 1492
      → job.sliding_window.sequence_base ≤ last
      → job.sliding_window.sequence_max ≡ job.sliding_window.sequence_base + 11
      → Ends (min (job.sliding_window.sequence_base + 10) last) (Q.items (next_packages Q job))
  unfolding next_packages packages_loop
  next_packages-Ends last small whole within width =
      let base = job.sliding_window.sequence_base in
      let first = next_package_lem job v base (omega (arith, v.size)) in
      let rounds : job.sliding_window.sequence_max - base ≡ 11 = omega arith in
      rw (rounds, packages_loop, first.1)
        (loop_Ends 10 base last (Q.unshift Q.create first.0) small whole within
          (pushed_Ends Q.create first.0 base first.3))
