-- ===== src/Miptpd/SendJob/Slice.antt =====
-- MIPTPSendJob_next_packages and MIPTPSendJob_is_complete: what of the data the packages carry.
use in4230_mip.Prelude.{
  ℕ, zero, suc, ◌+◌, ◌-◌, ◌*◌, ◌%◌, ◌≤◌, ◌<◌, min, ◌≡◌, refl, sym, ap, ◌∙◌, true, false, none, some,
  List, [], ◌∷◌, ◌++◌, ltb, leb, le→leb, length, length-take, length-drop, take, drop, drop-drop,
  take_all, take_nil, take_sum, drop_all, read_at_within, u16_mod, read_at_all, arith, Bool-cases,
  inl, inr,
}
use mathlib.Core.List.{append_assoc, append-nil}
use in4230_mip.Commons.LinkedList.{LinkedList}
use in4230_mip.Miptpd.Package
use in4230_mip.Miptpd.Package.{MiptpPackage}
use in4230_mip.Miptpd.SendJob.{SendJob, next_package, packages_loop, next_packages, is_complete}

-- the data has the size that the job says, which a uint16_t holds
pub record IsJob (job : SendJob) : Type 0 where
  pub size : job.data_size ≡ length job.content
  pub small : job.data_size < u16_mod

-- the data of a queue's packages, in the order in which they are taken from it
unfoldable pub carried : List MiptpPackage → List ℕ
carried [] = []
carried (p ∷ ps) = carried ps ++ p.content

module _ (job : SendJob) (v : IsJob job) where
  whole_package :
      (i k n : ℕ)
      → n ≤ 1492
      → k + n ≤ length job.content
      → (p : MiptpPackage) × Package.create job.port i (take n (drop k job.content)) n ≡ some p
        × p.content ≡ take n (drop k job.content)
        × p.miptp_header.psn ≡ i
        × p.data_size ≡ n
  unfolding Package.create Package.create_raw
  whole_package i k n small within =
      let batch = take n (drop k job.content) in
      let size : n ≡ length batch =
        omega (arith, length-take n (drop k job.content), length-drop k job.content) in
      (
        record {
          miptp_header = record { pl = Package.calc_pl n % 4; port = job.port % 16_384; psn = i };
          content = batch;
          data_size = n;
        },
        rw (le→leb n 1492 small, read_at_all batch n size) refl,
        refl,
        refl,
        refl,
      )

  next_package_short :
      (i : ℕ) (p : MiptpPackage)
      → i * 1492 ≤ length job.content
      → ltb job.data_size (i * 1492 + 1492) ≡ true
      → Package.create job.port i
          (take (job.data_size - i * 1492) (drop (i * 1492) job.content))
          (job.data_size - i * 1492)
        ≡ some p
      → next_package job i ≡ some p
  unfolding next_package
  next_package_short i p within short made =
      let exact : i * 1492 % u16_mod ≡ i * 1492 = omega (arith, v.size, v.small) in
      let inside : ltb job.data_size (i * 1492) ≡ false = ground (arith, v.size) in
      rw
        (
          exact,
          inside,
          short,
          read_at_within job.content (i * 1492) (job.data_size - i * 1492) (omega (arith, v.size)),
        )
        made

  next_package_at :
      (i k : ℕ) (p : MiptpPackage)
      → i * 1492 % u16_mod ≡ k
      → k + 1492 ≤ length job.content
      → Package.create job.port i (take 1492 (drop k job.content)) 1492 ≡ some p
      → next_package job i ≡ some p
  unfolding next_package
  next_package_at i k p index fits made =
      let inside : ltb job.data_size k ≡ false = ground (arith, v.size) in
      let long : ltb job.data_size (k + 1492) ≡ false = ground (arith, v.size) in
      let limit : (k + 1492) % u16_mod - k ≡ 1492 = omega (arith, v.size, v.small) in
      rw (index, inside, long, limit, read_at_within job.content k 1492 fits) made

  -- A package that is not beyond the data carries its 1492 bytes of it, or what is left.
  pub next_package_lem :
      (i : ℕ)
      → i * 1492 ≤ length job.content
      → (p : MiptpPackage) × next_package job i ≡ some p
        × p.content ≡ take 1492 (drop (i * 1492) job.content)
        × p.miptp_header.psn ≡ i
        × p.data_size ≡ min 1492 (job.data_size - i * 1492)
  next_package_lem i within =
      let rest = drop (i * 1492) job.content in
      elim (Bool-cases (ltb job.data_size (i * 1492 + 1492))) [
        | inl short ↦
            let n = job.data_size - i * 1492 in
            let made =
              whole_package i (i * 1492) n (ground (arith, v.size)) (omega (arith, v.size)) in
            let cut : n ≡ min 1492 (job.data_size - i * 1492) = ground arith in
            let all : take n rest ≡ take 1492 rest =
              take_all n rest (omega (arith, v.size, length-drop (i * 1492) job.content))
              ∙ sym (
                  take_all 1492 rest
                    (ground (arith, v.size, length-drop (i * 1492) job.content))) in
            (
              made.0,
              next_package_short i made.0 within short made.1,
              made.2 ∙ all,
              made.3,
              made.4 ∙ cut,
            )
        | inr long ↦
            let fits : i * 1492 + 1492 ≤ length job.content = ground (arith, v.size) in
            let exact : i * 1492 % u16_mod ≡ i * 1492 = omega (arith, v.size, v.small) in
            let cut : 1492 ≡ min 1492 (job.data_size - i * 1492) = ground arith in
            let made = whole_package i (i * 1492) 1492 (omega arith) fits in
            (
              made.0,
              next_package_at i (i * 1492) made.0 exact fits made.1,
              made.2,
              made.3,
              made.4 ∙ cut,
            )
      ]

  -- From sequence number 44 to 86, where the job has the data for it, the index wraps round: instead of NULL there is a package under that
  -- number, with 1492 bytes from near the start of the data.
  pub next_package_wraps :
      (i : ℕ)
      → 44 ≤ i
      → i < 87
      → i * 1492 - 65_536 + 1492 ≤ length job.content
      → (p : MiptpPackage) × next_package job i ≡ some p
        × p.content ≡ take 1492 (drop (i * 1492 - 65_536) job.content)
        × p.miptp_header.psn ≡ i
  next_package_wraps i low high fits =
      let k = i * 1492 - 65_536 in
      let made = whole_package i k 1492 (omega arith) fits in
      (made.0, next_package_at i k made.0 (omega arith) fits made.1, made.2, made.3)

  -- Beyond the data, and below the wrap of the index, there is no package.
  pub next_package_beyond :
      (i : ℕ) → i < 44 → length job.content < i * 1492 → next_package job i ≡ none
  unfolding next_package
  next_package_beyond i low beyond =
      let exact : i * 1492 % u16_mod ≡ i * 1492 = omega arith in
      let outside : ltb job.data_size (i * 1492) ≡ true = ground (arith, v.size) in
      rw (exact, outside) refl

slice_step :
    (rounds i : ℕ) (xs : List ℕ)
    → take 1492 (drop (i * 1492) xs) ++ take (rounds * 1492) (drop (suc i * 1492) xs)
      ≡ take (suc rounds * 1492) (drop (i * 1492) xs)
slice_step rounds i xs =
    let size : suc rounds * 1492 ≡ 1492 + rounds * 1492 = omega arith in
    let place : suc i * 1492 ≡ i * 1492 + 1492 = omega arith in
    rw
      (
        size,
        place,
        take_sum 1492 (rounds * 1492) (drop (i * 1492) xs),
        drop-drop (i * 1492) 1492 xs,
      )
      refl

module _ (Q : LinkedList MiptpPackage) (job : SendJob) (v : IsJob job) where
  loop-carried :
      (rounds i : ℕ) (q : Q.Handle)
      → i + rounds ≤ 44
      → carried (Q.items (packages_loop Q rounds i job q))
        ≡ carried (Q.items q) ++ take (rounds * 1492) (drop (i * 1492) job.content)
  unfolding packages_loop carried
  loop-carried zero i q low = sym (append-nil _)
  loop-carried (suc rounds) i q low = elim (Bool-cases (leb (i * 1492) (length job.content))) [
    | inl within ↦
        let one = next_package_lem job v i (ground arith) in
        let onward = take (rounds * 1492) (drop (suc i * 1492) job.content) in
        rw (one.1, packages_loop)
          (loop-carried rounds (suc i) (Q.unshift q one.0) (omega arith)
            ∙ (ap (λ es. carried es ++ onward) (Q.items-unshift q one.0)
                ∙ (append_assoc (carried (Q.items q)) one.0.content onward
                    ∙ ap (λ r. carried (Q.items q) ++ r)
                        (ap (λ c. c ++ onward) one.2 ∙ slice_step rounds i job.content))))
    | inr beyond ↦
        let none_left = drop_all (i * 1492) job.content (ground arith) in
        let nothing = next_package_beyond job v i (omega arith) (ground arith) in
        rw (nothing, packages_loop, none_left, take_nil {A = ℕ} (suc rounds * 1492))
          (sym (append-nil _))
  ]

  -- The packages that go out for a job with its data, and a window that ends at sequence number 44 or before carry, taken
  -- from the queue in order, the data from the base of the window on, 1492 bytes for each number of
  -- the window, or up to the end of the data.
  pub next_packages-carried :
      job.sliding_window.sequence_max ≤ 44
      → job.sliding_window.sequence_base ≤ job.sliding_window.sequence_max
      → carried (Q.items (next_packages Q job))
        ≡ take
            ((job.sliding_window.sequence_max - job.sliding_window.sequence_base) * 1492)
            (drop (job.sliding_window.sequence_base * 1492) job.content)
  unfolding next_packages carried
  next_packages-carried low ordered =
      loop-carried _ job.sliding_window.sequence_base Q.create (omega arith)
      ∙ rw Q.items-create refl

-- A job of at least one byte counts as complete exactly where the packages from the base of the
-- window on would carry no more than 1492 bytes: when all but the last are acknowledged.
pub is_complete_lem :
    (job : SendJob)
    → 0 < job.data_size
    → job.data_size < u16_mod
    → is_complete job ≡ leb job.data_size (job.sliding_window.sequence_base * 1492 + 1492)
unfolding is_complete
is_complete_lem job some_bytes small = ground arith
