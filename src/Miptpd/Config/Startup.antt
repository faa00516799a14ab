-- ===== src/Miptpd/Config/Startup.antt =====
-- MIPTPConfig_create of miptpd/src/lib/miptp_config.c, and what MIPTPServer_create makes of its
-- strings.
use in4230_mip.Prelude.{
  ℕ, ◌≤◌, ◌<◌, min, take-length, ◌≡◌, refl, none, some, List, [], ◌∷◌, ◌++◌, if◌then◌else◌, ltb,
  ◌%◌, length, length-append, length-take, length-replicate, drop-replicate, ◌-◌, take, replicate,
  u16_mod, read_at_within, read_at_past, write_at-append, write_at_past, take_within, arith, true,
  leb, Bool-cases, inl, inr,
}
use mathlib.Core.List.{append-nil}
use in4230_mip.Commons.LinkedList.{LinkedList}
use in4230_mip.Commons.Strings.{c_string, NoEnd, strnlen_string}
use in4230_mip.Miptpd.Config.{copy_block, config_create}

copy_block_fits :
    (s : List ℕ) (size n : ℕ)
    → n ≤ length s
    → n ≤ size
    → copy_block size (c_string s) n ≡ some (take n s ++ replicate (size - n) 0)
unfolding copy_block
copy_block_fits s size n h k =
    let cut : length (take n s) ≡ n = omega (arith, length-take n s) in
    let room = length-replicate {A = ℕ} size 0 in
    rw
      (
        read_at_within (c_string s) 0 n (omega (arith, length-append s (0 ∷ []))),
        take_within n s (0 ∷ []) h,
        write_at-append [] (take n s) (replicate size 0) 0 refl (omega (arith, cut, room)),
        cut,
        drop-replicate {A = ℕ} n size 0,
      )
      refl

-- A copy that is longer than the string with its end, or than the block it goes to, faults.
copy_block_overrun :
    (s : List ℕ) (n : ℕ) → length s < n → copy_block (length s) (c_string s) n ≡ none
unfolding copy_block
copy_block_overrun s n h = elim (Bool-cases (leb n (length (c_string s)))) [
  | inl e ↦ rw (read_at_within (c_string s) 0 n (ground arith)) (
      write_at_past (replicate (length s) 0) 0 (take n (c_string s))
        (ground (arith, length-take n (c_string s), length-replicate {A = ℕ} (length s) 0)))
  | inr e ↦ rw (read_at_past (c_string s) 0 n (ground arith)) refl
]

module _ (m s : List ℕ) (hm : NoEnd m) (hs : NoEnd s) where
  -- Of two paths of at most 256 bytes, where that of the link daemon is not the longer one, the first
  -- is copied without its end, and of the second as many bytes as the first has, with zeros behind.
  config_create_shorter :
      (debug_active timeout : ℕ)
      → length m ≤ length s
      → length s < 257
      → config_create (c_string m) (c_string s) debug_active timeout
        ≡ some (
            some (record {
              mipd_socket = m;
              app_socket = take (length m) s ++ replicate (length s - length m) 0;
              debug_active = debug_active % u16_mod;
              timeout = timeout;
            }))
  unfolding config_create
  config_create_shorter debug_active timeout shorter fits =
      let nm : min 257 (length m) ≡ length m = omega arith in
      let ns : min 257 (length s) ≡ length s = omega arith in
      let lm : ltb (length m) 257 ≡ true = ground arith in
      let ls : ltb (length s) 257 ≡ true = ground arith in
      let cut : min (length m) 256 ≡ length m = omega arith in
      let whole : length m - length m ≡ 0 = omega arith in
      rw
        (
          strnlen_string m 257 hm,
          nm,
          strnlen_string s 257 hs,
          ns,
          lm,
          ls,
          cut,
          copy_block_fits m (length m) (length m) (omega arith) (omega arith),
          take-length m,
          whole,
          append-nil m,
          copy_block_fits s (length s) (length m) shorter shorter,
        )
        refl

  config_create_longer :
      (debug_active timeout : ℕ)
      → length s < length m
      → length m < 257
      → config_create (c_string m) (c_string s) debug_active timeout ≡ none
  unfolding config_create
  config_create_longer debug_active timeout longer fits =
      let nm : min 257 (length m) ≡ length m = omega arith in
      let ns : min 257 (length s) ≡ length s = omega arith in
      let lm : ltb (length m) 257 ≡ true = ground arith in
      let ls : ltb (length s) 257 ≡ true = ground arith in
      let cut : min (length m) 256 ≡ length m = omega arith in
      rw
        (
          strnlen_string m 257 hm,
          nm,
          strnlen_string s 257 hs,
          ns,
          lm,
          ls,
          cut,
          copy_block_fits m (length m) (length m) (omega arith) (omega arith),
          copy_block_overrun s (length m) longer,
        )
        refl

  -- For two paths of at most 256 bytes, `MIPTPConfig_create` copies the path of the link daemon without
  -- its end, and of the applications' path as many bytes as the other has, with zeros in the rest of
  -- its block; where the link daemon's path is the longer one, it faults.
  pub config_create_lem :
      (debug_active timeout : ℕ)
      → length m < 257
      → length s < 257
      → config_create (c_string m) (c_string s) debug_active timeout ≡ (
          if leb (length m) (length s)
          then some (
              some (record {
                mipd_socket = m;
                app_socket = take (length m) s ++ replicate (length s - length m) 0;
                debug_active = debug_active % u16_mod;
                timeout = timeout;
              }))
          else none)
  config_create_lem debug_active timeout fits_m fits_s =
      elim (Bool-cases (leb (length m) (length s))) [
        | inl e ↦ rw e (config_create_shorter debug_active timeout (ground arith) fits_s)
        | inr e ↦ rw e (config_create_longer debug_active timeout (ground arith) fits_m)
      ]
