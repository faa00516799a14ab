-- ===== src/Mipd/Cli/Fetch.antt =====
-- fetch_mip_addresses of mipd/src/main/cli.c: the addresses of the command line in the block for them.
use in4230_mip.Prelude.{
  ℕ, suc, ◌+◌, ◌-◌, ◌*◌, ◌%◌, ◌≤◌, ◌<◌, ◌≡◌, refl, sym, ap, ◌∙◌, none, some, List, [], ◌∷◌, ◌++◌,
  if◌then◌else◌, leb, le→leb, length, length-append, length-drop, length-replicate, drop, drop-drop,
  replicate, drop-replicate, u8_mod, write_at-append, write_at_past, code, arith, Bool-cases, inl,
  inr,
}
use mathlib.Core.List.{append_assoc}
use in4230_mip.Mipd.Cli.{pointer_bytes, fetch_loop, fetch_mip_addresses, elements}

module _ (atoi : List ℕ → ℕ) where
  fetch_loop_lem :
      (k : ℕ) (blocks : List (List ℕ)) (pre rest : List ℕ)
      → 8 * k ≡ length pre
      → 8 * length blocks ≤ length rest
      → fetch_loop atoi k blocks (pre ++ rest)
        ≡ some (
          code (k + length blocks),
          pre ++ (elements atoi blocks ++ drop (8 * length blocks) rest),
        )
  unfolding fetch_loop
  fetch_loop_lem k [] pre rest e fits = let none_more : k + 0 ≡ k = omega arith in rw none_more refl
  fetch_loop_lem k (block ∷ blocks) pre rest e fits =
      let bytes = pointer_bytes (atoi block % u8_mod) in
      let onward =
        fetch_loop_lem (k + 1) blocks (pre ++ bytes) (drop 8 rest)
          (omega (arith, e, length-append pre bytes)) (omega (arith, length-drop 8 rest)) in
      let count : k + 1 + length blocks ≡ k + suc (length blocks) = omega arith in
      let place : 8 + 8 * length blocks ≡ 8 * suc (length blocks) = omega arith in
      rw (write_at-append pre bytes rest (8 * k) e (omega arith)) (
        ap (fetch_loop atoi (k + 1) blocks) (sym (append_assoc pre bytes (drop 8 rest)))
        ∙ (onward
            ∙ rw (count, drop-drop 8 (8 * length blocks) rest, place, append_assoc pre bytes) refl))

  fetch_loop_past :
      (k : ℕ) (blocks : List (List ℕ)) (pre rest : List ℕ)
      → 8 * k ≡ length pre
      → length rest < 8 * length blocks
      → fetch_loop atoi k blocks (pre ++ rest) ≡ none
  unfolding fetch_loop
  fetch_loop_past k [] pre rest e past = absurd (omega arith)
  fetch_loop_past k (block ∷ blocks) pre rest e past =
      let bytes = pointer_bytes (atoi block % u8_mod) in
      elim (Bool-cases (leb 8 (length rest))) [
        | inl h ↦ rw (write_at-append pre bytes rest (8 * k) e (ground arith)) (
            ap (fetch_loop atoi (k + 1) blocks) (sym (append_assoc pre bytes (drop 8 rest)))
            ∙ fetch_loop_past (k + 1) blocks (pre ++ bytes) (drop 8 rest)
                (omega (arith, e, length-append pre bytes)) (ground (arith, length-drop 8 rest)))
        | inr h ↦
            rw
              (write_at_past (pre ++ rest) (8 * k) bytes
                (ground (arith, e, length-append pre rest)))
              refl
      ]

  -- into any block with room for a pointer for each address
  pub fetch_mip_addresses-elements :
      (blocks : List (List ℕ)) (block : List ℕ) (n : ℕ)
      → length blocks ≤ n
      → 8 * length blocks ≤ length block
      → fetch_mip_addresses atoi blocks block n
        ≡ some (code (length blocks), elements atoi blocks ++ drop (8 * length blocks) block)
  unfolding fetch_mip_addresses
  fetch_mip_addresses-elements blocks block n few room =
      let start : 8 * 0 ≡ 0 = omega arith in
      let same : 0 + length blocks ≡ length blocks = omega arith in
      rw (le→leb _ _ few) (fetch_loop_lem 0 blocks [] block start room ∙ rw same refl)

  -- The addresses of the command line, of which there are no more than interfaces, are fetched, where
  -- there are at least eight times as many interfaces, in order, each in the place of a pointer with
  -- zeros behind it; with fewer interfaces, as with any address where there are less than eight
  -- interfaces, the block, which has one byte for an interface, is written past its end.
  pub fetch_mip_addresses_lem :
      (blocks : List (List ℕ)) (n : ℕ)
      → length blocks ≤ n
      → fetch_mip_addresses atoi blocks (replicate n 0) n ≡ (
          if leb (8 * length blocks) n
          then some
              (code (length blocks), elements atoi blocks ++ replicate (n - 8 * length blocks) 0)
          else none)
  unfolding fetch_mip_addresses
  fetch_mip_addresses_lem blocks n few =
      let size = length-replicate {A = ℕ} n 0 in
      let start : 8 * 0 ≡ 0 = omega arith in
      let same : 0 + length blocks ≡ length blocks = omega arith in
      elim (Bool-cases (leb (8 * length blocks) n)) [
        | inl e ↦
            rw (le→leb _ _ few, e)
              (fetch_loop_lem 0 blocks [] (replicate n 0) start (ground (arith, size))
                ∙ rw (same, drop-replicate {A = ℕ} (8 * length blocks) n 0) refl)
        | inr e ↦
            rw (le→leb _ _ few, e)
              (fetch_loop_past 0 blocks [] (replicate n 0) start (ground (arith, size)))
      ]
