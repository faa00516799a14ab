-- ===== src/Mipd/Packaging/Payload.antt =====
-- What MIPPackage_create makes of a message: whole words, padded with zeros, within the 1500 bytes
-- that a MIP package may have.
use in4230_mip.Prelude.{
  ℕ, ◌+◌, ◌-◌, ◌*◌, ◌%◌, ◌^◌, ◌≤◌, ◌<◌, ◌≡◌, refl, none, some, List, [], ◌++◌, le→leb, lt→ltb,
  length, replicate, length-replicate, drop-replicate, write_at-append, read_at_all, arith,
}
use in4230_mip.Mipd.Packaging.{
  EtherFrame, MipHeader, calculate_mip_payload_words, create_payload, package_create,
}

-- A message takes the least number of words that holds it.
pub calculate_mip_payload_words_bounds :
    (n : ℕ) → (n ≤ calculate_mip_payload_words n * 4) × (calculate_mip_payload_words n * 4 < n + 4)
unfolding calculate_mip_payload_words
calculate_mip_payload_words_bounds n = ground arith

words_small : (n : ℕ) → n ≤ 1496 → calculate_mip_payload_words n ≤ 374
words_small n h = omega (arith, calculate_mip_payload_words_bounds n)

module _ (e : EtherFrame) (h : MipHeader) (message : List ℕ) where
  pub package_create-calculate_mip_payload_words :
      0 < length message
      → length message ≤ 1496
      → package_create e h message (length message)
        ≡ some (
            some (record {
              e_frame = e;
              m_header = record h { payload_len = calculate_mip_payload_words (length message) };
              message = some (
                  message
                  ++ replicate
                      (calculate_mip_payload_words (length message) * 4 - length message)
                      0);
            }))
  unfolding package_create create_payload
  package_create-calculate_mip_payload_words some_bytes fits =
      let words = calculate_mip_payload_words (length message) in
      let enough = calculate_mip_payload_words_bounds (length message) in
      let small : words ≤ 374 = words_small (length message) fits in
      let exact : words % 2 ^ 9 ≡ words = omega arith in
      rw (
        lt→ltb 0 (length message) some_bytes,
        le→leb words 374 small,
        read_at_all message (length message) refl,
        write_at-append [] message (replicate (words * 4) 0) 0 refl
            (omega (arith, length-replicate {A = ℕ} (words * 4) 0)),
        drop-replicate {A = ℕ} (length message) (words * 4) 0,
        exact,
      )

  -- A message of 1 to 1496 bytes becomes the payload of a package, with fewer than four zero bytes
  -- behind it that fill up its last word: the package carries the frame and the header as given, with
  -- the number of these words for a length.
  pub package_create_lem :
      0 < length message
      → length message ≤ 1496
      → (words padding : ℕ) × (padding < 4)
        × length message + padding ≡ words * 4
        × package_create e h message (length message)
          ≡ some (
              some (record {
                e_frame = e;
                m_header = record h { payload_len = words };
                message = some (message ++ replicate padding 0);
              }))
  package_create_lem some_bytes fits =
      let words = calculate_mip_payload_words (length message) in
      let bounds = calculate_mip_payload_words_bounds (length message) in
      (
        words,
        words * 4 - length message,
        omega (arith, bounds),
        omega (arith, bounds),
        package_create-calculate_mip_payload_words some_bytes fits,
      )

  -- A message of more than 1496 bytes is refused.
  pub package_create_too_large :
      1496 < length message → package_create e h message (length message) ≡ some none
  unfolding package_create create_payload
  package_create_too_large large =
      ground (arith, calculate_mip_payload_words_bounds (length message))
