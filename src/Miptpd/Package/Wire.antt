-- ===== src/Miptpd/Package/Wire.antt =====
-- MIPTPPackage_serialize and MIPTPPackage_deserialize together.
use in4230_mip.Prelude.{
  ℕ, ◌+◌, ◌-◌, ◌*◌, ◌/◌, ◌%◌, ◌≤◌, ◌≡◌, refl, ap, ◌∙◌, some, List, [], ◌++◌, le→leb, length,
  length-append, length-drop, length-take, take, drop, drop-drop, u16_mod, le16, value_le,
  value_le-le16, write_at-append, write_at_past, none, ◌<◌, read_at, read_at-append, read_at_all,
  read_at_skip, read_at_within, take_within, arith,
}
use in4230_mip.Miptpd.Package.{
  MiptpPackage, IsPackage, header_bytes, serialize, deserialize, create_raw,
}

-- A buffer with less room than the six bytes and the data is written past its end.
pub serialize_past :
    (p : MiptpPackage) (buffer : List ℕ)
    → p.data_size ≤ 1492
    → p.data_size ≡ length p.content
    → 6 ≤ length buffer
    → length buffer < 6 + length p.content
    → serialize buffer p ≡ none
unfolding serialize
serialize_past p buffer size whole some_room short =
    let head = header_bytes p.miptp_header in
    let r4 = drop 4 buffer in
    let r6 = drop 2 r4 in
    let exact : (4 + p.data_size) % u16_mod ≡ 4 + p.data_size = omega (arith, size) in
    rw
      (
        exact,
        le→leb (4 + p.data_size) 1496 (omega (arith, size)),
        write_at-append [] head buffer 0 refl (omega arith),
        write_at-append head (le16 p.data_size) r4 4 refl (omega (arith, length-drop 4 buffer)),
        read_at_all p.content p.data_size whole,
        write_at_past (head ++ (le16 p.data_size ++ r6)) 6 p.content
            (omega (arith, length-drop 4 buffer, length-drop 2 r4)),
      )
      refl

module _ (p : MiptpPackage) (v : IsPackage p) where
  pub serialize_lem :
      (buffer : List ℕ)
      → 6 + length p.content ≤ length buffer
      → serialize buffer p
        ≡ some (
          4 + p.data_size,
          header_bytes p.miptp_header
              ++ (le16 p.data_size ++ (p.content ++ drop (6 + length p.content) buffer)),
        )
  unfolding serialize
  serialize_lem buffer room =
      let head = header_bytes p.miptp_header in
      let r4 = drop 4 buffer in
      let r6 = drop 2 r4 in
      let exact : (4 + p.data_size) % u16_mod ≡ 4 + p.data_size = omega (arith, v.size) in
      rw
        (
          exact,
          le→leb (4 + p.data_size) 1496 (omega (arith, v.size)),
          write_at-append [] head buffer 0 refl (omega arith),
          write_at-append head (le16 p.data_size) r4 4 refl (omega (arith, length-drop 4 buffer)),
          read_at_all p.content p.data_size v.content,
          write_at-append (head ++ le16 p.data_size) p.content r6 6 refl
              (omega (arith, length-drop 4 buffer, length-drop 2 r4)),
          drop-drop 4 2 buffer,
          drop-drop 6 (length p.content) buffer,
        )
        refl

  -- A package of fields in range, serialized into a buffer with room comes back with its header, and not with its data:
  -- the receiver takes the two bytes of the size for the first of the data, and the last two bytes
  -- of the data are lost. The size returned is two less than the bytes written.
  pub deserialize-serialize_shift :
      (buffer : List ℕ)
      → 6 + length p.content ≤ length buffer
      → (out : List ℕ) × (serialize buffer p ≡ some (4 + p.data_size, out))
        × (deserialize out (4 + p.data_size)
            ≡ some (record p { content = take p.data_size (le16 p.data_size ++ p.content) }))
  unfolding deserialize create_raw
  deserialize-serialize_shift buffer room =
      let h = p.miptp_header in
      let rest = drop (6 + length p.content) buffer in
      let body = le16 p.data_size ++ (p.content ++ rest) in
      let wrong = take p.data_size (le16 p.data_size ++ p.content) in
      let word = le16 (h.pl + 4 * h.port) in
      let size : (4 + p.data_size + u16_mod - 4) % u16_mod ≡ p.data_size = omega (arith, v.size) in
      let behind : read_at (header_bytes h ++ body) 4 p.data_size ≡ some wrong =
        read_at_skip (header_bytes h) body 4 0 p.data_size refl
        ∙ (read_at_within body 0 p.data_size
              (omega (arith, v.content, length-append p.content rest))
            ∙ ap some (
                take_within p.data_size (le16 p.data_size ++ p.content) rest
                  (omega (arith, v.content)))) in
      let all : p.data_size ≡ length wrong =
        omega (arith, v.content, length-take p.data_size (le16 p.data_size ++ p.content)) in
      let port : value_le word / 4 % 16_384 ≡ h.port = omega (arith, v.pl, v.port) in
      let pl : value_le word % 4 % 4 ≡ h.pl = omega (arith, v.pl, v.port) in
      (
        header_bytes h ++ body,
        serialize_lem buffer room,
        rw
            (
              size,
              behind,
              read_at-append [] word (le16 h.psn ++ body) 0 2 refl refl,
              read_at-append word (le16 h.psn) body 2 2 refl refl,
              read_at_all wrong p.data_size all,
              value_le-le16 h.psn v.psn,
              port,
              pl,
            )
            refl,
      )
