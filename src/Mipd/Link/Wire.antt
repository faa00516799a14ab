-- ===== src/Mipd/Link/Wire.antt =====
-- A package over the link: what is sent is what is received, up to the receiver's block.
use mathlib.Core.List.{append-nil, append_assoc}
use in4230_mip.Prelude.{
  ℕ, ◌+◌, ◌-◌, ◌*◌, ◌≤◌, ◌<◌, ◌≡◌, refl, sym, ap, ◌∙◌, none, some, List, [], ◌∷◌, ◌++◌, length,
  length-take, length-drop, take_more, take, drop, replicate, length-append, length-replicate,
  drop-replicate, read_at, le16, code, write_at-append, read_at-append, read_at_all, read_at_skip,
  read_at_past, take_all, arith,
}
use in4230_mip.Mipd.Packaging.{MipPackage}
use in4230_mip.Mipd.Link.{
  header_word, package_bytes, message_bytes, sendto_raw_mip_package, parse_header,
  recv_raw_mip_package,
}

abbrev zeros : ℕ → List ℕ
zeros n = replicate n 0

-- The fields fit their widths, and the message has the length that the header says.
pub record IsWire (p : MipPackage) (m : List ℕ) : Type 0 where
  pub dst : length p.e_frame.dst_addr ≡ 6
  pub src : length p.e_frame.src_addr ≡ 6
  pub proto : length p.e_frame.eth_proto ≡ 2
  pub tra : p.m_header.tra < 8
  pub ttl : p.m_header.ttl < 16
  pub payload_len : p.m_header.payload_len < 512
  pub mip_dst : p.m_header.dst_addr < 256
  pub mip_src : p.m_header.src_addr < 256
  pub message : p.message ≡ some m
  pub size : length m ≡ p.m_header.payload_len * 4

package_bytes-append :
    (pointer : List ℕ) (p : MipPackage) (xs rest : List ℕ)
    → package_bytes pointer p xs ++ rest ≡ package_bytes pointer p (xs ++ rest)
package_bytes-append pointer p xs rest = simp append_assoc

length-package_bytes :
    {p : MipPackage} {m : List ℕ} (pointer rest : List ℕ)
    → IsWire p m
    → length pointer ≡ 8
    → length (package_bytes pointer p rest) ≡ 26 + length rest
length-package_bytes {p} pointer rest w h =
    let tail = pointer ++ rest in
    let end = le16 (header_word p.m_header) ++ (p.m_header.dst_addr ∷ p.m_header.src_addr ∷ tail) in
    omega (
      arith,
      length-append p.e_frame.dst_addr (p.e_frame.src_addr ++ (p.e_frame.eth_proto ++ end)),
      length-append p.e_frame.src_addr (p.e_frame.eth_proto ++ end),
      length-append p.e_frame.eth_proto end,
      length-append pointer rest,
    )

module _ (p : MipPackage) (m pointer : List ℕ) (w : IsWire p m) (h : length pointer ≡ 8) where
  -- A package whose fields fit is sent as the bytes of its structure with its payload behind them.
  pub sendto_lem :
      (n : ℕ) → sendto_raw_mip_package (code n) pointer p ≡ some (code 0, package_bytes pointer p m)
  unfolding sendto_raw_mip_package
  sendto_lem n = rw (
    write_at-append [] (package_bytes pointer p []) (zeros (26 + bytes)) 0 refl
        (omega (arith, len, length-replicate {A = ℕ} (26 + bytes) 0)),
    len,
    drop-replicate {A = ℕ} 26 (26 + bytes) 0,
    w.message,
    message_bytes,
    read_at_all m bytes (sym w.size),
    write_at-append (package_bytes pointer p []) m (zeros (26 + bytes - 26)) 26 (sym len)
        (omega (arith, w.size, length-replicate {A = ℕ} (26 + bytes - 26) 0)),
    drop-replicate {A = ℕ} (length m) (26 + bytes - 26) 0,
    none_left,
    append-nil m,
    package_bytes-append pointer p [] m,
  )
    where
      bytes : ℕ
      bytes = p.m_header.payload_len * 4

      len : length (package_bytes pointer p []) ≡ 26
      len = omega (arith, length-package_bytes pointer [] w h)

      none_left : 26 + bytes - 26 - length m ≡ 0
      none_left = omega (arith, w.size)

  header_lem :
      parse_header
        (le16 (header_word p.m_header))
        (p.m_header.dst_addr ∷ [])
        (p.m_header.src_addr ∷ [])
      ≡ p.m_header
  unfolding parse_header
  header_lem = ground (arith, w.tra, w.ttl, w.payload_len)

  module _ (rest : List ℕ) where
    -- the bytes of the structure from the word of the header on
    behind_frame : List ℕ
    behind_frame =
        le16 (header_word p.m_header)
        ++ (p.m_header.dst_addr ∷ p.m_header.src_addr ∷ (pointer ++ rest))

    read_dst : read_at (package_bytes pointer p rest) 0 6 ≡ some p.e_frame.dst_addr
    read_dst = read_at-append [] p.e_frame.dst_addr _ 0 6 refl (sym w.dst)

    read_src : read_at (package_bytes pointer p rest) 6 6 ≡ some p.e_frame.src_addr
    read_src =
        read_at_skip p.e_frame.dst_addr _ 6 0 6 (omega (arith, w.dst))
        ∙ read_at-append [] p.e_frame.src_addr _ 0 6 refl (sym w.src)

    skip_macs :
        (i k n : ℕ)
        → i ≡ 12 + k
        → read_at (package_bytes pointer p rest) i n
          ≡ read_at (p.e_frame.eth_proto ++ behind_frame) k n
    unfolding behind_frame
    skip_macs i k n e =
        read_at_skip p.e_frame.dst_addr _ i (6 + k) n (omega (arith, w.dst))
        ∙ read_at_skip p.e_frame.src_addr _ (6 + k) k n (omega (arith, w.src))

    read_proto : read_at (package_bytes pointer p rest) 12 2 ≡ some p.e_frame.eth_proto
    read_proto =
        skip_macs 12 0 2 (omega arith)
        ∙ read_at-append [] p.e_frame.eth_proto _ 0 2 refl (sym w.proto)

    skip_frame :
        (i k n : ℕ)
        → i ≡ 14 + k
        → read_at (package_bytes pointer p rest) i n ≡ read_at behind_frame k n
    skip_frame i k n e =
        skip_macs i (2 + k) n (omega arith)
        ∙ read_at_skip p.e_frame.eth_proto _ (2 + k) k n (omega (arith, w.proto))

    read_word : read_at (package_bytes pointer p rest) 14 2 ≡ some (le16 (header_word p.m_header))
    unfolding behind_frame
    read_word =
        skip_frame 14 0 2 (omega arith)
        ∙ read_at-append [] (le16 (header_word p.m_header)) _ 0 2 refl refl

    read_mip_dst : read_at (package_bytes pointer p rest) 16 1 ≡ some (p.m_header.dst_addr ∷ [])
    unfolding behind_frame
    read_mip_dst =
        skip_frame 16 2 1 (omega arith)
        ∙ read_at-append (le16 (header_word p.m_header)) (p.m_header.dst_addr ∷ []) _ 2 1 refl refl

    read_mip_src : read_at (package_bytes pointer p rest) 17 1 ≡ some (p.m_header.src_addr ∷ [])
    unfolding behind_frame
    read_mip_src =
        skip_frame 17 3 1 (omega arith)
        ∙ read_at-append (le16 (header_word p.m_header) ++ p.m_header.dst_addr ∷ [])
            (p.m_header.src_addr ∷ []) _ 3 1 refl refl

    read_payload : (n : ℕ) → read_at (package_bytes pointer p rest) 26 n ≡ read_at rest 0 n
    unfolding behind_frame
    read_payload n =
        skip_frame 26 12 n (omega arith)
        ∙ (read_at_skip
              (le16 (header_word p.m_header) ++ p.m_header.dst_addr ∷ p.m_header.src_addr ∷ [])
              (pointer ++ rest) 12 8 n (omega arith)
            ∙ read_at_skip pointer rest 8 0 n (omega (arith, h)))

  -- A package whose fields fit their widths, with at most 40 words of payload, arrives as it was sent: frame, header and payload, the
  -- payload at the head of the receiver's block.
  pub recv_raw-sendto_raw :
      (n k : ℕ) (block : List ℕ)
      → p.m_header.payload_len ≤ 40
      → length m ≤ length block
      → (frame : List ℕ) × (sendto_raw_mip_package (code n) pointer p ≡ some (code 0, frame))
        × (recv_raw_mip_package (code k) frame block
            ≡ some (code k, record p { message = some (m ++ drop (length m) block) }))
  unfolding recv_raw_mip_package
  recv_raw-sendto_raw n k block short room = (
    package_bytes pointer p m,
    sendto_lem n,
    rw (
      take_all 188 (package_bytes pointer p m) (omega (arith, len, w.size)),
      write_at-append [] (package_bytes pointer p m) (zeros 188) 0 refl
          (omega (arith, len, w.size)),
      package_bytes-append pointer p m zs,
      read_dst (m ++ zs),
      read_src (m ++ zs),
      read_proto (m ++ zs),
      read_word (m ++ zs),
      read_mip_dst (m ++ zs),
      read_mip_src (m ++ zs),
      header_lem,
      read_payload (m ++ zs) (p.m_header.payload_len * 4),
      read_at-append [] m zs 0 (p.m_header.payload_len * 4) refl (sym w.size),
      write_at-append [] m block 0 refl room,
    ),
  )
    where
      len : length (package_bytes pointer p m) ≡ 26 + length m
      len = length-package_bytes pointer m w h

      zs : List ℕ
      zs = drop (length (package_bytes pointer p m)) (zeros 188)

  -- The block that `recv` fills has 188 bytes: a package with more than 40 words of payload, as every
  -- broadcast of a route table has, makes the receiver read past its end.
  pub recv_raw_overrun :
      (k : ℕ) (block : List ℕ)
      → 40 < p.m_header.payload_len
      → recv_raw_mip_package (code k) (package_bytes pointer p m) block ≡ none
  unfolding recv_raw_mip_package
  recv_raw_overrun k block long = rw (
    cut,
    write_at-append [] (package_bytes pointer p front) (zeros 188) 0 refl (omega (arith, len)),
    package_bytes-append pointer p front zs,
    read_dst (front ++ zs),
    read_src (front ++ zs),
    read_proto (front ++ zs),
    read_word (front ++ zs),
    read_mip_dst (front ++ zs),
    read_mip_src (front ++ zs),
    header_lem,
    read_payload (front ++ zs) (p.m_header.payload_len * 4),
    read_at_past (front ++ zs) 0 (p.m_header.payload_len * 4) past,
  )
    where
      front : List ℕ
      front = take 162 m

      len : length (package_bytes pointer p front) ≡ 188
      len = omega (arith, length-package_bytes pointer front w h, length-take 162 m, w.size)

      cut : take 188 (package_bytes pointer p m) ≡ package_bytes pointer p front
      cut =
          ap (take 188) (sym (package_bytes-append pointer p [] m))
          ∙ (ap (λ n. take n (package_bytes pointer p [] ++ m)) (at_structure)
              ∙ (take_more (package_bytes pointer p []) m 162
                  ∙ package_bytes-append pointer p [] front))
        where
          at_structure : 188 ≡ length (package_bytes pointer p []) + 162
          at_structure = omega (arith, length-package_bytes pointer [] w h)

      zs : List ℕ
      zs = drop (length (package_bytes pointer p front)) (zeros 188)

      past : length (front ++ zs) < 0 + p.m_header.payload_len * 4
      past = omega (
        arith,
        length-append front zs,
        length-take 162 m,
        length-drop (length (package_bytes pointer p front)) (zeros 188),
        len,
      )
