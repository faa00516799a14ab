-- ===== src/Miptpd/Controller/Carried.antt =====
-- MIPTPAppController_send_MIPDMessage and the packages handed to it in miptpd/src/lib/miptp_app_controller.c:
-- the bytes of one package.
use in4230_mip.Prelude.{
  ℕ, ◌+◌, ◌≤◌, ◌<◌, ◌≡◌, refl, sym, true, some, List, [], ◌∷◌, ◌++◌, leb, length, length-replicate,
  length-append, length-take, replicate, take, drop, le16, read_at_within, read_at-append,
  take_within, code, arith,
}
use mathlib.Core.List.{append_assoc}
use in4230_mip.Commons.MipdMessage
use in4230_mip.Commons.MipdMessage.{MipdMessage, IsMessage, max_mipmessage_size}
use in4230_mip.Miptpd.Package.{MiptpPackage, IsPackage, header_bytes, max_miptp_package_size}
use in4230_mip.Miptpd.Package.Wire.{serialize_lem}
use in4230_mip.Miptpd.Sending.{send_mipd_message, send_package}

-- a package with its header, the size that is not counted, and its data, cut off by two bytes
abbrev pub cut : MiptpPackage → List ℕ
cut p = take (4 + p.data_size) (header_bytes p.miptp_header ++ (le16 p.data_size ++ p.content))

-- the bytes of the message that carries a package to an address
abbrev pub carried_in : ℕ → MiptpPackage → List ℕ
carried_in mip_address p = mip_address ∷ le16 (4 + p.data_size) ++ cut p

module _ (p : MiptpPackage) (v : IsPackage p) (mip_address : ℕ) (small : p.data_size ≤ 1490)
    (byte : mip_address < 256) where
  size-cut : 4 + p.data_size ≡ length (cut p)
  size-cut = omega (
    arith,
    v.content,
    length-take (4 + p.data_size) (header_bytes p.miptp_header ++ (le16 p.data_size ++ p.content)),
  )

  message_made :
      MipdMessage.create mip_address (4 + p.data_size) (
        header_bytes p.miptp_header
        ++ (le16 p.data_size
            ++ (p.content ++ drop (6 + length p.content) (replicate max_miptp_package_size 0))))
      ≡ some (
          some (record { mip_address = mip_address; data_size = 4 + p.data_size; content = cut p }))
  unfolding MipdMessage.create
  message_made =
      let whole = header_bytes p.miptp_header ++ (le16 p.data_size ++ p.content) in
      let left = drop (6 + length p.content) (replicate {A = ℕ} max_miptp_package_size 0) in
      let fits : leb (4 + p.data_size) 1496 ≡ true = ground arith in
      rw
        (
          fits,
          sym (append_assoc (header_bytes p.miptp_header) (le16 p.data_size ++ p.content) left),
          read_at_within (whole ++ left) 0 (4 + p.data_size)
              (omega (arith, v.content, length-append whole left)),
          take_within (4 + p.data_size) whole left (omega (arith, v.content)),
        )
        refl

  send_mipd_message_lem :
      (n : ℕ)
      → send_mipd_message
          (code n)
          (record { mip_address = mip_address; data_size = 4 + p.data_size; content = cut p })
        ≡ some (code 1, carried_in mip_address p ∷ [])
  unfolding send_mipd_message
  send_mipd_message_lem n =
      let m : MipdMessage = record {
        mip_address = mip_address;
        data_size = 4 + p.data_size;
        content = cut p;
      } in
      let block = replicate {A = ℕ} max_mipmessage_size 0 in
      let left = drop (3 + length (cut p)) block in
      let room = length-replicate {A = ℕ} max_mipmessage_size 0 in
      let is_message : IsMessage m = record {
        mip_address = byte;
        data_size = omega (arith, small);
        content = size-cut;
      } in
      rw
        (
          MipdMessage.serialize_lem m is_message block (omega (arith, size-cut, room)),
          read_at-append [] (mip_address ∷ le16 (4 + p.data_size) ++ cut p) left 0
              (3 + (4 + p.data_size)) refl (omega (arith, size-cut)),
        )
        refl

  pub send_package_lem :
      (n : ℕ) → send_package (code n) mip_address p ≡ some (code 1, carried_in mip_address p ∷ [])
  unfolding send_package
  send_package_lem n =
      rw
        (
          serialize_lem p v (replicate max_miptp_package_size 0)
              (omega (arith, v.content, length-replicate {A = ℕ} max_miptp_package_size 0)),
          message_made,
          send_mipd_message_lem n,
        )
        refl
