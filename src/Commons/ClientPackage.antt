-- ===== src/Commons/ClientPackage.antt =====
-- The package between the transport daemon and its applications, commons/src/client_package.c. Sizes
-- are those of a 64-bit machine: `sizeof(ClientPackage)` is 24, and a pointer 8. `calloc` does not
-- fail.
use in4230_mip.Prelude.{
  ℕ, ◌+◌, ◌-◌, ◌%◌, ◌≤◌, ◌<◌, ◌≡◌, refl, sym, ◌∙◌, Option, none, some, List, [], ◌∷◌, ◌++◌,
  if◌then◌else◌, ltb, u16_mod, u32_mod, le16, le32, length, drop, drop-append, write_at, read_at,
  value_le, ◌>>=◌, arith, length-drop, write_at-append, read_at-append, read_at_all, drop-drop,
  value_le-le16, value_le-le32,
}

-- `type` is the enum, 1 for a sender and 2 for a receiver; the wire may hold any number of 32 bits.
pub record ClientPackage : Type 0 where
  pub port : ℕ
  pub destination : ℕ
  pub client_type : ℕ
  pub data_size : ℕ
  pub content : List ℕ

-- `MAX_DATA_SIZE_BYTES`
abbrev pub max_data_size_bytes : ℕ
max_data_size_bytes = 65_535

-- `calc_serialized_package_size`
unfoldable pub calc_serialized_package_size : ClientPackage → ℕ
calc_serialized_package_size p = (24 - 8 + p.data_size) % u16_mod

-- `ClientPackage_create`
unfoldable pub create : ℕ → ℕ → ℕ → List ℕ → ℕ → Option ClientPackage
create port destination client_type bytes data_size =
    if ltb max_data_size_bytes data_size then none else (do
      content ← read_at bytes 0 data_size
      some (record {
        port = port;
        destination = destination;
        client_type = client_type;
        data_size = data_size;
        content = content;
      }))

-- `ClientPackage_serialize`: the size that it returns, and the buffer.
unfoldable pub serialize : List ℕ → ClientPackage → Option (ℕ × List ℕ)
unfolding calc_serialized_package_size
serialize buffer p = do
  buffer ← write_at buffer 0 (le16 p.port)
  buffer ← write_at buffer 2 (p.destination ∷ [])
  buffer ← write_at buffer 3 (le32 p.client_type)
  buffer ← write_at buffer 7 (le16 p.data_size)
  content ← read_at p.content 0 p.data_size
  buffer ← write_at buffer 9 content
  some (calc_serialized_package_size p, buffer)

-- `ClientPackage_serialized_get_port` and the four after it.
unfoldable pub serialized_get_port : List ℕ → Option ℕ
serialized_get_port s = do bytes ← read_at s 0 2; some (value_le bytes)

unfoldable pub serialized_get_destination : List ℕ → Option ℕ
serialized_get_destination s = do bytes ← read_at s 2 1; some (value_le bytes)

unfoldable pub serialized_get_type : List ℕ → Option ℕ
serialized_get_type s = do bytes ← read_at s 3 4; some (value_le bytes)

unfoldable pub serialized_get_data_size : List ℕ → Option ℕ
serialized_get_data_size s = do bytes ← read_at s 7 2; some (value_le bytes)

unfoldable pub serialized_get_data : List ℕ → Option (List ℕ)
serialized_get_data s = do data_size ← serialized_get_data_size s; read_at s 9 data_size

-- `ClientPackage_deserialize`
unfoldable pub deserialize : List ℕ → Option ClientPackage
unfolding serialized_get_data_size serialized_get_data serialized_get_port
    serialized_get_destination serialized_get_type create
deserialize s = do
  data_size ← serialized_get_data_size s
  content ← serialized_get_data s
  port ← serialized_get_port s
  destination ← serialized_get_destination s
  client_type ← serialized_get_type s
  create port destination client_type content data_size

-- The fields fit their types, and `content` has the size that the package says.
pub record IsPackage (p : ClientPackage) : Type 0 where
  pub port : p.port < u16_mod
  pub destination : p.destination < 256
  pub client_type : p.client_type < u32_mod
  pub data_size : p.data_size < u16_mod
  pub content : p.data_size ≡ length p.content

-- the nine bytes before the data
abbrev pub header : ClientPackage → List ℕ
header p = le16 p.port ++ (p.destination ∷ le32 p.client_type ++ le16 p.data_size)

module _ (p : ClientPackage) (v : IsPackage p) where
  pub serialize_lem :
      (buffer : List ℕ)
      → 9 + length p.content ≤ length buffer
      → serialize buffer p
        ≡ some (
          (16 + p.data_size) % u16_mod,
          header p ++ (p.content ++ drop (9 + length p.content) buffer),
        )
  unfolding serialize
  serialize_lem buffer room = rw (
    write_at-append [] (le16 p.port) buffer 0 refl (omega arith),
    write_at-append (le16 p.port) (p.destination ∷ []) r2 2 refl
        (omega (arith, length-drop 2 buffer)),
    write_at-append (le16 p.port ++ p.destination ∷ []) (le32 p.client_type) r3 3 refl
        (omega (arith, length-drop 2 buffer, length-drop 1 r2)),
    write_at-append (le16 p.port ++ p.destination ∷ le32 p.client_type) (le16 p.data_size) r7 7 refl
        (omega (arith, length-drop 2 buffer, length-drop 1 r2, length-drop 4 r3)),
    read_at_all p.content p.data_size v.content,
    write_at-append (header p) p.content r9 9 refl
        (omega (arith, length-drop 2 buffer, length-drop 1 r2, length-drop 4 r3, length-drop 2 r7)),
    drop-drop 2 1 buffer,
    drop-drop 3 4 buffer,
    drop-drop 7 2 buffer,
    drop-drop 9 (length p.content) buffer,
  )
    where
      r2 : List ℕ
      r2 = drop 2 buffer

      r3 : List ℕ
      r3 = drop 1 r2

      r7 : List ℕ
      r7 = drop 4 r3

      r9 : List ℕ
      r9 = drop 2 r7

  pub deserialize_lem : (rest : List ℕ) → deserialize (header p ++ (p.content ++ rest)) ≡ some p
  unfolding deserialize
  deserialize_lem rest =
      rw
        (
          read_at-append (le16 p.port ++ p.destination ∷ le32 p.client_type) (le16 p.data_size)
              (p.content ++ rest) 7 2 refl refl,
          value_le-le16 p.data_size v.data_size,
          read_at-append (header p) p.content rest 9 p.data_size refl v.content,
          read_at-append [] (le16 p.port) (drop 2 (header p) ++ (p.content ++ rest)) 0 2 refl refl,
          value_le-le16 p.port v.port,
          read_at-append (le16 p.port) (p.destination ∷ [])
              (le32 p.client_type ++ (le16 p.data_size ++ (p.content ++ rest))) 2 1 refl refl,
          read_at-append (le16 p.port ++ p.destination ∷ []) (le32 p.client_type)
              (le16 p.data_size ++ (p.content ++ rest)) 3 4 refl refl,
          value_le-le32 p.client_type v.client_type,
          read_at_all p.content p.data_size v.content,
        )
        (ground (arith, v.data_size))

  -- What an application sends is what the daemon receives: a package of fields in range, serialized
  -- into a buffer with room for its nine header bytes and its data, is deserialized as itself. The
  -- bytes behind it stay as they were, and the size returned is 16 more than the data's, modulo 2^16.
  pub deserialize-serialize_package :
      (buffer : List ℕ)
      → 9 + length p.content ≤ length buffer
      → (out : List ℕ) × (serialize buffer p ≡ some ((16 + p.data_size) % u16_mod, out))
        × (deserialize out ≡ some p)
        × (drop (9 + length p.content) out ≡ drop (9 + length p.content) buffer)
  deserialize-serialize_package buffer room = (
    header p ++ (p.content ++ drop (9 + length p.content) buffer),
    serialize_lem buffer room,
    deserialize_lem (drop (9 + length p.content) buffer),
    sym (
          drop-drop 9 (length p.content)
            (header p ++ (p.content ++ drop (9 + length p.content) buffer)))
        ∙ drop-append p.content (drop (9 + length p.content) buffer),
  )
