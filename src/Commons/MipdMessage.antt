-- ===== src/Commons/MipdMessage.antt =====
-- The message between the link daemon and its clients, commons/src/mipd_message.c. `calloc` does not
-- fail, and neither argument of `serialize` is NULL.
use in4230_mip.Prelude.{
  ℕ, ◌+◌, ◌-◌, ◌%◌, ◌≤◌, ◌<◌, ◌≡◌, refl, sym, ◌∙◌, Option, none, some, List, [], ◌∷◌, ◌++◌,
  if◌then◌else◌, leb, le→leb, u16_mod, le16, length, drop, drop-append, write_at, read_at, value_le,
  ◌>>=◌, arith, length-drop, write_at-append, read_at-append, read_at_all, drop-drop, value_le-le16,
  Code, minus_one, code,
}

pub record MipdMessage : Type 0 where
  pub mip_address : ℕ
  pub data_size : ℕ
  pub content : List ℕ

-- `MAX_MIPMESSAGE_DATA_SIZE`
abbrev pub max_mipmessage_data_size : ℕ
max_mipmessage_data_size = 1496

-- `MAX_MIPMESSAGE_SIZE`
abbrev pub max_mipmessage_size : ℕ
max_mipmessage_size = 1500

-- `MIPDMessage_create`. The outer option is a read past the end of `bytes`, the inner one is NULL.
unfoldable pub create : ℕ → ℕ → List ℕ → Option (Option MipdMessage)
create address data_size bytes =
    if leb data_size max_mipmessage_data_size
    then (do
      content ← read_at bytes 0 data_size
      some (some (record { mip_address = address; data_size = data_size; content = content })))
    else some none

-- `calc_serialized_message_size`
unfoldable pub calc_serialized_message_size : MipdMessage → ℕ
calc_serialized_message_size m = (1 + 2 + m.data_size) % u16_mod

-- `MIPDMessage_serialize`: the code that it returns, and the buffer.
unfoldable pub serialize : List ℕ → MipdMessage → Option (Code × List ℕ)
unfolding calc_serialized_message_size
serialize buffer m =
    if leb (calc_serialized_message_size m) max_mipmessage_size
    then (do
      buffer ← write_at buffer 0 (m.mip_address ∷ [])
      buffer ← write_at buffer 1 (le16 m.data_size)
      content ← read_at m.content 0 m.data_size
      buffer ← write_at buffer 3 content
      some (code (calc_serialized_message_size m), buffer))
    else some (minus_one, buffer)

-- `MIPDMessage_serialized_get_address` and the two after it.
unfoldable pub serialized_get_address : List ℕ → Option ℕ
serialized_get_address s = do bytes ← read_at s 0 1; some (value_le bytes)

unfoldable pub serialized_get_data_size : List ℕ → Option ℕ
serialized_get_data_size s = do bytes ← read_at s 1 2; some (value_le bytes)

unfoldable pub serialized_get_data : List ℕ → Option (List ℕ)
serialized_get_data s = do data_size ← serialized_get_data_size s; read_at s 3 data_size

-- `MIPDMessage_deserialize`
unfoldable pub deserialize : List ℕ → Option (Option MipdMessage)
unfolding serialized_get_address serialized_get_data_size serialized_get_data create
deserialize s = do
  address ← serialized_get_address s
  data_size ← serialized_get_data_size s
  content ← serialized_get_data s
  create address data_size content

-- The address is a byte, and the data has the size that the message says, which a message may have.
pub record IsMessage (m : MipdMessage) : Type 0 where
  pub mip_address : m.mip_address < 256
  pub data_size : m.data_size ≤ max_mipmessage_data_size
  pub content : m.data_size ≡ length m.content

-- the three bytes before the data
abbrev pub header : MipdMessage → List ℕ
header m = m.mip_address ∷ le16 m.data_size

module _ (m : MipdMessage) (v : IsMessage m) where
  pub serialize_lem :
      (buffer : List ℕ)
      → 3 + length m.content ≤ length buffer
      → serialize buffer m
        ≡ some
            (code (3 + m.data_size), header m ++ (m.content ++ drop (3 + length m.content) buffer))
  unfolding serialize
  serialize_lem buffer room = rw (
    size,
    le→leb _ _ small,
    write_at-append [] (m.mip_address ∷ []) buffer 0 refl (omega arith),
    write_at-append (m.mip_address ∷ []) (le16 m.data_size) r1 1 refl
        (omega (arith, length-drop 1 buffer)),
    read_at_all m.content m.data_size v.content,
    write_at-append (header m) m.content r3 3 refl
        (omega (arith, length-drop 1 buffer, length-drop 2 r1)),
    drop-drop 1 2 buffer,
    drop-drop 3 (length m.content) buffer,
  )
    where
      r1 : List ℕ
      r1 = drop 1 buffer

      r3 : List ℕ
      r3 = drop 2 r1

      size : (1 + 2 + m.data_size) % u16_mod ≡ 3 + m.data_size
      size = omega (arith, v.data_size)

      small : 3 + m.data_size ≤ max_mipmessage_size
      small = omega (arith, v.data_size)

  pub deserialize_lem :
      (rest : List ℕ) → deserialize (header m ++ (m.content ++ rest)) ≡ some (some m)
  unfolding deserialize
  deserialize_lem rest =
      rw
        (
          read_at-append [] (m.mip_address ∷ []) (le16 m.data_size ++ (m.content ++ rest)) 0 1 refl
              refl,
          read_at-append (m.mip_address ∷ []) (le16 m.data_size) (m.content ++ rest) 1 2 refl refl,
          value_le-le16 m.data_size (omega (arith, v.data_size)),
          read_at-append (header m) m.content rest 3 m.data_size refl v.content,
          read_at_all m.content m.data_size v.content,
        )
        (ground (arith, v.data_size))

  -- A message of at most 1496 bytes, serialized into a buffer with room for three bytes and its data,
  -- is deserialized as itself; the size returned is that of the bytes written.
  pub deserialize-serialize_message :
      (buffer : List ℕ)
      → 3 + length m.content ≤ length buffer
      → (out : List ℕ) × (serialize buffer m ≡ some (code (3 + m.data_size), out))
        × (deserialize out ≡ some (some m))
        × (drop (3 + length m.content) out ≡ drop (3 + length m.content) buffer)
  deserialize-serialize_message buffer room = (
    header m ++ (m.content ++ drop (3 + length m.content) buffer),
    serialize_lem buffer room,
    deserialize_lem (drop (3 + length m.content) buffer),
    sym (
          drop-drop 3 (length m.content)
            (header m ++ (m.content ++ drop (3 + length m.content) buffer)))
        ∙ drop-append m.content (drop (3 + length m.content) buffer),
  )

-- A message of more than 1497 bytes, whose size with the three header bytes does not wrap round, is
-- refused with -1, and the buffer is left as it was.
pub serialize_too_large :
    (m : MipdMessage) (buffer : List ℕ)
    → 1497 < m.data_size
    → m.data_size < u16_mod - 3
    → serialize buffer m ≡ some (minus_one, buffer)
unfolding serialize
serialize_too_large m buffer large narrow = ground arith
