-- ===== src/Miptpd/Package.antt =====
-- The transport package, miptpd/src/lib/miptp_package.c. `none` is an access past a block, or NULL
-- where a function can return it.
pub mod Wire
use in4230_mip.Prelude.{
  ℕ, ◌+◌, ◌-◌, ◌*◌, ◌/◌, ◌%◌, ◌≤◌, ◌<◌, ◌≡◌, refl, sym, ap, ◌∙◌, Option, none, some, List, [], ◌∷◌,
  ◌++◌, if◌then◌else◌, leb, le→leb, ◌==◌, not, length, length-drop, drop, drop-drop, drop-append,
  u16_mod, le16, value_le, value_le-le16, write_at, write_at-append, read_at, read_at-append,
  read_at_all, ◌>>=◌, Code, minus_one, code, arith,
}

-- `PL` has two bits and `port` fourteen.
pub record MiptpHeader : Type 0 where
  pub pl : ℕ
  pub port : ℕ
  pub psn : ℕ

pub record MiptpPackage : Type 0 where
  pub miptp_header : MiptpHeader
  pub content : List ℕ
  pub data_size : ℕ

-- `MAX_MIPTP_PACKAGE_SIZE`
abbrev pub max_miptp_package_size : ℕ
max_miptp_package_size = 1496

-- `MAX_MIPTP_PACKAGE_DATA_SIZE`
abbrev pub max_miptp_package_data_size : ℕ
max_miptp_package_data_size = 1492

-- `calc_pl`
unfoldable pub calc_pl : ℕ → ℕ
calc_pl data_size = if not (data_size % 4 == 0) then 4 - data_size % 4 else 0

-- `MIPTPPackage_create_raw`
unfoldable pub create_raw : ℕ → ℕ → ℕ → List ℕ → ℕ → Option MiptpPackage
create_raw pl port psn bytes data_size = do
  content ← read_at bytes 0 data_size
  some (record {
    miptp_header = record { pl = pl % 4; port = port % 16_384; psn = psn };
    content = content;
    data_size = data_size;
  })

-- `MIPTPPackage_create`
unfoldable pub create : ℕ → ℕ → List ℕ → ℕ → Option MiptpPackage
unfolding create_raw
create port psn bytes data_size =
    if leb data_size max_miptp_package_data_size
    then create_raw (calc_pl data_size) port psn bytes data_size
    else none

-- The packed header in memory: the bit fields from the low end of a 16-bit word, then the number.
abbrev pub header_bytes : MiptpHeader → List ℕ
header_bytes h = le16 (h.pl + 4 * h.port) ++ le16 h.psn

-- `MIPTPPackage_serialize`: the size that it returns, and the buffer. The size leaves out the two
-- bytes of `data_size`. A failure is -1 as a uint16_t.
unfoldable pub serialize : List ℕ → MiptpPackage → Option (ℕ × List ℕ)
serialize buffer p =
    let package_size = (4 + p.data_size) % u16_mod in
    if leb package_size max_miptp_package_size
    then (do
      buffer ← write_at buffer 0 (header_bytes p.miptp_header)
      buffer ← write_at buffer 4 (le16 p.data_size)
      content ← read_at p.content 0 p.data_size
      buffer ← write_at buffer 6 content
      some (package_size, buffer))
    else some (u16_mod - 1, buffer)

-- `MIPTPPackage_deserialize`: everything behind the four bytes of the header is the data.
unfoldable pub deserialize : List ℕ → ℕ → Option MiptpPackage
unfolding create_raw
deserialize s package_size = do
  let data_size = (package_size + u16_mod - 4) % u16_mod
  content ← read_at s 4 data_size
  word ← read_at s 0 2
  psn ← read_at s 2 2
  create_raw (value_le word % 4) (value_le word / 4) (value_le psn) content data_size

-- the fields fit their widths, and the data has the size that the package says, which it may have
pub record IsPackage (p : MiptpPackage) : Type 0 where
  pub pl : p.miptp_header.pl < 4
  pub port : p.miptp_header.port < 16_384
  pub psn : p.miptp_header.psn < u16_mod
  pub size : p.data_size ≤ max_miptp_package_data_size
  pub content : p.data_size ≡ length p.content
