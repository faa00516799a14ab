-- ===== src/Mipd/Link.antt =====
-- Packages on the wire, mipd/src/lib/link.c. A package goes out as the bytes of its packed structure,
-- the pointer in it included, with the payload behind them. What `sendto` and `recv` return is an
-- argument; `none` is an access past the end of a block.
pub mod Wire
use in4230_mip.Prelude.{
  ℕ, ◌+◌, ◌*◌, ◌/◌, ◌%◌, Option, none, some, List, [], ◌∷◌, ◌++◌, take, replicate, write_at,
  read_at, ◌>>=◌, value_le, le16, Code, minus_one, code,
}
use in4230_mip.Mipd.Packaging.{EtherFrame, MipHeader, MipPackage}

-- `sizeof(MIPPackage)`: 14 bytes of frame, 4 of header, 8 of pointer, packed
abbrev pub sizeof_package : ℕ
sizeof_package = 26

-- `MIP_PACKAGE_MAX_SIZE`
abbrev pub mip_package_max_size : ℕ
mip_package_max_size = 188

-- The bit fields lie from the low end of a 16-bit word.
abbrev pub header_word : MipHeader → ℕ
header_word h = h.tra + 8 * h.ttl + 128 * h.payload_len

-- The bytes of a packed structure, with `rest` behind them.
abbrev pub package_bytes : List ℕ → MipPackage → List ℕ → List ℕ
package_bytes pointer p rest =
    p.e_frame.dst_addr
    ++ (p.e_frame.src_addr
        ++ (p.e_frame.eth_proto
            ++ (le16 (header_word p.m_header)
                ++ (p.m_header.dst_addr ∷ p.m_header.src_addr ∷ (pointer ++ rest)))))

-- The bytes at a pointer to the message. A copy of 0 bytes from NULL copies nothing.
unfoldable pub message_bytes : Option (List ℕ) → ℕ → Option (List ℕ)
message_bytes none size = read_at [] 0 size
message_bytes (some bytes) size = read_at bytes 0 size

-- `sendto_raw_mip_package`: the code that it returns, and what it hands to `sendto`.
unfoldable pub sendto_raw_mip_package : Code → List ℕ → MipPackage → Option (Code × List ℕ)
unfolding message_bytes
sendto_raw_mip_package rc pointer p = do
  let payload_len_in_bytes = p.m_header.payload_len * 4
  raw ←
      write_at (replicate (sizeof_package + payload_len_in_bytes) 0) 0 (package_bytes pointer p [])
  payload ← message_bytes p.message payload_len_in_bytes
  raw ← write_at raw sizeof_package payload
  some (elim rc [ minus_one ↦ minus_one | code _ ↦ code 0 ], raw)

-- The header that a word and two bytes hold.
unfoldable pub parse_header : List ℕ → List ℕ → List ℕ → MipHeader
parse_header word dst src = record {
  tra = value_le word % 8;
  ttl = value_le word / 8 % 16;
  payload_len = value_le word / 128;
  dst_addr = value_le dst;
  src_addr = value_le src;
}

-- `recv_raw_mip_package` into a package whose message is the block `message`; `recv` stores what fits
-- of `frame` into a block of 188 bytes.
unfoldable pub recv_raw_mip_package : Code → List ℕ → List ℕ → Option (Code × MipPackage)
recv_raw_mip_package rc frame message = do
  raw ← write_at (replicate mip_package_max_size 0) 0 (take mip_package_max_size frame)
  dst_addr ← read_at raw 0 6
  src_addr ← read_at raw 6 6
  eth_proto ← read_at raw 12 2
  word ← read_at raw 14 2
  dst ← read_at raw 16 1
  src ← read_at raw 17 1
  let m_header = parse_header word dst src
  payload ← read_at raw sizeof_package (m_header.payload_len * 4)
  message ← write_at message 0 payload
  some (
    rc,
    record {
      e_frame = record { dst_addr = dst_addr; src_addr = src_addr; eth_proto = eth_proto };
      m_header = m_header;
      message = some message;
    },
  )
