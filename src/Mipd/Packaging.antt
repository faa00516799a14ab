-- ===== src/Mipd/Packaging.antt =====
-- Headers and packages, mipd/src/lib/packaging: ether_frame.c, mip_header.c and mip_package.c.
-- `calloc` does not fail.
pub mod Payload
use in4230_mip.Prelude.{
  ℕ, ◌+◌, ◌*◌, ◌/◌, ◌%◌, ◌^◌, Option, none, some, List, [], ◌∷◌, ◌++◌, if◌then◌else◌, ltb, leb,
  ◌==◌, take, replicate, write_at, read_at, ◌>>=◌,
}

pub record EtherFrame : Type 0 where
  pub dst_addr : List ℕ
  pub src_addr : List ℕ
  pub eth_proto : List ℕ

-- `struct mip_header`: the bit fields `tra : 3`, `ttl : 4` and `payload_len : 9`, and two bytes.
pub record MipHeader : Type 0 where
  pub tra : ℕ
  pub ttl : ℕ
  pub payload_len : ℕ
  pub dst_addr : ℕ
  pub src_addr : ℕ

-- `message` is `none` where the pointer is NULL.
pub record MipPackage : Type 0 where
  pub e_frame : EtherFrame
  pub m_header : MipHeader
  pub message : Option (List ℕ)

-- `PAYLOAD_MAX_WORD_NUM`
abbrev pub payload_max_word_num : ℕ
payload_max_word_num = 374

-- `ETH_BROADCAST_ADDR`
abbrev pub eth_broadcast_addr : List ℕ
eth_broadcast_addr = replicate 6 255

-- `ETH_P_MIP`
abbrev pub eth_p_mip : List ℕ
eth_p_mip = 0x88 ∷ 0xb5 ∷ []

-- `create_transport_ethernet_frame`. It copies from `&src` and `&dest`, which are the two pointers and
-- not the addresses that they point to: the arguments here are the bytes of the pointers.
unfoldable pub create_transport_ethernet_frame : List ℕ → List ℕ → EtherFrame
create_transport_ethernet_frame src_pointer dest_pointer = record {
  dst_addr = take 6 dest_pointer;
  src_addr = take 6 src_pointer;
  eth_proto = eth_p_mip;
}

-- `create_ethernet_frame`, of a destination and of the address in `so_name`
unfoldable pub create_ethernet_frame : List ℕ → List ℕ → EtherFrame
create_ethernet_frame dest sll_addr = record {
  dst_addr = take 6 dest;
  src_addr = take 6 sll_addr;
  eth_proto = eth_p_mip;
}

-- `create_ethernet_arp_frame_from_mac_addrs`
unfoldable pub create_ethernet_arp_frame_from_mac_addrs : List ℕ → EtherFrame
create_ethernet_arp_frame_from_mac_addrs mac_address = record {
  dst_addr = eth_broadcast_addr;
  src_addr = take 6 mac_address;
  eth_proto = eth_p_mip;
}

-- `create_ethernet_arp_frame`, of the address in `so_name`
unfoldable pub create_ethernet_arp_frame : List ℕ → EtherFrame
create_ethernet_arp_frame sll_addr = record {
  dst_addr = eth_broadcast_addr;
  src_addr = take 6 sll_addr;
  eth_proto = eth_p_mip;
}

-- `create_response_ethernet_frame`
unfoldable pub create_response_ethernet_frame : EtherFrame → EtherFrame
create_response_ethernet_frame request = record request {
  dst_addr = request.src_addr;
  src_addr = request.dst_addr;
}

-- `create_arp_request_mip_header`
unfoldable pub create_arp_request_mip_header : ℕ → MipHeader
create_arp_request_mip_header src_addr = record {
  tra = 1;
  ttl = 15;
  payload_len = 0;
  dst_addr = 255;
  src_addr = src_addr;
}

-- `create_route_broadcast_mip_header`
unfoldable pub create_route_broadcast_mip_header : ℕ → MipHeader
create_route_broadcast_mip_header src_addr = record {
  tra = 2;
  ttl = 15;
  payload_len = 0;
  dst_addr = 255;
  src_addr = src_addr;
}

-- `create_arp_response_mip_header`, of a request that is not NULL
unfoldable pub create_arp_response_mip_header : ℕ → MipHeader → MipHeader
create_arp_response_mip_header src_addr arp_request =
    record (create_arp_request_mip_header src_addr) { tra = 0; dst_addr = arp_request.src_addr }

-- `create_transport_mip_header`
unfoldable pub create_transport_mip_header : ℕ → ℕ → MipHeader
unfolding create_arp_request_mip_header
create_transport_mip_header src_addr dest_addr = record (create_arp_request_mip_header src_addr) {
  tra = 3;
  dst_addr = dest_addr;
}

-- `calculate_mip_payload_words`. `round` is applied to a quotient of integers.
unfoldable pub calculate_mip_payload_words : ℕ → ℕ
calculate_mip_payload_words message_size =
    if message_size % 4 == 0 then message_size / 4 else message_size / 4 + 1

-- `create_payload`: the outer option is an access past the end of `message`, the inner one the code -1.
-- The field `payload_len` has nine bits.
unfoldable pub create_payload : MipPackage → List ℕ → ℕ → Option (Option MipPackage)
create_payload p message message_size =
    let words = calculate_mip_payload_words message_size in
    if leb words payload_max_word_num
    then (do
      bytes ← read_at message 0 message_size
      block ← write_at (replicate (words * 4) 0) 0 bytes
      some (
          some (record p {
            message = some block;
            m_header = record (p.m_header) { payload_len = words % 2 ^ 9 };
          })))
    else some none

-- `MIPPackage_create`
unfoldable pub package_create : EtherFrame → MipHeader → List ℕ → ℕ → Option (Option MipPackage)
package_create e_frame m_header message message_size =
    let new_package : MipPackage = record {
      e_frame = e_frame;
      m_header = record m_header { payload_len = 0 };
      message = none;
    } in
    if ltb 0 message_size
    then create_payload new_package message message_size
    else some (some new_package)

-- `MIPPackage_create_from_addrs`. The message is not used: `MIPPackage_create` is given NULL and 0.
unfoldable pub package_create_from_addrs :
    ℕ → List ℕ → ℕ → List ℕ → List ℕ → ℕ → Option (Option MipPackage)
package_create_from_addrs src_mip src_pointer dst_mip dst_pointer _ _ =
    package_create (create_transport_ethernet_frame src_pointer dst_pointer)
      (create_transport_mip_header src_mip dst_mip) [] 0

-- `MIPPackage_create_raw`. The two MAC arguments only reach `create_transport_ethernet_frame`.
unfoldable pub package_create_raw :
    ℕ → List ℕ → ℕ → List ℕ → List ℕ → ℕ → ℕ → Option (Option MipPackage)
package_create_raw src_mip src_pointer dst_mip dst_pointer message message_size tra =
    if ltb tra 5
    then package_create (create_transport_ethernet_frame src_pointer dst_pointer)
        (record (create_transport_mip_header src_mip dst_mip) { tra = tra }) message message_size
    else some none

-- `MIPPackage_create_empty`
unfoldable pub package_create_empty : Option (Option MipPackage)
package_create_empty =
    package_create
      (record { dst_addr = replicate 6 0; src_addr = replicate 6 0; eth_proto = replicate 2 0 })
      (record { tra = 0; ttl = 0; payload_len = 0; dst_addr = 0; src_addr = 0 })
      (replicate (payload_max_word_num * 4) 0) (payload_max_word_num * 4)

-- `MIPPackage_create_mip_arp_request_packet`
unfoldable pub package_create_mip_arp_request : ℕ → List ℕ → Option (Option MipPackage)
package_create_mip_arp_request src_mip src_mac =
    package_create (create_ethernet_arp_frame_from_mac_addrs src_mac)
      (create_arp_request_mip_header src_mip) [] 0
