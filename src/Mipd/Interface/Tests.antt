-- ===== src/Mipd/Interface/Tests.antt =====
-- The interfaces and the command line of the link daemon at concrete inputs.
use in4230_mip.Prelude.{
  ℕ, ◌-◌, ◌≡◌, none, some, List, [], ◌∷◌, if◌then◌else◌, ltb, length, map, replicate, minus_one,
  code, arith,
}
use in4230_mip.Mipd.Interface.Setup.{
  UnboundRecord, Listed, packet_address, other_address, create_loaded_interface_table,
  apply_mip_addresses,
}
use in4230_mip.Mipd.Interface.Loaded.{
  outside, fresh, addressed, create_loaded_interface_table_lem,
  apply_mip_addresses-fetch_mip_addresses,
}
use in4230_mip.Mipd.Cli.{fetch_mip_addresses}
use in4230_mip.Mipd.Cli.Fetch.{fetch_mip_addresses_lem}

-- a digit and the end of the string
abbrev digit : List ℕ → ℕ
digit [] = 0
digit (b ∷ rest) = b - 48

-- one address for each of two interfaces: the block has two bytes
fetch_mip_addresses_lem_example :
    fetch_mip_addresses digit ((49 ∷ 0 ∷ []) ∷ (50 ∷ 0 ∷ []) ∷ []) (replicate 2 0) 2 ≡ none
fetch_mip_addresses_lem_example =
    fetch_mip_addresses_lem digit ((49 ∷ 0 ∷ []) ∷ (50 ∷ 0 ∷ []) ∷ []) 2 (omega arith)

abbrev interface : ℕ → UnboundRecord
interface b = record {
  interface = replicate 6 b;
  so_name = replicate 6 b;
  mip_address = 0;
  raw_socket = code 0;
}

apply_mip_addresses-fetch_mip_addresses_example :
    (mip_addresses : List ℕ) × fetch_mip_addresses digit
        ((49 ∷ 0 ∷ []) ∷ (50 ∷ 0 ∷ []) ∷ [])
        (replicate 16 0)
        2
      ≡ some (code 2, mip_addresses)
    × apply_mip_addresses (interface 7 ∷ interface 8 ∷ []) mip_addresses 2
      ≡ some (
          record (interface 7) { mip_address = 1; raw_socket = minus_one }
          ∷ record (interface 8) { mip_address = 2; raw_socket = minus_one }
          ∷ [])
unfolding addressed
apply_mip_addresses-fetch_mip_addresses_example =
    apply_mip_addresses-fetch_mip_addresses digit (interface 7 ∷ interface 8 ∷ [])
      ((49 ∷ 0 ∷ []) ∷ (50 ∷ 0 ∷ []) ∷ []) (replicate 16 0) (omega arith) (omega arith)

abbrev two_interfaces : List Listed
two_interfaces =
    packet_address 1 (0 ∷ 0 ∷ 0 ∷ 0 ∷ 0 ∷ 0 ∷ [])
    ∷ other_address
    ∷ packet_address 2 (1 ∷ 2 ∷ 3 ∷ 4 ∷ 5 ∷ 6 ∷ [])
    ∷ []

create_loaded_interface_table_lem_example :
    create_loaded_interface_table (some two_interfaces)
    ≡ (if ltb (length (outside two_interfaces)) 10 then map fresh (outside two_interfaces) else [])
create_loaded_interface_table_lem_example = create_loaded_interface_table_lem two_interfaces
