-- ===== src/Mipd/Interface.antt =====
-- The table of network interfaces, mipd/src/lib/interface.c. The entries in use are a list.
pub mod Setup
pub mod Loaded
mod Tests
use in4230_mip.Prelude.{
  ℕ, ◌+◌, Bool, true, false, List, [], ◌∷◌, if◌then◌else◌, ◌==◌, Code, minus_one, code,
}

-- `interface` is the MAC address in the table, `sll_addr` the one in `so_name`.
pub record InterfaceRecord : Type 0 where
  pub interface : List ℕ
  pub sll_addr : List ℕ
  pub mip_address : ℕ
  pub raw_socket : ℕ

abbrev pub empty_interface : InterfaceRecord
empty_interface = record { interface = []; sll_addr = []; mip_address = 0; raw_socket = 0 }

-- `is_socket_in_table`
unfoldable pub is_socket_in_table : List InterfaceRecord → ℕ → Bool
is_socket_in_table [] fd = false
is_socket_in_table (r ∷ rest) fd = if r.raw_socket == fd then true else is_socket_in_table rest fd

unfoldable pub pos_for_socket_loop : ℕ → List InterfaceRecord → ℕ → ℕ
pos_for_socket_loop i [] fd = 0
pos_for_socket_loop i (r ∷ rest) fd =
    if r.raw_socket == fd then i else pos_for_socket_loop (i + 1) rest fd

-- `get_interface_pos_for_socket`. A socket that is not in the table gives 0.
unfoldable pub get_interface_pos_for_socket : List InterfaceRecord → ℕ → ℕ
unfolding pos_for_socket_loop
get_interface_pos_for_socket table fd = pos_for_socket_loop 0 table fd

unfoldable pub pos_for_mip_address_loop : ℕ → List InterfaceRecord → ℕ → Code
pos_for_mip_address_loop i [] address = minus_one
pos_for_mip_address_loop i (r ∷ rest) address =
    if r.mip_address == address then code i else pos_for_mip_address_loop (i + 1) rest address

-- `get_interface_pos_for_mip_address`
unfoldable pub get_interface_pos_for_mip_address : List InterfaceRecord → ℕ → Code
unfolding pos_for_mip_address_loop
get_interface_pos_for_mip_address table address = pos_for_mip_address_loop 0 table address
