-- ===== src/Mipd/Interface/Setup.antt =====
-- How the table of interfaces comes about: mipd/src/lib/interface.c, and bind_table_to_raw_sockets of
-- mipd/src/main/mipd.c. The interfaces that `getifaddrs` lists and the codes of `socket`, `bind` and
-- `epoll_ctl` are given. `none` is a read past the end of a block.
use in4230_mip.Prelude.{
  ℕ, zero, suc, ◌+◌, ◌*◌, Option, none, some, List, [], ◌∷◌, ◌++◌, if◌then◌else◌, ltb, ◌==◌, length,
  take, get_or, value_le, u8_mod, ◌%◌, read_at, ◌>>=◌, Code, minus_one, code,
}
use in4230_mip.Mipd.Interface.{InterfaceRecord}

-- An entry before its socket is bound, when `raw_socket` may be -1. `so_name` is the hardware address
-- in the name it points to.
pub record UnboundRecord : Type 0 where
  pub interface : List ℕ
  pub so_name : List ℕ
  pub mip_address : ℕ
  pub raw_socket : Code

abbrev pub empty_unbound : UnboundRecord
empty_unbound = record { interface = []; so_name = []; mip_address = 0; raw_socket = code 0 }

-- `append_interface_table`
unfoldable pub append_interface_table : List UnboundRecord → List ℕ → Code × List UnboundRecord
append_interface_table table so_name = (
  code 1,
  table
      ++ record {
        interface = take 6 so_name;
        so_name = so_name;
        mip_address = 0;
        raw_socket = code 0;
      }
        ∷ [],
)

-- The loop of `interface_equal`, with the rounds left.
unfoldable pub equal_loop : ℕ → ℕ → List ℕ → List ℕ → ℕ
equal_loop zero i interface_1 interface_2 = i
equal_loop (suc rounds) i interface_1 interface_2 =
    let onward = equal_loop rounds (i + 1) interface_1 interface_2 in
    if get_or interface_1 i 0 == get_or interface_2 i 0 then onward else 0

-- `interface_equal`: 6 where all six bytes are equal, else 0
unfoldable pub interface_equal : List ℕ → List ℕ → ℕ
unfolding equal_loop
interface_equal interface_1 interface_2 = equal_loop 6 0 interface_1 interface_2

unfoldable pub get_interface_loop : ℕ → List UnboundRecord → List ℕ → Code × Option (List ℕ)
get_interface_loop i [] mac = (minus_one, none)
get_interface_loop i (r ∷ rest) mac =
    let onward = get_interface_loop (i + 1) rest mac in
    if interface_equal mac r.interface == 0 then onward else (code i, some r.so_name)

-- `get_interface`: the code, and the name that is copied out
unfoldable pub get_interface : List UnboundRecord → List ℕ → Code × Option (List ℕ)
unfolding get_interface_loop
get_interface table mac = get_interface_loop 0 table mac

-- `is_interface_in_table`: the position, or -1
unfoldable pub is_interface_in_table : List UnboundRecord → List ℕ → Code
unfolding get_interface_loop
is_interface_in_table table mac = (get_interface_loop 0 table mac).0

-- An entry of the list of `getifaddrs` that has an address of the family AF_PACKET, or another.
pub data Listed : Type 0 where
  packet_address : (sll_ifindex : ℕ) (sll_addr : List ℕ) → Listed
  other_address : Listed

-- `INTERFACE_BUFF_SIZE`
abbrev pub interface_buff_size : ℕ
interface_buff_size = 10

-- The loop of `collect_intefaces`, with the names collected: the loopback interface, of index 1, is
-- left out, and a full buffer is a failure.
unfoldable pub collect_loop : ℕ → List (List ℕ) → List Listed → Code × List (List ℕ)
collect_loop buffer_n names [] = (code (length names), names)
collect_loop buffer_n names (other_address ∷ rest) = collect_loop buffer_n names rest
collect_loop buffer_n names (packet_address sll_ifindex sll_addr ∷ rest) =
    let more = names ++ sll_addr ∷ [] in
    let onward = collect_loop buffer_n more rest in
    let skipped = collect_loop buffer_n names rest in
    if sll_ifindex == 1
    then skipped
    else if ltb (length more) buffer_n
    then onward
    else (minus_one, more)

-- `collect_intefaces`; `none` is a failure of `getifaddrs`
unfoldable pub collect_interfaces : ℕ → Option (List Listed) → Code × List (List ℕ)
unfolding collect_loop
collect_interfaces buffer_n none = (minus_one, [])
collect_interfaces buffer_n (some listed) = collect_loop buffer_n [] listed

unfoldable pub append_all : List UnboundRecord → List (List ℕ) → List UnboundRecord
unfolding append_interface_table
append_all table [] = table
append_all table (so_name ∷ rest) = append_all (append_interface_table table so_name).1 rest

unfoldable pub load : Code → List (List ℕ) → List UnboundRecord
unfolding append_all
load minus_one names = []
load (code n) names = append_all [] names

-- `create_loaded_interface_table`: a failure to collect leaves the table empty.
unfoldable pub create_loaded_interface_table : Option (List Listed) → List UnboundRecord
unfolding load
create_loaded_interface_table listed =
    let collected = collect_interfaces interface_buff_size listed in load collected.0 collected.1

-- The loop of `apply_mip_addresses`, with the addresses left. Its parameter is an array of pointers,
-- of which the lowest byte is the address.
unfoldable pub apply_loop : ℕ → ℕ → List UnboundRecord → List ℕ → Option (List UnboundRecord)
apply_loop i zero table mip_addresses = some []
apply_loop i (suc left) table mip_addresses = do
  pointer ← read_at mip_addresses (8 * i) 8
  rest ← apply_loop (i + 1) left table mip_addresses
  some (
      record (get_or table i empty_unbound) {
        mip_address = value_le pointer % u8_mod;
        raw_socket = minus_one;
      }
      ∷ rest)

-- `apply_mip_addresses`
unfoldable pub apply_mip_addresses : List UnboundRecord → List ℕ → ℕ → Option (List UnboundRecord)
unfolding apply_loop
apply_mip_addresses table mip_addresses num_addresses =
    apply_loop 0 num_addresses table mip_addresses

-- The end of a pass of the loop of `bind_table_to_raw_sockets`, by the codes of `socket` and `bind`.
unfoldable pub bind_one :
    Code → Code → UnboundRecord → Option (List InterfaceRecord) → Option (List InterfaceRecord)
bind_one minus_one bind_rc r rest = none
bind_one (code fd) minus_one r rest = none
bind_one (code fd) (code _) r rest = do
  bound ← rest
  some (
      record {
        interface = r.interface;
        sll_addr = r.so_name;
        mip_address = r.mip_address;
        raw_socket = fd;
      }
      ∷ bound)

-- `bind_table_to_raw_sockets`, by the codes for each position: the table where it returns 1, `none`
-- where it returns -1.
unfoldable pub bind_table_to_raw_sockets :
    (ℕ → Code) → (ℕ → Code) → ℕ → List UnboundRecord → Option (List InterfaceRecord)
unfolding bind_one
bind_table_to_raw_sockets socket_rc bind_rc i [] = some []
bind_table_to_raw_sockets socket_rc bind_rc i (r ∷ rest) =
    bind_one (socket_rc i) (bind_rc i) r (bind_table_to_raw_sockets socket_rc bind_rc (i + 1) rest)

-- `add_to_table_to_epoll`, by the code of `epoll_ctl` for a socket
unfoldable pub add_to_table_to_epoll : (ℕ → Code) → List InterfaceRecord → Code
add_to_table_to_epoll ctl_rc [] = code 0
add_to_table_to_epoll ctl_rc (r ∷ rest) =
    let onward = add_to_table_to_epoll ctl_rc rest in
    elim (ctl_rc r.raw_socket) [ minus_one ↦ minus_one | code _ ↦ onward ]

-- `close_open_sockets_on_table_interface`: the sockets that are closed, which are those that are not 0
unfoldable pub close_open_sockets : List InterfaceRecord → List ℕ
close_open_sockets [] = []
close_open_sockets (r ∷ rest) =
    let onward = close_open_sockets rest in
    if r.raw_socket == 0 then onward else r.raw_socket ∷ onward
