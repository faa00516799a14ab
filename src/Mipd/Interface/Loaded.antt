-- ===== src/Mipd/Interface/Loaded.antt =====
-- The table of interfaces as mipd/src/lib/interface.c loads it, and the addresses it gets from the
-- command line. The block for these has one byte for an interface in the daemon, and not a pointer
-- for an address: Mipd.Cli.Fetch.
use in4230_mip.Prelude.{
  ℕ, ◌+◌, ◌*◌, ◌%◌, ◌≤◌, ◌<◌, ◌≡◌, refl, sym, ap, ◌∙◌, true, some, List, [], ◌∷◌, ◌++◌, map,
  if◌then◌else◌, ltb, ◌==◌, length, length-append, drop, take, get_or, value_le, u8_mod,
  read_at-append, minus_one, code, arith, Bool-cases, inl, inr,
}
use mathlib.Core.List.{append_assoc, append-nil}
use in4230_mip.Mipd.Interface.Setup.{
  UnboundRecord, empty_unbound, append_interface_table, Listed, packet_address, other_address,
  collect_loop, collect_interfaces, append_all, load, create_loaded_interface_table, apply_loop,
  apply_mip_addresses,
}
use in4230_mip.Mipd.Cli.{pointer_bytes, fetch_mip_addresses, elements}
use in4230_mip.Mipd.Cli.Fetch.{fetch_mip_addresses-elements}

-- the hardware addresses that are no loopback's, in order
unfoldable pub outside : List Listed → List (List ℕ)
outside [] = []
outside (other_address ∷ rest) = outside rest
outside (packet_address sll_ifindex sll_addr ∷ rest) =
    let onward = outside rest in if sll_ifindex == 1 then onward else sll_addr ∷ onward

collect_loop_lem :
    (n : ℕ) (names : List (List ℕ)) (listed : List Listed)
    → length names < n
    → length names + length (outside listed) < n
    → collect_loop n names listed
      ≡ (code (length (names ++ outside listed)), names ++ outside listed)
unfolding collect_loop outside
collect_loop_lem n names [] room fits = rw (append-nil names) refl
collect_loop_lem n names (other_address ∷ rest) room fits = collect_loop_lem n names rest room fits
collect_loop_lem n names (packet_address i sll_addr ∷ rest) room fits = elim (Bool-cases (i == 1)) [
  | inl e ↦ rw e (collect_loop_lem n names rest room (ground (arith, fits)))
  | inr e ↦
      let more = names ++ sll_addr ∷ [] in
      let longer = length-append names (sll_addr ∷ []) in
      let low : ltb (length more) n ≡ true = ground (arith, fits, longer) in
      rw (e, low)
        (collect_loop_lem n more rest (ground (arith, fits, longer)) (ground (arith, fits, longer))
          ∙ rw (append_assoc names (sll_addr ∷ [])) refl)
]

collect_loop_full :
    (n : ℕ) (names : List (List ℕ)) (listed : List Listed)
    → length names < n
    → n ≤ length names + length (outside listed)
    → (collect_loop n names listed).0 ≡ minus_one
unfolding collect_loop outside
collect_loop_full n names [] room full = absurd (omega arith)
collect_loop_full n names (other_address ∷ rest) room full =
    collect_loop_full n names rest room full
collect_loop_full n names (packet_address i sll_addr ∷ rest) room full =
    elim (Bool-cases (i == 1)) [
      | inl e ↦ rw e (collect_loop_full n names rest room (ground (arith, full)))
      | inr e ↦
          let more = names ++ sll_addr ∷ [] in
          let longer = length-append names (sll_addr ∷ []) in
          elim (Bool-cases (ltb (length more) n)) [
            | inl low ↦
                rw (e, low)
                  (collect_loop_full n more rest (ground arith) (ground (arith, full, longer)))
            | inr high ↦ rw (e, high) refl
          ]
    ]

-- an entry as it is appended
abbrev pub fresh : List ℕ → UnboundRecord
fresh so_name = record {
  interface = take 6 so_name;
  so_name = so_name;
  mip_address = 0;
  raw_socket = code 0;
}

append_all_lem :
    (table : List UnboundRecord) (names : List (List ℕ))
    → append_all table names ≡ table ++ map fresh names
unfolding append_all append_interface_table
append_all_lem table [] = sym (append-nil table)
append_all_lem table (so_name ∷ rest) =
    append_all_lem (table ++ fresh so_name ∷ []) rest
    ∙ append_assoc table (fresh so_name ∷ []) (map fresh rest)

-- The table that the daemon starts with has one entry for each hardware address listed but the
-- loopback's, in order, with the first six bytes of it; where there are ten of them or more, it has
-- none at all.
pub create_loaded_interface_table_lem :
    (listed : List Listed)
    → create_loaded_interface_table (some listed)
      ≡ (if ltb (length (outside listed)) 10 then map fresh (outside listed) else [])
unfolding create_loaded_interface_table collect_interfaces load
create_loaded_interface_table_lem listed = elim (Bool-cases (ltb (length (outside listed)) 10)) [
  | inl e ↦ rw e (
      ap (λ c. load c.0 c.1) (collect_loop_lem 10 [] listed (omega arith) (ground arith))
      ∙ append_all_lem [] (outside listed))
  | inr e ↦ rw e (
      ap (λ c. load c (collect_loop 10 [] listed).1)
        (collect_loop_full 10 [] listed (omega arith) (ground arith)))
]

get_or-append :
    (pre rest : List UnboundRecord) (r : UnboundRecord)
    → get_or (pre ++ r ∷ rest) (length pre) empty_unbound ≡ r
get_or-append [] rest r = refl
get_or-append (p ∷ pre) rest r = get_or-append pre rest r

module _ (atoi : List ℕ → ℕ) where
  -- The interfaces that addresses are for, in order: each entry as it is, with its address modulo 2^8
  -- and no socket yet.
  unfoldable pub addressed : List UnboundRecord → List (List ℕ) → List UnboundRecord
  addressed table [] = []
  addressed [] (block ∷ blocks) = []
  addressed (r ∷ table) (block ∷ blocks) =
      record {
        interface = r.interface;
        so_name = r.so_name;
        mip_address = atoi block % u8_mod;
        raw_socket = minus_one;
      }
      ∷ addressed table blocks

  apply_loop-addressed :
      (before table : List UnboundRecord) (blocks : List (List ℕ)) (pre rest : List ℕ)
      → length blocks ≤ length table
      → 8 * length before ≡ length pre
      → apply_loop
          (length before)
          (length blocks)
          (before ++ table)
          (pre ++ (elements atoi blocks ++ rest))
        ≡ some (addressed table blocks)
  unfolding apply_loop addressed
  apply_loop-addressed before table [] pre rest few e = refl
  apply_loop-addressed before [] (block ∷ blocks) pre rest few e = absurd (omega arith)
  apply_loop-addressed before (r ∷ table) (block ∷ blocks) pre rest few e =
      let address = atoi block % u8_mod in
      let bytes = pointer_bytes address in
      let behind = elements atoi blocks ++ rest in
      let next = before ++ r ∷ [] in
      let onward =
        apply_loop-addressed next table blocks (pre ++ bytes) rest (omega arith)
          (omega (arith, e, length-append pre bytes, length-append before (r ∷ []))) in
      let place : length before + 1 ≡ length next = sym (length-append before (r ∷ [])) in
      let here : value_le bytes % u8_mod ≡ address = omega arith in
      rw
        (
          read_at-append pre bytes behind (8 * length before) 8 e refl,
          get_or-append before table r,
          here,
          place,
          sym (append_assoc before (r ∷ []) table),
          sym (append_assoc pre bytes behind),
          onward,
        )
        refl

  -- The addresses of the command line come to the interfaces. Where there are no more of them than
  -- interfaces, and the block for them has room for a pointer for each, what `fetch_mip_addresses`
  -- writes is what `apply_mip_addresses` reads: the new table has for each address, in order, the
  -- interface of its place, unchanged but for the address modulo 2^8 and a socket of -1.
  pub apply_mip_addresses-fetch_mip_addresses :
      (table : List UnboundRecord) (blocks : List (List ℕ)) (block : List ℕ)
      → length blocks ≤ length table
      → 8 * length blocks ≤ length block
      → (mip_addresses : List ℕ) × fetch_mip_addresses atoi blocks block (length table)
          ≡ some (code (length blocks), mip_addresses)
        × apply_mip_addresses table mip_addresses (length blocks) ≡ some (addressed table blocks)
  unfolding apply_mip_addresses
  apply_mip_addresses-fetch_mip_addresses table blocks block few room = (
    elements atoi blocks ++ drop (8 * length blocks) block,
    fetch_mip_addresses-elements atoi blocks block (length table) few room,
    apply_loop-addressed [] table blocks [] (drop (8 * length blocks) block) few refl,
  )
