-- ===== src/Mipd/Router/Broadcast.antt =====
-- broadcast_route_table of mipd and parse_broadcasted_table: what a neighbor reads of a broadcast.
use mathlib.Core.List.{append-nil}
use in4230_mip.Prelude.{
  ℕ, ◌*◌, ◌<◌, ◌≡◌, refl, sym, ap, ◌∙◌, Option, some, List, [], ◌∷◌, ◌++◌, length, read_at-append,
  value_le, le32, value_le-le32, u32_mod, All, arith,
}
use in4230_mip.Routerd.Table.{PackageEntry, TablePackage}
use in4230_mip.Mipd.Packaging.{MipPackage}
use in4230_mip.Mipd.Interface.{InterfaceRecord}
use in4230_mip.Mipd.Arp.{ArpCache, Sent}
use in4230_mip.Mipd.Router.Told.{told}
use in4230_mip.Mipd.Router.{
  entry_bytes, entries_bytes, table_bytes, parse_entry, parse_entries, parse_broadcasted_table,
}

-- the fields fit their widths
abbrev pub IsRow : PackageEntry → Type 0
IsRow e = (e.destination < 256) × (e.next_hop < 256) × (e.cost < u32_mod)

value_le_byte : (b : ℕ) → value_le (b ∷ []) ≡ b
value_le_byte b = omega arith

parse_entry-entry_bytes :
    (e : PackageEntry) (rest : List ℕ) → IsRow e → parse_entry (entry_bytes e ++ rest) ≡ some e
unfolding parse_entry entry_bytes IsRow
parse_entry-entry_bytes e rest h =
    let low = e.destination ∷ e.next_hop ∷ 0 ∷ 0 ∷ [] in
    rw
      (
        read_at-append [] (e.destination ∷ []) (e.next_hop ∷ 0 ∷ 0 ∷ (le32 e.cost ++ rest)) 0 1 refl
            refl,
        read_at-append (e.destination ∷ []) (e.next_hop ∷ []) (0 ∷ 0 ∷ (le32 e.cost ++ rest)) 1 1
            refl refl,
        read_at-append low (le32 e.cost) rest 4 4 refl refl,
        value_le-le32 e.cost h.2,
        value_le_byte e.destination,
        value_le_byte e.next_hop,
      )
      refl

length-entries_bytes : (es : List PackageEntry) → length (entries_bytes es) ≡ 8 * length es
unfolding entries_bytes
length-entries_bytes [] = refl
length-entries_bytes (e ∷ es) = omega (arith, length-entries_bytes es)

parse_entries-entries_bytes :
    (es : List PackageEntry) (rest : List ℕ)
    → All IsRow es
    → parse_entries (length es) (entries_bytes es ++ rest) ≡ some es
unfolding parse_entries entries_bytes
parse_entries-entries_bytes [] rest h = refl
parse_entries-entries_bytes (e ∷ es) rest h = rw (
  parse_entry-entry_bytes e (entries_bytes es ++ rest) h.0,
  parse_entries-entries_bytes es rest h.1,
)

-- the array is full, and the fields of its entries fit their widths
abbrev pub IsTablePackage : TablePackage → Type 0
IsTablePackage t = (length t.entries ≡ 64) × All IsRow t.entries

length-table_bytes : (t : TablePackage) → IsTablePackage t → length (table_bytes t) ≡ 514
unfolding table_bytes IsTablePackage
length-table_bytes t h = omega (arith, length-entries_bytes t.entries, h.0)

-- A message that starts with the bytes of a table package parses to that package, whatever follows.
pub parse_broadcasted_table-table_bytes :
    (t : TablePackage) (p : MipPackage) (rest : List ℕ)
    → IsTablePackage t
    → p.message ≡ some (table_bytes t ++ rest)
    → parse_broadcasted_table p ≡ some t
unfolding parse_broadcasted_table IsTablePackage table_bytes
parse_broadcasted_table-table_bytes t p rest h m =
    let entries = entries_bytes t.entries in
    let whole : parse_entries 64 entries ≡ some t.entries =
      ap (λ n. parse_entries n entries) (sym h.0)
      ∙ (ap (parse_entries (length t.entries)) (sym (append-nil entries))
          ∙ parse_entries-entries_bytes t.entries [] h.1) in
    rw
      (
        m,
        read_at-append [] (table_bytes t) rest 0 514 refl (sym (length-table_bytes t h)),
        read_at-append [] (t.table_address ∷ []) (t.num_entries ∷ entries) 0 1 refl refl,
        read_at-append (t.table_address ∷ []) (t.num_entries ∷ []) entries 1 1 refl refl,
        value_le_byte t.table_address,
        value_le_byte t.num_entries,
        whole,
      )
      refl

-- what a neighbor makes of a package on the wire: its transport, its two addresses, and its table
abbrev pub seen : Sent → ℕ × ℕ × ℕ × ℕ × Option TablePackage
seen sent = (
  sent.0,
  sent.1.m_header.tra,
  sent.1.m_header.dst_addr,
  sent.1.m_header.src_addr,
  parse_broadcasted_table sent.1,
)

abbrev pub meant : ArpCache → TablePackage → InterfaceRecord → ℕ × ℕ × ℕ × ℕ × Option TablePackage
meant cache t r = (r.raw_socket, 2, 255, r.mip_address, some (told cache t r))
