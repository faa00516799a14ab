-- ===== src/Mipd/Arp/Expiry.antt =====
-- update_arp_cache: the loop that removes expired entries, against a filter.
use in4230_mip.Prelude.{
  ℕ, zero, suc, ◌+◌, ◌*◌, ◌≤◌, ◌<◌, ◌≡◌, refl, sym, ap, ◌∙◌, true, false, List, [], ◌∷◌, ◌++◌,
  if◌then◌else◌, ltb, leb, Bool, not, get_or, take, length, length-append, length-take, remove_at,
  Bool-cases, inl, inr, arith, Code,
}
use mathlib.Core.List.{append_assoc, append-nil}
use in4230_mip.Mipd.Arp.{
  CacheEntry, ArpCache, empty_entry, live, is_cache_entry_expired, remove_from_cache, expire_loop,
  should_complete_new_arp, complete_mip_arp, update_arp_cache,
}
use in4230_mip.Mipd.Interface.{InterfaceRecord}
use in4230_mip.Mipd.Arp.Shift.{remove_from_cache-remove_at}

-- The entries whose last update lies back no more than twice the update frequency. The clock is read
-- once for each, in order.
unfoldable pub unexpired : ℕ → (ℕ → ℕ) → ℕ → List CacheEntry → List CacheEntry
unexpired update_freq now r [] = []
unexpired update_freq now r (e ∷ es) =
    if leb (now r) (e.last_update + update_freq + update_freq)
    then e ∷ unexpired update_freq now (r + 1) es
    else unexpired update_freq now (r + 1) es

-- The test of the code is the opposite one.
expired-unexpired :
    (e : CacheEntry) (update_freq t : ℕ) (b : Bool)
    → is_cache_entry_expired e (update_freq * 2) t ≡ b
    → leb t (e.last_update + update_freq + update_freq) ≡ not b
unfolding is_cache_entry_expired
expired-unexpired e update_freq t true h = ground arith
expired-unexpired e update_freq t false h = ground arith

get_or-take :
    (n : ℕ) (xs pre : List CacheEntry) (e d : CacheEntry) (es : List CacheEntry)
    → take n xs ≡ pre ++ e ∷ es
    → get_or xs (length pre) d ≡ e
get_or-take zero xs [] e d es h = absurd cc
get_or-take zero xs (p ∷ pre) e d es h = absurd cc
get_or-take (suc n) [] [] e d es h = absurd cc
get_or-take (suc n) [] (p ∷ pre) e d es h = absurd cc
get_or-take (suc n) (x ∷ xs) [] e d es h = cc
get_or-take (suc n) (x ∷ xs) (p ∷ pre) e d es h = get_or-take n xs pre e d es cc

remove_at-append :
    (pre : List CacheEntry) (e : CacheEntry) (es : List CacheEntry)
    → remove_at (length pre) (pre ++ e ∷ es) ≡ pre ++ es
remove_at-append [] e es = refl
remove_at-append (p ∷ pre) e es = ap (◌∷◌ p) (remove_at-append pre e es)

length-live :
    (cache : ArpCache) → cache.size ≤ length cache.entries → length (live cache) ≡ cache.size
length-live cache h = length-take cache.size cache.entries ∙ omega arith

-- Entered at a place with the entries before it checked, the loop keeps those and the unexpired ones
-- of the rest.
expire_loop-unexpired :
    (fuel : ℕ) (now : ℕ → ℕ) (r : ℕ) (cache : ArpCache) (pre rest : List CacheEntry)
    → cache.size ≤ length cache.entries
    → live cache ≡ pre ++ rest
    → length rest ≤ fuel
    → live (expire_loop fuel now r (length pre) cache)
      ≡ pre ++ unexpired cache.update_freq now r rest
unfolding expire_loop unexpired remove_from_cache
expire_loop-unexpired zero now r cache pre [] bound split enough = split
expire_loop-unexpired zero now r cache pre (e ∷ es) bound split enough = absurd (omega arith)
expire_loop-unexpired (suc fuel) now r cache pre [] bound split enough =
    let size : length pre ≡ cache.size =
      ap length (sym (append-nil pre)) ∙ (ap length (sym split) ∙ length-live cache bound) in
    let stop : ltb (length pre) cache.size ≡ false = ground arith in rw (stop, expire_loop) split
expire_loop-unexpired (suc fuel) now r cache pre (e ∷ es) bound split enough =
    let size : length pre + length (e ∷ es) ≡ cache.size =
      sym (length-append pre (e ∷ es)) ∙ (ap length (sym split) ∙ length-live cache bound) in
    let inside : length pre < cache.size = omega arith in
    let go : ltb (length pre) cache.size ≡ true = ground arith in
    let here : get_or cache.entries (length pre) empty_entry ≡ e =
      get_or-take cache.size cache.entries pre e empty_entry es split in
    let gone = remove_from_cache-remove_at cache (length pre) inside bound in
    elim (Bool-cases (is_cache_entry_expired e (cache.update_freq * 2) (now r))) [
      | inl x ↦
          rw (go, expire_loop, here, x, expired-unexpired e cache.update_freq (now r) true x)
            (expire_loop-unexpired fuel now (r + 1) (remove_from_cache cache (length pre)) pre es
              (omega (arith, gone.1, gone.2))
              (gone.0 ∙ (ap (remove_at (length pre)) split ∙ remove_at-append pre e es))
              (omega arith))
      | inr x ↦
          let next : length (pre ++ e ∷ []) ≡ length pre + 1 = length-append pre (e ∷ []) in
          rw (go, expire_loop, here, x, expired-unexpired e cache.update_freq (now r) false x)
            (rw (sym next) (
              expire_loop-unexpired fuel now (r + 1) cache (pre ++ e ∷ []) es bound
                (split ∙ sym (append_assoc pre (e ∷ []) es)) (omega arith)
              ∙ append_assoc pre (e ∷ []) (unexpired cache.update_freq now (r + 1) es)))
    ]

complete_mip_arp-live :
    (send_rc : ℕ → Code) (now : ℕ) (table : List InterfaceRecord) (cache : ArpCache)
    → live (complete_mip_arp send_rc now table cache).1 ≡ live cache
unfolding complete_mip_arp
complete_mip_arp-live send_rc now table cache = ground arith

-- Updating a cache whose size is within its array, whatever the clock reads, whether or not a new
-- round of requests is due and whether or not its sends succeed: the entries in use afterwards are
-- those entries in use before, in the same order, whose last update lies back no more than twice the
-- update frequency at the reading of the clock for them.
pub update_arp_cache-unexpired :
    (now : ℕ → ℕ) (test_at stamp_at : ℕ) (send_rc : ℕ → Code) (table : List InterfaceRecord)
    (cache : ArpCache)
    → cache.size ≤ length cache.entries
    → live (update_arp_cache now test_at stamp_at send_rc table cache).1
      ≡ unexpired cache.update_freq now 0 (live cache)
unfolding update_arp_cache
update_arp_cache-unexpired now test_at stamp_at send_rc table cache bound =
    let aged = expire_loop cache.size now 0 0 cache in
    let rest : live aged ≡ unexpired cache.update_freq now 0 (live cache) =
      expire_loop-unexpired cache.size now 0 cache [] (live cache) bound refl
        (omega (arith, length-live cache bound)) in
    let kept = complete_mip_arp-live send_rc stamp_at table aged in
    elim (Bool-cases (should_complete_new_arp aged test_at)) [
      | inl e ↦ rw e (kept ∙ rest)
      | inr e ↦ rw e rest
    ]
