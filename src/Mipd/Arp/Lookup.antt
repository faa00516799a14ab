-- ===== src/Mipd/Arp/Lookup.antt =====
-- append_to_cache against the queries by MIP address.
use in4230_mip.Prelude.{
  ℕ, zero, suc, ◌+◌, ◌-◌, ◌≤◌, ◌<◌, ◌≡◌, refl, sym, ap, ◌∙◌, Bool, true, false, Option, none, some,
  List, [], ◌∷◌, ◌++◌, if◌then◌else◌, ltb, ◌==◌, set, take, length, length-set, length-take,
  Bool-cases, inl, inr, arith, Code, code,
}
use in4230_mip.Mipd.Arp.{
  CacheEntry, ArpCache, live, pos_loop, query_mip_address_pos, src_socket_loop,
  query_mip_address_src_socket, store_entry, append_to_cache,
}

-- the first entry for an address, by either query
unfoldable pub entry_for : List CacheEntry → ℕ → Option CacheEntry
entry_for [] a = none
entry_for (e ∷ es) a = if a == e.mip_address then some e else entry_for es a

socket_of : Option CacheEntry → Option ℕ
socket_of none = none
socket_of (some e) = some e.src_socket

src_socket_loop-entry_for :
    (es : List CacheEntry) (a : ℕ) → src_socket_loop es a ≡ socket_of (entry_for es a)
unfolding src_socket_loop entry_for socket_of
src_socket_loop-entry_for [] a = refl
src_socket_loop-entry_for (e ∷ es) a = elim (Bool-cases (a == e.mip_address)) [
  | inl h ↦ rw h refl
  | inr h ↦ rw h (src_socket_loop-entry_for es a)
]

-- Where the position query answers, it answers a place of the array that the write replaces.
entry_for-set :
    (i : ℕ) (es : List CacheEntry) (a x : ℕ) (new : CacheEntry) (p : ℕ)
    → pos_loop i es a ≡ some p
    → new.mip_address ≡ a
    → i ≤ p
      × p < i + length es
      × entry_for (set es (p - i) new) x ≡ (if x == a then some new else entry_for es x)
unfolding pos_loop entry_for
entry_for-set i [] a x new p h same = absurd cc
entry_for-set i (e ∷ es) a x new p h same = elim (Bool-cases (a == e.mip_address)) [
  | inl here ↦
      let first : i ≡ p = cc (h, ap (λ b. if b then some i else pos_loop (i + 1) es a) here) in
      let place : p - i ≡ 0 = omega arith in (omega arith, omega arith, rw place (ground arith))
  | inr there ↦
      let later : pos_loop (i + 1) es a ≡ some p =
        cc (h, ap (λ b. if b then some i else pos_loop (i + 1) es a) there) in
      let found = entry_for-set (i + 1) es a x new p later same in
      let place : p - i ≡ suc (p - (i + 1)) = omega (arith, found.0) in
      (omega (arith, found.0), omega (arith, found.1), rw place (ground (arith, found.2)))
]

entry_for-append :
    (i : ℕ) (es : List CacheEntry) (a x : ℕ) (new : CacheEntry)
    → pos_loop i es a ≡ none
    → new.mip_address ≡ a
    → entry_for (es ++ new ∷ []) x ≡ (if x == a then some new else entry_for es x)
unfolding pos_loop entry_for
entry_for-append i [] a x new h same = ground arith
entry_for-append i (e ∷ es) a x new h same = ground (arith, entry_for-append (i + 1) es a x new)

take-set {ℓ} :
    {A : Type ℓ} (n i : ℕ) (xs : List A) (v : A) → take n (set xs i v) ≡ set (take n xs) i v
take-set zero i xs v = refl
take-set (suc n) i [] v = refl
take-set (suc n) zero (x ∷ xs) v = refl
take-set (suc n) (suc i) (x ∷ xs) v = ap (◌∷◌ x) (take-set n i xs v)

take-set_end {ℓ} :
    {A : Type ℓ} (n : ℕ) (xs : List A) (v : A)
    → n < length xs
    → take (suc n) (set xs n v) ≡ take n xs ++ v ∷ []
take-set_end n [] v h = absurd (omega arith)
take-set_end zero (x ∷ xs) v h = refl
take-set_end (suc n) (x ∷ xs) v h = ap (◌∷◌ x) (take-set_end n xs v (omega arith))

-- the entry an append stores
pub stamped_entry : ℕ → ℕ → List ℕ → ℕ → CacheEntry
stamped_entry src_socket mip_address interface now = record {
  mip_address = mip_address;
  src_socket = src_socket;
  dst_interface = take 6 interface;
  last_update = now;
}

-- The code is a place and the number of entries stays, where there was an entry; without one both are
-- the number of entries and one.
abbrev pub StoredAt : ArpCache → Code × ArpCache → Option CacheEntry → Type 0
StoredAt cache out (some held) =
    ((p : ℕ) × (out.0 ≡ code p) × p < cache.size) × out.1.size ≡ cache.size
StoredAt cache out none = (out.0 ≡ code (cache.size + 1)) × out.1.size ≡ cache.size + 1

entry_for-pos_loop :
    (i : ℕ) (es : List CacheEntry) (a : ℕ) → pos_loop i es a ≡ none → entry_for es a ≡ none
unfolding pos_loop entry_for
entry_for-pos_loop i [] a h = refl
entry_for-pos_loop i (e ∷ es) a h = ground (arith, entry_for-pos_loop (i + 1) es a)

entry_at-pos_loop :
    (i : ℕ) (es : List CacheEntry) (a p : ℕ)
    → pos_loop i es a ≡ some p
    → (held : CacheEntry) × entry_for es a ≡ some held
unfolding pos_loop entry_for
entry_at-pos_loop i [] a p h = absurd cc
entry_at-pos_loop i (e ∷ es) a p h = elim (Bool-cases (a == e.mip_address)) [
  | inl here ↦ (e, rw here refl)
  | inr there ↦
      let later = entry_at-pos_loop (i + 1) es a p (ground (arith, h)) in
      (later.0, rw there later.1)
]

-- By the answer of the position query: the new entry is found under its address, any other address
-- is looked up as before.
store_entry-entry_for :
    (cache : ArpCache) (new : CacheEntry) (pos : Option ℕ) (x : ℕ)
    → cache.size < length cache.entries
    → query_mip_address_pos cache new.mip_address ≡ pos
    → (out : Code × ArpCache) × store_entry cache new pos ≡ some out
      × entry_for (live out.1) x
        ≡ (if x == new.mip_address then some new else entry_for (live cache) x)
      × out.1.size ≤ length out.1.entries
      × length out.1.entries ≡ length cache.entries
      × StoredAt cache out (entry_for (live cache) new.mip_address)
unfolding store_entry query_mip_address_pos
store_entry-entry_for cache new none x room q =
    let free : ltb cache.size (length cache.entries) ≡ true = ground arith in
    let one : cache.size + 1 ≡ suc cache.size = omega arith in
    (
      (
        code (cache.size + 1),
        record cache { entries = set cache.entries cache.size new; size = cache.size + 1 },
      ),
      rw free refl,
      ap (λ k. entry_for (take k (set cache.entries cache.size new)) x) one
          ∙ (ap (λ es. entry_for es x) (take-set_end cache.size cache.entries new room)
              ∙ entry_for-append 0 (live cache) new.mip_address x new q refl),
      omega (arith, length-set cache.entries cache.size new),
      length-set cache.entries cache.size new,
      rw (entry_for-pos_loop 0 (live cache) new.mip_address q) (refl, refl),
    )
store_entry-entry_for cache new (some p) x room q =
    let found = entry_for-set 0 (live cache) new.mip_address x new p q refl in
    let place : p - 0 ≡ p = omega arith in
    (
      (code p, record cache { entries = set cache.entries p new }),
      refl,
      ap (λ es. entry_for es x) (take-set cache.size p cache.entries new)
          ∙ (ap (λ k. entry_for (set (live cache) k new) x) (sym place) ∙ found.2),
      omega (arith, length-set cache.entries p new),
      length-set cache.entries p new,
      rw (entry_at-pos_loop 0 (live cache) new.mip_address p q).1
          ((p, refl, omega (arith, found.1, length-take cache.size cache.entries)), refl),
    )

socket_of-if :
    (b : Bool) (e : CacheEntry) (o : Option CacheEntry)
    → socket_of (if b then some e else o) ≡ (if b then some e.src_socket else socket_of o)
unfolding socket_of
socket_of-if true e o = refl
socket_of-if false e o = refl

-- Appending an entry for an address other than 255 to a cache with a free place returns a place in
-- use where there was an entry for the address, and then the number of entries stays; else it returns
-- the number of entries and one, which is the number afterwards. The socket for that address is then
-- the appended one, every other address has the socket it had, and the entries in use still lie
-- within the array, which keeps its length.
pub query-append_to_cache :
    (cache : ArpCache) (src_socket mip_address : ℕ) (interface : List ℕ) (now x : ℕ)
    → cache.size < length cache.entries
    → (mip_address == 255) ≡ false
    → (out : Code × ArpCache) × append_to_cache cache src_socket mip_address interface now
        ≡ some out
      × query_mip_address_src_socket out.1 x
        ≡ (if x == mip_address then some src_socket else query_mip_address_src_socket cache x)
      × out.1.size ≤ length out.1.entries
      × length out.1.entries ≡ length cache.entries
      × StoredAt cache out (entry_for (live cache) mip_address)
unfolding append_to_cache query_mip_address_src_socket stamped_entry
query-append_to_cache cache src_socket mip_address interface now x room unicast =
    let new = stamped_entry src_socket mip_address interface now in
    let stored =
      store_entry-entry_for cache new (query_mip_address_pos cache mip_address) x room refl in
    (
      stored.0,
      rw unicast stored.1,
      src_socket_loop-entry_for (live stored.0.1) x
          ∙ (ap socket_of stored.2
              ∙ (socket_of-if (x == mip_address) new (entry_for (live cache) x)
                  ∙ ap (λ o. if x == mip_address then some src_socket else o)
                      (sym (src_socket_loop-entry_for (live cache) x)))),
      stored.3,
      stored.4,
      stored.5,
    )
