-- ===== src/Mipd/Arp/Shift.antt =====
-- remove_from_cache: the loop that closes the gap is the removal of one element.
use in4230_mip.Prelude.{
  ℕ, zero, suc, ◌+◌, ◌-◌, ◌≤◌, ◌<◌, ◌≡◌, refl, sym, ap, ◌∙◌, List, [], ◌∷◌, ◌==◌, get_or, set, take,
  length, length-set, remove_at, Bool-cases, inl, inr, arith, ==_iff,
}
use native.Mathlib.Nat.{zero-add}
use in4230_mip.Mipd.Arp.{CacheEntry, ArpCache, empty_entry, live, shift_loop, remove_from_cache}

-- Below its first place the loop leaves the array alone.
shift_loop-cons :
    (n j : ℕ) (x : CacheEntry) (es : List CacheEntry)
    → shift_loop n (suc (suc j)) (x ∷ es) ≡ x ∷ shift_loop n (suc j) es
unfolding shift_loop
shift_loop-cons zero j x es = refl
shift_loop-cons (suc n) j x es =
    let two : suc (suc j) - 1 ≡ suc j = omega arith in
    let one : suc j - 1 ≡ j = omega arith in
    rw (two, one) (shift_loop-cons n (suc j) x (set es j (get_or es (suc j) empty_entry)))

-- From the front, it moves the elements behind the first one place down.
take-shift_loop :
    (n : ℕ) (x : CacheEntry) (es : List CacheEntry)
    → n ≤ length es
    → take n (shift_loop n 1 (x ∷ es)) ≡ take n es
unfolding shift_loop
take-shift_loop zero x es h = refl
take-shift_loop (suc n) x [] h = absurd (omega arith)
take-shift_loop (suc n) x (y ∷ es) h =
    rw (shift_loop-cons n 0 y (y ∷ es)) (ap (◌∷◌ y) (take-shift_loop n y es (omega arith)))

length-shift_loop : (n i : ℕ) (es : List CacheEntry) → length (shift_loop n i es) ≡ length es
unfolding shift_loop
length-shift_loop zero i es = refl
length-shift_loop (suc n) i es =
    length-shift_loop n (suc i) (set es (i - 1) (get_or es i empty_entry))
    ∙ length-set es (i - 1) (get_or es i empty_entry)

-- At any place in use, it removes the element there.
take-shift_loop-remove_at :
    (pos n : ℕ) (es : List CacheEntry)
    → suc pos + n ≤ length es
    → take (pos + n) (shift_loop n (suc pos) es) ≡ remove_at pos (take (suc pos + n) es)
take-shift_loop-remove_at pos n [] h = absurd (omega arith)
take-shift_loop-remove_at zero n (x ∷ es) h =
    let one : 1 + n ≡ suc n = omega arith in
    rw (zero-add, one) (take-shift_loop n x es (omega arith))
take-shift_loop-remove_at (suc pos) n (x ∷ es) h =
    let left : suc pos + n ≡ suc (pos + n) = omega arith in
    let right : suc (suc pos) + n ≡ suc (suc pos + n) = omega arith in
    rw (left, right, shift_loop-cons n pos x es)
      (ap (◌∷◌ x) (take-shift_loop-remove_at pos n es (omega arith)))

-- A write past the elements taken is not seen.
take-set {ℓ} :
    {A : Type ℓ} (n i : ℕ) (xs : List A) (v : A) → n ≤ i → take n (set xs i v) ≡ take n xs
take-set zero i xs v h = refl
take-set (suc n) i [] v h = refl
take-set (suc n) zero (x ∷ xs) v h = absurd (omega arith)
take-set (suc n) (suc i) (x ∷ xs) v h = ap (◌∷◌ x) (take-set n i xs v (omega arith))

remove_at_last {ℓ} :
    {A : Type ℓ} (n : ℕ) (xs : List A)
    → suc n ≤ length xs
    → take n xs ≡ remove_at n (take (suc n) xs)
remove_at_last n [] h = absurd (omega arith)
remove_at_last zero (x ∷ xs) h = refl
remove_at_last (suc n) (x ∷ xs) h = ap (◌∷◌ x) (remove_at_last n xs (omega arith))

-- Removing a position in use removes that element from the cache, keeps the order of the others, and
-- leaves the array with its length.
pub remove_from_cache-remove_at :
    (cache : ArpCache) (pos : ℕ)
    → pos < cache.size
    → cache.size ≤ length cache.entries
    → live (remove_from_cache cache pos) ≡ remove_at pos (live cache)
      × (remove_from_cache cache pos).size ≡ cache.size - 1
      × length (remove_from_cache cache pos).entries ≡ length cache.entries
unfolding remove_from_cache
remove_from_cache-remove_at cache pos h bound = elim (Bool-cases (pos == cache.size - 1)) [
  | inl e ↦
      let same : pos ≡ cache.size - 1 = grind (arith, ==_iff, e) in
      let size : suc pos ≡ cache.size = omega arith in
      rw e (
        take-set (cache.size - 1) (cache.size - 1) cache.entries empty_entry (omega arith)
            ∙ (rw (sym same) (remove_at_last pos cache.entries (omega arith))
                ∙ ap (λ k. remove_at pos (take k cache.entries)) size),
        refl,
        length-set cache.entries (cache.size - 1) empty_entry,
      )
  | inr e ↦
      let rounds : ℕ = cache.size - suc pos in
      let front : pos + (cache.size - suc pos) ≡ cache.size - 1 = omega arith in
      let whole : suc pos + (cache.size - suc pos) ≡ cache.size = omega arith in
      let moved = shift_loop rounds (suc pos) cache.entries in
      rw e (
        take-set (cache.size - 1) (cache.size - 1) moved empty_entry (omega arith)
            ∙ (ap (λ k. take k moved) (sym front)
                ∙ (take-shift_loop-remove_at pos rounds cache.entries (omega arith)
                    ∙ ap (λ k. remove_at pos (take k cache.entries)) whole)),
        refl,
        length-set moved (cache.size - 1) empty_entry
            ∙ length-shift_loop rounds (suc pos) cache.entries,
      )
]
