-- ===== src/Commons/Strings.antt =====
-- Strings of C as they lie in memory: a block of bytes, and a zero byte that ends the string. `none`
-- is a read past the end of the block.
use in4230_mip.Prelude.{
  ℕ, zero, suc, ◌<◌, min, ◌≡◌, ◌≢◌, refl, ap, Bool, true, false, Option, none, some, List, [], ◌∷◌,
  ◌++◌, if◌then◌else◌, ◌==◌, length, read_at, ◌>>=◌, All, arith,
}

-- `strnlen`
unfoldable pub strnlen : List ℕ → ℕ → Option ℕ
strnlen block zero = some 0
strnlen [] (suc n) = none
strnlen (b ∷ rest) (suc n) =
    let onward = strnlen rest n in if b == 0 then some 0 else (do k ← onward; some (suc k))

-- `strlen`
unfoldable pub strlen : List ℕ → Option ℕ
strlen [] = none
strlen (b ∷ rest) =
    let onward = strlen rest in if b == 0 then some 0 else (do k ← onward; some (suc k))

-- Whether `strncmp` finds a string, which has no zero byte, at the start of a block.
unfoldable pub starts_with : List ℕ → List ℕ → Option Bool
starts_with [] block = some true
starts_with (c ∷ cs) [] = none
starts_with (c ∷ cs) (b ∷ rest) =
    let onward = starts_with cs rest in if c == b then onward else some false

-- The bytes that `strncpy` copies from a block, less the zeros it adds.
unfoldable pub strncpy : List ℕ → ℕ → Option (List ℕ)
strncpy block n = do k ← strnlen block n; read_at block 0 k

-- a string and its end
abbrev pub c_string : List ℕ → List ℕ
c_string s = s ++ 0 ∷ []

-- bytes that are no end of a string
abbrev pub NoEnd : List ℕ → Type 0
NoEnd s = All (λ (b : ℕ). b ≢ 0) s

pub strnlen_string :
    (s : List ℕ) (n : ℕ) → NoEnd s → strnlen (c_string s) n ≡ some (min n (length s))
unfolding strnlen
strnlen_string s zero h = let e : 0 ≡ min 0 (length s) = omega arith in ap some e
strnlen_string [] (suc n) h = let e : 0 ≡ min (suc n) 0 = omega arith in ap some e
strnlen_string (b ∷ s) (suc n) h =
    let e : suc (min n (length s)) ≡ min (suc n) (suc (length s)) = omega arith in
    rw (strnlen_string s n h.1) (ground (arith, h.0, e))

pub strlen_string : (s : List ℕ) → NoEnd s → strlen (c_string s) ≡ some (length s)
unfolding strlen
strlen_string [] h = refl
strlen_string (b ∷ s) h = rw (strlen_string s h.1) (ground (arith, h.0))

-- A block without an end is read past.
pub strnlen_past : (s : List ℕ) (n : ℕ) → NoEnd s → length s < n → strnlen s n ≡ none
unfolding strnlen
strnlen_past s zero h long = absurd (omega arith)
strnlen_past [] (suc n) h long = refl
strnlen_past (b ∷ s) (suc n) h long = rw (strnlen_past s n h.1 (omega arith)) (ground (arith, h.0))
