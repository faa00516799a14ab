-- ===== src/Prelude/Memory.antt =====
-- A block of memory as the list of its bytes: `memcpy` into it and out of it. `none` is an access
-- past the end.
use Prim.Native.Nat.{ℕ, zero, suc, ◌+◌, ◌*◌, ◌≤◌, ◌<◌}
use mathlib.Core.Path.{◌≡◌, refl, sym, ap, ◌∙◌}
use mathlib.Core.List.{List, [], ◌∷◌, ◌++◌, append-nil}
use mathlib.Core.Option.{Option, none, some}
use native.Mathlib.Nat.{zero-add, suc-add}
use native.Mathlib.Omega.{arith}
use in4230_mip.Prelude.Tests.{leb, le→leb, if◌then◌else◌}
use in4230_mip.Prelude.Words.{u16_mod, u32_mod, le16, le32}
use in4230_mip.Prelude.Lists.{length, take, drop, length-append, take-append, drop-append}

infixl 5 ◌>>=◌
abbrev pub ◌>>=◌ {ℓ κ} : {A : Type ℓ} {B : Type κ} → Option A → (A → Option B) → Option B
none >>= f = none
some a >>= f = f a

-- `memcpy(&block[offset], bytes, ...)`
unfoldable pub write_at : List ℕ → ℕ → List ℕ → Option (List ℕ)
write_at block offset bytes =
    if leb (offset + length bytes) (length block)
    then some (take offset block ++ (bytes ++ drop (offset + length bytes) block))
    else none

-- `memcpy(..., &block[offset], size)`
unfoldable pub read_at : List ℕ → ℕ → ℕ → Option (List ℕ)
read_at block offset size =
    if leb (offset + size) (length block) then some (take size (drop offset block)) else none

module _ {ℓ} {A : Type ℓ} where
  pub drop_more : (pre xs : List A) (m : ℕ) → drop (length pre + m) (pre ++ xs) ≡ drop m xs
  drop_more [] xs m = rw zero-add
  drop_more (x ∷ pre) xs m = rw suc-add (drop_more pre xs m)

pub write_at-append :
    (pre bytes rest : List ℕ) (k : ℕ)
    → k ≡ length pre
    → length bytes ≤ length rest
    → write_at (pre ++ rest) k bytes ≡ some (pre ++ (bytes ++ drop (length bytes) rest))
unfolding write_at
write_at-append pre bytes rest k e h =
    rw (e, le→leb _ _ fits, take-append pre rest, drop_more pre rest (length bytes))
  where
    fits : length pre + length bytes ≤ length (pre ++ rest)
    fits = omega (arith, length-append pre rest)

pub read_at-append :
    (pre mid rest : List ℕ) (k n : ℕ)
    → k ≡ length pre
    → n ≡ length mid
    → read_at (pre ++ (mid ++ rest)) k n ≡ some mid
unfolding read_at
read_at-append pre mid rest k n e f =
    rw (e, f, le→leb _ _ fits, drop-append pre (mid ++ rest), take-append mid rest)
  where
    fits : length pre + length mid ≤ length (pre ++ (mid ++ rest))
    fits = omega (arith, length-append pre (mid ++ rest), length-append mid rest)

-- An access that goes past the end faults.
pub write_at_past :
    (block : List ℕ) (k : ℕ) (bytes : List ℕ)
    → length block < k + length bytes
    → write_at block k bytes ≡ none
unfolding write_at
write_at_past block k bytes h = ground arith

-- The number that bytes stand for, low byte first.
abbrev pub value_le : List ℕ → ℕ
value_le [] = 0
value_le (b ∷ bs) = b + 256 * value_le bs

module _ {ℓ} {A : Type ℓ} where
  drop_nil : (n : ℕ) → drop {A = A} n [] ≡ []
  drop_nil zero = refl
  drop_nil (suc n) = refl

  pub drop-drop : (n m : ℕ) (xs : List A) → drop m (drop n xs) ≡ drop (n + m) xs
  drop-drop zero m xs = rw zero-add
  drop-drop (suc n) m [] = drop_nil m ∙ sym (drop_nil (suc n + m))
  drop-drop (suc n) m (x ∷ xs) = rw suc-add (drop-drop n m xs)

pub read_at_all : (xs : List ℕ) (n : ℕ) → n ≡ length xs → read_at xs 0 n ≡ some xs
read_at_all xs n e =
    ap (λ ys. read_at ys 0 n) (sym (append-nil xs)) ∙ read_at-append [] xs [] 0 n refl e

pub value_le-le16 : (n : ℕ) → n < u16_mod → value_le (le16 n) ≡ n
value_le-le16 n h = omega arith

pub value_le-le32 : (n : ℕ) → n < u32_mod → value_le (le32 n) ≡ n
value_le-le32 n h = omega arith

-- A read behind a prefix is a read of what follows it.
pub read_at_skip :
    (pre rest : List ℕ) (i k n : ℕ)
    → i ≡ length pre + k
    → read_at (pre ++ rest) i n ≡ read_at rest k n
unfolding read_at
read_at_skip pre rest i k n e =
    rw (e, drop_more pre rest k) (ground (arith, length-append pre rest))

pub read_at_past : (block : List ℕ) (k n : ℕ) → length block < k + n → read_at block k n ≡ none
unfolding read_at
read_at_past block k n h = ground arith

pub take_all {ℓ} : {A : Type ℓ} (n : ℕ) (xs : List A) → length xs ≤ n → take n xs ≡ xs
take_all zero [] h = refl
take_all zero (x ∷ xs) h = absurd (omega arith)
take_all (suc n) [] h = refl
take_all (suc n) (x ∷ xs) h = ap (◌∷◌ x) (take_all n xs (omega arith))

pub take_more {ℓ} :
    {A : Type ℓ} (pre xs : List A) (k : ℕ) → take (length pre + k) (pre ++ xs) ≡ pre ++ take k xs
take_more [] xs k = rw zero-add
take_more (x ∷ pre) xs k = rw suc-add (ap (◌∷◌ x) (take_more pre xs k))

pub read_at_within :
    (xs : List ℕ) (k n : ℕ) → k + n ≤ length xs → read_at xs k n ≡ some (take n (drop k xs))
unfolding read_at
read_at_within xs k n h = ground arith

pub take_nil {ℓ} : {A : Type ℓ} (n : ℕ) → take {A = A} n [] ≡ []
take_nil zero = refl
take_nil (suc n) = refl

pub take_sum {ℓ} :
    {A : Type ℓ} (n m : ℕ) (xs : List A) → take (n + m) xs ≡ take n xs ++ take m (drop n xs)
take_sum zero m xs = rw zero-add refl
take_sum (suc n) m [] = rw suc-add (sym (take_nil m))
take_sum (suc n) m (x ∷ xs) = rw suc-add (ap (◌∷◌ x) (take_sum n m xs))

pub drop_all {ℓ} : {A : Type ℓ} (n : ℕ) (xs : List A) → length xs ≤ n → drop n xs ≡ []
drop_all zero [] h = refl
drop_all zero (x ∷ xs) h = absurd (omega arith)
drop_all (suc n) [] h = refl
drop_all (suc n) (x ∷ xs) h = drop_all n xs (omega arith)

pub take_within {ℓ} :
    {A : Type ℓ} (n : ℕ) (xs ys : List A) → n ≤ length xs → take n (xs ++ ys) ≡ take n xs
take_within zero xs ys h = refl
take_within (suc n) [] ys h = absurd (omega arith)
take_within (suc n) (x ∷ xs) ys h = ap (◌∷◌ x) (take_within n xs ys (omega arith))
