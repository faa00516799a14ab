-- ===== src/Miptpd/Window.antt =====
-- The sliding window, miptpd/src/lib/sliding_window.c. The fields are uint16_t.
use in4230_mip.Prelude.{
  ℕ, ◌+◌, ◌-◌, ◌%◌, ◌<◌, ◌≡◌, refl, sym, List, [], ◌∷◌, if◌then◌else◌, ltb, u16_mod, All, arith,
}

pub record SlidingWindow : Type 0 where
  pub window_size : ℕ
  pub sequence_base : ℕ
  pub sequence_max : ℕ

-- `SlidingWindow_create`: the maximum does not depend on the base.
unfoldable pub window_create : ℕ → ℕ → SlidingWindow
window_create sequence_base window_size = record {
  window_size = window_size;
  sequence_base = sequence_base;
  sequence_max = (window_size + 1) % u16_mod;
}

-- `SlidingWindow_update`
unfoldable pub window_update : SlidingWindow → ℕ → SlidingWindow
window_update window sequence_nr =
    if ltb window.sequence_base sequence_nr
    then record window {
      sequence_max = (window.sequence_max + u16_mod - window.sequence_base + sequence_nr) % u16_mod;
      sequence_base = sequence_nr;
    }
    else window

-- a window after the acknowledgements of a list, in order
pub acknowledged : SlidingWindow → List ℕ → SlidingWindow
acknowledged window [] = window
acknowledged window (nr ∷ rest) = acknowledged (window_update window nr) rest

-- the largest of a number and those of a list
unfoldable pub largest : ℕ → List ℕ → ℕ
largest n [] = n
largest n (m ∷ rest) = if ltb n m then largest m rest else largest n rest

step_width :
    (w : SlidingWindow) (k nr : ℕ)
    → w.sequence_base < u16_mod
    → nr < u16_mod
    → w.sequence_max ≡ (w.sequence_base + k) % u16_mod
    → (window_update w nr).sequence_max ≡ ((window_update w nr).sequence_base + k) % u16_mod
unfolding window_update
step_width w k nr hb hn h = ground arith

step_small :
    (w : SlidingWindow) (nr : ℕ)
    → w.sequence_base < u16_mod
    → nr < u16_mod
    → (window_update w nr).sequence_base < u16_mod
unfolding window_update
step_small w nr hb hn = ground arith

acknowledged_width :
    (w : SlidingWindow) (k : ℕ) (nrs : List ℕ)
    → w.sequence_base < u16_mod
    → w.sequence_max ≡ (w.sequence_base + k) % u16_mod
    → All (λ (nr : ℕ). nr < u16_mod) nrs
    → (acknowledged w nrs).sequence_max ≡ ((acknowledged w nrs).sequence_base + k) % u16_mod
unfolding acknowledged
acknowledged_width w k [] hb h hs = h
acknowledged_width w k (nr ∷ nrs) hb h hs =
    acknowledged_width (window_update w nr) k nrs (step_small w nr hb hs.0)
      (step_width w k nr hb hs.0 h) hs.1

acknowledged_base :
    (w : SlidingWindow) (nrs : List ℕ)
    → (acknowledged w nrs).sequence_base ≡ largest w.sequence_base nrs
unfolding acknowledged largest window_update
acknowledged_base w [] = refl
acknowledged_base w (nr ∷ nrs) = ground (arith, acknowledged_base (window_update w nr) nrs)

-- A window that starts at 0 stands, after any acknowledgements in any order, repeated and late ones
-- included, at the largest of them, and reaches as far beyond its base, modulo 2^16, as at the start.
pub acknowledged-largest :
    (window_size : ℕ) (nrs : List ℕ)
    → All (λ (nr : ℕ). nr < u16_mod) nrs
    → (acknowledged (window_create 0 window_size) nrs).sequence_base ≡ largest 0 nrs
      × (acknowledged (window_create 0 window_size) nrs).sequence_max
        ≡ (largest 0 nrs + (window_size + 1)) % u16_mod
unfolding window_create
acknowledged-largest window_size nrs hs =
    let start = window_create 0 window_size in
    (
      acknowledged_base start nrs,
      rw (sym (acknowledged_base start nrs))
          (acknowledged_width start (window_size + 1) nrs (omega arith) (omega arith) hs),
    )
