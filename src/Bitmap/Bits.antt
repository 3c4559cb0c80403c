-- ===== src/Bitmap/Bits.antt =====
-- include/astra/utils/PriceBitmap.hpp: single words, and the levels of the bitmap.
use astra_feed_engine.Prelude.{
  ℕ, zero, suc, ◌<◌, ◌≡◌, inl, inr, refl, ◌∙◌, ap, true, false, ◌==◌, Option, none, some, arith,
  if_elim, Bool-cases,
}
use astra_feed_engine.Bitmap.{Word, highest_below, bit_high, is_zero}

-- What the highest bit of a word below n is.
pub data HighestCases (n : ℕ) (w : Word) (o : Option ℕ) : Type 0 where
  no_bit : o ≡ none → ((j : ℕ) → j < n → w j ≡ false) → HighestCases n w o
  high_bit :
      (h : ℕ)
      → o ≡ some h
      → h < n
      → w h ≡ true
      → ((j : ℕ) → h < j → j < n → w j ≡ false)
      → HighestCases n w o

between : (n j : ℕ) → n < j → j < suc n → ⊥
between n j a b = omega arith

last_or : (n : ℕ) (w : Word) (j : ℕ) → w n ≡ false → j < suc n → (j < n → w j ≡ false) → w j ≡ false
last_or n w j miss h f = elim (Bool-cases (j == n)) [
  | inl e ↦ let same : j ≡ n = ground arith in ap w same ∙ miss
  | inr e ↦ f (ground arith)
]

extend :
    (n : ℕ) (w : Word) {o : Option ℕ} → w n ≡ false → HighestCases n w o → HighestCases (suc n) w o
extend n w {o} miss (no_bit e all) = no_bit e (λ j h. last_or n w j miss h (all j))
extend n w {o} miss (high_bit k e b hit all) =
    high_bit k e (omega arith) hit (λ j a h. last_or n w j miss h (all j a))

highest_below-cases : (n : ℕ) (w : Word) → HighestCases n w (highest_below n w)
unfolding highest_below
highest_below-cases zero w = no_bit refl (λ j h. elim h [ ])
highest_below-cases (suc n) w =
    if_elim (HighestCases (suc n) w) (w n)
      (λ hit. high_bit n refl (omega arith) hit (λ j a b. absurd (between n j a b)))
      λ miss. extend n w miss (highest_below-cases n w)

pub bit_high-cases : (w : Word) → HighestCases 64 w (bit_high w)
unfolding bit_high
bit_high-cases w = highest_below-cases 64 w

-- A word that is zero has none of its 64 bits.
pub is_zero-bit : (w : Word) (j : ℕ) → j < 64 → is_zero w ≡ true → w j ≡ false
unfolding is_zero
is_zero-bit w j h z = elim (bit_high-cases w) [
  | no_bit e all ↦ all j h
  | high_bit k e _ _ _ ↦ ground (arith, e)
]
