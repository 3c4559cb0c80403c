-- ===== src/Bitmap.antt =====
-- include/astra/utils/PriceBitmap.hpp: the set of occupied prices of a page, a bitmap with two levels of
-- summaries. A 64-bit word is the function that tells its bits, of which 0 to 63 count; a mask is such
-- a function too. kInvalid is none.
pub mod Bits
pub mod Search
pub mod Summaries
pub mod Lowest
use astra_feed_engine.Prelude.{
  ℕ, zero, suc, ◌+◌, ◌-◌, ◌*◌, ◌/◌, ◌%◌, Bool, true, false, not, ◌&&◌, Option, none, some, ltb, leb,
  if◌then◌else◌, update,
}

abbrev pub Word : Type 0
Word = ℕ → Bool

pub record PriceBitmapStorage : Type 0 where
  pub l0 : ℕ → Word
  pub l1 : ℕ → Word
  pub l2 : Word

abbrev pub num_bits : ℕ
num_bits = 65536

abbrev pub l1_words : ℕ
l1_words = 16

abbrev pub and_word : Word → Word → Word
and_word a b i = a i && b i

-- The highest bit of a word below n; at 64, bitHigh of a word that is not zero.
unfoldable pub highest_below : ℕ → Word → Option ℕ
highest_below zero w = none
highest_below (suc n) w = let rest = highest_below n w in if w n then some n else rest

-- none when the word is zero.
unfoldable pub bit_high : Word → Option ℕ
bit_high w = highest_below 64 w

unfoldable pub is_zero : Word → Bool
is_zero w = elim (bit_high w) [ none ↦ true | some _ ↦ false ]

abbrev pub mask_at_or_below : ℕ → Word
mask_at_or_below bit i = leb i bit

abbrev pub mask_below : ℕ → Word
mask_below bit i = ltb i bit

-- kValidL2Mask
abbrev pub valid_l2_mask : Word
valid_l2_mask i = ltb i l1_words

unfoldable pub clear : PriceBitmapStorage
clear = record { l0 = λ _ _. false; l1 = λ _ _. false; l2 = λ _. false }

-- words[w] |= 1 << b, and words[w] &= ~(1 << b).
abbrev pub write_bit : (ℕ → Word) → ℕ → ℕ → Bool → ℕ → Word
write_bit words w b value = update words w (update (words w) b value)

unfoldable pub set : ℕ → PriceBitmapStorage → PriceBitmapStorage
set idx s =
    let w0 = idx / 64 in
    let w1 = w0 / 64 in
    record {
      l0 = write_bit s.l0 w0 (idx % 64) true;
      l1 = write_bit s.l1 w1 (w0 % 64) true;
      l2 = update s.l2 w1 true;
    }

-- The summaries of reset, once the word w0 is zero.
unfoldable pub reset_summaries : ℕ → PriceBitmapStorage → PriceBitmapStorage
reset_summaries w0 s =
    let w1 = w0 / 64 in
    let cleared = record s { l1 = write_bit s.l1 w1 (w0 % 64) false } in
    if not (is_zero (cleared.l1 w1)) then cleared else record cleared { l2 = update s.l2 w1 false }

unfoldable pub reset : ℕ → PriceBitmapStorage → PriceBitmapStorage
reset idx s =
    let w0 = idx / 64 in
    let cleared = record s { l0 = write_bit s.l0 w0 (idx % 64) false } in
    if not (is_zero (cleared.l0 w0)) then cleared else reset_summaries w0 cleared

unfoldable pub test : ℕ → PriceBitmapStorage → Bool
test idx s = s.l0 (idx / 64) (idx % 64)

unfoldable pub empty : PriceBitmapStorage → Bool
empty s = is_zero (and_word s.l2 valid_l2_mask)

-- The highest bit of the word w0, as an index.
unfoldable pub highest_in : ℕ → PriceBitmapStorage → Option ℕ
highest_in w0 s = elim (bit_high (s.l0 w0)) [ none ↦ none | some h ↦ some (w0 * 64 + h) ]

-- The search above the word w1 of the first summary.
unfoldable pub find_in_l2 : ℕ → PriceBitmapStorage → Option ℕ
find_in_l2 w1 s = elim (bit_high (and_word (and_word s.l2 valid_l2_mask) (mask_below w1))) [
  | none ↦ none
  | some previous_w1 ↦ elim (bit_high (s.l1 previous_w1)) [
    | none ↦ none
    | some h ↦ highest_in (previous_w1 * 64 + h) s
  ]
]

-- The search below the word w0.
unfoldable pub find_in_l1 : ℕ → PriceBitmapStorage → Option ℕ
find_in_l1 w0 s = elim (bit_high (and_word (s.l1 (w0 / 64)) (mask_below (w0 % 64)))) [
  | none ↦ find_in_l2 (w0 / 64) s
  | some h ↦ highest_in (w0 / 64 * 64 + h) s
]

abbrev pub clamped : ℕ → ℕ
clamped idx = if leb num_bits idx then num_bits - 1 else idx

unfoldable pub find_highest_at_or_below : ℕ → PriceBitmapStorage → Option ℕ
find_highest_at_or_below index s =
    let idx = clamped index in
    elim (bit_high (and_word (s.l0 (idx / 64)) (mask_at_or_below (idx % 64)))) [
      | none ↦ find_in_l1 (idx / 64) s
      | some h ↦ some (idx / 64 * 64 + h)
    ]

-- The lowest bit of a word from `start` on; from 0, countr_zero of a word that is not zero.
unfoldable pub lowest_from : ℕ → ℕ → Word → Option ℕ
lowest_from zero start w = none
lowest_from (suc n) start w =
    let rest = lowest_from n (start + 1) w in if w start then some start else rest

-- none when the word is zero.
unfoldable pub bit_low : Word → Option ℕ
bit_low w = lowest_from 64 0 w

abbrev pub mask_at_or_above : ℕ → Word
mask_at_or_above bit i = leb bit i

abbrev pub mask_above : ℕ → Word
mask_above bit i = ltb bit i

-- The lowest bit of the word w0, as an index.
unfoldable pub lowest_in : ℕ → PriceBitmapStorage → Option ℕ
lowest_in w0 s = elim (bit_low (s.l0 w0)) [ none ↦ none | some h ↦ some (w0 * 64 + h) ]

-- The search above the word w1 of the first summary.
unfoldable pub find_above_in_l2 : ℕ → PriceBitmapStorage → Option ℕ
find_above_in_l2 w1 s = elim (bit_low (and_word (and_word s.l2 valid_l2_mask) (mask_above w1))) [
  | none ↦ none
  | some next_w1 ↦ elim (bit_low (s.l1 next_w1)) [
    | none ↦ none
    | some h ↦ lowest_in (next_w1 * 64 + h) s
  ]
]

-- The search above the word w0.
unfoldable pub find_above_in_l1 : ℕ → PriceBitmapStorage → Option ℕ
find_above_in_l1 w0 s = elim (bit_low (and_word (s.l1 (w0 / 64)) (mask_above (w0 % 64)))) [
  | none ↦ find_above_in_l2 (w0 / 64) s
  | some h ↦ lowest_in (w0 / 64 * 64 + h) s
]

-- The search from the word of an index in range on.
unfoldable pub find_from : ℕ → PriceBitmapStorage → Option ℕ
find_from idx s = elim (bit_low (and_word (s.l0 (idx / 64)) (mask_at_or_above (idx % 64)))) [
  | none ↦ find_above_in_l1 (idx / 64) s
  | some h ↦ some (idx / 64 * 64 + h)
]

unfoldable pub find_lowest_at_or_above : ℕ → PriceBitmapStorage → Option ℕ
find_lowest_at_or_above idx s = if leb num_bits idx then none else find_from idx s
