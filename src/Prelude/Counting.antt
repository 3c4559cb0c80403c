-- ===== src/Prelude/Counting.antt =====
-- How many of the numbers below n a test accepts.
use Prim.Native.Nat.{ℕ, zero, suc, ◌+◌, ◌≤◌, ◌<◌}
use mathlib.Core.Path.{◌≡◌, refl, sym, ◌∙◌, ap}
use mathlib.Core.Logic.{◌≢◌, inl, inr}
use mathlib.Core.Bool.{Bool, true, false, not, ◌&&◌, ◌||◌}
use native.Mathlib.Omega.{arith}
use astra_feed_engine.Prelude.Tests.{◌==◌, if◌then◌else◌, Bool-cases}

unfoldable pub count : ℕ → (ℕ → Bool) → ℕ
count zero f = 0
count (suc n) f = count n f + (if f n then 1 else 0)

pub count-le : (n : ℕ) (f : ℕ → Bool) → count n f ≤ n
unfolding count
count-le zero f = omega arith
count-le (suc n) f = ground (arith, count-le n f)

pub count_cong : (n : ℕ) (f g : ℕ → Bool) → ((j : ℕ) → j < n → g j ≡ f j) → count n g ≡ count n f
unfolding count
count_cong zero f g e = refl
count_cong (suc n) f g e =
    ground (arith, count_cong n f g (λ j h. e j (omega arith)), e n (omega arith))

-- One more is accepted, or one less.
pub count_join :
    (n i : ℕ) (f g : ℕ → Bool)
    → i < n
    → f i ≡ false
    → ((j : ℕ) → j < n → g j ≡ (j == i || f j))
    → count n g ≡ count n f + 1
unfolding count
count_join zero i f g h off e = omega arith
count_join (suc n) i f g h off e = elim (Bool-cases (i == n)) [
  | inl last ↦
      let same = count_cong n f g (λ j k. ground (arith, e j (omega arith))) in
      let q : i ≡ n = ground arith in
      let off' : f n ≡ false = ap f (sym q) ∙ off in ground (arith, same, e n (omega arith), off')
  | inr early ↦
      let rest = count_join n i f g (ground arith) off (λ j k. e j (omega arith)) in
      ground (arith, rest, e n (omega arith))
]

pub count_leave :
    (n i : ℕ) (f g : ℕ → Bool)
    → i < n
    → f i ≡ true
    → ((j : ℕ) → j < n → g j ≡ (not (j == i) && f j))
    → count n g + 1 ≡ count n f
count_leave n i f g h on e = sym (
    count_join n i g f h (ground (arith, e i h)) (λ j k. elim (Bool-cases (j == i)) [
      | inl same ↦ let q : j ≡ i = ground arith in let on' = ap f q ∙ on in ground (arith, on')
      | inr other ↦ ground (arith, e j k)
    ]))

none_below : (j : ℕ) → j < 0 → ⊥
none_below j h = omega arith

pub count_zero : (n : ℕ) (f : ℕ → Bool) → count n f ≡ 0 → (j : ℕ) → j < n → f j ≡ false
unfolding count
count_zero zero f e j h = absurd (none_below j h)
count_zero (suc n) f e j h = elim (Bool-cases (j == n)) [
  | inl last ↦ let q : j ≡ n = ground arith in ap f q ∙ ground arith
  | inr early ↦ count_zero n f (ground arith) j (ground arith)
]

pub count-pos : (n i : ℕ) (f : ℕ → Bool) → i < n → f i ≡ true → 0 < count n f
count-pos n i f h on =
    omega (arith, count_leave n i f (λ j. not (j == i) && f j) h on (λ j k. refl))

-- When only one number is accepted, no other one is.
pub count_one :
    (n i : ℕ) (f : ℕ → Bool)
    → count n f ≡ 1
    → i < n
    → f i ≡ true
    → (j : ℕ) → j < n
    → j ≢ i
    → f j ≡ false
count_one n i f e h on j k ne =
    let left = count_leave n i f (λ j. not (j == i) && f j) h on (λ j k. refl) in
    let off = count_zero n (λ j. not (j == i) && f j) (omega arith) j k in ground (arith, off, ne)

pub count_none : (n : ℕ) (f : ℕ → Bool) → ((j : ℕ) → j < n → f j ≡ false) → count n f ≡ 0
unfolding count
count_none zero f e = refl
count_none (suc n) f e =
    ground (arith, count_none n f (λ j h. e j (omega arith)), e n (omega arith))
