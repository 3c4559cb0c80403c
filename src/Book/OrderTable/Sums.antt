-- ===== src/Book/OrderTable/Sums.antt =====
-- src/book/OrderTable.cpp: the writes of single states, and sums over all states of a table.
use native.Mathlib.Nat.{add-mul}
use astra_feed_engine.Prelude.{
  ℕ, zero, suc, ◌+◌, ◌*◌, ◌≤◌, ◌<◌, ◌≡◌, inl, inr, refl, ◌∙◌, ap, Bool, true, false, ◌&&◌, ◌==◌,
  if◌then◌else◌, arith, Bool-cases, if_true, if_false,
}
use astra_feed_engine.Book.OrderTable.{OrderState, OrderTable, Place, in_direct, in_fallback}
use astra_feed_engine.Book.OrderTable.States.{state_at}

unfoldable pub sum_below : ℕ → (ℕ → ℕ) → ℕ
sum_below zero f = 0
sum_below (suc n) f = sum_below n f + f n

pub sum_below_cong :
    (n : ℕ) (f g : ℕ → ℕ) → ((j : ℕ) → j < n → g j ≡ f j) → sum_below n g ≡ sum_below n f
unfolding sum_below
sum_below_cong zero f g e = refl
sum_below_cong (suc n) f g e =
    ground (arith, sum_below_cong n f g (λ j h. e j (omega arith)), e n (omega arith))

-- One term changes.
pub sum_below_change :
    (n i : ℕ) (f g : ℕ → ℕ)
    → i < n
    → ((j : ℕ) → j < n → (j == i) ≡ false → g j ≡ f j)
    → sum_below n g + f i ≡ sum_below n f + g i
unfolding sum_below
sum_below_change zero i f g h e = omega arith
sum_below_change (suc n) i f g h e = elim (Bool-cases (i == n)) [
  | inl last ↦
      let q : n ≡ i = ground (arith, last) in
      let same = sum_below_cong n f g (λ j k. e j (omega arith) (ground arith)) in
      let a = ap f q in let b = ap g q in omega (arith, same, a, b)
  | inr early ↦
      let rest = sum_below_change n i f g (ground (arith, early)) (λ j k. e j (omega arith)) in
      let last = e n (omega arith) (ground (arith, early)) in omega (arith, rest, last)
]

pub sum_below_term : (n i : ℕ) (f : ℕ → ℕ) → i < n → f i ≤ sum_below n f
unfolding sum_below
sum_below_term zero i f h = omega arith
sum_below_term (suc n) i f h = elim (Bool-cases (i == n)) [
  | inl last ↦ let q : i ≡ n = ground (arith, last) in let a = ap f q in omega (arith, a)
  | inr early ↦ omega (arith, sum_below_term n i f (ground (arith, early)))
]

-- A bound of each term by another one.
pub sum_below_bound :
    (n m : ℕ) (f g : ℕ → ℕ) → ((j : ℕ) → f j ≤ g j * m) → sum_below n f ≤ sum_below n g * m
unfolding sum_below
sum_below_bound zero m f g h = omega arith
sum_below_bound (suc n) m f g h =
    let a = sum_below_bound n m f g h in
    let b = h n in let split = add-mul (sum_below n g) (g n) m in omega (arith, a, b, split)

-- The sum of a measure of the states, over all slots of both parts.
unfoldable pub total : (OrderState → ℕ) → OrderTable → ℕ
total g t =
    sum_below t.direct_slots (λ i. g (state_at (in_direct i) t))
    + sum_below t.fallback_bucket_count
        (λ b. g (state_at (in_fallback b 0) t) + g (state_at (in_fallback b 1) t))

-- The place is one of the table's slots.
abbrev pub InRange : Place → OrderTable → Type 0
InRange (in_direct i) t = i < t.direct_slots
InRange (in_fallback b w) t = (b < t.fallback_bucket_count) × (w < 2)

abbrev pub same_place : Place → Place → Bool
same_place (in_direct i) (in_direct j) = i == j
same_place (in_fallback b w) (in_fallback b' w') = b == b' && w == w'
same_place _ _ = false

-- One state of the table is written.
pub record IsWrite (p : Place) (state : OrderState) (t t' : OrderTable) : Type 0 where
  pub slots : t'.direct_slots ≡ t.direct_slots
  pub buckets : t'.fallback_bucket_count ≡ t.fallback_bucket_count
  pub states : (q : Place) → state_at q t' ≡ (if same_place q p then state else state_at q t)

pub same_place_refl : (p : Place) → same_place p p ≡ true
same_place_refl (in_direct i) = ground arith
same_place_refl (in_fallback b w) = ground arith

pub IsWrite-here :
    {p : Place} {state : OrderState} {t t' : OrderTable}
    → IsWrite p state t t'
    → state_at p t' ≡ state
IsWrite-here {p} {state} {t} {t'} w = w.states p ∙ if_true _ _ (same_place_refl p)

pub IsWrite-same :
    {p : Place} {state : OrderState} {t t' : OrderTable} (q : Place)
    → IsWrite p state t t'
    → same_place q p ≡ true
    → state_at q t' ≡ state
IsWrite-same q w same = w.states q ∙ if_true _ _ same

pub IsWrite-there :
    {p : Place} {state : OrderState} {t t' : OrderTable} (q : Place)
    → IsWrite p state t t'
    → same_place q p ≡ false
    → state_at q t' ≡ state_at q t
IsWrite-there q w other = w.states q ∙ if_false _ _ other

pub total-change :
    (g : OrderState → ℕ) (p : Place) (state : OrderState) (t t' : OrderTable)
    → InRange p t
    → IsWrite p state t t'
    → total g t' + g (state_at p t) ≡ total g t + g state
unfolding total
total-change g (in_direct i) state t t' h w =
    let f = λ (j : ℕ). g (state_at (in_direct j) t) in
    let f' = λ (j : ℕ). g (state_at (in_direct j) t') in
    let changed =
      sum_below_change t.direct_slots i f f' h
        (λ j k other. ap g (IsWrite-there (in_direct j) w other)) in
    let here = ap g (IsWrite-here w) in
    let size = ap (λ n. sum_below n f') w.slots in
    let rest =
      sum_below_cong t.fallback_bucket_count
        (λ b. g (state_at (in_fallback b 0) t) + g (state_at (in_fallback b 1) t))
        (λ b. g (state_at (in_fallback b 0) t') + g (state_at (in_fallback b 1) t'))
        (λ b k.
          let e = ap g (IsWrite-there (in_fallback b 0) w refl) in
          let e' = ap g (IsWrite-there (in_fallback b 1) w refl) in omega (arith, e, e')) in
    let size' =
      ap
        (λ n.
          sum_below n (λ b. g (state_at (in_fallback b 0) t') + g (state_at (in_fallback b 1) t')))
        w.buckets in
    omega (arith, changed, here, size, rest, size')
total-change g (in_fallback bucket way) state t t' (h, low) w =
    let f = λ (b : ℕ). g (state_at (in_fallback b 0) t) + g (state_at (in_fallback b 1) t) in
    let f' = λ (b : ℕ). g (state_at (in_fallback b 0) t') + g (state_at (in_fallback b 1) t') in
    let changed = sum_below_change t.fallback_bucket_count bucket f f' h (λ j k other.
      let e = ap g (IsWrite-there (in_fallback j 0) w (ground (arith, other))) in
      let e' = ap g (IsWrite-there (in_fallback j 1) w (ground (arith, other))) in
      omega (arith, e, e')) in
    let size = ap (λ n. sum_below n f') w.buckets in
    let rest =
      sum_below_cong t.direct_slots (λ i. g (state_at (in_direct i) t))
        (λ i. g (state_at (in_direct i) t')) (λ i k. ap g (IsWrite-there (in_direct i) w refl)) in
    let size' = ap (λ n. sum_below n (λ i. g (state_at (in_direct i) t'))) w.slots in
    let bucket_change : f' bucket + g (state_at (in_fallback bucket way) t) ≡ f bucket + g state =
      elim (Bool-cases (way == 0)) [
        | inl first ↦
            let q : way ≡ 0 = ground (arith, first) in
            let here = ap g (IsWrite-same (in_fallback bucket 0) w (ground (arith, first))) in
            let there = ap g (IsWrite-there (in_fallback bucket 1) w (ground (arith, first))) in
            let old = ap (λ x. g (state_at (in_fallback bucket x) t)) q in
            omega (arith, here, there, old)
        | inr second ↦
            let q : way ≡ 1 = ground (arith, second, low) in
            let here = ap g (IsWrite-same (in_fallback bucket 1) w (ground (arith, second, low))) in
            let there = ap g (IsWrite-there (in_fallback bucket 0) w (ground (arith, second))) in
            let old = ap (λ x. g (state_at (in_fallback bucket x) t)) q in
            omega (arith, here, there, old)
      ] in
    omega (arith, changed, size, rest, size', bucket_change)

pub total-term :
    (g : OrderState → ℕ) (p : Place) (t : OrderTable) → InRange p t → g (state_at p t) ≤ total g t
unfolding total
total-term g (in_direct i) t h =
    omega (arith, sum_below_term t.direct_slots i (λ j. g (state_at (in_direct j) t)) h)
total-term g (in_fallback b w) t (h, low) =
    let row =
      sum_below_term t.fallback_bucket_count b
        (λ j. g (state_at (in_fallback j 0) t) + g (state_at (in_fallback j 1) t)) h in
    elim (Bool-cases (w == 0)) [
      | inl first ↦
          let q : w ≡ 0 = ground (arith, first) in
          let e = ap (λ x. g (state_at (in_fallback b x) t)) q in omega (arith, row, e)
      | inr second ↦
          let q : w ≡ 1 = ground (arith, second, low) in
          let e = ap (λ x. g (state_at (in_fallback b x) t)) q in omega (arith, row, e)
    ]

pub total-bound :
    (m : ℕ) (f g : OrderState → ℕ) (t : OrderTable)
    → ((p : Place) → f (state_at p t) ≤ g (state_at p t) * m)
    → total f t ≤ total g t * m
unfolding total
total-bound m f g t h =
    let a =
      sum_below_bound t.direct_slots m (λ i. f (state_at (in_direct i) t))
        (λ i. g (state_at (in_direct i) t)) (λ i. h (in_direct i)) in
    let b =
      sum_below_bound t.fallback_bucket_count m
        (λ j. f (state_at (in_fallback j 0) t) + f (state_at (in_fallback j 1) t))
        (λ j. g (state_at (in_fallback j 0) t) + g (state_at (in_fallback j 1) t))
        (λ j.
          let x = h (in_fallback j 0) in
          let y = h (in_fallback j 1) in
          let e = add-mul (g (state_at (in_fallback j 0) t)) (g (state_at (in_fallback j 1) t)) m in
          omega (arith, x, y, e)) in
    let e =
      add-mul (sum_below t.direct_slots (λ i. g (state_at (in_direct i) t)))
        (sum_below t.fallback_bucket_count
          (λ j. g (state_at (in_fallback j 0) t) + g (state_at (in_fallback j 1) t)))
        m in
    omega (arith, a, b, e)
