-- ===== src/Book/PriceLevelStore/Ranking.antt =====
-- src/book/PriceLevelStore.cpp: a set of 16-bit indices with its size and its best index, as a page
-- keeps it for its levels and a book for its pages.
use astra_feed_engine.Prelude.{
  ℕ, ◌+◌, ◌%◌, ◌^◌, ◌<◌, ◌≡◌, ◌≢◌, inl, inr, refl, sym, ◌∙◌, ap, Bool, true, false, not, ◌&&◌, ◌||◌,
  ◌==◌, if◌then◌else◌, arith, if_elim, Bool-cases, inc_u32, dec_u32, count, count-le, count_join,
  count_leave, count-pos, count_none, count_zero, true-ne-false,
}
use astra_feed_engine.Book.{OrderSide}
use astra_feed_engine.Book.PriceLevelStore.Additions.{better}

abbrev size : ℕ
size = 65536

-- `active` indices are in the set, and `best` is the best of them when there is one.
pub record IsRanked (side : OrderSide) (occ : ℕ → Bool) (active best : ℕ) : Type 0 where
  pub counted : active ≡ count 65536 occ
  pub best_low : 0 < active → best < 65536
  pub best_on : 0 < active → occ best ≡ true
  pub best_top : 0 < active → (j : ℕ) → j < 65536 → better side j best ≡ true → occ j ≡ false

-- The set with an index more, or one less.
abbrev pub Joins : (ℕ → Bool) → ℕ → (ℕ → Bool) → Type 0
Joins occ i new = (j : ℕ) → j < 65536 → new j ≡ (j == i || occ j)

abbrev pub Leaves : (ℕ → Bool) → ℕ → (ℕ → Bool) → Type 0
Leaves occ i new = (j : ℕ) → j < 65536 → new j ≡ (not (j == i) && occ j)

pub better_irrefl : (side : OrderSide) (i : ℕ) → better side i i ≡ false
better_irrefl OrderSide.buy i = ground arith
better_irrefl OrderSide.sell i = ground arith
better_irrefl OrderSide.no_side i = ground arith

better_trans :
    (side : OrderSide) (i j k : ℕ)
    → better side i j ≡ true
    → better side j k ≡ true
    → better side i k ≡ true
better_trans OrderSide.buy i j k a b = ground arith
better_trans OrderSide.sell i j k a b = ground arith
better_trans OrderSide.no_side i j k a b = ground arith

pub better_total :
    (side : OrderSide) (i j : ℕ) → i ≢ j → better side i j ≡ false → better side j i ≡ true
better_total OrderSide.buy i j ne a = ground arith
better_total OrderSide.sell i j ne a = ground arith
better_total OrderSide.no_side i j ne a = ground arith

module _ {side : OrderSide} {occ new : ℕ → Bool} {active best : ℕ}
    (r : IsRanked side occ active best) where
  join_best :
      (i j : ℕ)
      → i < size
      → j < size
      → Joins occ i new
      → (0 < active → better side i best ≡ true)
      → better side j i ≡ true
      → new j ≡ false
  join_best i j h k e top b = elim (Bool-cases (j == i)) [
    | inl same ↦
        let q : j ≡ i = ground arith in
        absurd (true-ne-false (sym b ∙ (ap (λ x. better side x i) q ∙ better_irrefl side i)))
    | inr other ↦ elim (Bool-cases (active == 0)) [
      | inl none_on ↦
          let off = count_zero 65536 occ (ground (arith, r.counted)) j k in
          ground (arith, off, e j k)
      | inr some_on ↦
          let pos : 0 < active = ground arith in
          let off = r.best_top pos j k (better_trans side j i best b (top pos)) in
          ground (arith, off, e j k)
    ]
  ]

  pub join-IsRanked :
      (i : ℕ)
      → i < size
      → occ i ≡ false
      → Joins occ i new
      → IsRanked side new (inc_u32 active) (if active == 0 || better side i best then i else best)
  unfolding inc_u32
  join-IsRanked i h off e =
      let more = count_join 65536 i occ new h off e in
      let small = count-le 65536 new in
      let size_eq : (active + 1) % 2 ^ 32 ≡ count 65536 new =
        omega (arith, more, small, r.counted) in
      if_elim (λ b. IsRanked side new ((active + 1) % 2 ^ 32) b) (active == 0 || better side i best)
        (λ t. record {
          counted = size_eq;
          best_low = λ _. h;
          best_on = λ _. ground (arith, e i h);
          best_top = λ _ j k b. join_best i j h k e (λ pos. ground arith) b;
        })
        (λ f.
          let pos : 0 < active = ground arith in
          record {
            counted = size_eq;
            best_low = λ _. r.best_low pos;
            best_on = λ _. ground (arith, e best (r.best_low pos), r.best_on pos);
            best_top = λ _ j k b. elim (Bool-cases (j == i)) [
              | inl same ↦
                  let q : i ≡ j = ground arith in
                  let worse : better side i best ≡ false = ground arith in
                  absurd (true-ne-false (sym b ∙ (ap (λ x. better side x best) (sym q) ∙ worse)))
              | inr other ↦ ground (arith, e j k, r.best_top pos j k b)
            ];
          })

  leave_count :
      (i : ℕ) → i < size → occ i ≡ true → Leaves occ i new → dec_u32 active ≡ count 65536 new
  unfolding dec_u32
  leave_count i h on e =
      omega (arith, count_leave 65536 i occ new h on e, count-le 65536 occ, r.counted)

  -- An index that is not the best leaves.
  pub leave-IsRanked :
      (i : ℕ)
      → i < size
      → occ i ≡ true
      → i ≢ best
      → Leaves occ i new
      → IsRanked side new (dec_u32 active) best
  leave-IsRanked i h on ne e =
      let pos : 0 < active = omega (arith, count-pos 65536 i occ h on, r.counted) in
      record {
        counted = leave_count i h on e;
        best_low = λ _. r.best_low pos;
        best_on = λ _. ground (arith, e best (r.best_low pos), r.best_on pos, ne);
        best_top = λ _ j k b. ground (arith, e j k, r.best_top pos j k b);
      }

  -- The only index leaves.
  pub leave_last-IsRanked :
      (i b : ℕ) → i < size → occ i ≡ true → active ≡ 1 → Leaves occ i new → IsRanked side new 0 b
  leave_last-IsRanked i b h on one e =
      let less = count_leave 65536 i occ new h on e in
      record {
        counted = omega (arith, less, r.counted);
        best_low = λ pos. omega arith;
        best_on = λ pos. absurd (not_positive pos);
        best_top = λ pos j k c. absurd (not_positive pos);
      }
    where
      not_positive : 0 < 0 → ⊥
      not_positive h = omega arith

  -- The best index leaves, and the next best one is known.
  pub leave_best-IsRanked :
      (next : ℕ)
      → 1 < active
      → next < size
      → better side best next ≡ true
      → occ next ≡ true
      → Leaves occ best new
      → ((j : ℕ) → j < size → better side best j ≡ true → better side j next ≡ true → occ j ≡ false)
      → IsRanked side new (dec_u32 active) next
  leave_best-IsRanked next more h worse on e gap =
      let pos : 0 < active = omega arith in
      record {
        counted = leave_count best (r.best_low pos) (r.best_on pos) e;
        best_low = λ _. h;
        best_on = λ _. elim (Bool-cases (next == best)) [
          | inl same ↦
              let q : next ≡ best = ground arith in
              absurd
                (true-ne-false (sym worse ∙ (ap (better side best) q ∙ better_irrefl side best)))
          | inr other ↦ ground (arith, e next h, on)
        ];
        best_top = λ _ j k b. elim (Bool-cases (j == best)) [
          | inl same ↦ ground (arith, e j k)
          | inr other ↦ elim (Bool-cases (better side j best)) [
            | inl top ↦ ground (arith, e j k, r.best_top pos j k top)
            | inr below ↦
                let ne : j ≢ best = ground arith in
                ground (arith, e j k, gap j k (better_total side j best ne below) b)
          ]
        ];
      }

module _ {side : OrderSide} {occ : ℕ → Bool} {active best : ℕ}
    (r : IsRanked side occ active best) where
  -- Of two or more indices, there is another one, beyond the best.
  pub has_other : 1 < active → ((j : ℕ) → j < size → better side best j ≡ true → occ j ≡ false) → ⊥
  has_other more none_worse =
      let pos : 0 < active = omega arith in
      let less =
        count_leave 65536 best occ (λ j. not (j == best) && occ j) (r.best_low pos) (r.best_on pos)
          (λ j k. refl) in
      let empty =
        count_none 65536 (λ j. not (j == best) && occ j)
          (λ j k. elim (Bool-cases (j == best)) [
            | inl same ↦ ground arith
            | inr other ↦ elim (Bool-cases (better side j best)) [
              | inl top ↦ ground (arith, r.best_top pos j k top)
              | inr below ↦
                  let ne : j ≢ best = ground arith in
                  ground (arith, none_worse j k (better_total side j best ne below))
            ]
          ]) in
      omega (arith, less, empty, r.counted)
