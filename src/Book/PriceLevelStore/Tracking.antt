-- ===== src/Book/PriceLevelStore/Tracking.antt =====
-- src/book/PriceLevelStore.cpp: the bitmap of a page is kept only for two levels or more; with fewer
-- levels it is clear.
use astra_feed_engine.Prelude.{
  ℕ, ◌+◌, ◌≤◌, ◌<◌, ◌≡◌, inl, inr, sym, ◌∙◌, ap, Bool, false, ◌||◌, ◌==◌, ltb, if◌then◌else◌, arith,
  if_elim, Bool-cases, inc_u32, inc_u32-eq, count_one, count-le,
}
use astra_feed_engine.Bitmap.{PriceBitmapStorage, test, set, reset}
use astra_feed_engine.Bitmap.Summaries.{TwoLevels, set-TwoLevels, reset-TwoLevels, set-reset-test}
use astra_feed_engine.Book.{OrderSide}
use astra_feed_engine.Book.PriceLevelStore.Additions.{better, marked}
use astra_feed_engine.Book.PriceLevelStore.Deactivation.{unmarked}
use astra_feed_engine.Book.PriceLevelStore.Ranking.{IsRanked, Joins, Leaves, join-IsRanked}

pub record IsTracked (side : OrderSide) (occ : ℕ → Bool) (active best : ℕ)
    (bitmap : PriceBitmapStorage) : Type 0 where
  pub ranked : IsRanked side occ active best
  pub levels : TwoLevels bitmap
  pub many : 1 < active → (j : ℕ) → j < 65536 → test j bitmap ≡ occ j
  pub few : active ≤ 1 → (j : ℕ) → j < 65536 → test j bitmap ≡ false

module _ {side : OrderSide} {occ : ℕ → Bool} {active best : ℕ} {bitmap : PriceBitmapStorage}
    (t : IsTracked side occ active best bitmap) where
  -- With one level, that level is the best one.
  only : active ≡ 1 → (j : ℕ) → j < 65536 → occ j ≡ (j == best)
  only one j h = elim (Bool-cases (j == best)) [
    | inl same ↦
        let q : j ≡ best = ground arith in ap occ q ∙ (t.ranked.best_on (omega arith) ∙ sym same)
    | inr other ↦
        let off =
          count_one 65536 best occ (omega (arith, t.ranked.counted))
            (t.ranked.best_low (omega arith)) (t.ranked.best_on (omega arith)) j h (ground arith) in
        off ∙ sym other
  ]

  marked-TwoLevels : (i : ℕ) → i < 65536 → TwoLevels (marked active best i bitmap)
  marked-TwoLevels i h =
      if_elim TwoLevels (active == 1)
        (λ one.
          set-TwoLevels i (set best bitmap) h
            (set-TwoLevels best bitmap (t.ranked.best_low (ground arith)) t.levels))
        (λ _.
          if_elim TwoLevels (ltb 1 active) (λ _. set-TwoLevels i bitmap h t.levels) (λ _. t.levels))

  module _ {new : ℕ → Bool} where
    marked-test :
        (i : ℕ)
        → 0 < active
        → Joins occ i new
        → (j : ℕ) → j < 65536
        → test j (marked active best i bitmap) ≡ new j
    marked-test i pos e j h =
        if_elim (λ b. test j b ≡ new j) (active == 1)
          (λ one.
            let is_one : active ≡ 1 = ground arith in
            ground (
              arith,
              (set-reset-test i j (set best bitmap)).0,
              (set-reset-test best j bitmap).0,
              t.few (omega arith) j h,
              only is_one j h,
              e j h,
            ))
          (λ other.
            let more : 1 < active = ground arith in
            ground (arith, (set-reset-test i j bitmap).0, t.many more j h, e j h))

    pub join-IsTracked :
        (i : ℕ)
        → i < 65536
        → occ i ≡ false
        → Joins occ i new
        → IsTracked side new
            (inc_u32 active)
            (if active == 0 || better side i best then i else best)
            (marked active best i bitmap)
    join-IsTracked i h off e =
        let r = join-IsRanked t.ranked i h off e in
        record {
          ranked = r;
          levels = marked-TwoLevels i h;
          many = λ more j k. marked-test i (pos_of more) e j k;
          few = λ one j k.
              let z : active ≡ 0 = zero_of one in ground (arith, z, t.few (omega arith) j k);
        }
      where
        unwrapped : inc_u32 active ≡ active + 1
        unwrapped = inc_u32-eq active (omega (arith, t.ranked.counted, count-le 65536 occ))

        pos_of : 1 < inc_u32 active → 0 < active
        pos_of more = omega (arith, unwrapped)

        zero_of : inc_u32 active ≤ 1 → active ≡ 0
        zero_of one = omega (arith, unwrapped)

    unmarked-test :
        (i left next : ℕ)
        → 1 < active
        → Leaves occ i new
        → IsRanked side new left next
        → (j : ℕ) → j < 65536
        → test j (unmarked left next i bitmap) ≡ (if left == 1 then false else new j)
    unmarked-test i left next more e r j h = elim (Bool-cases (left == 1)) [
      | inl one ↦
          let is_one : left ≡ 1 = ground arith in
          let on = r.best_on (omega arith) in
          elim (Bool-cases (j == next)) [
            | inl same ↦ ground (arith, (set-reset-test next j (reset i bitmap)).1)
            | inr other ↦
                let off =
                  count_one 65536 next new (omega (arith, r.counted)) (r.best_low (omega arith)) on
                    j h (ground arith) in
                ground (
                  arith,
                  (set-reset-test next j (reset i bitmap)).1,
                  (set-reset-test i j bitmap).1,
                  t.many more j h,
                  e j h,
                  off,
                )
          ]
      | inr other ↦ ground (arith, (set-reset-test i j bitmap).1, t.many more j h, e j h)
    ]

    pub leave-IsTracked :
        (i left next : ℕ)
        → 1 < active
        → 0 < left
        → Leaves occ i new
        → IsRanked side new left next
        → IsTracked side new left next (unmarked left next i bitmap)
    leave-IsTracked i left next more some_left e r = record {
      ranked = r;
      levels =
          if_elim TwoLevels (left == 1) (λ _. reset-TwoLevels next _ (reset-TwoLevels i _ t.levels))
            (λ _. reset-TwoLevels i _ t.levels);
      many = λ two j k. ground (arith, unmarked-test i left next more e r j k);
      few = λ one j k. ground (arith, unmarked-test i left next more e r j k);
    }
