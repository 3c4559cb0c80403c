-- ===== src/Book/PriceLevelStore/NextWorse.antt =====
-- src/book/PriceLevelStore.cpp: the search beyond an index finds the next worse index that is set.
use astra_feed_engine.Prelude.{
  ℕ, ◌+◌, ◌-◌, ◌<◌, ◌≡◌, refl, sym, ◌∙◌, Bool, true, false, ◌==◌, Option, none, some, arith, ltb,
  if◌then◌else◌, if_elim, subst, ltb→lt, lt→ltb,
}
use astra_feed_engine.Bitmap.{
  PriceBitmapStorage, test, clamped, find_highest_at_or_below, find_lowest_at_or_above,
}
use astra_feed_engine.Bitmap.Search.{Answers, nothing, highest}
use astra_feed_engine.Bitmap.Lowest.{AnswersAbove, lowest, find_lowest-AnswersAbove}
use astra_feed_engine.Bitmap.Lowest
use astra_feed_engine.Bitmap.Summaries.{TwoLevels, TwoLevels-IsSummarised, find_highest-Answers}
use astra_feed_engine.Book.{OrderSide}
use astra_feed_engine.Book.PriceLevelStore.Additions.{better}
use astra_feed_engine.Book.PriceLevelStore.Deactivation.{next_worse_index}

-- The best index of the set that is worse than i, or none.
pub data WorseThan (side : OrderSide) (occ : ℕ → Bool) (i : ℕ) (o : Option ℕ) : Type 0 where
  none_worse :
      o ≡ none
      → ((j : ℕ) → j < 65536 → better side i j ≡ true → occ j ≡ false)
      → WorseThan side occ i o
  next :
      (k : ℕ)
      → o ≡ some k
      → k < 65536
      → better side i k ≡ true
      → occ k ≡ true
      → ((j : ℕ) → j < 65536 → better side i j ≡ true → better side j k ≡ true → occ j ≡ false)
      → WorseThan side occ i o

module _ (occ : ℕ → Bool) (bitmap : PriceBitmapStorage) (levels : TwoLevels bitmap)
    (shows : (j : ℕ) → j < 65536 → test j bitmap ≡ occ j) where
  not_below : (i j : ℕ) → i ≡ 0 → ltb j i ≡ true → ⊥
  not_below i j e b = omega (arith, ltb→lt j i b)

  above :
      (side : OrderSide) (i : ℕ)
      → ((j k : ℕ) → better side j k ≡ true → j < k)
      → ((j k : ℕ) → j < k → better side j k ≡ true)
      → i < 65536
      → {o : Option ℕ} → AnswersAbove (i + 1) bitmap o
      → WorseThan side occ i o
  above side i lt tl h (Lowest.nothing e all) =
      none_worse e (λ j k b. sym (shows j k) ∙ all j (omega (arith, lt i j b)))
  above side i lt tl h (lowest k e low small on gap) =
      next k e small (tl i k (omega arith)) (sym (shows k small) ∙ on)
        (λ j m b c. sym (shows j m) ∙ gap j (omega (arith, lt i j b)) (lt j k c))

  below :
      (i : ℕ) → {o : Option ℕ} → i < 65536 → Answers i bitmap o → WorseThan OrderSide.buy occ i o
  below i h (nothing e all) = none_worse e (λ j k b. sym (shows j k) ∙ all j (ground arith))
  below i h (highest k e low on gap) =
      next k e (omega arith) (ground arith) (sym (shows k (omega arith)) ∙ on)
        (λ j m b c. sym (shows j m) ∙ gap j (ground arith) (ground arith))

  not_beyond : (i j : ℕ) → i ≡ 65535 → j < 65536 → ltb i j ≡ true → ⊥
  not_beyond i j e h b = omega (arith, ltb→lt i j b)

  beyond :
      (side : OrderSide) (i : ℕ)
      → ((j k : ℕ) → better side j k ≡ ltb j k)
      → i < 65536
      → WorseThan side occ i (if i == 65535 then none else find_lowest_at_or_above (i + 1) bitmap)
  beyond side i is h =
      if_elim (WorseThan side occ i) (i == 65535)
        (λ last.
          none_worse refl (λ j k b. absurd (not_beyond i j (ground arith) k (sym (is i j) ∙ b))))
        (λ more.
          above side i (λ j k b. ltb→lt j k (sym (is j k) ∙ b)) (λ j k l. is j k ∙ lt→ltb j k l) h
            (find_lowest-AnswersAbove bitmap (TwoLevels-IsSummarised bitmap levels) (i + 1)))

  pub next_worse_index-WorseThan :
      (side : OrderSide) (i : ℕ) → i < 65536 → WorseThan side occ i (next_worse_index side i bitmap)
  unfolding next_worse_index
  next_worse_index-WorseThan OrderSide.buy i h =
      if_elim (WorseThan OrderSide.buy occ i) (i == 0)
        (λ first. none_worse refl (λ j k b. absurd (not_below i j (ground arith) b)))
        (λ later.
          let at : clamped (i - 1) + 1 ≡ i = ground arith in
          below i h (
            subst (λ n. Answers n bitmap (find_highest_at_or_below (i - 1) bitmap)) at
              (find_highest-Answers (i - 1) bitmap (TwoLevels-IsSummarised bitmap levels))))
  next_worse_index-WorseThan OrderSide.sell i h = beyond OrderSide.sell i (λ j k. refl) h
  next_worse_index-WorseThan OrderSide.no_side i h = beyond OrderSide.no_side i (λ j k. refl) h
