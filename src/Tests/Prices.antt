-- ===== src/Tests/Prices.antt =====
-- A bitmap with two prices, far apart, after a third one was reset.
use astra_feed_engine.Prelude.{
  ℕ, ◌+◌, ◌≡◌, refl, List, [], ◌∷◌, Bool, true, false, not, ◌&&◌, ◌||◌, ◌==◌, some, arith,
}
use astra_feed_engine.Bitmap.{
  clear, clamped, test, set, reset, reset_summaries, is_zero, bit_high, highest_below, highest_in,
  find_in_l1, find_in_l2, find_highest_at_or_below, find_lowest_at_or_above,
}
use astra_feed_engine.Bitmap.Search.{Answers}
use astra_feed_engine.Bitmap.Lowest.{AnswersAbove, find_lowest_at_or_above-AnswersAbove}
use astra_feed_engine.Bitmap.Summaries.{
  run_writes, find_highest_at_or_below-Answers, set-reset-test,
}

abbrev writes : List (ℕ × Bool)
writes = (70, true) ∷ (50000, true) ∷ (30000, true) ∷ (30000, false) ∷ []

found : find_highest_at_or_below 40000 (run_writes writes clear) ≡ some 70
unfolding run_writes clear set reset reset_summaries is_zero bit_high highest_below highest_in
    find_in_l1 find_in_l2 find_highest_at_or_below
found = refl

find_highest_at_or_below-Answers_example :
    Answers
      (clamped 40000 + 1)
      (run_writes writes clear)
      (find_highest_at_or_below 40000 (run_writes writes clear))
find_highest_at_or_below-Answers_example =
    find_highest_at_or_below-Answers writes 40000 (ground arith)

set-reset-test_example :
    (test 70 (set 71 (run_writes writes clear)) ≡ (70 == 71 || test 70 (run_writes writes clear)))
    × (test 70 (reset 71 (run_writes writes clear))
        ≡ (not (70 == 71) && test 70 (run_writes writes clear)))
set-reset-test_example = set-reset-test 71 70 (run_writes writes clear)

find_lowest_at_or_above-AnswersAbove_example :
    AnswersAbove 100
      (run_writes writes clear)
      (find_lowest_at_or_above 100 (run_writes writes clear))
find_lowest_at_or_above-AnswersAbove_example =
    find_lowest_at_or_above-AnswersAbove writes 100 (ground arith)
