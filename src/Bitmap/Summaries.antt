-- ===== src/Bitmap/Summaries.antt =====
-- include/astra/utils/PriceBitmap.hpp: every write keeps the summaries, so the search is right on every
-- bitmap that writes make.
use astra_feed_engine.Prelude.{
  ℕ, ◌+◌, ◌*◌, ◌/◌, ◌%◌, ◌≤◌, ◌<◌, ◌≡◌, inl, inr, refl, sym, ◌∙◌, ap, subst, List, [], ◌∷◌, All,
  Bool, true, false, not, ◌&&◌, ◌||◌, ◌==◌, if◌then◌else◌, update, arith, if_elim, Bool-cases,
  true-ne-false,
}
use astra_feed_engine.Bitmap.{
  Word, PriceBitmapStorage, num_bits, l1_words, and_word, mask_at_or_below, clamped, is_zero, test,
  clear, write_bit, set, reset, reset_summaries, find_highest_at_or_below,
}
use astra_feed_engine.Bitmap.Bits.{no_bit, high_bit, bit_high-cases, is_zero-bit}
use astra_feed_engine.Bitmap.Search.{
  IsSummarised, Answers, highest, lower, refute, bit_of, find_in_l1-Answers,
}

pub nonzero_of : (w : Word) (j : ℕ) → j < 64 → w j ≡ true → is_zero w ≡ false
nonzero_of w j h t = refute (is_zero w) (λ z. true-ne-false (sym t ∙ is_zero-bit w j h z))

-- `upper` tells of each word whether it is not zero.
pub record Level (words : ℕ → Word) (upper : ℕ → Bool) : Type 0 where
  up : (w b : ℕ) → b < 64 → words w b ≡ true → upper w ≡ true
  down : (w : ℕ) → upper w ≡ true → is_zero (words w) ≡ false

module _ (words : ℕ → Word) (upper upper' : ℕ → Bool) (at b0 : ℕ) (level : Level words upper) where
  set-Level :
      b0 < 64
      → ((w : ℕ) → upper' w ≡ (w == at || upper w))
      → Level (write_bit words at b0 true) upper'
  set-Level small eq = record {
    up = λ w b h t. ground (arith, eq w, level.up w b h, t);
    down = λ w u. elim (Bool-cases (w == at)) [
      | inl same ↦ nonzero_of _ b0 small (ground arith)
      | inr other ↦
          let old : upper w ≡ true = ground (arith, eq w, u) in
          let (h, _, b, hit, _) = bit_of (words w) (level.down w old) in
          nonzero_of _ h b (ground (arith, hit))
    ];
  }

  clear_kept-Level :
      is_zero (write_bit words at b0 false at) ≡ false → Level (write_bit words at b0 false) upper
  clear_kept-Level nz = record {
    up = λ w b h t. level.up w b h (ground (arith, t));
    down = λ w u. elim (Bool-cases (w == at)) [
      | inl same ↦
          let e : at ≡ w = ground arith in
          subst (λ x. is_zero (write_bit words at b0 false x) ≡ false) e nz
      | inr other ↦
          let e : write_bit words at b0 false w ≡ words w = ground arith in rw e (level.down w u)
    ];
  }

  clear_dropped-Level :
      is_zero (write_bit words at b0 false at) ≡ true
      → ((w : ℕ) → upper' w ≡ (not (w == at) && upper w))
      → Level (write_bit words at b0 false) upper'
  clear_dropped-Level z eq = record {
    up = λ w b h t. elim (Bool-cases (w == at)) [
      | inl same ↦
          let e : w ≡ at = ground arith in
          absurd (
            true-ne-false
              (sym t ∙ ap (λ x. write_bit words at b0 false x b) e ∙ is_zero-bit _ b h z))
      | inr other ↦ ground (arith, eq w, level.up w b h, t)
    ];
    down = λ w u.
        let old : upper w ≡ true = ground (arith, eq w, u) in
        let off : (w == at) ≡ false = ground (arith, eq w, u) in
        let e : write_bit words at b0 false w ≡ words w = ground arith in rw e (level.down w old);
  }

-- Both levels of summaries are right.
pub record TwoLevels (s : PriceBitmapStorage) : Type 0 where
  low : Level s.l0 (λ w. s.l1 (w / 64) (w % 64))
  high : Level s.l1 s.l2
  range : (w : ℕ) → s.l2 w ≡ true → w < l1_words

pub TwoLevels-IsSummarised : (s : PriceBitmapStorage) → TwoLevels s → IsSummarised s
TwoLevels-IsSummarised s t = record {
  up0 = t.low.up;
  down0 = t.low.down;
  up1 = t.high.up;
  down1 = t.high.down;
  range = t.range;
}

summary_set :
    (l1 : ℕ → Word) (w0 w : ℕ)
    → write_bit l1 (w0 / 64) (w0 % 64) true (w / 64) (w % 64) ≡ (w == w0 || l1 (w / 64) (w % 64))
summary_set l1 w0 w = ground arith

summary_cleared :
    (l1 : ℕ → Word) (w0 w : ℕ)
    → write_bit l1 (w0 / 64) (w0 % 64) false (w / 64) (w % 64)
      ≡ (not (w == w0) && l1 (w / 64) (w % 64))
summary_cleared l1 w0 w = ground arith

pub set-TwoLevels :
    (idx : ℕ) (s : PriceBitmapStorage) → idx < num_bits → TwoLevels s → TwoLevels (set idx s)
unfolding set
set-TwoLevels idx s h t = record {
  low =
      set-Level s.l0 _ _ (idx / 64) (idx % 64) t.low (omega arith)
        (λ w. summary_set s.l1 (idx / 64) w);
  high =
      set-Level s.l1 s.l2 _ (idx / 64 / 64) (idx / 64 % 64) t.high (omega arith)
        (λ w. ground arith);
  range = λ w u. ground (arith, t.range w, u, h);
}

reset_summaries-TwoLevels :
    (w0 b0 : ℕ) (s : PriceBitmapStorage)
    → TwoLevels s
    → is_zero (write_bit s.l0 w0 b0 false w0) ≡ true
    → TwoLevels (reset_summaries w0 (record s { l0 = write_bit s.l0 w0 b0 false }))
unfolding reset_summaries
reset_summaries-TwoLevels w0 b0 s t z =
    let low = clear_dropped-Level s.l0 _ _ w0 b0 t.low z (λ w. summary_cleared s.l1 w0 w) in
    let l1 = write_bit s.l1 (w0 / 64) (w0 % 64) false in
    elim (Bool-cases (is_zero (l1 (w0 / 64)))) [
      | inr nz ↦
          rw (nz, reset_summaries)
            (record {
              low = low;
              high = clear_kept-Level s.l1 s.l2 s.l2 (w0 / 64) (w0 % 64) t.high nz;
              range = t.range;
            })
      | inl z1 ↦
          rw (z1, reset_summaries)
            (record {
              low = low;
              high =
                  clear_dropped-Level s.l1 s.l2 (update s.l2 (w0 / 64) false) (w0 / 64) (w0 % 64)
                    t.high z1 (λ w. ground arith);
              range = λ w u. ground (arith, t.range w, u);
            })
    ]

pub reset-TwoLevels : (idx : ℕ) (s : PriceBitmapStorage) → TwoLevels s → TwoLevels (reset idx s)
unfolding reset
reset-TwoLevels idx s t =
    let w0 = idx / 64 in
    let b0 = idx % 64 in
    elim (Bool-cases (is_zero (write_bit s.l0 w0 b0 false w0))) [
      | inr nz ↦
          rw (nz, reset)
            (record {
              low =
                  clear_kept-Level s.l0 (λ w. s.l1 (w / 64) (w % 64)) (λ w. s.l1 (w / 64) (w % 64))
                    w0 b0 t.low nz;
              high = t.high;
              range = t.range;
            })
      | inl z ↦ rw (z, reset) (reset_summaries-TwoLevels w0 b0 s t z)
    ]

pub clear-TwoLevels : TwoLevels clear
unfolding clear
clear-TwoLevels = record {
  low = record { up = λ w b h t. ground arith; down = λ w u. absurd (true-ne-false (sym u)) };
  high = record { up = λ w b h t. ground arith; down = λ w u. absurd (true-ne-false (sym u)) };
  range = λ w u. absurd (true-ne-false (sym u));
}

-- A write of the bitmap: true sets the index, false resets it.
unfoldable pub run_writes : List (ℕ × Bool) → PriceBitmapStorage → PriceBitmapStorage
run_writes [] s = s
run_writes ((idx, on) ∷ writes) s = run_writes writes (if on then set idx s else reset idx s)

pub run_writes-TwoLevels :
    (writes : List (ℕ × Bool)) (s : PriceBitmapStorage)
    → All (λ (w : ℕ × Bool). w.0 < num_bits) writes
    → TwoLevels s
    → TwoLevels (run_writes writes s)
unfolding run_writes
run_writes-TwoLevels [] s a t = t
run_writes-TwoLevels ((idx, on) ∷ writes) s (h, a) t =
    run_writes-TwoLevels writes _ a
      (if_elim TwoLevels on (λ _. set-TwoLevels idx s h t) (λ _. reset-TwoLevels idx s t))

pub find_highest-Answers :
    (index : ℕ) (s : PriceBitmapStorage)
    → IsSummarised s
    → Answers (clamped index + 1) s (find_highest_at_or_below index s)
unfolding find_highest_at_or_below test
find_highest-Answers index s ok =
    let idx = clamped index in
    elim (bit_high-cases (and_word (s.l0 (idx / 64)) (mask_at_or_below (idx % 64)))) [
      | no_bit e all ↦ subst (Answers (idx + 1) s) (sym (rw (e, find_highest_at_or_below) refl)) (
          lower (find_in_l1-Answers s ok (idx / 64)) (omega arith) (λ j a b.
            let at : j / 64 ≡ idx / 64 = omega arith in
            let below : j % 64 ≤ idx % 64 = omega (arith, at) in
            let off = all (j % 64) (omega arith) in
            subst (λ x. s.l0 x (j % 64) ≡ false) (sym at) (ground (arith, off, below))))
      | high_bit h e b hit all ↦
          let on : s.l0 (idx / 64) h ≡ true = ground arith in
          let low : h ≤ idx % 64 = ground arith in
          let q : (idx / 64 * 64 + h) / 64 ≡ idx / 64 = omega arith in
          let m : (idx / 64 * 64 + h) % 64 ≡ h = omega arith in
          highest (idx / 64 * 64 + h) (rw (e, find_highest_at_or_below) refl) (omega arith)
            (subst (λ x. s.l0 x ((idx / 64 * 64 + h) % 64) ≡ true) (sym q)
              (subst (λ x. s.l0 (idx / 64) x ≡ true) (sym m) on))
            (λ j a c.
              let at : j / 64 ≡ idx / 64 = omega arith in
              let below : j % 64 ≤ idx % 64 = omega (arith, at) in
              let off = all (j % 64) (omega (arith, at)) (omega arith) in
              subst (λ x. s.l0 x (j % 64) ≡ false) (sym at) (ground (arith, off, below)))
    ]

-- The search for the best price is right: in every bitmap that sets and resets of indices in range
-- make, the answer for an index is the highest index that is set at or below it, or none when there is
-- no such index. An index out of range counts as the last one.
pub find_highest_at_or_below-Answers :
    (writes : List (ℕ × Bool)) (index : ℕ)
    → All (λ (w : ℕ × Bool). w.0 < num_bits) writes
    → Answers
        (clamped index + 1)
        (run_writes writes clear)
        (find_highest_at_or_below index (run_writes writes clear))
find_highest_at_or_below-Answers writes index a =
    find_highest-Answers index (run_writes writes clear)
      (TwoLevels-IsSummarised _ (run_writes-TwoLevels writes clear a clear-TwoLevels))

-- A written index reads as written, and no other index changes.
pub set-reset-test :
    (idx j : ℕ) (s : PriceBitmapStorage)
    → (test j (set idx s) ≡ (j == idx || test j s))
      × (test j (reset idx s) ≡ (not (j == idx) && test j s))
unfolding test set reset reset_summaries
set-reset-test idx j s = (ground arith, ground arith)
