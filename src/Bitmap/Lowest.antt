-- ===== src/Bitmap/Lowest.antt =====
-- include/astra/utils/PriceBitmap.hpp: the search of the lowest occupied price finds what a scan would.
use astra_feed_engine.Prelude.{
  ℕ, zero, suc, ◌+◌, ◌*◌, ◌/◌, ◌%◌, ◌≤◌, ◌<◌, ◌≡◌, inl, inr, refl, sym, ◌∙◌, ap, subst, List, All,
  Bool, true, false, ◌==◌, Option, none, some, ltb, leb, arith, if_elim, Bool-cases, true-ne-false,
}
use astra_feed_engine.Bitmap.{
  Word, PriceBitmapStorage, num_bits, and_word, valid_l2_mask, mask_above, mask_at_or_above,
  bit_low, lowest_from, is_zero, test, clear, lowest_in, find_above_in_l1, find_above_in_l2,
  find_from, find_lowest_at_or_above,
}
use astra_feed_engine.Bitmap.Search.{IsSummarised, refute, bit_of, shown}
use astra_feed_engine.Bitmap.Summaries.{
  TwoLevels-IsSummarised, run_writes, run_writes-TwoLevels, clear-TwoLevels,
}

-- What the lowest of n bits of a word from `start` on is.
data LowestCases (n start : ℕ) (w : Word) (o : Option ℕ) : Type 0 where
  no_bit : o ≡ none → ((j : ℕ) → start ≤ j → j < start + n → w j ≡ false) → LowestCases n start w o
  low_bit :
      (h : ℕ)
      → o ≡ some h
      → start ≤ h
      → h < start + n
      → w h ≡ true
      → ((j : ℕ) → start ≤ j → j < h → w j ≡ false)
      → LowestCases n start w o

first_or :
    (start : ℕ) (w : Word) (j : ℕ)
    → w start ≡ false
    → start ≤ j
    → (start + 1 ≤ j → w j ≡ false)
    → w j ≡ false
first_or start w j miss h f = elim (Bool-cases (j == start)) [
  | inl e ↦ let same : j ≡ start = ground arith in ap w same ∙ miss
  | inr e ↦ f (ground arith)
]

extend :
    (n start : ℕ) (w : Word) {o : Option ℕ}
    → w start ≡ false
    → LowestCases n (start + 1) w o
    → LowestCases (suc n) start w o
extend n start w {o} miss (no_bit e all) =
    no_bit e (λ j a b. first_or start w j miss a (λ a'. all j a' (omega arith)))
extend n start w {o} miss (low_bit h e a b hit all) =
    low_bit h e (omega arith) (omega arith) hit
      (λ j c d. first_or start w j miss c (λ c'. all j c' d))

none_between : (start j : ℕ) → start ≤ j → j < start + 0 → ⊥
none_between start j a b = omega arith

not_below : (start j : ℕ) → start ≤ j → j < start → ⊥
not_below start j a b = omega arith

lowest_from-cases : (n start : ℕ) (w : Word) → LowestCases n start w (lowest_from n start w)
unfolding lowest_from
lowest_from-cases zero start w = no_bit refl (λ j a b. absurd (none_between start j a b))
lowest_from-cases (suc n) start w =
    if_elim (LowestCases (suc n) start w) (w start)
      (λ hit.
        low_bit start refl (omega arith) (omega arith) hit
          (λ j a b. absurd (not_below start j a b)))
      λ miss. extend n start w miss (lowest_from-cases n (start + 1) w)

bit_low-cases : (w : Word) → LowestCases 64 0 w (bit_low w)
unfolding bit_low
bit_low-cases w = lowest_from-cases 64 0 w

-- A nonzero word has a lowest bit.
low_of :
    (w : Word)
    → is_zero w ≡ false
    → (h : ℕ) × (bit_low w ≡ some h) × (h < 64) × (w h ≡ true) × ((j : ℕ) → j < h → w j ≡ false)
low_of w nz = elim (bit_low-cases w) [
  | no_bit e all ↦
      let (h, _, b, hit, _) = bit_of w nz in
      absurd (true-ne-false (sym hit ∙ all h (omega arith) (omega arith)))
  | low_bit h e a b hit all ↦ (h, e, omega arith, hit, λ j c. all j (omega arith) c)
]

-- The answer of a search from n on: the lowest index that is set, or none.
pub data AnswersAbove (n : ℕ) (s : PriceBitmapStorage) (o : Option ℕ) : Type 0 where
  nothing : o ≡ none → ((j : ℕ) → n ≤ j → test j s ≡ false) → AnswersAbove n s o
  lowest :
      (k : ℕ)
      → o ≡ some k
      → n ≤ k
      → k < num_bits
      → test k s ≡ true
      → ((j : ℕ) → n ≤ j → j < k → test j s ≡ false)
      → AnswersAbove n s o

-- An answer from m on is one from n on, when nothing is set from n to m.
raise :
    {m n : ℕ} {s : PriceBitmapStorage} {o : Option ℕ}
    → AnswersAbove m s o
    → n ≤ m
    → ((j : ℕ) → n ≤ j → j < m → test j s ≡ false)
    → AnswersAbove n s o
raise {m} {n} {s} {o} (nothing e all) h clear = nothing e (λ j b. elim (Bool-cases (leb m j)) [
  | inl far ↦ all j (ground arith)
  | inr near ↦ clear j b (ground arith)
])
raise {m} {n} {s} {o} (lowest k e b c t all) h clear = lowest k e (omega arith) c t (λ j a d.
    elim (Bool-cases (leb m j)) [
      | inl far ↦ all j (ground arith) d
      | inr near ↦ clear j a (ground arith)
    ])

module _ (s : PriceBitmapStorage) (ok : IsSummarised s) where
  lowest_in-AnswersAbove :
      (w n : ℕ)
      → is_zero (s.l0 w) ≡ false
      → n ≤ w * 64
      → w < 1024
      → ((j : ℕ) → n ≤ j → j < w * 64 → test j s ≡ false)
      → AnswersAbove n s (lowest_in w s)
  unfolding lowest_in test
  lowest_in-AnswersAbove w n nz bound small before =
      let (h, e, b, hit, all) = low_of (s.l0 w) nz in
      let q : (w * 64 + h) / 64 ≡ w = omega arith in
      let m : (w * 64 + h) % 64 ≡ h = omega arith in
      lowest (w * 64 + h) (rw (e, lowest_in) refl) (omega arith) (omega arith)
        (subst (λ x. s.l0 x ((w * 64 + h) % 64) ≡ true) (sym q)
          (subst (λ x. s.l0 w x ≡ true) (sym m) hit))
        (λ j a c. elim (Bool-cases (ltb j (w * 64))) [
          | inl early ↦ before j a (ground arith)
          | inr late ↦
              let at : j / 64 ≡ w = ground arith in
              subst (λ x. s.l0 x (j % 64) ≡ false) (sym at) (all (j % 64) (ground (arith, at)))
        ])

  find_above_in_l2-AnswersAbove :
      (w1 : ℕ) → AnswersAbove (w1 * 4096 + 4096) s (find_above_in_l2 w1 s)
  unfolding find_above_in_l2
  find_above_in_l2-AnswersAbove w1 =
      elim (bit_low-cases (and_word (and_word s.l2 valid_l2_mask) (mask_above w1))) [
        | no_bit e all ↦ nothing (rw (e, find_above_in_l2) refl) (λ j h. refute (test j s) (λ t.
            let (_, two) = shown s ok j t in
            let r = ok.range (j / 64 / 64) two in
            let off = all (j / 64 / 64) (omega arith) (omega arith) in
            let above : w1 < j / 64 / 64 = omega arith in
            true-ne-false (ground (arith, two, r, off, above))))
        | low_bit p e _ b hit all ↦
            let on : s.l2 p ≡ true = ground arith in
            let high : w1 < p = ground arith in
            let in_range = ok.range p on in
            let (h, e', b', hit', all') = low_of (s.l1 p) (ok.down1 p on) in
            let q : (p * 64 + h) / 64 ≡ p = omega arith in
            let m : (p * 64 + h) % 64 ≡ h = omega arith in
            let nz = ok.down0 (p * 64 + h) (rw (q, m) hit') in
            subst (AnswersAbove (w1 * 4096 + 4096) s)
              (sym (rw (e, find_above_in_l2) (rw (e', find_above_in_l2) refl)))
              (lowest_in-AnswersAbove (p * 64 + h) (w1 * 4096 + 4096) nz (omega arith) (omega arith)
                (λ j a c. refute (test j s) (λ t.
                  let (one, two) = shown s ok j t in
                  let r = ok.range (j / 64 / 64) two in
                  let above : w1 < j / 64 / 64 = omega arith in
                  elim (Bool-cases (leb p (j / 64 / 64))) [
                    | inl same ↦
                        let at : j / 64 / 64 ≡ p = ground arith in
                        let off = all' (j / 64 % 64) (omega (arith, at)) in
                        true-ne-false (sym (ap (λ x. s.l1 x (j / 64 % 64)) (sym at) ∙ one) ∙ off)
                    | inr near ↦
                        let off = all (j / 64 / 64) (omega arith) (ground arith) in
                        true-ne-false (ground (arith, two, r, off, above))
                  ])))
      ]

  find_above_in_l1-AnswersAbove :
      (w0 : ℕ) → w0 < 1024 → AnswersAbove (w0 * 64 + 64) s (find_above_in_l1 w0 s)
  unfolding find_above_in_l1
  find_above_in_l1-AnswersAbove w0 small =
      elim (bit_low-cases (and_word (s.l1 (w0 / 64)) (mask_above (w0 % 64)))) [
        | no_bit e all ↦
            subst (AnswersAbove (w0 * 64 + 64) s) (sym (rw (e, find_above_in_l1) refl)) (
              raise (find_above_in_l2-AnswersAbove (w0 / 64)) (omega arith) (λ j a b.
                refute (test j s) (λ t.
                  let (one, _) = shown s ok j t in
                  let at : j / 64 / 64 ≡ w0 / 64 = omega arith in
                  let above : w0 % 64 < j / 64 % 64 = omega (arith, at) in
                  let off = all (j / 64 % 64) (omega arith) (omega arith) in
                  let on : s.l1 (w0 / 64) (j / 64 % 64) ≡ true =
                    ap (λ x. s.l1 x (j / 64 % 64)) (sym at) ∙ one in
                  true-ne-false (ground (arith, on, off, above)))))
        | low_bit h e _ b hit all ↦
            let on : s.l1 (w0 / 64) h ≡ true = ground arith in
            let high : w0 % 64 < h = ground arith in
            let q : (w0 / 64 * 64 + h) / 64 ≡ w0 / 64 = omega arith in
            let m : (w0 / 64 * 64 + h) % 64 ≡ h = omega arith in
            let nz = ok.down0 (w0 / 64 * 64 + h) (rw (q, m) on) in
            subst (AnswersAbove (w0 * 64 + 64) s) (sym (rw (e, find_above_in_l1) refl)) (
              lowest_in-AnswersAbove (w0 / 64 * 64 + h) (w0 * 64 + 64) nz (omega arith)
                (omega arith)
                (λ j a c. refute (test j s) (λ t.
                  let (one, _) = shown s ok j t in
                  let at : j / 64 / 64 ≡ w0 / 64 = omega arith in
                  let above : w0 % 64 < j / 64 % 64 = omega (arith, at) in
                  let off = all (j / 64 % 64) (omega arith) (omega (arith, at)) in
                  let on' : s.l1 (w0 / 64) (j / 64 % 64) ≡ true =
                    ap (λ x. s.l1 x (j / 64 % 64)) (sym at) ∙ one in
                  true-ne-false (ground (arith, on', off, above)))))
      ]

  find_from-AnswersAbove : (idx : ℕ) → idx < num_bits → AnswersAbove idx s (find_from idx s)
  unfolding find_from test
  find_from-AnswersAbove idx small =
      elim (bit_low-cases (and_word (s.l0 (idx / 64)) (mask_at_or_above (idx % 64)))) [
        | no_bit e all ↦ subst (AnswersAbove idx s) (sym (rw (e, find_from) refl)) (
            raise (find_above_in_l1-AnswersAbove (idx / 64) (omega arith)) (omega arith) (λ j a b.
              let at : j / 64 ≡ idx / 64 = omega arith in
              let above : idx % 64 ≤ j % 64 = omega (arith, at) in
              let off = all (j % 64) (omega arith) (omega arith) in
              subst (λ x. s.l0 x (j % 64) ≡ false) (sym at) (ground (arith, off, above))))
        | low_bit h e _ b hit all ↦
            let on : s.l0 (idx / 64) h ≡ true = ground arith in
            let high : idx % 64 ≤ h = ground arith in
            let q : (idx / 64 * 64 + h) / 64 ≡ idx / 64 = omega arith in
            let m : (idx / 64 * 64 + h) % 64 ≡ h = omega arith in
            lowest (idx / 64 * 64 + h) (rw (e, find_from) refl) (omega arith) (omega arith)
              (subst (λ x. s.l0 x ((idx / 64 * 64 + h) % 64) ≡ true) (sym q)
                (subst (λ x. s.l0 (idx / 64) x ≡ true) (sym m) on))
              (λ j a c.
                let at : j / 64 ≡ idx / 64 = omega arith in
                let above : idx % 64 ≤ j % 64 = omega (arith, at) in
                let off = all (j % 64) (omega arith) (omega (arith, at)) in
                subst (λ x. s.l0 x (j % 64) ≡ false) (sym at) (ground (arith, off, above)))
      ]

  none_beyond : (idx j : ℕ) → num_bits ≤ idx → idx ≤ j → test j s ≡ false
  none_beyond idx j big a =
      refute (test j s)
        (λ t. let (_, two) = shown s ok j t in let r = ok.range (j / 64 / 64) two in omega arith)

  pub find_lowest-AnswersAbove : (idx : ℕ) → AnswersAbove idx s (find_lowest_at_or_above idx s)
  unfolding find_lowest_at_or_above
  find_lowest-AnswersAbove idx = elim (Bool-cases (leb num_bits idx)) [
    | inl big ↦ nothing (rw big refl) (λ j a. none_beyond idx j (ground arith) a)
    | inr small ↦
        subst (AnswersAbove idx s) (sym (rw small refl)) (find_from-AnswersAbove idx (ground arith))
  ]

-- The search for the best ask is right: in every bitmap that sets and resets of indices in range make,
-- the answer for an index is the lowest index that is set at or above it, or none when there is no
-- such index.
pub find_lowest_at_or_above-AnswersAbove :
    (writes : List (ℕ × Bool)) (index : ℕ)
    → All (λ (w : ℕ × Bool). w.0 < num_bits) writes
    → AnswersAbove index
        (run_writes writes clear)
        (find_lowest_at_or_above index (run_writes writes clear))
find_lowest_at_or_above-AnswersAbove writes index a =
    find_lowest-AnswersAbove (run_writes writes clear)
      (TwoLevels-IsSummarised _ (run_writes-TwoLevels writes clear a clear-TwoLevels)) index
