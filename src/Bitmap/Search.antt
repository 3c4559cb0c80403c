-- ===== src/Bitmap/Search.antt =====
-- include/astra/utils/PriceBitmap.hpp: the search of the highest occupied price finds what a scan would.
use astra_feed_engine.Prelude.{
  ℕ, ◌+◌, ◌*◌, ◌/◌, ◌%◌, ◌≤◌, ◌<◌, ◌≡◌, inl, inr, refl, sym, ◌∙◌, ap, subst, Bool, true, false,
  Option, none, some, leb, arith, Bool-cases, true-ne-false,
}
use astra_feed_engine.Bitmap.{
  Word, PriceBitmapStorage, l1_words, and_word, valid_l2_mask, mask_below, bit_high, is_zero, test,
  highest_in, find_in_l1, find_in_l2,
}
use astra_feed_engine.Bitmap.Bits.{no_bit, high_bit, bit_high-cases}

-- A summary bit is set exactly when its word is not zero.
pub record IsSummarised (s : PriceBitmapStorage) : Type 0 where
  pub up0 : (w b : ℕ) → b < 64 → s.l0 w b ≡ true → s.l1 (w / 64) (w % 64) ≡ true
  pub down0 : (w : ℕ) → s.l1 (w / 64) (w % 64) ≡ true → is_zero (s.l0 w) ≡ false
  pub up1 : (w b : ℕ) → b < 64 → s.l1 w b ≡ true → s.l2 w ≡ true
  pub down1 : (w : ℕ) → s.l2 w ≡ true → is_zero (s.l1 w) ≡ false
  pub range : (w : ℕ) → s.l2 w ≡ true → w < l1_words

-- The answer of a search below n: the highest index that is set, or none.
pub data Answers (n : ℕ) (s : PriceBitmapStorage) (o : Option ℕ) : Type 0 where
  nothing : o ≡ none → ((j : ℕ) → j < n → test j s ≡ false) → Answers n s o
  highest :
      (k : ℕ)
      → o ≡ some k
      → k < n
      → test k s ≡ true
      → ((j : ℕ) → k < j → j < n → test j s ≡ false)
      → Answers n s o

-- An answer below m is one below n, when nothing is set from m to n.
pub lower :
    {m n : ℕ} {s : PriceBitmapStorage} {o : Option ℕ}
    → Answers m s o
    → m ≤ n
    → ((j : ℕ) → m ≤ j → j < n → test j s ≡ false)
    → Answers n s o
lower {m} {n} {s} {o} (nothing e all) h clear = nothing e (λ j b. elim (Bool-cases (leb m j)) [
  | inl far ↦ clear j (ground arith) b
  | inr near ↦ all j (ground arith)
])
lower {m} {n} {s} {o} (highest k e b t all) h clear = highest k e (omega arith) t (λ j a b.
    elim (Bool-cases (leb m j)) [
      | inl far ↦ clear j (ground arith) b
      | inr near ↦ all j a (ground arith)
    ])

pub refute : (b : Bool) → (b ≡ true → ⊥) → b ≡ false
refute true f = absurd (f refl)
refute false f = refl

-- A nonzero word has a highest bit.
pub bit_of :
    (w : Word)
    → is_zero w ≡ false
    → (h : ℕ) × (bit_high w ≡ some h)
      × (h < 64)
      × (w h ≡ true)
      × ((j : ℕ) → h < j → j < 64 → w j ≡ false)
unfolding is_zero
bit_of w nz = elim (bit_high-cases w) [
  | no_bit e _ ↦ absurd (true-ne-false (rw⁻¹ nz (rw (e, is_zero) refl)))
  | high_bit h e b hit all ↦ (h, e, b, hit, all)
]

module _ (s : PriceBitmapStorage) (ok : IsSummarised s) where
  -- A set index shows in both summaries.
  pub shown :
      (j : ℕ)
      → test j s ≡ true
      → (s.l1 (j / 64 / 64) (j / 64 % 64) ≡ true) × (s.l2 (j / 64 / 64) ≡ true)
  unfolding test
  shown j t =
      let one = ok.up0 (j / 64) (j % 64) (omega arith) t in
      (one, ok.up1 (j / 64 / 64) (j / 64 % 64) (omega arith) one)

  -- With nothing set between the word w and the bound, the highest bit of w is the answer.
  highest_in-Answers :
      (w n : ℕ)
      → is_zero (s.l0 w) ≡ false
      → w * 64 + 64 ≤ n
      → ((j : ℕ) → w * 64 + 64 ≤ j → j < n → test j s ≡ false)
      → Answers n s (highest_in w s)
  unfolding highest_in test
  highest_in-Answers w n nz bound above =
      let (h, e, b, hit, all) = bit_of (s.l0 w) nz in
      highest (w * 64 + h) (rw (e, highest_in) refl) (omega arith) (in_word w h b hit)
        (λ j lower upper. elim (Bool-cases (leb (w * 64 + 64) j)) [
          | inl far ↦ above j (ground arith) upper
          | inr near ↦
              other_bit w j (ground arith) (ground arith)
                (all (j % 64) (ground arith) (omega arith))
        ])
    where
      in_word :
          (w h : ℕ) → h < 64 → s.l0 w h ≡ true → s.l0 ((w * 64 + h) / 64) ((w * 64 + h) % 64) ≡ true
      in_word w h b hit =
          let q : (w * 64 + h) / 64 ≡ w = omega arith in
          let r : (w * 64 + h) % 64 ≡ h = omega arith in rw (q, r) hit

      other_bit :
          (w j : ℕ)
          → w * 64 ≤ j
          → j < w * 64 + 64
          → s.l0 w (j % 64) ≡ false
          → s.l0 (j / 64) (j % 64) ≡ false
      other_bit w j a b f = let q : j / 64 ≡ w = omega arith in rw q f

  find_in_l2-Answers : (w1 : ℕ) → Answers (w1 * 4096) s (find_in_l2 w1 s)
  unfolding find_in_l2
  find_in_l2-Answers w1 =
      elim (bit_high-cases (and_word (and_word s.l2 valid_l2_mask) (mask_below w1))) [
        | no_bit e all ↦ nothing (rw (e, find_in_l2) refl) (λ j h. refute (test j s) (λ t.
            let (_, two) = shown j t in
            let r = ok.range (j / 64 / 64) two in
            let off = all (j / 64 / 64) (omega arith) in
            let below : j / 64 / 64 < w1 = omega arith in
            true-ne-false (ground (arith, two, r, off, below))))
        | high_bit p e b hit all ↦
            let on : s.l2 p ≡ true = ground arith in
            let low : p < w1 = ground arith in
            let (h, e', b', hit', all') = bit_of (s.l1 p) (ok.down1 p on) in
            let q : (p * 64 + h) / 64 ≡ p = omega arith in
            let m : (p * 64 + h) % 64 ≡ h = omega arith in
            let nz = ok.down0 (p * 64 + h) (rw (q, m) hit') in
            subst (Answers (w1 * 4096) s) (sym (rw (e, find_in_l2) (rw (e', find_in_l2) refl))) (
              highest_in-Answers (p * 64 + h) (w1 * 4096) nz (omega arith) (λ j a c.
                refute (test j s) (λ t.
                  let (one, two) = shown j t in
                  let r = ok.range (j / 64 / 64) two in
                  let below : j / 64 / 64 < w1 = omega arith in
                  elim (Bool-cases (leb (j / 64 / 64) p)) [
                    | inl same ↦
                        let at : j / 64 / 64 ≡ p = ground arith in
                        let off = all' (j / 64 % 64) (omega (arith, at)) (omega arith) in
                        true-ne-false (sym (ap (λ x. s.l1 x (j / 64 % 64)) (sym at) ∙ one) ∙ off)
                    | inr far ↦
                        let off = all (j / 64 / 64) (ground arith) (omega arith) in
                        true-ne-false (ground (arith, two, r, off, below))
                  ])))
      ]

  pub find_in_l1-Answers : (w0 : ℕ) → Answers (w0 * 64) s (find_in_l1 w0 s)
  unfolding find_in_l1
  find_in_l1-Answers w0 = elim (bit_high-cases (and_word (s.l1 (w0 / 64)) (mask_below (w0 % 64)))) [
    | no_bit e all ↦ subst (Answers (w0 * 64) s) (sym (rw (e, find_in_l1) refl)) (
        lower (find_in_l2-Answers (w0 / 64)) (omega arith) (λ j a c. refute (test j s) (λ t.
          let (one, _) = shown j t in
          let at : j / 64 / 64 ≡ w0 / 64 = omega arith in
          let here = ap (λ x. s.l1 x (j / 64 % 64)) (sym at) ∙ one in
          let below : j / 64 % 64 < w0 % 64 = omega (arith, at) in
          let off = all (j / 64 % 64) (omega arith) in
          true-ne-false (ground (arith, here, off, below)))))
    | high_bit h e b hit all ↦
        let on : s.l1 (w0 / 64) h ≡ true = ground arith in
        let low : h < w0 % 64 = ground arith in
        let q : (w0 / 64 * 64 + h) / 64 ≡ w0 / 64 = omega arith in
        let m : (w0 / 64 * 64 + h) % 64 ≡ h = omega arith in
        let nz = ok.down0 (w0 / 64 * 64 + h) (rw (q, m) on) in
        subst (Answers (w0 * 64) s) (sym (rw (e, find_in_l1) refl)) (
          highest_in-Answers (w0 / 64 * 64 + h) (w0 * 64) nz (omega arith) (λ j a c.
            refute (test j s) (λ t.
              let (one, _) = shown j t in
              let at : j / 64 / 64 ≡ w0 / 64 = omega arith in
              let here = ap (λ x. s.l1 x (j / 64 % 64)) (sym at) ∙ one in
              let below : j / 64 % 64 < w0 % 64 = omega (arith, at) in
              let off = all (j / 64 % 64) (omega (arith, at)) (omega arith) in
              true-ne-false (ground (arith, here, off, below)))))
  ]
