-- ===== src/GapBuffer/Stats.antt =====
-- include/astra/sequencing/GapBuffer.hpp, stats: the least and the greatest stored sequence number, and
-- the next one from an expected number on.
use astra_feed_engine.Prelude.{
  ℕ, zero, suc, ◌^◌, ◌≤◌, ◌<◌, ◌≡◌, ◌≢◌, ◌⊎◌, inl, inr, refl, sym, ◌∙◌, ap, Bool, true, false, not,
  ◌&&◌, ◌==◌, ltb, leb, if◌then◌else◌, arith, Bool-cases, subst, true-ne-false, if_elim,
}
use astra_feed_engine.GapBuffer.{Slot, GapBuffer, capacity, empty}
use astra_feed_engine.GapBuffer.Count.{IsCounted, count-some}
use astra_feed_engine.GapBuffer.Honest.{AllStored}

pub record Stats : Type 0 where
  pub size : ℕ
  pub min_seq : ℕ
  pub max_seq : ℕ
  pub next_seq_at_or_after : ℕ

-- The three local variables of the loop.
pub record SeqRange : Type 0 where
  pub min_seq : ℕ
  pub max_seq : ℕ
  pub next_seq : ℕ

-- numeric_limits<uint64_t>::max()
abbrev pub max_u64 : ℕ
max_u64 = 18446744073709551615

unfoldable pub note_slot : ℕ → Slot → SeqRange → SeqRange
note_slot expected_seq slot r =
    let seq = slot.packet.seq in
    if not slot.occupied then r else record {
      min_seq = if ltb seq r.min_seq then seq else r.min_seq;
      max_seq = if ltb r.max_seq seq then seq else r.max_seq;
      next_seq = if leb expected_seq seq && ltb seq r.next_seq then seq else r.next_seq;
    }

-- The loop over the first slots.
unfoldable pub scan : ℕ → ℕ → GapBuffer → SeqRange
scan zero expected_seq b = record { min_seq = max_u64; max_seq = 0; next_seq = max_u64 }
scan (suc n) expected_seq b = note_slot expected_seq (b.slots n) (scan n expected_seq b)

unfoldable pub stats : ℕ → GapBuffer → Stats
stats expected_seq b =
    let r = scan capacity expected_seq b in
    if b.size == 0
    then record { size = b.size; min_seq = 0; max_seq = 0; next_seq_at_or_after = 0 }
    else record {
      size = b.size;
      min_seq = r.min_seq;
      max_seq = r.max_seq;
      next_seq_at_or_after = if not (r.next_seq == max_u64) then r.next_seq else 0;
    }

-- One of the first n slots stores this number.
abbrev pub Stores : ℕ → GapBuffer → ℕ → Type 0
Stores n b seq = (j : ℕ) × (j < n) × ((b.slots j).occupied ≡ true) × ((b.slots j).packet.seq ≡ seq)

record IsScanned (n expected_seq : ℕ) (b : GapBuffer) (r : SeqRange) : Type 0 where
  low : (j : ℕ) → j < n → (b.slots j).occupied ≡ true → r.min_seq ≤ (b.slots j).packet.seq
  high : (j : ℕ) → j < n → (b.slots j).occupied ≡ true → (b.slots j).packet.seq ≤ r.max_seq
  next :
      (j : ℕ)
      → j < n
      → (b.slots j).occupied ≡ true
      → expected_seq ≤ (b.slots j).packet.seq
      → r.next_seq ≤ (b.slots j).packet.seq
  low_at : (r.min_seq ≡ max_u64) ⊎ Stores n b r.min_seq
  high_at : (r.max_seq ≡ 0) ⊎ Stores n b r.max_seq
  next_at : (r.next_seq ≡ max_u64) ⊎ (Stores n b r.next_seq × (expected_seq ≤ r.next_seq))

Stores-more : (n : ℕ) (b : GapBuffer) (seq : ℕ) → Stores n b seq → Stores (suc n) b seq
Stores-more n b seq (j, h, o, e) = (j, omega (arith, h), o, e)

-- One more slot, which is not in use.
skipped-IsScanned :
    (n expected_seq : ℕ) (b : GapBuffer) (r : SeqRange)
    → (b.slots n).occupied ≡ false
    → IsScanned n expected_seq b r
    → IsScanned (suc n) expected_seq b r
skipped-IsScanned n expected_seq b r off k =
    let below : (j : ℕ) → j < suc n → (b.slots j).occupied ≡ true → j < n = λ j h o.
      elim (Bool-cases (j == n)) [
        | inl last ↦
            let q : j ≡ n = ground (arith, last) in
            absurd (true-ne-false (sym o ∙ (ap (λ x. (b.slots x).occupied) q ∙ off)))
        | inr early ↦ ground (arith, early, h)
      ] in
    record {
      low = λ j h o. k.low j (below j h o) o;
      high = λ j h o. k.high j (below j h o) o;
      next = λ j h o. k.next j (below j h o) o;
      low_at = elim k.low_at [ inl e ↦ inl e | inr s ↦ inr (Stores-more n b r.min_seq s) ];
      high_at = elim k.high_at [ inl e ↦ inl e | inr s ↦ inr (Stores-more n b r.max_seq s) ];
      next_at = elim k.next_at [
        | inl e ↦ inl e
        | inr (s, e) ↦ inr (Stores-more n b r.next_seq s, e)
      ];
    }

-- The number is the slot's, or the one before.
chosen :
    (n : ℕ) (b : GapBuffer) (top old : ℕ) (test : Bool)
    → (b.slots n).occupied ≡ true
    → (old ≡ top) ⊎ Stores n b old
    → ((if test then (b.slots n).packet.seq else old) ≡ top)
      ⊎ Stores (suc n) b (if test then (b.slots n).packet.seq else old)
chosen n b top old true on k = inr (n, omega arith, on, refl)
chosen n b top old false on k = elim k [ inl e ↦ inl e | inr s ↦ inr (Stores-more n b old s) ]

-- One more slot, which is in use.
module _ (n expected_seq : ℕ) (b : GapBuffer) (r : SeqRange) (on : (b.slots n).occupied ≡ true)
    (k : IsScanned n expected_seq b r) where
  abbrev seq : ℕ
  seq = (b.slots n).packet.seq

  abbrev noted : SeqRange
  noted = record {
    min_seq = if ltb seq r.min_seq then seq else r.min_seq;
    max_seq = if ltb r.max_seq seq then seq else r.max_seq;
    next_seq = if leb expected_seq seq && ltb seq r.next_seq then seq else r.next_seq;
  }

  -- What holds of the slots before, and of this one.
  every :
      (P : ℕ → Type 0)
      → ((j : ℕ) → j < n → (b.slots j).occupied ≡ true → P (b.slots j).packet.seq)
      → P seq
      → (j : ℕ) → j < suc n
      → (b.slots j).occupied ≡ true
      → P (b.slots j).packet.seq
  every P before here j h o = elim (Bool-cases (j == n)) [
    | inl last ↦
        let q : n ≡ j = ground (arith, last) in subst (λ x. P (b.slots x).packet.seq) q here
    | inr early ↦ before j (ground (arith, early, h)) o
  ]

  next_chosen :
      (old : ℕ) (test : Bool)
      → (test ≡ true → expected_seq ≤ seq)
      → (old ≡ max_u64) ⊎ (Stores n b old × (expected_seq ≤ old))
      → ((if test then seq else old) ≡ max_u64)
        ⊎ (Stores (suc n) b (if test then seq else old)
            × (expected_seq ≤ (if test then seq else old)))
  next_chosen old true from k = inr ((n, omega arith, on, refl), from refl)
  next_chosen old false from k = elim k [
    | inl e ↦ inl e
    | inr (s, e) ↦ inr (Stores-more n b old s, e)
  ]

  noted-IsScanned : IsScanned (suc n) expected_seq b noted
  noted-IsScanned = record {
    low =
        every (λ x. noted.min_seq ≤ x) (λ j h o. let e = k.low j h o in ground (arith, e))
          (ground arith);
    high =
        every (λ x. x ≤ noted.max_seq) (λ j h o. let e = k.high j h o in ground (arith, e))
          (ground arith);
    next =
        every (λ x. expected_seq ≤ x → noted.next_seq ≤ x)
          (λ j h o from. let e = k.next j h o from in ground (arith, e))
          (λ from. ground (arith, from));
    low_at = chosen n b max_u64 r.min_seq (ltb seq r.min_seq) on k.low_at;
    high_at = chosen n b 0 r.max_seq (ltb r.max_seq seq) on k.high_at;
    next_at =
        next_chosen r.next_seq (leb expected_seq seq && ltb seq r.next_seq) (λ e. ground (arith, e))
          k.next_at;
  }

scan-IsScanned :
    (n expected_seq : ℕ) (b : GapBuffer) → IsScanned n expected_seq b (scan n expected_seq b)
unfolding scan note_slot
scan-IsScanned zero expected_seq b = record {
  low = λ j h o. omega (arith, h);
  high = λ j h o. omega (arith, h);
  next = λ j h o e. omega (arith, h);
  low_at = inl refl;
  high_at = inl refl;
  next_at = inl refl;
}
scan-IsScanned (suc n) expected_seq b =
    let k = scan-IsScanned n expected_seq b in
    let r = scan n expected_seq b in
    if_elim (IsScanned (suc n) expected_seq b) (not (b.slots n).occupied)
      (λ off. skipped-IsScanned n expected_seq b r (ground (arith, off)) k)
      (λ on. noted-IsScanned n expected_seq b r (ground (arith, on)) k)

-- The least stored number from the expected one on, or 0 when there is none.
abbrev pub IsNext : ℕ → GapBuffer → ℕ → Type 0
IsNext expected_seq b n =
    ((n ≢ 0)
      × Stores capacity b n
      × (expected_seq ≤ n)
      × ((j : ℕ)
          → j < capacity
          → (b.slots j).occupied ≡ true
          → expected_seq ≤ (b.slots j).packet.seq
          → n ≤ (b.slots j).packet.seq))
    ⊎ ((n ≡ 0)
        × ((j : ℕ)
            → j < capacity
            → (b.slots j).occupied ≡ true
            → (b.slots j).packet.seq < max_u64
            → (b.slots j).packet.seq < expected_seq))

scanned-IsNext :
    (expected_seq : ℕ) (b : GapBuffer) (r : SeqRange)
    → 0 < expected_seq
    → IsScanned capacity expected_seq b r
    → IsNext expected_seq b (if not (r.next_seq == max_u64) then r.next_seq else 0)
scanned-IsNext expected_seq b r pos k = elim (Bool-cases (r.next_seq == max_u64)) [
  | inl none_left ↦
      let e : 0 ≡ (if not (r.next_seq == max_u64) then r.next_seq else 0) =
        ground (arith, none_left) in
      subst (IsNext expected_seq b) e (
        inr (
          refl,
          λ j h o word. elim (Bool-cases (leb expected_seq (b.slots j).packet.seq)) [
            | inl from ↦
                let top : r.next_seq ≡ max_u64 = ground (arith, none_left) in
                absurd (omega (arith, k.next j h o (ground (arith, from)), top, word))
            | inr before ↦ ground (arith, before)
          ],
        ))
  | inr left ↦
      let e : r.next_seq ≡ (if not (r.next_seq == max_u64) then r.next_seq else 0) =
        ground (arith, left) in
      subst (IsNext expected_seq b) e (elim k.next_at [
        | inl top ↦ absurd (ground (arith, top, left))
        | inr (s, from) ↦ inl (λ z. omega (arith, z, from, pos), s, from, k.next)
      ])
]

-- What the numbers of a buffer that is not empty tell of its packets.
pub record IsReport (expected_seq : ℕ) (b : GapBuffer) (s : Stats) : Type 0 where
  pub least :
      (j : ℕ) → j < capacity → (b.slots j).occupied ≡ true → s.min_seq ≤ (b.slots j).packet.seq
  pub greatest :
      (j : ℕ) → j < capacity → (b.slots j).occupied ≡ true → (b.slots j).packet.seq ≤ s.max_seq
  pub least_stored : Stores capacity b s.min_seq
  pub greatest_stored : Stores capacity b s.max_seq
  pub next : IsNext expected_seq b s.next_seq_at_or_after

-- The report of the packets that wait: in a buffer whose size counts them and that is not empty, with
-- 64-bit sequence numbers and an expected number from 1 on, the two bounds are the least and the greatest
-- stored number, and the next number is the least stored one that is not below the expected number, or 0
-- when there is none below the greatest 64-bit number.
pub stats-IsReport :
    (expected_seq : ℕ) (b : GapBuffer)
    → 0 < expected_seq
    → IsCounted b
    → AllStored (λ p. p.seq < 2 ^ 64) b
    → empty b ≡ false
    → IsReport expected_seq b (stats expected_seq b)
unfolding stats empty
stats-IsReport expected_seq b pos c words some_packet =
    let k = scan-IsScanned capacity expected_seq b in
    let r = scan capacity expected_seq b in
    let (i, h, o) = count-some capacity b.slots (ground (arith, some_packet, c.counted)) in
    let low = k.low i h o in
    let high = k.high i h o in
    let word = words.holds i o in
    if_elim (IsReport expected_seq b) (b.size == 0)
      (λ none_there. absurd (true-ne-false (sym none_there ∙ some_packet)))
      (λ _. record {
        least = k.low;
        greatest = k.high;
        least_stored = elim k.low_at [ inl e ↦ (i, h, o, omega (arith, e, low, word)) | inr s ↦ s ];
        greatest_stored = elim k.high_at [ inl e ↦ (i, h, o, omega (arith, e, high)) | inr s ↦ s ];
        next = scanned-IsNext expected_seq b r pos k;
      })
