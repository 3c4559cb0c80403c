-- ===== src/GapBuffer/Count.antt =====
-- `size_` counts the occupied slots, through every insertion, and through the moves of a
-- backward-shift deletion. So a deletion of a stored packet makes the buffer smaller.
use astra_feed_engine.Prelude.{
  ℕ, zero, suc, ◌+◌, ◌-◌, ◌≤◌, ◌<◌, ◌≡◌, refl, sym, ◌∙◌, List, true, false, Bool, ◌==◌,
  if◌then◌else◌, some, update, update_self, update_ne, ap, arith, if_elim, Bool-cases, inl, inr,
  ltb, not, inc_u32, dec_u32, none-ne-some,
}
use native.Mathlib.Decide.{dec_lt}
use astra_feed_engine.GapBuffer.{
  SequencedPacket, Slot, GapBuffer, InsertResult, capacity, empty_slot, clear, slot_for, next,
  probe_distance, store_at, shift_entry, insert, find_slot, find, close_gap, fill_hole, erase_at,
  erase,
}
use astra_feed_engine.GapBuffer.Stored.{
  InsertCases, kept, stored, insert-cases, LocateCases, missing, found, find_slot-cases,
}

abbrev weight_of : Bool → ℕ
weight_of o = if o then 1 else 0

abbrev weight : Slot → ℕ
weight s = weight_of s.occupied

pub count : ℕ → (ℕ → Slot) → ℕ
count zero slots = 0
count (suc n) slots = count n slots + weight (slots n)

-- The size field tells the number of occupied slots.
pub record IsCounted (b : GapBuffer) : Type 0 where
  pub counted : b.size ≡ count capacity b.slots

count-le : (n : ℕ) (slots : ℕ → Slot) → count n slots ≤ n
unfolding count
count-le zero slots = omega arith
count-le (suc n) slots = ground (arith, count-le n slots)

count-update_above :
    (n : ℕ) (slots : ℕ → Slot) (at : ℕ) (s : Slot)
    → n ≤ at
    → count n (update slots at s) ≡ count n slots
unfolding count
count-update_above zero slots at s h = refl
count-update_above (suc n) slots at s h =
    omega (arith, count-update_above n slots at s, ap weight (update_ne slots at s n (omega arith)))

count-update :
    (n : ℕ) (slots : ℕ → Slot) (at : ℕ) (s : Slot)
    → at < n
    → count n (update slots at s) + weight (slots at) ≡ count n slots + weight s
unfolding count
count-update zero slots at s h = elim h [ ]
count-update (suc n) slots at s h = elim (dec_lt at n) [
  | yes below ↦
      omega (arith, count-update n slots at s, ap weight (update_ne slots at s n (omega arith)))
  | no last ↦
      let e : n ≡ at = omega arith in
      rw (← e) (omega (arith, count-update_above n slots n s, ap weight (update_self slots n s)))
]

next-lt : (slot : ℕ) → next slot < capacity
unfolding next
next-lt slot = omega arith

count_pos :
    (n : ℕ) (slots : ℕ → Slot) (at : ℕ) → (slots at).occupied ≡ true → at < n → 0 < count n slots
unfolding count
count_pos zero slots at o h = elim h [ ]
count_pos (suc n) slots at o h = elim (dec_lt at n) [
  | yes below ↦ omega (arith, count_pos n slots at o below)
  | no last ↦ let e : at ≡ n = omega arith in omega (arith, ap weight_of (rw e at o))
]

pub count-some :
    (n : ℕ) (slots : ℕ → Slot) → 0 < count n slots → (j : ℕ) × (j < n) × ((slots j).occupied ≡ true)
unfolding count
count-some zero slots h = absurd (omega (arith, h))
count-some (suc n) slots h = elim (Bool-cases (slots n).occupied) [
  | inl on ↦ (n, omega arith, on)
  | inr off ↦
      let (j, below, on) = count-some n slots (ground (arith, h, off)) in
      (j, omega (arith, below), on)
]

count_empty : (n : ℕ) → count n (λ _. empty_slot) ≡ 0
unfolding count
count_empty zero = refl
count_empty (suc n) = omega (arith, count_empty n)

pub clear-IsCounted : IsCounted clear
unfolding clear
clear-IsCounted = record { counted = sym (count_empty capacity) }

store_at-IsCounted :
    (at : ℕ) (p : SequencedPacket) (b : GapBuffer)
    → (b.slots at).occupied ≡ false
    → at < capacity
    → IsCounted b
    → IsCounted (store_at at p b)
unfolding inc_u32
store_at-IsCounted at p b free h c = record {
  counted = omega (
    arith,
    c.counted,
    ap weight_of free,
    count-update capacity b.slots at (record { occupied = true; packet = p }) h,
    count-le capacity (store_at at p b).slots,
  );
}

InsertCases-IsCounted :
    {p : SequencedPacket} {b : GapBuffer} {r : InsertResult × GapBuffer}
    → InsertCases p b r
    → IsCounted b
    → IsCounted r.1
InsertCases-IsCounted (kept e _) c = rw e c
InsertCases-IsCounted {p = p} {b = b} (stored at free h e) c =
    rw e (store_at-IsCounted at p b free h c)

pub insert-IsCounted :
    (bytes : List ℕ) (seq msg_count ticks : ℕ) (b : GapBuffer)
    → IsCounted b
    → IsCounted (insert (some bytes) seq msg_count ticks b).1
insert-IsCounted bytes seq msg_count ticks b c =
    InsertCases-IsCounted (insert-cases bytes seq msg_count ticks b) c

-- Moving the gap keeps an occupied slot at it, and the count.
record Shifted (base : ℕ → Slot) (r : (ℕ → Slot) × ℕ) : Type 0 where
  full : (r.0 r.1).occupied ≡ true
  inside : r.1 < capacity
  same : count capacity r.0 ≡ count capacity base

shift_entry-Shifted :
    (slots : ℕ → Slot) (gap slot : ℕ)
    → (slots gap).occupied ≡ true
    → gap < capacity
    → (slots slot).occupied ≡ true
    → slot < capacity
    → Shifted slots (shift_entry slots gap slot)
unfolding shift_entry
shift_entry-Shifted slots gap slot o g o' l =
    if_elim (Shifted slots)
      (ltb (probe_distance (slot_for (slots slot).packet.seq) gap)
        (probe_distance (slot_for (slots slot).packet.seq) slot))
      (λ _. record {
        full = if_elim (λ (t : Slot). t.occupied ≡ true) (slot == gap) (λ _. o') (λ _. o');
        inside = l;
        same = omega (
          arith,
          count-update capacity slots gap (slots slot) g,
          ap weight_of o,
          ap weight_of o',
        );
      })
      (λ _. record { full = o; inside = g; same = refl })

Shifted-trans :
    {base mid : ℕ → Slot} {r : (ℕ → Slot) × ℕ}
    → count capacity mid ≡ count capacity base
    → Shifted mid r
    → Shifted base r
Shifted-trans e h = record { full = h.full; inside = h.inside; same = h.same ∙ e }

close_gap-Shifted :
    (rounds : ℕ) (slots : ℕ → Slot) (gap slot : ℕ)
    → (slots gap).occupied ≡ true
    → gap < capacity
    → slot < capacity
    → Shifted slots (close_gap rounds slots gap slot)
unfolding close_gap
close_gap-Shifted zero slots gap slot o g l = record { full = o; inside = g; same = refl }
close_gap-Shifted (suc rounds) slots gap slot o g l =
    if_elim (Shifted slots) (not (slots slot).occupied)
      (λ _. record { full = o; inside = g; same = refl })
      λ full.
        let h = shift_entry-Shifted slots gap slot o g (ground arith) l in
        Shifted-trans h.same
          (close_gap-Shifted rounds _ _ (next slot) h.full h.inside (next-lt slot))

-- What a deletion of a stored packet does to the size.
pub record Shrinks (b c : GapBuffer) : Type 0 where
  pub counted : IsCounted c
  pub smaller : c.size + 1 ≡ b.size

erase_at-Shrinks :
    (at : ℕ) (b : GapBuffer)
    → (b.slots at).occupied ≡ true
    → at < capacity
    → IsCounted b
    → Shrinks b (erase_at at b)
unfolding erase_at fill_hole dec_u32
erase_at-Shrinks at b o h c =
    let s = close_gap-Shifted (capacity - 1) b.slots at (next at) o h (next-lt at) in
    let r = close_gap (capacity - 1) b.slots at (next at) in
    let e : count capacity (update r.0 r.1 empty_slot) + 1 ≡ b.size = omega (
      arith,
      c.counted,
      s.same,
      count-update capacity r.0 r.1 empty_slot s.inside,
      ap weight_of s.full,
    ) in
    let le = count-le capacity b.slots in
    record {
      counted = record { counted = omega (arith, c.counted, e, le) };
      smaller = omega (arith, c.counted, e, le);
    }

erase_found-Shrinks :
    {seq : ℕ} {b : GapBuffer} {p : SequencedPacket}
    → LocateCases seq b (find_slot seq b)
    → IsCounted b
    → find seq b ≡ some p
    → Shrinks b (erase seq b)
unfolding find erase
erase_found-Shrinks (missing e) c f = absurd (none-ne-some (rw (e, find) at f))
erase_found-Shrinks {b = b} (found at e o _ h) c f = rw (e, erase) (erase_at-Shrinks at b o h c)

-- Erasing a number that find answers takes exactly one packet out.
pub erase-Shrinks :
    (seq : ℕ) (b : GapBuffer) {p : SequencedPacket}
    → IsCounted b
    → find seq b ≡ some p
    → Shrinks b (erase seq b)
erase-Shrinks seq b c f = erase_found-Shrinks (find_slot-cases seq b) c f
