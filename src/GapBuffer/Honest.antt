-- ===== src/GapBuffer/Honest.antt =====
-- No operation of the gap buffer makes a packet up: what holds of each packet that is stored
-- holds of each packet that is found.
use astra_feed_engine.Prelude.{
  ℕ, zero, suc, ◌-◌, ◌≡◌, List, true, ◌==◌, some, length, update, if_elim, some_eq, none-ne-some,
  subst, false, ltb, not,
}
use astra_feed_engine.GapBuffer.{
  SequencedPacket, Slot, GapBuffer, capacity, empty_slot, clear, slot_for, next, probe_distance,
  shift_entry, InsertResult, insert, find_slot, find, fill_hole, close_gap, erase_at, erase,
}
use astra_feed_engine.GapBuffer.Stored.{
  kept, stored, insert-cases, missing, found, find_slot-cases, InsertCases, LocateCases,
}

abbrev SlotsHold : (SequencedPacket → Type 0) → (ℕ → Slot) → Type 0
SlotsHold Q slots = (i : ℕ) → (slots i).occupied ≡ true → Q (slots i).packet

-- Every stored packet satisfies Q.
pub record AllStored (Q : SequencedPacket → Type 0) (b : GapBuffer) : Type 0 where
  pub holds : (i : ℕ) → (b.slots i).occupied ≡ true → Q (b.slots i).packet

module _ (Q : SequencedPacket → Type 0) where
  update-SlotsHold :
      (slots : ℕ → Slot) (at : ℕ) (s : Slot)
      → SlotsHold Q slots
      → (s.occupied ≡ true → Q s.packet)
      → SlotsHold Q (update slots at s)
  update-SlotsHold slots at s h q i =
      if_elim (λ (t : Slot). t.occupied ≡ true → Q t.packet) (i == at) (λ _. q) (λ _. h i)

  pub clear-AllStored : AllStored Q clear
  unfolding clear
  clear-AllStored = record { holds = λ i (o : false ≡ true). cc }

  InsertCases-AllStored :
      {p : SequencedPacket} {b : GapBuffer} {r : InsertResult × GapBuffer}
      → InsertCases p b r
      → Q p
      → AllStored Q b
      → AllStored Q r.1
  InsertCases-AllStored (kept e _) q h = rw e h
  InsertCases-AllStored {b = b} (stored at _ _ e) q h =
      rw e (record { holds = update-SlotsHold b.slots at _ h.holds (λ _. q) })

  -- A packet that is stored is one that was stored before, or the new one.
  pub insert-AllStored :
      (bytes : List ℕ) (seq msg_count ticks : ℕ) (b : GapBuffer)
      → Q (record {
        seq = seq;
        receive_start_ticks = ticks;
        msg_count = msg_count;
        len = length bytes;
        payload = bytes;
      })
      → AllStored Q b
      → AllStored Q (insert (some bytes) seq msg_count ticks b).1
  insert-AllStored bytes seq msg_count ticks b q h =
      InsertCases-AllStored (insert-cases bytes seq msg_count ticks b) q h

  shift_entry-SlotsHold :
      (slots : ℕ → Slot) (gap slot : ℕ)
      → SlotsHold Q slots
      → SlotsHold Q (shift_entry slots gap slot).0
  unfolding shift_entry
  shift_entry-SlotsHold slots gap slot h =
      if_elim (λ (r : (ℕ → Slot) × ℕ). SlotsHold Q r.0)
        (ltb (probe_distance (slot_for (slots slot).packet.seq) gap)
          (probe_distance (slot_for (slots slot).packet.seq) slot))
        (λ _. update-SlotsHold slots gap (slots slot) h (h slot)) (λ _. h)

  close_gap-SlotsHold :
      (rounds : ℕ) (slots : ℕ → Slot) (gap slot : ℕ)
      → SlotsHold Q slots
      → SlotsHold Q (close_gap rounds slots gap slot).0
  unfolding close_gap
  close_gap-SlotsHold zero slots gap slot h = h
  close_gap-SlotsHold (suc rounds) slots gap slot h =
      if_elim (λ (r : (ℕ → Slot) × ℕ). SlotsHold Q r.0) (not (slots slot).occupied) (λ _. h)
        λ _. close_gap-SlotsHold rounds _ _ (next slot) (shift_entry-SlotsHold slots gap slot h)

  LocateCases-erase :
      {seq : ℕ} {b : GapBuffer}
      → LocateCases seq b (find_slot seq b)
      → AllStored Q b
      → AllStored Q (erase seq b)
  unfolding erase erase_at fill_hole
  LocateCases-erase (missing e) h = rw (e, erase) h
  LocateCases-erase {b = b} (found at e _ _ _) h =
      rw (e, erase)
        (record {
          holds =
              update-SlotsHold _ _ empty_slot
                (close_gap-SlotsHold (capacity - 1) b.slots at (next at) h.holds)
                (λ (o : false ≡ true). cc);
        })

  pub erase-AllStored : (seq : ℕ) (b : GapBuffer) → AllStored Q b → AllStored Q (erase seq b)
  erase-AllStored seq b h = LocateCases-erase (find_slot-cases seq b) h

  LocateCases-find :
      {seq : ℕ} {b : GapBuffer} {p : SequencedPacket}
      → LocateCases seq b (find_slot seq b)
      → AllStored Q b
      → find seq b ≡ some p
      → Q p × (p.seq ≡ seq)
  unfolding find
  LocateCases-find (missing e) h f = absurd (none-ne-some (rw (e, find) at f))
  LocateCases-find {b = b} (found at e o s _) h f =
      let same : (b.slots at).packet ≡ _ = some_eq (rw (e, find) at f) in
      (subst Q same (h.holds at o), rw same at s)

  -- What is found was stored, under the number looked for.
  pub find-AllStored :
      (seq : ℕ) (b : GapBuffer) {p : SequencedPacket}
      → AllStored Q b
      → find seq b ≡ some p
      → Q p × (p.seq ≡ seq)
  find-AllStored seq b h f = LocateCases-find (find_slot-cases seq b) h f
