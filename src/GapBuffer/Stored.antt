-- ===== src/GapBuffer/Stored.antt =====
-- What the gap buffer stores: no operation makes a packet up, and `size` counts the slots in use.
use astra_feed_engine.Prelude.{
  ℕ, zero, suc, ◌+◌, ◌%◌, ◌<◌, ◌≡◌, ◌≢◌, refl, List, true, false, not, ◌&&◌, ◌==◌, Option, none,
  some, length, arith, if_elim,
}
use astra_feed_engine.GapBuffer.{
  SequencedPacket, GapBuffer, InsertResult, capacity, slot_for, compare_duplicate, store_at,
  insert_probe, insert, locate, find_slot,
}

pub data InsertCases (p : SequencedPacket) (b : GapBuffer) (r : InsertResult × GapBuffer)
    : Type 0 where
  kept : r.1 ≡ b → r.0 ≢ InsertResult.inserted → InsertCases p b r
  stored :
      (at : ℕ)
      → (b.slots at).occupied ≡ false
      → at < capacity
      → r ≡ (InsertResult.inserted, store_at at p b)
      → InsertCases p b r

pub compare_duplicate-ne-inserted :
    (old p : SequencedPacket) → compare_duplicate old p ≢ InsertResult.inserted
unfolding compare_duplicate
compare_duplicate-ne-inserted old p = ground arith

pub insert_probe-cases :
    (rounds probes start : ℕ) (p : SequencedPacket) (b : GapBuffer)
    → InsertCases p b (insert_probe rounds probes start p b)
unfolding insert_probe
insert_probe-cases zero probes start p b = kept refl (λ e. cc)
insert_probe-cases (suc rounds) probes start p b =
    if_elim (InsertCases p b)
      ((b.slots ((start + probes) % capacity)).occupied
        && (b.slots ((start + probes) % capacity)).packet.seq == p.seq)
      (λ _. kept refl (compare_duplicate-ne-inserted _ p))
      λ _.
        if_elim (InsertCases p b) (not (b.slots ((start + probes) % capacity)).occupied)
          (λ free. stored ((start + probes) % capacity) (ground arith) (omega arith) refl)
          λ _. insert_probe-cases rounds (probes + 1) start p b

pub insert-cases :
    (bytes : List ℕ) (seq msg_count ticks : ℕ) (b : GapBuffer)
    → InsertCases
        (record {
          seq = seq;
          receive_start_ticks = ticks;
          msg_count = msg_count;
          len = length bytes;
          payload = bytes;
        })
        b
        (insert (some bytes) seq msg_count ticks b)
unfolding insert
insert-cases bytes seq msg_count ticks b =
    if_elim (InsertCases _ b) _
      (λ _. kept refl (λ (e : InsertResult.invalid_packet ≡ InsertResult.inserted). cc))
      λ _. insert_probe-cases capacity 0 (slot_for seq) _ b

-- A successful probe ends at an occupied slot that holds the number looked for.
pub data LocateCases (seq : ℕ) (b : GapBuffer) (o : Option ℕ) : Type 0 where
  missing : o ≡ none → LocateCases seq b o
  found :
      (at : ℕ)
      → o ≡ some at
      → (b.slots at).occupied ≡ true
      → (b.slots at).packet.seq ≡ seq
      → at < capacity
      → LocateCases seq b o

locate-cases :
    (rounds probes start seq : ℕ) (b : GapBuffer)
    → LocateCases seq b (locate rounds probes start seq b)
unfolding locate
locate-cases zero probes start seq b = missing refl
locate-cases (suc rounds) probes start seq b =
    if_elim (LocateCases seq b) (not (b.slots ((start + probes) % capacity)).occupied)
      (λ _. missing refl)
      λ full.
        if_elim (LocateCases seq b) ((b.slots ((start + probes) % capacity)).packet.seq == seq)
          (λ same.
            found ((start + probes) % capacity) refl (ground arith) (ground arith) (omega arith))
          λ _. locate-cases rounds (probes + 1) start seq b

pub find_slot-cases : (seq : ℕ) (b : GapBuffer) → LocateCases seq b (find_slot seq b)
unfolding find_slot
find_slot-cases seq b = locate-cases capacity 0 (slot_for seq) seq b
