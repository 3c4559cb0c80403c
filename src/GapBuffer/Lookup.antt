-- ===== src/GapBuffer/Lookup.antt =====
-- What an insertion puts into the buffer is found there, and what was found stays found.
use astra_feed_engine.Prelude.{
  ℕ, zero, suc, ◌+◌, ◌%◌, ◌≡◌, ◌≢◌, ◌⊎◌, inl, inr, refl, sym, ◌∙◌, ap, List, true, not, ◌&&◌, ◌==◌,
  Option, none, some, length, ltb, arith, if_elim, update_self, update_ne, Bool-cases, Option-cases,
  none-ne-some, some_eq, bytes_eq→eq,
}
use astra_feed_engine.GapBuffer.{
  SequencedPacket, Slot, GapBuffer, InsertResult, capacity, max_packet_size, slot_for,
  compare_duplicate, store_at, insert_probe, insert, locate, find_slot, find,
}
use astra_feed_engine.GapBuffer.Stored.{
  compare_duplicate-ne-inserted, InsertCases, kept, stored, insert_probe-cases, insert-cases,
}

-- An occupied slot is never written by an insertion.
InsertCases-slot :
    {p : SequencedPacket} {b : GapBuffer} {r : InsertResult × GapBuffer} (i : ℕ)
    → InsertCases p b r
    → (b.slots i).occupied ≡ true
    → r.1.slots i ≡ b.slots i
InsertCases-slot {p} {b} {r} i (kept same _) o = rw same refl
InsertCases-slot {p} {b} {r} i (stored at free _ e) o =
    rw e (
      update_ne b.slots at (record { occupied = true; packet = p }) i
        (λ (e : i ≡ at). ground arith))

-- The stored packet is the one given, up to the time of its first arrival.
abbrev pub SameDatagram : SequencedPacket → SequencedPacket → Type 0
SameDatagram q p =
    (q.seq ≡ p.seq) × (q.msg_count ≡ p.msg_count) × (q.len ≡ p.len) × (q.payload ≡ p.payload)

compare_duplicate-identical :
    (old p : SequencedPacket)
    → old.seq ≡ p.seq
    → compare_duplicate old p ≡ InsertResult.duplicate_identical
    → SameDatagram old p
unfolding compare_duplicate
compare_duplicate-identical old p s h = ground (arith, s, bytes_eq→eq old.payload p.payload)

record Located (rounds probes start : ℕ) (p : SequencedPacket) (r : InsertResult × GapBuffer)
    : Type 0 where
  located :
      (r.0 ≡ InsertResult.inserted) ⊎ (r.0 ≡ InsertResult.duplicate_identical)
      → (at : ℕ) × (locate rounds probes start p.seq r.1 ≡ some at)
        × SameDatagram (r.1.slots at).packet p

locate_here :
    (rounds probes start seq : ℕ) (b : GapBuffer)
    → (b.slots ((start + probes) % capacity)).occupied ≡ true
    → (b.slots ((start + probes) % capacity)).packet.seq ≡ seq
    → locate (suc rounds) probes start seq b ≡ some ((start + probes) % capacity)
unfolding locate
locate_here rounds probes start seq b o s = ground arith

locate_next :
    (rounds probes start seq : ℕ) (b : GapBuffer)
    → (b.slots ((start + probes) % capacity)).occupied ≡ true
    → (b.slots ((start + probes) % capacity)).packet.seq ≢ seq
    → locate (suc rounds) probes start seq b ≡ locate rounds (probes + 1) start seq b
unfolding locate
locate_next rounds probes start seq b o s = ground arith

insert_probe-Located :
    (rounds probes start : ℕ) (p : SequencedPacket) (b : GapBuffer)
    → Located rounds probes start p (insert_probe rounds probes start p b)
unfolding insert_probe
insert_probe-Located zero probes start p b = record { located = λ h. ground arith }
insert_probe-Located (suc rounds) probes start p b =
    let at = (start + probes) % capacity in
    let ih = insert_probe-Located rounds (probes + 1) start p b in
    let rest = insert_probe rounds (probes + 1) start p b in
    if_elim (Located (suc rounds) probes start p)
      ((b.slots at).occupied && (b.slots at).packet.seq == p.seq)
      (λ hit. record {
        located = λ h.
            let o : (b.slots at).occupied ≡ true = ground arith in
            let s : (b.slots at).packet.seq ≡ p.seq = ground arith in
            (
              at,
              locate_here rounds probes start p.seq b o s,
              compare_duplicate-identical (b.slots at).packet p s
                  (ground (arith, compare_duplicate-ne-inserted (b.slots at).packet p)),
            );
      })
      λ miss.
        if_elim (Located (suc rounds) probes start p) (not (b.slots at).occupied)
          (λ free. record {
            located = λ h.
                let w = update_self b.slots at (record { occupied = true; packet = p }) in
                (
                  at,
                  locate_here rounds probes start p.seq (store_at at p b)
                      (ap (λ (s : Slot). s.occupied) w) (ap (λ (s : Slot). s.packet.seq) w),
                  ground (arith, ap (λ (s : Slot). s.packet) w),
                );
          })
          λ full. record {
            located = λ h.
                let o : (b.slots at).occupied ≡ true = ground arith in
                let same =
                  InsertCases-slot at (insert_probe-cases rounds (probes + 1) start p b) o in
                let (found, hit, content) = ih.located h in
                (
                  found,
                  locate_next rounds probes start p.seq rest.1
                        (ap (λ (s : Slot). s.occupied) same ∙ o)
                        (ground (arith, ap (λ (s : Slot). s.packet.seq) same))
                      ∙ hit,
                  content,
                );
          }

find_at :
    (seq : ℕ) (b : GapBuffer) (at : ℕ)
    → find_slot seq b ≡ some at
    → find seq b ≡ some (b.slots at).packet
unfolding find
find_at seq b at hit = rw (hit, find) refl

-- A packet that insert reports as inserted or as an identical duplicate is found under its number,
-- with the same count and the same bytes.
pub insert-find :
    (bytes : List ℕ) (seq msg_count ticks : ℕ) (b : GapBuffer)
    → ((insert (some bytes) seq msg_count ticks b).0 ≡ InsertResult.inserted)
      ⊎ ((insert (some bytes) seq msg_count ticks b).0 ≡ InsertResult.duplicate_identical)
    → (q : SequencedPacket) × (find seq (insert (some bytes) seq msg_count ticks b).1 ≡ some q)
      × (q.seq ≡ seq)
      × (q.msg_count ≡ msg_count)
      × (q.len ≡ length bytes)
      × (q.payload ≡ bytes)
unfolding insert find_slot
insert-find bytes seq msg_count ticks b h =
    let p : SequencedPacket = record {
      seq = seq;
      receive_start_ticks = ticks;
      msg_count = msg_count;
      len = length bytes;
      payload = bytes;
    } in
    let placed : Located capacity 0 (slot_for seq) p (insert (some bytes) seq msg_count ticks b) =
      if_elim (Located capacity 0 (slot_for seq) p) (ltb max_packet_size (length bytes))
        (λ _. record { located = λ e. ground arith })
        λ _. insert_probe-Located capacity 0 (slot_for seq) p b in
    let (at, hit, content) = placed.located h in
    (
      ((insert (some bytes) seq msg_count ticks b).1.slots at).packet,
      find_at seq (insert (some bytes) seq msg_count ticks b).1 at hit,
      content.0,
      content.1,
      content.2,
      content.3,
    )

locate_kept :
    (rounds probes start seq : ℕ) (b b' : GapBuffer) (at : ℕ)
    → ((i : ℕ) → (b.slots i).occupied ≡ true → b'.slots i ≡ b.slots i)
    → locate rounds probes start seq b ≡ some at
    → (locate rounds probes start seq b' ≡ some at) × ((b.slots at).occupied ≡ true)
unfolding locate
locate_kept zero probes start seq b b' at k h = ground arith
locate_kept (suc rounds) probes start seq b b' at k h =
    let i = (start + probes) % capacity in
    elim (Bool-cases (b.slots i).occupied) [
      | inr free ↦ ground arith
      | inl o ↦
          let same = k i o in
          ground (
            arith,
            ap (λ (s : Slot). s.occupied) same,
            ap (λ (s : Slot). s.packet.seq) same,
            locate_kept rounds (probes + 1) start seq b b' at k,
          )
    ]

find_slot_kept :
    (seq : ℕ) (b b' : GapBuffer) (at : ℕ)
    → ((i : ℕ) → (b.slots i).occupied ≡ true → b'.slots i ≡ b.slots i)
    → find_slot seq b ≡ some at
    → (find_slot seq b' ≡ some at) × ((b.slots at).occupied ≡ true)
unfolding find_slot
find_slot_kept seq b b' at k h = locate_kept capacity 0 (slot_for seq) seq b b' at k h

-- What was found before an insertion, of whatever packet and with whatever result, is found after it.
pub insert-find_kept :
    (payload : Option (List ℕ)) (seq msg_count ticks other : ℕ) (b : GapBuffer)
    (q : SequencedPacket)
    → find other b ≡ some q
    → find other (insert payload seq msg_count ticks b).1 ≡ some q
unfolding find insert
insert-find_kept none seq msg_count ticks other b q h = h
insert-find_kept (some bytes) seq msg_count ticks other b q h =
    elim (Option-cases (find_slot other b)) [
      | inl miss ↦ absurd (none-ne-some (sym (rw (miss, find) refl) ∙ h))
      | inr (at, hit) ↦
          let k =
            find_slot_kept other b (insert (some bytes) seq msg_count ticks b).1 at
              (λ i. InsertCases-slot i (insert-cases bytes seq msg_count ticks b)) hit in
          let packet_is : (b.slots at).packet ≡ q = some_eq (sym (find_at other b at hit) ∙ h) in
          let same = InsertCases-slot at (insert-cases bytes seq msg_count ticks b) k.1 in
          find_at other (insert (some bytes) seq msg_count ticks b).1 at k.0
          ∙ ap (λ (s : Slot). some s.packet) same
          ∙ ap (λ (p : SequencedPacket). some p) packet_is
    ]
