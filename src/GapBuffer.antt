-- ===== src/GapBuffer.antt =====
-- include/astra/sequencing/GapBuffer.hpp and include/astra/protocol/SequencedPacket.hpp: the
-- bounded open-addressing table of packets that wait for a missing sequence number.
-- `x & kMask` is `x % capacity`, since the capacity is 2^20. A slot's data is the first `len`
-- bytes of its fixed array; the bytes after them are never read.
pub mod Stored
pub mod Honest
pub mod Count
pub mod Lookup
pub mod Stats
use astra_feed_engine.Prelude.{
  ℕ, zero, suc, ◌+◌, ◌-◌, ◌*◌, ◌/◌, ◌%◌, ◌^◌, bit_xor, List, [], Bool, true, false, not, ◌&&◌, ◌||◌,
  Option, none, some, ◌==◌, ltb, leb, if◌then◌else◌, bytes_eq, length, update, mul_u64, inc_u32,
  dec_u32,
}

abbrev pub max_packet_size : ℕ
max_packet_size = 2048

pub record SequencedPacket : Type 0 where
  pub seq : ℕ
  pub receive_start_ticks : ℕ
  pub msg_count : ℕ
  pub len : ℕ
  pub payload : List ℕ

pub record Slot : Type 0 where
  pub occupied : Bool
  pub packet : SequencedPacket

pub record GapBuffer : Type 0 where
  pub slots : ℕ → Slot
  pub size : ℕ

pub data InsertResult : Type 0 where
  inserted duplicate_identical conflicting_duplicate invalid_packet capacity_exceeded : InsertResult

abbrev pub capacity : ℕ
capacity = 1048576

-- Slot{}
abbrev pub empty_slot : Slot
empty_slot = record {
  occupied = false;
  packet = record { seq = 0; receive_start_ticks = 0; msg_count = 0; len = 0; payload = [] };
}

unfoldable pub clear : GapBuffer
clear = record { slots = λ _. empty_slot; size = 0 }

unfoldable pub empty : GapBuffer → Bool
empty b = b.size == 0

unfoldable pub hash : ℕ → ℕ
unfolding mul_u64
hash value =
    let a = bit_xor value (value / 2 ^ 33) in
    let b = mul_u64 a 0xff51afd7ed558ccd in
    let c = bit_xor b (b / 2 ^ 33) in let d = mul_u64 c 0xc4ceb9fe1a85ec53 in bit_xor d (d / 2 ^ 33)

unfoldable pub slot_for : ℕ → ℕ
unfolding hash
slot_for seq = hash seq % capacity

unfoldable pub next : ℕ → ℕ
next slot = (slot + 1) % capacity

unfoldable pub probe_distance : ℕ → ℕ → ℕ
probe_distance natural slot = (slot + capacity - natural) % capacity

-- A second packet with a stored number is the same datagram, or a conflict.
unfoldable pub compare_duplicate : SequencedPacket → SequencedPacket → InsertResult
compare_duplicate old p =
    if not (old.len == p.len)
      || not (old.msg_count == p.msg_count)
      || not (bytes_eq old.payload p.payload)
    then InsertResult.conflicting_duplicate
    else InsertResult.duplicate_identical

-- What a write at `at` leaves behind.
abbrev pub store_at : ℕ → SequencedPacket → GapBuffer → GapBuffer
store_at at p b = record {
  slots = update b.slots at (record { occupied = true; packet = p });
  size = inc_u32 b.size;
}

-- The loop of insert from its `probes`-th round on, with `rounds` rounds left.
unfoldable pub insert_probe : ℕ → ℕ → ℕ → SequencedPacket → GapBuffer → InsertResult × GapBuffer
insert_probe zero probes start p b = (InsertResult.capacity_exceeded, b)
insert_probe (suc rounds) probes start p b =
    let rest = insert_probe rounds (probes + 1) start p b in
    let at = (start + probes) % capacity in
    let slot = b.slots at in
    if slot.occupied && slot.packet.seq == p.seq
    then (compare_duplicate slot.packet p, b)
    else if not slot.occupied
    then (InsertResult.inserted, store_at at p b)
    else rest

-- `data` is none for a null pointer.
unfoldable pub insert : Option (List ℕ) → ℕ → ℕ → ℕ → GapBuffer → InsertResult × GapBuffer
insert none seq msg_count ticks b = (InsertResult.invalid_packet, b)
insert (some bytes) seq msg_count ticks b =
    if ltb max_packet_size (length bytes)
    then (InsertResult.invalid_packet, b)
    else insert_probe capacity 0 (slot_for seq)
        (record {
          seq = seq;
          receive_start_ticks = ticks;
          msg_count = msg_count;
          len = length bytes;
          payload = bytes;
        })
        b

-- The probe loop that find and erase share: the slot that holds `seq`.
unfoldable pub locate : ℕ → ℕ → ℕ → ℕ → GapBuffer → Option ℕ
locate zero probes start seq b = none
locate (suc rounds) probes start seq b =
    let rest = locate rounds (probes + 1) start seq b in
    let at = (start + probes) % capacity in
    if not (b.slots at).occupied
    then none
    else if (b.slots at).packet.seq == seq
    then some at
    else rest

unfoldable pub find_slot : ℕ → GapBuffer → Option ℕ
find_slot seq b = locate capacity 0 (slot_for seq) seq b

unfoldable pub find : ℕ → GapBuffer → Option SequencedPacket
find seq b = elim (find_slot seq b) [ none ↦ none | some at ↦ some (b.slots at).packet ]

-- One round of eraseAt: an entry that would be found sooner from the gap moves into it.
unfoldable pub shift_entry : (ℕ → Slot) → ℕ → ℕ → (ℕ → Slot) × ℕ
shift_entry slots gap slot =
    let natural = slot_for (slots slot).packet.seq in
    if ltb (probe_distance natural gap) (probe_distance natural slot)
    then (update slots gap (slots slot), slot)
    else (slots, gap)

-- The loop of eraseAt: the slots and the final gap.
unfoldable pub close_gap : ℕ → (ℕ → Slot) → ℕ → ℕ → (ℕ → Slot) × ℕ
close_gap zero slots gap slot = (slots, gap)
close_gap (suc rounds) slots gap slot =
    let (shifted, gap') = shift_entry slots gap slot in
    let rest = close_gap rounds shifted gap' (next slot) in
    if not (slots slot).occupied then (slots, gap) else rest

unfoldable pub fill_hole : (ℕ → Slot) → ℕ → (ℕ → Slot) × ℕ
fill_hole slots at = close_gap (capacity - 1) slots at (next at)

unfoldable pub erase_at : ℕ → GapBuffer → GapBuffer
erase_at at b =
    let (slots, gap) = fill_hole b.slots at in
    record { slots = update slots gap empty_slot; size = dec_u32 b.size }

unfoldable pub erase : ℕ → GapBuffer → GapBuffer
erase seq b = elim (find_slot seq b) [ none ↦ b | some at ↦ erase_at at b ]
