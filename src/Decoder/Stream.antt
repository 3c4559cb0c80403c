-- ===== src/Decoder/Stream.antt =====
-- The stream that a Mold session carries, and what a parser has seen of it: the specification that
-- the sequencing of src/codec/MoldUdpDecoder.cpp is measured by.
use astra_feed_engine.Prelude.{ℕ, zero, suc, ◌+◌, ◌≡◌, ◌≢◌, List, [], ◌∷◌, Option, none, some}
use astra_feed_engine.Wire.{
  header_size, end_of_session_message_count, subspan, read_u16_be, read_u64_be,
}
use astra_feed_engine.Wire.Octets.{Octets}
use astra_feed_engine.Decoder.State.{MessageHandler, PacketView}

-- The parser after `n` messages of the stream from number `first` on, in order and each once.
unfoldable pub played : {P : Type 0} → MessageHandler P → (ℕ → List ℕ) → ℕ → P → ℕ → P
played parser stream first p zero = p
played parser stream first p (suc n) =
    parser.handle (played parser stream first p n) (stream (first + n))

-- The messages of a datagram, one after the other, as their length fields cut them.
unfoldable pub frames : ℕ → List ℕ → ℕ → List (List ℕ)
frames zero bytes offset = []
frames (suc n) bytes offset =
    subspan bytes (offset + 2) (read_u16_be bytes offset)
    ∷ frames n bytes (offset + 2 + read_u16_be bytes offset)

-- The messages are those of the stream from number `seq` on.
abbrev pub Carries : (ℕ → List ℕ) → ℕ → List (List ℕ) → Type 0
Carries stream seq [] = Unit {0}
Carries stream seq (m ∷ ms) = (m ≡ stream seq) × Carries stream (seq + 1) ms

-- A datagram is octets, and its messages are those of the stream at the numbers that its header claims.
abbrev pub HonestBytes : (ℕ → List ℕ) → Option (List ℕ) → Type 0
HonestBytes stream none = Unit {0}
HonestBytes stream (some bytes) =
    Octets bytes
    × (read_u16_be bytes 18 ≢ end_of_session_message_count
        → Carries stream (read_u64_be bytes 10) (frames (read_u16_be bytes 18) bytes header_size))

-- What both lines of a feed send: loss, repetition and reordering are left open.
pub record Honest (stream : ℕ → List ℕ) (packet : PacketView) : Type 0 where
  pub carries : HonestBytes stream packet.payload
