-- ===== src/Control/Packets.antt =====
-- include/astra/protocol/MoldUdpControlPacket.hpp against the readers of src/codec/MoldUdpDecoder.cpp.
use astra_feed_engine.Prelude.{ℕ, ◌^◌, ◌<◌, ◌≡◌, refl, List, length, take, arith}
use astra_feed_engine.Wire.{header_size, session_size, byte_at, read_be, read_u16_be, read_u64_be}
use astra_feed_engine.Control.{session_bytes, sequence_bytes, make_mold_control_packet}

-- A control packet is read back: it is exactly a header, with the sequence number, the message count
-- and the padded session that it was made of.
pub make_mold_control_packet-read :
    (session : List ℕ) (next_sequence message_count : ℕ)
    → next_sequence < 2 ^ 64
    → message_count < 2 ^ 16
    → let packet = make_mold_control_packet session next_sequence message_count in
      (length packet ≡ header_size)
      × (read_u64_be packet 10 ≡ next_sequence)
      × (read_u16_be packet 18 ≡ message_count)
      × (take session_size packet ≡ session_bytes session_size 0 session)
unfolding make_mold_control_packet session_bytes sequence_bytes read_u64_be read_u16_be read_be
    byte_at
make_mold_control_packet-read session next_sequence message_count s c =
    (refl, omega arith, omega arith, refl)
