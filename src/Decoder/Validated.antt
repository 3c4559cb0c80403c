-- ===== src/Decoder/Validated.antt =====
-- src/codec/MoldUdpDecoder.cpp, validateSequencedPacket: what a packet that passes it is like.
use astra_feed_engine.Prelude.{ℕ, suc, ◌+◌, ◌≤◌, ◌≡◌, ◌≢◌, List, length, arith}
use astra_feed_engine.Wire.{byte_at, read_u16_be, expected_itch_message_length}
use astra_feed_engine.Decoder.State.{DecodeStatus}
use astra_feed_engine.Decoder.Messages.{validate_loop}

-- What a step of the validation has tested, when it does not fail.
pub validate_loop-step :
    (rounds : ℕ) (bytes : List ℕ) (offset : ℕ)
    → validate_loop (suc rounds) bytes offset ≡ DecodeStatus.ok
    → let len = read_u16_be bytes offset in
      (len ≢ 0)
      × (offset + 2 + len ≤ length bytes)
      × (expected_itch_message_length (byte_at bytes (offset + 2)) ≡ len)
      × (validate_loop rounds bytes (offset + 2 + len) ≡ DecodeStatus.ok)
unfolding validate_loop
validate_loop-step rounds bytes offset h = ground arith
