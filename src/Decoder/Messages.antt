-- ===== src/Decoder/Messages.antt =====
-- The two walks over a datagram's messages: validateSequencedPacket, which reads only, and
-- processSequencedPacket, which hands the messages from `start_seq` on to the parser.
use astra_feed_engine.Prelude.{
  ℕ, zero, suc, ◌+◌, ◌-◌, List, false, not, ◌&&◌, ◌||◌, ◌==◌, ltb, if◌then◌else◌, length, add_u64,
}
use astra_feed_engine.Wire.{
  header_size, byte_at, subspan, read_u16_be, expected_itch_message_length,
}
use astra_feed_engine.Channel.{ChannelHealth}
use astra_feed_engine.Decoder.State.{
  DecodeStatus, ok, invalid_size, invalid_itch_message, invalid_sequence, is_ok, DecodeResult,
  of_status, MessageHandler, Clock, MoldUdpDecoder, with_status,
}

-- The loop of validateSequencedPacket with `rounds` messages left.
unfoldable pub validate_loop : ℕ → List ℕ → ℕ → DecodeStatus
validate_loop zero bytes offset = if offset == length bytes then ok else invalid_size
validate_loop (suc rounds) bytes offset =
    let msg_len = read_u16_be bytes offset in
    let body = offset + 2 in
    let expected_len = expected_itch_message_length (byte_at bytes body) in
    let rest = validate_loop rounds bytes (body + msg_len) in
    if ltb (length bytes) body
    then invalid_size
    else if msg_len == 0 || ltb (length bytes - body) msg_len
    then invalid_size
    else if expected_len == 0 || not (msg_len == expected_len)
    then invalid_itch_message
    else rest

unfoldable pub validate_sequenced_packet : List ℕ → ℕ → DecodeStatus
validate_sequenced_packet bytes msg_count = validate_loop msg_count bytes header_size

module _ {P : Type 0} (parser : MessageHandler P) where
  -- One message at or after `start_seq`.
  unfoldable pub apply_message : List ℕ → MoldUdpDecoder P → MoldUdpDecoder P
  apply_message message d =
      let p = parser.handle d.parser message in
      record d { parser = p; channel = record (d.channel) { phase = parser.channel_phase p } }

  -- The loop of processSequencedPacket: the status, the messages applied, and the decoder.
  unfoldable pub message_loop :
      ℕ → List ℕ → ℕ → ℕ → ℕ → ℕ → MoldUdpDecoder P → DecodeStatus × ℕ × MoldUdpDecoder P
  message_loop zero bytes offset message_seq start_seq processed d = (ok, processed, d)
  message_loop (suc rounds) bytes offset message_seq start_seq processed d =
      let msg_len = read_u16_be bytes offset in
      let body = offset + 2 in
      let skipped = ltb message_seq start_seq in
      let d' = if skipped then d else apply_message (subspan bytes body msg_len) d in
      let rest =
        message_loop rounds bytes (body + msg_len) (add_u64 message_seq 1) start_seq
          (if skipped then processed else add_u64 processed 1) d' in
      if ltb (length bytes) body
      then (invalid_size, processed, d)
      else if msg_len == 0 || ltb (length bytes) (body + msg_len)
      then (invalid_size, processed, d)
      else if not skipped && parser.failed d'.parser
      then (invalid_itch_message, processed, with_status ChannelHealth.invalid d')
      else rest

  -- The time of the messages applied, when the datagram carries a receive time.
  unfoldable pub timed_result : Clock → ℕ → ℕ → MoldUdpDecoder P → DecodeResult × MoldUdpDecoder P
  timed_result clock ticks processed d =
      if not (ticks == 0) && not (processed == 0)
      then (
        record {
          status = ok;
          had_gap = false;
          latency_total_ns = clock.elapsed_rdtsc_ns ticks (clock.rdtsc d.clock_reads);
          latency_sample_count = processed;
        },
        record d { clock_reads = d.clock_reads + 1 },
      )
      else (of_status ok false, d)

  unfoldable pub process_sequenced_packet :
      Clock → List ℕ → ℕ → ℕ → ℕ → ℕ → MoldUdpDecoder P → DecodeResult × MoldUdpDecoder P
  process_sequenced_packet clock bytes first_seq msg_count start_seq ticks d =
      let packet_end = add_u64 first_seq msg_count in
      let (status, processed, d') =
        message_loop msg_count bytes header_size first_seq start_seq 0 d in
      if ltb start_seq first_seq || ltb packet_end start_seq
      then (of_status invalid_sequence false, d)
      else if is_ok status
      then timed_result clock ticks processed d'
      else (of_status status false, d')
