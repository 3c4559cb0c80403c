-- ===== src/Decoder/Packet.antt =====
-- processPacket: the decision on each datagram, in the order of the source.
use astra_feed_engine.Prelude.{
  ℕ, ◌-◌, ◌^◌, max, List, [], ◌∷◌, Bool, true, false, not, ◌&&◌, ◌||◌, Option, none, some, ◌==◌,
  ltb, leb, if◌then◌else◌, length, add_u64,
}
use astra_feed_engine.Wire.{header_size, end_of_session_message_count, read_u16_be, read_u64_be}
use astra_feed_engine.GapBuffer.{GapBuffer, InsertResult, max_packet_size}
use astra_feed_engine.GapBuffer
use astra_feed_engine.Channel.{
  ChannelHealth, is_good, is_gap_detected, is_recovering, is_stale, is_invalid, is_end_of_messages,
  ChannelState, set_session, session_matches,
}
use astra_feed_engine.Decoder.State.{
  DecodeStatus, is_ok, is_end_of_stream, DecodeResult, of_status, merge_latency, MessageHandler,
  Clock, MoldUdpDecoder, PacketView, terminal_failure,
}
use astra_feed_engine.Decoder.Messages.{validate_sequenced_packet, process_sequenced_packet}
use astra_feed_engine.Decoder.Drain.{drain_gap_buffer}

-- A control packet ahead of the expected number: the channel waits for what is missing.
abbrev pub raise_watermark : ℕ → ChannelState → ChannelState
raise_watermark seq c = record c {
  heartbeat_next_seq_high_watermark = max c.heartbeat_next_seq_high_watermark seq;
}

-- What the channel becomes after an insertion, by its result.
unfoldable pub note_insertion : InsertResult → ChannelState → ChannelState
note_insertion InsertResult.inserted c = c
note_insertion InsertResult.duplicate_identical c = record c {
  identical_buffered_redundant_packets = add_u64 c.identical_buffered_redundant_packets 1;
}
note_insertion InsertResult.conflicting_duplicate c = record c {
  conflicting_buffered_redundant_packets = add_u64 c.conflicting_buffered_redundant_packets 1;
}
note_insertion _ c = record c { status = ChannelHealth.stale }

abbrev pub is_conflicting : InsertResult → Bool
is_conflicting InsertResult.conflicting_duplicate = true
is_conflicting _ = false

-- The channel's health once the buffer is drained.
unfoldable pub settle : ChannelState → ChannelState
settle c =
    let watermark =
      if not (c.heartbeat_next_seq_high_watermark == 0)
        && leb c.heartbeat_next_seq_high_watermark c.next_expected_seq
      then 0
      else c.heartbeat_next_seq_high_watermark in
    if is_invalid c.status || is_stale c.status then c else record c {
      heartbeat_next_seq_high_watermark = watermark;
      status =
          if GapBuffer.empty c.gap_buffer && watermark == 0
          then ChannelHealth.good
          else ChannelHealth.recovering;
    }

module _ {P : Type 0} where
  unfoldable pub bind_session : List ℕ → MoldUdpDecoder P → MoldUdpDecoder P
  bind_session bytes d =
      if d.first_packet_seen
      then d
      else record d { first_packet_seen = true; channel = set_session bytes d.channel }

  unfoldable pub early_end_of_session : ℕ → MoldUdpDecoder P → DecodeResult × MoldUdpDecoder P
  early_end_of_session first_seq d =
      if is_end_of_messages d.channel.phase
        || is_invalid d.channel.status
        || is_stale d.channel.status
      then terminal_failure DecodeStatus.invalid_sequence d
      else (
        of_status DecodeStatus.ok true,
        record d {
          pending_end_sequence = first_seq;
          channel = record (raise_watermark first_seq d.channel) {
            status = ChannelHealth.gap_detected;
          };
        },
      )

  unfoldable pub process_end_of_session : ℕ → MoldUdpDecoder P → DecodeResult × MoldUdpDecoder P
  process_end_of_session first_seq d =
      let c = d.channel in
      if ltb first_seq c.next_expected_seq
        || not (d.pending_end_sequence == 0) && not (d.pending_end_sequence == first_seq)
        || ltb first_seq c.heartbeat_next_seq_high_watermark
      then terminal_failure DecodeStatus.invalid_sequence d
      else if ltb c.next_expected_seq first_seq
      then early_end_of_session first_seq d
      else if not (is_good c.status)
          || not (GapBuffer.empty c.gap_buffer)
          || not (c.heartbeat_next_seq_high_watermark == 0)
      then terminal_failure DecodeStatus.invalid_sequence d
      else if not (is_end_of_messages c.phase)
      then terminal_failure DecodeStatus.incomplete_session d
      else (
        of_status DecodeStatus.end_of_stream false,
        record d { terminal_status = DecodeStatus.end_of_stream },
      )

  unfoldable pub process_heartbeat : ℕ → MoldUdpDecoder P → DecodeResult × MoldUdpDecoder P
  process_heartbeat first_seq d =
      let c = d.channel in
      if not (d.pending_end_sequence == 0) && ltb d.pending_end_sequence first_seq
      then terminal_failure DecodeStatus.invalid_sequence d
      else if ltb c.next_expected_seq first_seq
      then (
        of_status DecodeStatus.ok true,
        record d {
          channel = record (raise_watermark first_seq c) {
            status =
                if not (is_stale c.status) && not (is_invalid c.status)
                then ChannelHealth.gap_detected
                else c.status;
          };
        },
      )
      else if not (c.heartbeat_next_seq_high_watermark == 0)
          && leb c.heartbeat_next_seq_high_watermark c.next_expected_seq
      then (
        of_status DecodeStatus.ok false,
        record d {
          channel = record c {
            heartbeat_next_seq_high_watermark = 0;
            status =
                if GapBuffer.empty c.gap_buffer
                  && not (is_invalid c.status)
                  && not (is_stale c.status)
                then ChannelHealth.good
                else c.status;
          };
        },
      )
      else (of_status DecodeStatus.ok false, d)

  -- A sequenced packet ahead of the expected number.
  unfoldable pub buffer_packet :
      List ℕ → ℕ → ℕ → ℕ → MoldUdpDecoder P → DecodeResult × MoldUdpDecoder P
  buffer_packet bytes first_seq msg_count ticks d =
      let gap = record (d.channel) { status = ChannelHealth.gap_detected } in
      let (result, buffer) =
        GapBuffer.insert (some bytes) first_seq msg_count ticks gap.gap_buffer in
      let d' = record d { channel = note_insertion result (record gap { gap_buffer = buffer }) } in
      if is_stale d.channel.status
      then (of_status DecodeStatus.ok true, d)
      else if ltb max_packet_size (length bytes)
      then terminal_failure DecodeStatus.invalid_size (record d { channel = gap })
      else if is_conflicting result
      then terminal_failure DecodeStatus.redundant_feed_mismatch d'
      else (of_status DecodeStatus.ok true, d')

  unfoldable pub resolve_pending_end_of_stream : MoldUdpDecoder P → DecodeStatus × MoldUdpDecoder P
  resolve_pending_end_of_stream d =
      let c = d.channel in
      if d.pending_end_sequence == 0 || ltb c.next_expected_seq d.pending_end_sequence
      then (DecodeStatus.ok, d)
      else if ltb d.pending_end_sequence c.next_expected_seq
      then (DecodeStatus.invalid_sequence, d)
      else if not (is_good c.status)
          || not (GapBuffer.empty c.gap_buffer)
          || not (c.heartbeat_next_seq_high_watermark == 0)
      then (DecodeStatus.ok, d)
      else if not (is_end_of_messages c.phase)
      then (DecodeStatus.incomplete_session, d)
      else (
        DecodeStatus.end_of_stream,
        record d { pending_end_sequence = 0; terminal_status = DecodeStatus.end_of_stream },
      )

  -- The end of processPacket.
  unfoldable pub conclude : DecodeResult → MoldUdpDecoder P → DecodeResult × MoldUdpDecoder P
  conclude result d =
      let (pending, d') = resolve_pending_end_of_stream d in
      if is_ok pending
      then (result, d')
      else if is_end_of_stream pending
      then (record result { status = pending }, d')
      else terminal_failure pending d'

  -- The packet's messages are applied: the expected number moves on.
  unfoldable pub advance : ℕ → MoldUdpDecoder P → MoldUdpDecoder P
  advance packet_end d = record d {
    channel = record (d.channel) {
      status =
          if is_gap_detected d.channel.status then ChannelHealth.recovering else d.channel.status;
      next_expected_seq = packet_end;
    };
  }

module _ {P : Type 0} (parser : MessageHandler P) (clock : Clock) where
  -- A sequenced packet that holds the expected number.
  unfoldable pub apply_packet :
      List ℕ → ℕ → ℕ → ℕ → MoldUdpDecoder P → DecodeResult × MoldUdpDecoder P
  apply_packet bytes first_seq msg_count ticks d =
      let (result, d1) =
        process_sequenced_packet parser clock bytes first_seq msg_count
          (max d.channel.next_expected_seq first_seq) ticks d in
      let d2 = advance (add_u64 first_seq msg_count) d1 in
      let had_gap = is_gap_detected d2.channel.status || is_recovering d2.channel.status in
      let (drained, d3) = drain_gap_buffer parser clock d2 in
      if not (is_ok result.status)
      then terminal_failure result.status d1
      else if not (is_ok drained.status)
      then terminal_failure drained.status d3
      else conclude (record (merge_latency result drained) { had_gap = had_gap })
          (record d3 { channel = settle d3.channel })

  unfoldable pub process_sequenced :
      List ℕ → ℕ → ℕ → ℕ → MoldUdpDecoder P → DecodeResult × MoldUdpDecoder P
  process_sequenced bytes first_seq msg_count ticks d =
      let validation = validate_sequenced_packet bytes msg_count in
      let expected = d.channel.next_expected_seq in
      let packet_end = add_u64 first_seq msg_count in
      if ltb (2 ^ 64 - 1 - msg_count) first_seq
      then terminal_failure DecodeStatus.invalid_sequence d
      else if not (is_ok validation)
      then terminal_failure validation d
      else if not (d.pending_end_sequence == 0) && ltb d.pending_end_sequence packet_end
      then terminal_failure DecodeStatus.invalid_sequence d
      else if leb packet_end expected
      then (of_status DecodeStatus.ok false, d)
      else if ltb expected first_seq
      then buffer_packet bytes first_seq msg_count ticks d
      else apply_packet bytes first_seq msg_count ticks d

  -- A datagram with a whole header.
  unfoldable pub process_datagram : List ℕ → ℕ → MoldUdpDecoder P → DecodeResult × MoldUdpDecoder P
  process_datagram bytes ticks d =
      let msg_count = read_u16_be bytes 18 in
      let first_seq = read_u64_be bytes 10 in
      let bound = bind_session bytes d in
      if (msg_count == 0 || msg_count == end_of_session_message_count)
        && not (length bytes == header_size)
      then terminal_failure DecodeStatus.invalid_size d
      else if d.first_packet_seen && not (session_matches bytes d.channel)
      then terminal_failure DecodeStatus.invalid_session d
      else if msg_count == end_of_session_message_count
      then process_end_of_session first_seq bound
      else if msg_count == 0
      then process_heartbeat first_seq bound
      else process_sequenced bytes first_seq msg_count ticks bound

  unfoldable pub process_bytes :
      Option (List ℕ) → ℕ → MoldUdpDecoder P → DecodeResult × MoldUdpDecoder P
  process_bytes none ticks d = (of_status DecodeStatus.packet_too_small false, d)
  process_bytes (some bytes) ticks d =
      if ltb (length bytes) header_size
      then (of_status DecodeStatus.packet_too_small false, d)
      else process_datagram bytes ticks d

  unfoldable pub process_packet : PacketView → MoldUdpDecoder P → DecodeResult × MoldUdpDecoder P
  process_packet packet d =
      if is_ok d.terminal_status
      then process_bytes packet.payload packet.receive_start_ticks d
      else (of_status d.terminal_status false, d)

  -- A run over the datagrams of both lines, in the order of their arrival.
  unfoldable pub process_packets : List PacketView → MoldUdpDecoder P → MoldUdpDecoder P
  process_packets [] d = d
  process_packets (packet ∷ packets) d = process_packets packets (process_packet packet d).1
