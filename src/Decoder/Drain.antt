-- ===== src/Decoder/Drain.antt =====
-- drainGapBuffer: the buffered packets that the expected sequence number has reached.
use astra_feed_engine.Prelude.{
  ℕ, zero, suc, ◌+◌, ◌-◌, ◌/◌, min, Option, none, some, false, leb, if◌then◌else◌, add_u64,
}
use astra_feed_engine.GapBuffer.{SequencedPacket, GapBuffer, max_packet_size}
use astra_feed_engine.GapBuffer
use astra_feed_engine.Channel.{ChannelHealth}
use astra_feed_engine.Wire.{header_size}
use astra_feed_engine.Decoder.State.{
  ok, is_ok, DecodeResult, of_status, merge_latency, MessageHandler, Clock, MoldUdpDecoder,
  with_status,
}
use astra_feed_engine.Decoder.Messages.{process_sequenced_packet}

-- The shortest framed ITCH message is 2 + 12 bytes.
abbrev pub max_messages_per_stored_packet : ℕ
max_messages_per_stored_packet = (max_packet_size - header_size) / 14

-- The search loop from `distance` on, with `rounds` distances left.
unfoldable pub nearest : ℕ → ℕ → ℕ → GapBuffer → Option SequencedPacket
nearest zero distance expected b = none
nearest (suc rounds) distance expected b =
    let rest = nearest rounds (distance + 1) expected b in
    elim (GapBuffer.find (expected - distance) b) [ none ↦ rest | some p ↦ some p ]

unfoldable pub nearest_candidate : ℕ → GapBuffer → Option SequencedPacket
nearest_candidate expected b =
    nearest (min expected max_messages_per_stored_packet + 1) 0 expected b

-- One round of the outer loop: it returns, or goes round again.
pub data DrainStep (P : Type 0) : Type 0 where
  finished : DecodeResult → MoldUdpDecoder P → DrainStep P
  again : DecodeResult → MoldUdpDecoder P → DrainStep P

module _ {P : Type 0} (parser : MessageHandler P) (clock : Clock) where
  unfoldable pub erase_packet : ℕ → MoldUdpDecoder P → MoldUdpDecoder P
  erase_packet seq d = record d {
    channel = record (d.channel) { gap_buffer = GapBuffer.erase seq d.channel.gap_buffer };
  }

  -- A candidate that still has messages to apply.
  unfoldable pub drain_packet : SequencedPacket → ℕ → DecodeResult → MoldUdpDecoder P → DrainStep P
  drain_packet p packet_end aggregate d =
      let (result, d1) =
        process_sequenced_packet parser clock p.payload p.seq p.msg_count
          d.channel.next_expected_seq p.receive_start_ticks d in
      let merged = merge_latency aggregate result in
      let d2 = erase_packet p.seq d1 in
      if is_ok result.status
      then again merged
          (record d2 { channel = record (d2.channel) { next_expected_seq = packet_end } })
      else finished (record merged { status = result.status })
          (with_status ChannelHealth.invalid d2)

  unfoldable pub drain_step : DecodeResult → MoldUdpDecoder P → DrainStep P
  drain_step aggregate d =
      elim (nearest_candidate d.channel.next_expected_seq d.channel.gap_buffer) [
        | none ↦ finished aggregate d
        | some p ↦
            let packet_end = add_u64 p.seq p.msg_count in
            if leb packet_end d.channel.next_expected_seq
            then again aggregate (erase_packet p.seq d)
            else drain_packet p packet_end aggregate d
      ]

  unfoldable pub drain_loop : ℕ → DecodeResult → MoldUdpDecoder P → DecodeResult × MoldUdpDecoder P
  drain_loop zero aggregate d = (aggregate, d)
  drain_loop (suc fuel) aggregate d = elim (drain_step aggregate d) [
    | finished result d' ↦ (result, d')
    | again aggregate' d' ↦ drain_loop fuel aggregate' d'
  ]

  -- Each round takes a packet out of the buffer, so its size bounds the rounds.
  unfoldable pub drain_gap_buffer : MoldUdpDecoder P → DecodeResult × MoldUdpDecoder P
  drain_gap_buffer d = drain_loop (d.channel.gap_buffer.size + 1) (of_status ok false) d
