-- ===== src/Decoder/PhaseSync.antt =====
-- src/codec/MoldUdpDecoder.cpp: the channel's phase is the parser's, in every state that a run reaches.
use astra_feed_engine.Prelude.{
  ℕ, zero, suc, ◌+◌, ◌≡◌, inl, inr, refl, sym, ap, ◌∙◌, List, [], ◌∷◌, not, ◌&&◌, ◌||◌, ◌==◌, ltb,
  if◌then◌else◌, length, Option, none, some, add_u64, max, arith, if_elim, Option-cases,
}
use astra_feed_engine.Wire.{header_size, subspan, read_u16_be, read_u64_be}
use astra_feed_engine.GapBuffer.{GapBuffer}
use astra_feed_engine.Decoder.State.{
  DecodeStatus, is_ok, DecodeResult, MessageHandler, Clock, MoldUdpDecoder, PacketView,
  merge_latency, terminal_failure,
}
use astra_feed_engine.Decoder.Messages.{
  apply_message, message_loop, timed_result, process_sequenced_packet,
}
use astra_feed_engine.Decoder.Drain.{
  nearest_candidate, DrainStep, finished, again, erase_packet, drain_packet, drain_step, drain_loop,
  drain_gap_buffer,
}
use astra_feed_engine.Decoder.Packet.{
  bind_session, process_sequenced, process_datagram, process_bytes, process_packet, process_packets,
  apply_packet, advance, settle, conclude, resolve_pending_end_of_stream,
}
use astra_feed_engine.Decoder.Loop.{is_ok→eq}
use astra_feed_engine.Decoder.Delivery.{
  Quiet, buffer_packet-Quiet, process_heartbeat-Quiet, process_end_of_session-Quiet, settle_same,
}
use astra_feed_engine.Decoder.Sequencing.{bind_session-Quiet, bind_session_terminal}

module _ {P : Type 0} (parser : MessageHandler P) where
  pub record Synced (d : MoldUdpDecoder P) : Type 0 where
    pub phase : d.channel.phase ≡ parser.channel_phase d.parser

  quiet : {b : GapBuffer} {d e : MoldUdpDecoder P} → Quiet b d e → Synced d → Synced e
  quiet q s = record {
    phase = q.same_phase ∙ s.phase ∙ ap parser.channel_phase (sym q.same_parser);
  }

  message_loop-Synced :
      (rounds : ℕ) (bytes : List ℕ) (offset seq start processed : ℕ) (d : MoldUdpDecoder P)
      → Synced d
      → Synced (message_loop parser rounds bytes offset seq start processed d).2
  unfolding message_loop apply_message
  message_loop-Synced zero bytes offset seq start processed d k = k
  message_loop-Synced (suc rounds) bytes offset seq start processed d k =
      let len = read_u16_be bytes offset in
      let K = λ (r : DecodeStatus × ℕ × MoldUdpDecoder P). Synced r.2 in
      let d' =
        if ltb seq start then d else apply_message parser (subspan bytes (offset + 2) len) d in
      let k' : Synced d' = if_elim Synced (ltb seq start) (λ _. k) (λ _. record { phase = refl }) in
      if_elim K (ltb (length bytes) (offset + 2)) (λ _. k)
        λ _.
          if_elim K (len == 0 || ltb (length bytes) (offset + 2 + len)) (λ _. k)
            λ _.
              if_elim K (not (ltb seq start) && parser.failed d'.parser)
                (λ _. record { phase = k'.phase })
                λ _.
                  message_loop-Synced rounds bytes (offset + 2 + len) (add_u64 seq 1) start _ d' k'

module _ {P : Type 0} (parser : MessageHandler P) (clock : Clock) where
  process_sequenced_packet-Synced :
      (bytes : List ℕ) (first_seq count start ticks : ℕ) (d : MoldUdpDecoder P)
      → Synced parser d
      → Synced parser (process_sequenced_packet parser clock bytes first_seq count start ticks d).1
  unfolding process_sequenced_packet timed_result
  process_sequenced_packet-Synced bytes first_seq count start ticks d s = ground (
    arith,
    s.phase,
    (message_loop-Synced parser count bytes header_size first_seq start 0 d s).phase,
  )

  -- The decoder that a round leaves.
  abbrev left : DrainStep P → MoldUdpDecoder P
  left (finished _ e) = e
  left (again _ e) = e

  drain_step-Synced :
      (aggregate : DecodeResult) (d : MoldUdpDecoder P)
      → Synced parser d
      → Synced parser (left (drain_step parser clock aggregate d))
  unfolding drain_step drain_packet erase_packet
  drain_step-Synced aggregate d s =
      elim (Option-cases (nearest_candidate d.channel.next_expected_seq d.channel.gap_buffer)) [
        | inl miss ↦ rw (miss, drain_step) s
        | inr (q, hit) ↦
            let k =
              process_sequenced_packet-Synced q.payload q.seq q.msg_count
                d.channel.next_expected_seq q.receive_start_ticks d s in
            ground (arith, s.phase, k.phase, hit)
      ]

  drain_loop-Synced :
      (fuel : ℕ) (aggregate : DecodeResult) (d : MoldUdpDecoder P)
      → Synced parser d
      → Synced parser (drain_loop parser clock fuel aggregate d).1
  unfolding drain_loop
  drain_loop-Synced zero aggregate d s = s
  drain_loop-Synced (suc fuel) aggregate d s =
      after (drain_step parser clock aggregate d) refl (drain_step-Synced aggregate d s)
        (drain_loop-Synced fuel)
    where
      after :
          (r : DrainStep P)
          → drain_step parser clock aggregate d ≡ r
          → Synced parser (left r)
          → ((a : DecodeResult) (e : MoldUdpDecoder P)
              → Synced parser e
              → Synced parser (drain_loop parser clock fuel a e).1)
          → Synced parser (drain_loop parser clock (suc fuel) aggregate d).1
      after (finished result e) eq s' ih = rw (eq, drain_loop) s'
      after (again a e) eq s' ih = rw (eq, drain_loop) (ih a e s')

  drain_gap_buffer-Synced :
      (d : MoldUdpDecoder P) → Synced parser d → Synced parser (drain_gap_buffer parser clock d).1
  unfolding drain_gap_buffer
  drain_gap_buffer-Synced d s = drain_loop-Synced _ _ d s

  conclude-Synced :
      (result : DecodeResult) (d : MoldUdpDecoder P)
      → Synced parser d
      → Synced parser (conclude result d).1
  unfolding conclude resolve_pending_end_of_stream terminal_failure
  conclude-Synced result d s = ground (arith, s.phase)

  advance-Synced :
      (packet_end : ℕ) (d : MoldUdpDecoder P)
      → Synced parser d
      → Synced parser (advance packet_end d)
  unfolding advance
  advance-Synced packet_end d s = record { phase = s.phase }

  apply_packet-Synced :
      (bytes : List ℕ) (first_seq count ticks : ℕ) (d : MoldUdpDecoder P)
      → d.terminal_status ≡ DecodeStatus.ok
      → Synced parser d
      → Synced parser (apply_packet parser clock bytes first_seq count ticks d).1
  unfolding apply_packet merge_latency terminal_failure
  apply_packet-Synced bytes first_seq count ticks d t s =
      let start = max d.channel.next_expected_seq first_seq in
      let run = process_sequenced_packet parser clock bytes first_seq count start ticks d in
      let s1 = process_sequenced_packet-Synced bytes first_seq count start ticks d s in
      let d2 = advance (add_u64 first_seq count) run.1 in
      let s2 = advance-Synced (add_u64 first_seq count) run.1 s1 in
      let drained = drain_gap_buffer parser clock d2 in
      let s3 = drain_gap_buffer-Synced d2 s2 in
      let d3 = record (drained.1) { channel = settle drained.1.channel } in
      let s4 : Synced parser d3 = record { phase = (settle_same drained.1.channel).2 ∙ s3.phase } in
      let G = λ (r : DecodeResult × MoldUdpDecoder P). Synced parser r.1 in
      if_elim G (not (is_ok run.0.status)) (λ _. record { phase = s1.phase })
        λ _.
          if_elim G (not (is_ok drained.0.status)) (λ _. record { phase = s3.phase })
            λ _. conclude-Synced _ d3 s4

  process_sequenced-Synced :
      (bytes : List ℕ) (first_seq count ticks : ℕ) (d : MoldUdpDecoder P)
      → d.terminal_status ≡ DecodeStatus.ok
      → Synced parser d
      → Synced parser (process_sequenced parser clock bytes first_seq count ticks d).1
  unfolding process_sequenced terminal_failure
  process_sequenced-Synced bytes first_seq count ticks d t s = ground (
    arith,
    s.phase,
    (quiet parser (buffer_packet-Quiet bytes first_seq count ticks d) s).phase,
    (apply_packet-Synced bytes first_seq count ticks d t s).phase,
  )

  process_datagram-Synced :
      (bytes : List ℕ) (ticks : ℕ) (d : MoldUdpDecoder P)
      → d.terminal_status ≡ DecodeStatus.ok
      → Synced parser d
      → Synced parser (process_datagram parser clock bytes ticks d).1
  unfolding process_datagram terminal_failure
  process_datagram-Synced bytes ticks d t s =
      let b = bind_session bytes d in
      let t' = bind_session_terminal bytes d ∙ t in
      let s' : Synced parser b = quiet parser (bind_session-Quiet bytes d) s in
      let seq = read_u64_be bytes 10 in
      ground (
        arith,
        s.phase,
        (quiet parser (process_end_of_session-Quiet seq b t') s').phase,
        (quiet parser (process_heartbeat-Quiet seq b) s').phase,
        (process_sequenced-Synced bytes seq (read_u16_be bytes 18) ticks b t' s').phase,
      )

  process_bytes-Synced :
      (payload : Option (List ℕ)) (ticks : ℕ) (d : MoldUdpDecoder P)
      → d.terminal_status ≡ DecodeStatus.ok
      → Synced parser d
      → Synced parser (process_bytes parser clock payload ticks d).1
  unfolding process_bytes
  process_bytes-Synced none ticks d t s = s
  process_bytes-Synced (some bytes) ticks d t s =
      if_elim (λ (r : DecodeResult × MoldUdpDecoder P). Synced parser r.1)
        (ltb (length bytes) header_size) (λ _. s) λ _. process_datagram-Synced bytes ticks d t s

  process_packet-Synced :
      (packet : PacketView) (d : MoldUdpDecoder P)
      → Synced parser d
      → Synced parser (process_packet parser clock packet d).1
  unfolding process_packet
  process_packet-Synced packet d s =
      if_elim (λ (r : DecodeResult × MoldUdpDecoder P). Synced parser r.1) (is_ok d.terminal_status)
        (λ live.
          process_bytes-Synced packet.payload packet.receive_start_ticks d (is_ok→eq _ live) s)
        λ _. s

  pub process_packets-Synced :
      (packets : List PacketView) (d : MoldUdpDecoder P)
      → Synced parser d
      → Synced parser (process_packets parser clock packets d)
  unfolding process_packets
  process_packets-Synced [] d s = s
  process_packets-Synced (packet ∷ packets) d s =
      process_packets-Synced packets _ (process_packet-Synced packet d s)
