-- ===== src/Decoder/Progress.antt =====
-- src/codec/MoldUdpDecoder.cpp: a packet that continues the stream is applied, and the expected number
-- passes its end, unless the parser fails.
use astra_feed_engine.Prelude.{
  ℕ, zero, suc, ◌+◌, ◌^◌, ◌≤◌, ◌<◌, ◌≡◌, ◌⊎◌, inl, inr, refl, max, List, ltb, if◌then◌else◌,
  add_u64, add_u64-eq, arith, if_elim, subst, not, true, ◌==◌, ◌||◌, ◌&&◌, length, Option-cases,
}
use astra_feed_engine.Wire.{header_size, subspan, read_u16_be}
use astra_feed_engine.Decoder.State.{
  DecodeStatus, DecodeResult, MessageHandler, Clock, MoldUdpDecoder, merge_latency, is_ok,
  terminal_failure,
}
use astra_feed_engine.Decoder.Messages.{
  validate_loop, validate_sequenced_packet, apply_message, message_loop, timed_result,
  process_sequenced_packet,
}
use astra_feed_engine.Decoder.Drain.{
  nearest_candidate, DrainStep, finished, again, erase_packet, drain_packet, drain_step, drain_loop,
  drain_gap_buffer,
}
use astra_feed_engine.Decoder.Packet.{
  process_sequenced, apply_packet, advance, settle, conclude, resolve_pending_end_of_stream,
}
use astra_feed_engine.Decoder.InOrder.{ok-ne-bad}
use astra_feed_engine.Decoder.Delivery.{not-true, settle_same}
use astra_feed_engine.Decoder.Validated.{validate_loop-step}
use astra_feed_engine.Decoder.Termination.{process_sequenced_packet-Kept}

module _ {P : Type 0} (parser : MessageHandler P) (clock : Clock) where
  -- The walk over valid messages ends well, or the parser has failed.
  abbrev Walked : DecodeStatus × ℕ × MoldUdpDecoder P → Type 0
  Walked x =
      (x.0 ≡ DecodeStatus.ok)
      ⊎ ((x.0 ≡ DecodeStatus.invalid_itch_message) × (parser.failed x.2.parser ≡ true))

  message_loop-Walked :
      (rounds : ℕ) (bytes : List ℕ) (offset seq start processed : ℕ) (d : MoldUdpDecoder P)
      → validate_loop rounds bytes offset ≡ DecodeStatus.ok
      → Walked (message_loop parser rounds bytes offset seq start processed d)
  unfolding message_loop
  message_loop-Walked zero bytes offset seq start processed d v = inl refl
  message_loop-Walked (suc rounds) bytes offset seq start processed d v =
      let (some_bytes, inside, _, rest) = validate_loop-step rounds bytes offset v in
      let len = read_u16_be bytes offset in
      let skipped = ltb seq start in
      let d' = if skipped then d else apply_message parser (subspan bytes (offset + 2) len) d in
      let ih =
        message_loop-Walked rounds bytes (offset + 2 + len) (add_u64 seq 1) start
          (if skipped then processed else add_u64 processed 1) d' rest in
      if_elim Walked (ltb (length bytes) (offset + 2))
        (λ short. absurd (ground (arith, inside, short)))
        (λ _.
          if_elim Walked (len == 0 || ltb (length bytes) (offset + 2 + len))
            (λ short. absurd (ground (arith, some_bytes, inside, short)))
            (λ _.
              if_elim Walked (not skipped && parser.failed d'.parser)
                (λ failed. inr (refl, ground (arith, failed))) (λ _. ih)))

  process_sequenced_packet-Walked :
      (bytes : List ℕ) (first_seq count start ticks : ℕ) (d : MoldUdpDecoder P)
      → validate_loop count bytes header_size ≡ DecodeStatus.ok
      → first_seq ≤ start
      → start ≤ add_u64 first_seq count
      → let r = process_sequenced_packet parser clock bytes first_seq count start ticks d in
        (r.0.status ≡ DecodeStatus.ok)
        ⊎ ((r.0.status ≡ DecodeStatus.invalid_itch_message) × (parser.failed r.1.parser ≡ true))
  unfolding process_sequenced_packet timed_result
  process_sequenced_packet-Walked bytes first_seq count start ticks d v a b =
      ground (arith, message_loop-Walked count bytes header_size first_seq start 0 d v)

  abbrev left : DrainStep P → MoldUdpDecoder P
  left (finished _ e) = e
  left (again _ e) = e

  drain_step-advances :
      (aggregate : DecodeResult) (d : MoldUdpDecoder P)
      → d.channel.next_expected_seq
        ≤ (left (drain_step parser clock aggregate d)).channel.next_expected_seq
  unfolding drain_step drain_packet erase_packet
  drain_step-advances aggregate d =
      elim (Option-cases (nearest_candidate d.channel.next_expected_seq d.channel.gap_buffer)) [
        | inl miss ↦ rw (miss, drain_step) (omega arith)
        | inr (q, hit) ↦
            let k =
              process_sequenced_packet-Kept parser clock q.payload q.seq q.msg_count
                d.channel.next_expected_seq q.receive_start_ticks d in
            ground (arith, k.expected, hit)
      ]

  drain_loop-advances :
      (fuel : ℕ) (aggregate : DecodeResult) (d : MoldUdpDecoder P)
      → d.channel.next_expected_seq
        ≤ (drain_loop parser clock fuel aggregate d).1.channel.next_expected_seq
  unfolding drain_loop
  drain_loop-advances zero aggregate d = omega arith
  drain_loop-advances (suc fuel) aggregate d =
      after (drain_step parser clock aggregate d) refl (drain_step-advances aggregate d)
        (drain_loop-advances fuel)
    where
      after :
          (r : DrainStep P)
          → drain_step parser clock aggregate d ≡ r
          → d.channel.next_expected_seq ≤ (left r).channel.next_expected_seq
          → ((a : DecodeResult) (e : MoldUdpDecoder P)
              → e.channel.next_expected_seq
                ≤ (drain_loop parser clock fuel a e).1.channel.next_expected_seq)
          → d.channel.next_expected_seq
            ≤ (drain_loop parser clock (suc fuel) aggregate d).1.channel.next_expected_seq
      after (finished result e) eq h ih = rw (eq, drain_loop) h
      after (again a e) eq h ih = rw (eq, drain_loop) (omega (arith, h, ih a e))

  drain_gap_buffer-advances :
      (d : MoldUdpDecoder P)
      → d.channel.next_expected_seq ≤ (drain_gap_buffer parser clock d).1.channel.next_expected_seq
  unfolding drain_gap_buffer
  drain_gap_buffer-advances d = drain_loop-advances _ _ d

  advance_expected :
      (packet_end : ℕ) (d : MoldUdpDecoder P)
      → (advance packet_end d).channel.next_expected_seq ≡ packet_end
  unfolding advance
  advance_expected packet_end d = refl

  conclude_expected :
      (result : DecodeResult) (d : MoldUdpDecoder P)
      → (conclude result d).1.channel.next_expected_seq ≡ d.channel.next_expected_seq
  unfolding conclude resolve_pending_end_of_stream terminal_failure
  conclude_expected result d = ground arith

  -- The expected number has passed the packet's end, or the parser has failed, and the decoder with it.
  abbrev pub Advances : ℕ → DecodeResult × MoldUdpDecoder P → Type 0
  Advances packet_end r =
      (packet_end ≤ r.1.channel.next_expected_seq)
      ⊎ ((r.1.terminal_status ≡ DecodeStatus.invalid_itch_message)
          × (parser.failed r.1.parser ≡ true))

  apply_packet-Advances :
      (bytes : List ℕ) (first_seq count ticks : ℕ) (d : MoldUdpDecoder P)
      → let r =
          process_sequenced_packet parser clock bytes first_seq count
            (max d.channel.next_expected_seq first_seq)
            ticks
            d in
        (r.0.status ≡ DecodeStatus.ok)
          ⊎ ((r.0.status ≡ DecodeStatus.invalid_itch_message) × (parser.failed r.1.parser ≡ true))
        → Advances
            (add_u64 first_seq count)
            (apply_packet parser clock bytes first_seq count ticks d)
  unfolding apply_packet terminal_failure merge_latency
  apply_packet-Advances bytes first_seq count ticks d walked =
      let packet_end = add_u64 first_seq count in
      let run =
        process_sequenced_packet parser clock bytes first_seq count
          (max d.channel.next_expected_seq first_seq) ticks d in
      let d2 = advance packet_end run.1 in
      let drained = drain_gap_buffer parser clock d2 in
      let past : packet_end ≤ drained.1.channel.next_expected_seq =
        subst (λ n. n ≤ drained.1.channel.next_expected_seq) (advance_expected packet_end run.1)
          (drain_gap_buffer-advances d2) in
      let settled = (settle_same drained.1.channel).1 in
      if_elim (Advances packet_end) (not (is_ok run.0.status))
        (λ bad. elim walked [
          | inl fine ↦ absurd (ok-ne-bad run.0.status fine (not-true bad))
          | inr (status, failed) ↦ inr (status, failed)
        ])
        (λ _.
          if_elim (Advances packet_end) (not (is_ok drained.0.status)) (λ _. inl past)
            (λ _. inl (
              omega (
                arith,
                past,
                settled,
                conclude_expected _ (record (drained.1) { channel = settle drained.1.channel }),
              ))))

  -- A packet that continues the stream is applied, or the parser refuses a message of it. For any
  -- parser and any state of the decoder: a packet of valid messages that holds the next expected
  -- number, and that no announced end of session cuts off, moves the expected number to the packet's
  -- end or past it; or else the parser has failed, and the decoder ends with invalid_itch_message.
  pub process_sequenced-Advances :
      (bytes : List ℕ) (first_seq count ticks : ℕ) (d : MoldUdpDecoder P)
      → validate_sequenced_packet bytes count ≡ DecodeStatus.ok
      → first_seq + count < 2 ^ 64
      → first_seq ≤ d.channel.next_expected_seq
      → d.channel.next_expected_seq < first_seq + count
      → (d.pending_end_sequence ≡ 0) ⊎ (first_seq + count ≤ d.pending_end_sequence)
      → Advances (first_seq + count) (process_sequenced parser clock bytes first_seq count ticks d)
  unfolding process_sequenced validate_sequenced_packet
  process_sequenced-Advances bytes first_seq count ticks d v w a b pending =
      let sum = add_u64-eq first_seq count w in
      let walked =
        process_sequenced_packet-Walked bytes first_seq count
          (max d.channel.next_expected_seq first_seq) ticks d v (omega arith)
          (omega (arith, sum)) in
      ground (arith, sum, apply_packet-Advances bytes first_seq count ticks d walked)
