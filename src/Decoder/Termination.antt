-- ===== src/Decoder/Termination.antt =====
-- The drain loop ends by its own test: each round takes a packet out of the buffer, so the rounds
-- that the buffer's size allows are enough.
use astra_feed_engine.Prelude.{
  ℕ, zero, suc, ◌+◌, ◌<◌, ◌≡◌, inl, inr, refl, ◌∙◌, List, not, ◌&&◌, ◌||◌, ◌==◌, ltb, leb,
  if◌then◌else◌, length, none, some, add_u64, arith, if_elim, Option-cases,
}
use astra_feed_engine.Wire.{header_size, subspan, read_u16_be}
use astra_feed_engine.GapBuffer.{SequencedPacket, GapBuffer}
use astra_feed_engine.GapBuffer
use astra_feed_engine.GapBuffer.Count.{IsCounted, Shrinks, erase-Shrinks}
use astra_feed_engine.Decoder.State.{
  DecodeStatus, is_ok, is_terminal_decode_failure, DecodeResult, MessageHandler, Clock,
  MoldUdpDecoder, merge_latency,
}
use astra_feed_engine.Decoder.Messages.{
  apply_message, message_loop, timed_result, process_sequenced_packet,
}
use astra_feed_engine.Decoder.Drain.{
  nearest_candidate, DrainStep, finished, again, erase_packet, drain_packet, drain_step, drain_loop,
  drain_gap_buffer,
}
use astra_feed_engine.Decoder.Loop.{Outcome, Kept, Kept-refl}
use astra_feed_engine.Decoder.InOrder.{nearest_lem, ok-ne-bad}

module _ {P : Type 0} (parser : MessageHandler P) (clock : Clock) where
  apply_message-Kept : (m : List ℕ) (d : MoldUdpDecoder P) → Kept d (apply_message parser m d)
  unfolding apply_message
  apply_message-Kept m d = record { expected = refl; buffer = refl; terminal = refl }

  message_loop-Kept :
      (rounds : ℕ) (bytes : List ℕ) (offset seq start processed : ℕ) (c d : MoldUdpDecoder P)
      → Kept c d
      → Kept c (message_loop parser rounds bytes offset seq start processed d).2
  unfolding message_loop
  message_loop-Kept zero bytes offset seq start processed c d k = k
  message_loop-Kept (suc rounds) bytes offset seq start processed c d k =
      let len = read_u16_be bytes offset in
      let K = λ (r : DecodeStatus × ℕ × MoldUdpDecoder P). Kept c r.2 in
      let m = subspan bytes (offset + 2) len in
      let d' = if ltb seq start then d else apply_message parser m d in
      let k' : Kept c d' =
        if_elim (Kept c) (ltb seq start) (λ _. k)
          (λ _.
            let h = apply_message-Kept m d in
            record {
              expected = h.expected ∙ k.expected;
              buffer = h.buffer ∙ k.buffer;
              terminal = h.terminal ∙ k.terminal;
            }) in
      if_elim K (ltb (length bytes) (offset + 2)) (λ _. k)
        λ _.
          if_elim K (len == 0 || ltb (length bytes) (offset + 2 + len)) (λ _. k)
            λ _.
              if_elim K (not (ltb seq start) && parser.failed d'.parser)
                (λ _. record { expected = k'.expected; buffer = k'.buffer; terminal = k'.terminal })
                λ _.
                  message_loop-Kept rounds bytes (offset + 2 + len) (add_u64 seq 1) start _ c d' k'

  -- Applying a packet's messages leaves the expected number, the buffer and the terminal status.
  pub process_sequenced_packet-Kept :
      (bytes : List ℕ) (first_seq count start ticks : ℕ) (d : MoldUdpDecoder P)
      → Kept d (process_sequenced_packet parser clock bytes first_seq count start ticks d).1
  unfolding process_sequenced_packet timed_result
  process_sequenced_packet-Kept bytes first_seq count start ticks d =
      ground (arith, message_loop-Kept count bytes header_size first_seq start 0 d d (Kept-refl d))

  message_loop-Outcome :
      (rounds : ℕ) (bytes : List ℕ) (offset seq start processed : ℕ) (d : MoldUdpDecoder P)
      → Outcome (message_loop parser rounds bytes offset seq start processed d).0
  unfolding message_loop is_terminal_decode_failure
  message_loop-Outcome zero bytes offset seq start processed d = inl refl
  message_loop-Outcome (suc rounds) bytes offset seq start processed d =
      let len = read_u16_be bytes offset in
      let K = λ (r : DecodeStatus × ℕ × MoldUdpDecoder P). Outcome r.0 in
      let d' =
        if ltb seq start then d else apply_message parser (subspan bytes (offset + 2) len) d in
      if_elim K (ltb (length bytes) (offset + 2)) (λ _. inr refl)
        λ _.
          if_elim K (len == 0 || ltb (length bytes) (offset + 2 + len)) (λ _. inr refl)
            λ _.
              if_elim K (not (ltb seq start) && parser.failed d'.parser) (λ _. inr refl)
                λ _. message_loop-Outcome rounds bytes (offset + 2 + len) (add_u64 seq 1) start _ d'

  pub process_sequenced_packet-Outcome :
      (bytes : List ℕ) (first_seq count start ticks : ℕ) (d : MoldUdpDecoder P)
      → Outcome (process_sequenced_packet parser clock bytes first_seq count start ticks d).0.status
  unfolding process_sequenced_packet timed_result is_terminal_decode_failure
  process_sequenced_packet-Outcome bytes first_seq count start ticks d =
      ground (arith, message_loop-Outcome count bytes header_size first_seq start 0 d)

  -- A round ends the loop with no candidate left or with a failure, or makes the buffer smaller.
  data RoundCases (d : MoldUdpDecoder P) (aggregate : DecodeResult) (r : DrainStep P) : Type 0 where
    ends :
        (a : DecodeResult) (e : MoldUdpDecoder P)
        → r ≡ finished a e
        → (a.status ≡ DecodeStatus.ok
            → nearest_candidate e.channel.next_expected_seq e.channel.gap_buffer ≡ none)
        → Outcome a.status
        → IsCounted e.channel.gap_buffer
        → e.terminal_status ≡ d.terminal_status
        → RoundCases d aggregate r
    goes_on :
        (a : DecodeResult) (e : MoldUdpDecoder P)
        → r ≡ again a e
        → a.status ≡ aggregate.status
        → IsCounted e.channel.gap_buffer
        → e.channel.gap_buffer.size + 1 ≡ d.channel.gap_buffer.size
        → e.terminal_status ≡ d.terminal_status
        → RoundCases d aggregate r

  drain_packet-RoundCases :
      (q : SequencedPacket) (packet_end : ℕ) (aggregate : DecodeResult) (d : MoldUdpDecoder P)
      → IsCounted d.channel.gap_buffer
      → GapBuffer.find q.seq d.channel.gap_buffer ≡ some q
      → RoundCases d aggregate (drain_packet parser clock q packet_end aggregate d)
  unfolding drain_packet erase_packet merge_latency
  drain_packet-RoundCases q packet_end aggregate d c hit =
      let run =
        process_sequenced_packet parser clock q.payload q.seq q.msg_count
          d.channel.next_expected_seq q.receive_start_ticks d in
      let k =
        process_sequenced_packet-Kept q.payload q.seq q.msg_count d.channel.next_expected_seq
          q.receive_start_ticks d in
      let o =
        process_sequenced_packet-Outcome q.payload q.seq q.msg_count d.channel.next_expected_seq
          q.receive_start_ticks d in
      let s : Shrinks d.channel.gap_buffer (GapBuffer.erase q.seq run.1.channel.gap_buffer) =
        rw k.buffer (erase-Shrinks q.seq d.channel.gap_buffer c hit) in
      if_elim (RoundCases d aggregate) (is_ok run.0.status)
        (λ _. goes_on _ _ refl refl s.counted s.smaller k.terminal)
        λ bad.
          ends _ _ refl (λ good. absurd (ok-ne-bad run.0.status good bad)) o s.counted k.terminal

  drain_step-RoundCases :
      (aggregate : DecodeResult) (d : MoldUdpDecoder P)
      → aggregate.status ≡ DecodeStatus.ok
      → IsCounted d.channel.gap_buffer
      → RoundCases d aggregate (drain_step parser clock aggregate d)
  unfolding drain_step nearest_candidate erase_packet
  drain_step-RoundCases aggregate d fine c =
      elim (Option-cases (nearest_candidate d.channel.next_expected_seq d.channel.gap_buffer)) [
        | inl miss ↦ rw (miss, drain_step) (ends aggregate d refl (λ _. miss) (inl fine) c refl)
        | inr (q, hit) ↦
            let (_, _, found) =
              nearest_lem (λ _. Unit {0}) _ 0 d.channel.next_expected_seq d.channel.gap_buffer
                (record { holds = λ _ _. tt }) hit in
            let s = erase-Shrinks q.seq d.channel.gap_buffer c found in
            rw (hit, drain_step)
              (if_elim (RoundCases d aggregate)
                (leb (add_u64 q.seq q.msg_count) d.channel.next_expected_seq)
                (λ _. goes_on aggregate _ refl refl s.counted s.smaller refl)
                λ _. drain_packet-RoundCases q _ aggregate d c found)
      ]

  -- What the loop leaves behind.
  pub record Exhausted (d : MoldUdpDecoder P) (r : DecodeResult × MoldUdpDecoder P) : Type 0 where
    pub exhausted :
        r.0.status ≡ DecodeStatus.ok
        → nearest_candidate r.1.channel.next_expected_seq r.1.channel.gap_buffer ≡ none
    pub outcome : Outcome r.0.status
    pub counted : IsCounted r.1.channel.gap_buffer
    pub terminal : r.1.terminal_status ≡ d.terminal_status

  drain_loop-Exhausted :
      (fuel : ℕ) (aggregate : DecodeResult) (d : MoldUdpDecoder P)
      → aggregate.status ≡ DecodeStatus.ok
      → IsCounted d.channel.gap_buffer
      → d.channel.gap_buffer.size < fuel
      → Exhausted d (drain_loop parser clock fuel aggregate d)
  unfolding drain_loop
  drain_loop-Exhausted zero aggregate d fine c h = elim h [ ]
  drain_loop-Exhausted (suc fuel) aggregate d fine c h =
      after (drain_step-RoundCases aggregate d fine c) (drain_loop-Exhausted fuel)
    where
      after :
          RoundCases d aggregate (drain_step parser clock aggregate d)
          → ((a : DecodeResult) (e : MoldUdpDecoder P)
              → a.status ≡ DecodeStatus.ok
              → IsCounted e.channel.gap_buffer
              → e.channel.gap_buffer.size < fuel
              → Exhausted e (drain_loop parser clock fuel a e))
          → Exhausted d (drain_loop parser clock (suc fuel) aggregate d)
      after (ends a e eq none_left o c' t) ih =
          rw (eq, drain_loop)
            (record { exhausted = none_left; outcome = o; counted = c'; terminal = t })
      after (goes_on a e eq same c' smaller t) ih =
          rw (eq, drain_loop)
            (let r = ih a e (same ∙ fine) c' (omega arith) in
              record {
                exhausted = r.exhausted;
                outcome = r.outcome;
                counted = r.counted;
                terminal = r.terminal ∙ t;
              })

  pub drain_gap_buffer-Exhausted :
      (d : MoldUdpDecoder P)
      → IsCounted d.channel.gap_buffer
      → Exhausted d (drain_gap_buffer parser clock d)
  unfolding drain_gap_buffer
  drain_gap_buffer-Exhausted d c = drain_loop-Exhausted _ _ d refl c (omega arith)

-- The drain loop always ends by its own test: from any state whose buffer counts its packets, a drain
-- that reports ok leaves no buffered packet within its search window at or before the next expected
-- number. Every state that a run reaches is such a state.
pub drain_gap_buffer-exhausts :
    {P : Type 0} (parser : MessageHandler P) (clock : Clock) (d : MoldUdpDecoder P)
    → IsCounted d.channel.gap_buffer
    → (drain_gap_buffer parser clock d).0.status ≡ DecodeStatus.ok
    → let e = (drain_gap_buffer parser clock d).1 in
      nearest_candidate e.channel.next_expected_seq e.channel.gap_buffer ≡ none
drain_gap_buffer-exhausts parser clock d c fine =
    (drain_gap_buffer-Exhausted parser clock d c).exhausted fine
