-- ===== src/Decoder/Delivery.antt =====
-- Sequencing is exact: whatever arrives, on whatever line, the parser sees the messages of the
-- stream in their order and each once, and the expected number tells how many.
use astra_feed_engine.Prelude.{
  ℕ, zero, suc, ◌+◌, ◌-◌, ◌^◌, ◌≤◌, ◌<◌, ◌≡◌, ◌⊎◌, inl, inr, refl, sym, subst, ◌∙◌, max, List, Bool,
  true, false, not, some, add_u64, add_u64-eq, arith, if_elim, true-ne-false,
}
use astra_feed_engine.Wire.{header_size, read_u16_be}
use astra_feed_engine.GapBuffer.{SequencedPacket, GapBuffer, InsertResult, max_packet_size}
use astra_feed_engine.GapBuffer
use astra_feed_engine.GapBuffer.Honest.{AllStored}
use astra_feed_engine.Channel.{ChannelState}
use astra_feed_engine.Decoder.State.{
  DecodeStatus, is_ok, is_terminal_decode_failure, DecodeResult, MessageHandler, Clock,
  MoldUdpDecoder, terminal_failure,
}
use astra_feed_engine.Decoder.Messages.{validate_loop, process_sequenced_packet}
use astra_feed_engine.Decoder.Drain.{drain_gap_buffer}
use astra_feed_engine.Decoder.Packet.{
  early_end_of_session, process_end_of_session, process_heartbeat, note_insertion, buffer_packet,
  settle, resolve_pending_end_of_stream, conclude, advance, apply_packet,
}
use astra_feed_engine.Decoder.Stream.{played, frames, Carries}
use astra_feed_engine.Decoder.Loop.{is_ok→eq, Outcome, Applied, process_sequenced_packet-Applied}
use astra_feed_engine.Decoder.InOrder.{HonestStored, ok-ne-bad, InOrder, drain_gap_buffer-Drained}

pub validate_loop-Outcome :
    (rounds : ℕ) (bytes : List ℕ) (offset : ℕ) → Outcome (validate_loop rounds bytes offset)
unfolding validate_loop is_terminal_decode_failure
validate_loop-Outcome zero bytes offset = ground arith
validate_loop-Outcome (suc rounds) bytes offset =
    ground (arith, validate_loop-Outcome rounds bytes (offset + 2 + read_u16_be bytes offset))

pub Outcome-fatal :
    (status : DecodeStatus)
    → Outcome status
    → is_ok status ≡ false
    → is_terminal_decode_failure status ≡ true
Outcome-fatal status (inl e) bad = absurd (ok-ne-bad status e bad)
Outcome-fatal status (inr h) bad = h

-- The step leaves the parser, the phase and the expected number alone, keeps the buffer or makes it `b`, and
-- brings no decoder back to life.
pub record Quiet {P : Type 0} (b : GapBuffer) (d e : MoldUdpDecoder P) : Type 0 where
  pub same_parser : e.parser ≡ d.parser
  pub same_phase : e.channel.phase ≡ d.channel.phase
  pub same_expected : e.channel.next_expected_seq ≡ d.channel.next_expected_seq
  pub buffer : (e.channel.gap_buffer ≡ d.channel.gap_buffer) ⊎ (e.channel.gap_buffer ≡ b)
  pub alive :
      is_terminal_decode_failure e.terminal_status ≡ false
      → is_terminal_decode_failure d.terminal_status ≡ false

pub terminal_failure-Quiet :
    {P : Type 0} (status : DecodeStatus) (d : MoldUdpDecoder P)
    → is_terminal_decode_failure status ≡ true
    → Quiet d.channel.gap_buffer d (terminal_failure status d).1
unfolding terminal_failure
terminal_failure-Quiet status d bad = ground arith

pub process_end_of_session-Quiet :
    {P : Type 0} (first_seq : ℕ) (d : MoldUdpDecoder P)
    → d.terminal_status ≡ DecodeStatus.ok
    → Quiet d.channel.gap_buffer d (process_end_of_session first_seq d).1
unfolding process_end_of_session early_end_of_session is_terminal_decode_failure terminal_failure
process_end_of_session-Quiet first_seq d t = ground arith

pub process_heartbeat-Quiet :
    {P : Type 0} (first_seq : ℕ) (d : MoldUdpDecoder P)
    → Quiet d.channel.gap_buffer d (process_heartbeat first_seq d).1
unfolding process_heartbeat is_terminal_decode_failure terminal_failure
process_heartbeat-Quiet first_seq d = ground arith

pub buffer_packet-Quiet :
    {P : Type 0} (bytes : List ℕ) (first_seq msg_count ticks : ℕ) (d : MoldUdpDecoder P)
    → Quiet
        (GapBuffer.insert (some bytes) first_seq msg_count ticks d.channel.gap_buffer).1
        d
        (buffer_packet bytes first_seq msg_count ticks d).1
unfolding buffer_packet note_insertion is_terminal_decode_failure terminal_failure
buffer_packet-Quiet bytes first_seq msg_count ticks d = ground arith

pub conclude-Quiet :
    {P : Type 0} (result : DecodeResult) (d : MoldUdpDecoder P)
    → d.terminal_status ≡ DecodeStatus.ok
    → Quiet d.channel.gap_buffer d (conclude result d).1
unfolding conclude resolve_pending_end_of_stream is_terminal_decode_failure terminal_failure
conclude-Quiet result d t = ground arith

pub not-true : {b : Bool} → not b ≡ true → b ≡ false
not-true h = ground arith

pub not-false : {b : Bool} → not b ≡ false → b ≡ true
not-false h = ground arith

pub advance_terminal :
    {P : Type 0} (packet_end : ℕ) (d : MoldUdpDecoder P)
    → (advance packet_end d).terminal_status ≡ d.terminal_status
unfolding advance
advance_terminal packet_end d = refl

pub settle_same :
    (c : ChannelState)
    → ((settle c).gap_buffer ≡ c.gap_buffer)
      × ((settle c).next_expected_seq ≡ c.next_expected_seq)
      × ((settle c).phase ≡ c.phase)
unfolding settle
settle_same c = ground arith

module _ {P : Type 0} (parser : MessageHandler P) (clock : Clock) (stream : ℕ → List ℕ) (first : ℕ)
    (p : P) where
  -- A prefix of the stream is applied; while nothing failed, it ends before the expected number.
  pub record Delivered (d : MoldUdpDecoder P) : Type 0 where
    pub applied : ℕ
    pub prefix : d.parser ≡ played parser stream first p applied
    pub current :
        is_terminal_decode_failure d.terminal_status ≡ false
        → (first + applied ≡ d.channel.next_expected_seq) × (d.channel.next_expected_seq < 2 ^ 64)
    pub buffered : AllStored (HonestStored stream) d.channel.gap_buffer

  pub Quiet-Delivered :
      {b : GapBuffer} {d e : MoldUdpDecoder P}
      → Quiet b d e
      → AllStored (HonestStored stream) b
      → Delivered d
      → Delivered e
  Quiet-Delivered {b} {d} {e} q s h = record {
    applied = h.applied;
    prefix = q.same_parser ∙ h.prefix;
    current = λ t. rw q.same_expected (h.current (q.alive t));
    buffered = elim q.buffer [ inl same ↦ rw same h.buffered | inr new ↦ rw new s ];
  }

  Delivered-InOrder :
      {d : MoldUdpDecoder P}
      → d.terminal_status ≡ DecodeStatus.ok
      → Delivered d
      → InOrder parser clock stream first p d
  unfolding is_terminal_decode_failure
  Delivered-InOrder {d} t h =
      let (n, w) = h.current (rw t refl) in
      let same : d.channel.next_expected_seq - first ≡ h.applied = omega (arith, n) in
      record {
        started = omega (arith, n);
        bounded = w;
        prefix = rw same h.prefix;
        buffered = h.buffered;
      }

  InOrder-Delivered : {d : MoldUdpDecoder P} → InOrder parser clock stream first p d → Delivered d
  InOrder-Delivered {d} h = record {
    applied = d.channel.next_expected_seq - first;
    prefix = h.prefix;
    current = λ _. (omega (arith, h.started), h.bounded);
    buffered = h.buffered;
  }

  terminal_failure-Delivered :
      (status : DecodeStatus) (d : MoldUdpDecoder P) (applied : ℕ)
      → is_terminal_decode_failure status ≡ true
      → d.parser ≡ played parser stream first p applied
      → AllStored (HonestStored stream) d.channel.gap_buffer
      → Delivered (terminal_failure status d).1
  unfolding terminal_failure
  terminal_failure-Delivered status d applied bad q b = record {
    applied = applied;
    prefix = q;
    current = λ good. absurd (true-ne-false (sym bad ∙ good));
    buffered = b;
  }

  -- The packet's own messages, before the drain.
  advance-InOrder :
      (packet_end : ℕ) (d e : MoldUdpDecoder P)
      → InOrder parser clock stream first p d
      → Applied parser stream first p packet_end d DecodeStatus.ok e
      → first ≤ packet_end
      → packet_end < 2 ^ 64
      → InOrder parser clock stream first p (advance packet_end e)
  unfolding advance
  advance-InOrder packet_end d e h a le lt =
      let n : packet_end - first ≡ a.applied = omega (arith, a.complete refl) in
      record {
        started = le;
        bounded = lt;
        prefix = rw n a.prefix;
        buffered = subst (AllStored (HonestStored stream)) (sym a.kept.buffer) h.buffered;
      }

  settled-Delivered :
      (result : DecodeResult) (d : MoldUdpDecoder P)
      → d.terminal_status ≡ DecodeStatus.ok
      → InOrder parser clock stream first p d
      → Delivered (conclude result (record d { channel = settle d.channel })).1
  settled-Delivered result d t h =
      let d' = record d { channel = settle d.channel } in
      let (same_buffer, same_expected, same_phase) = settle_same d.channel in
      let g : Delivered d' =
        Quiet-Delivered {b = d.channel.gap_buffer} {d = d}
          (record {
            same_parser = refl;
            same_expected = same_expected;
            same_phase = same_phase;
            buffer = inl same_buffer;
            alive = λ x. x;
          })
          h.buffered (InOrder-Delivered h) in
      Quiet-Delivered (conclude-Quiet result d' t) g.buffered g

  pub apply_packet-Delivered :
      (bytes : List ℕ) (first_seq count ticks : ℕ) (d : MoldUdpDecoder P)
      → d.terminal_status ≡ DecodeStatus.ok
      → Delivered d
      → Carries stream first_seq (frames count bytes header_size)
      → first_seq + count < 2 ^ 64
      → first_seq ≤ d.channel.next_expected_seq
      → d.channel.next_expected_seq < first_seq + count
      → Delivered (apply_packet parser clock bytes first_seq count ticks d).1
  unfolding apply_packet
  apply_packet-Delivered bytes first_seq count ticks d t g c w le lt =
      let h = Delivered-InOrder t g in
      let run =
        process_sequenced_packet parser clock bytes first_seq count
          (max d.channel.next_expected_seq first_seq) ticks d in
      let e : max d.channel.next_expected_seq first_seq ≡ d.channel.next_expected_seq =
        omega arith in
      let a =
        (process_sequenced_packet-Applied parser stream first p clock bytes first_seq count
          (max d.channel.next_expected_seq first_seq) ticks d (omega (arith, h.started))
          (omega arith) (omega arith) w c (rw e h.prefix)).result in
      let d2 = advance (add_u64 first_seq count) run.1 in
      let drained = drain_gap_buffer parser clock d2 in
      let sum = add_u64-eq first_seq count w in
      if_elim (λ (r : DecodeResult × MoldUdpDecoder P). Delivered r.1) (not (is_ok run.0.status))
        (λ bad.
          terminal_failure-Delivered run.0.status run.1 a.applied
            (Outcome-fatal _ a.fatal (not-true bad)) a.prefix
            (subst (AllStored (HonestStored stream)) (sym a.kept.buffer) h.buffered))
        λ fine.
          let ok' = is_ok→eq run.0.status (not-false fine) in
          let a' : Applied parser stream first p (add_u64 first_seq count) d DecodeStatus.ok run.1 =
            rw sum
              (subst (λ s. Applied parser stream first p (first_seq + count) d s run.1) ok' a) in
          let h2 : InOrder parser clock stream first p d2 =
            advance-InOrder (add_u64 first_seq count) d run.1 h a' (omega (arith, sum, h.started))
              (omega (arith, sum)) in
          let dr = (drain_gap_buffer-Drained parser clock stream first p d2 h2).result in
          if_elim (λ (r : DecodeResult × MoldUdpDecoder P). Delivered r.1)
            (not (is_ok drained.0.status))
            (λ bad.
              terminal_failure-Delivered drained.0.status drained.1 dr.applied
                (Outcome-fatal _ dr.fatal (not-true bad)) dr.prefix dr.buffered)
            λ good.
              settled-Delivered _ drained.1
                (dr.terminal
                  ∙ advance_terminal (add_u64 first_seq count) run.1
                  ∙ a.kept.terminal
                  ∙ t)
                (dr.in_order (is_ok→eq drained.0.status (not-false good)))
