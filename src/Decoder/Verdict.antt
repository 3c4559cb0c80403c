-- ===== src/Decoder/Verdict.antt =====
-- What a status returned by processPacket means for the decoder: the four verdicts on a datagram.
use astra_feed_engine.Prelude.{
  ℕ, ◌-◌, ◌^◌, ◌≡◌, ◌≢◌, ap, Bool-cases, ◌⊎◌, inl, inr, refl, sym, ◌∙◌, subst, max, List, [], ◌∷◌,
  true, not, ◌&&◌, ◌||◌, ◌==◌, ltb, leb, length, Option, none, some, add_u64, arith, if_elim,
}
use astra_feed_engine.Wire.{header_size, end_of_session_message_count, read_u16_be, read_u64_be}
use astra_feed_engine.GapBuffer.{GapBuffer}
use astra_feed_engine.GapBuffer
use astra_feed_engine.GapBuffer.Count.{IsCounted, insert-IsCounted, clear-IsCounted}
use astra_feed_engine.Channel.{
  ChannelHealth, ChannelPhase, ChannelState, set_session, session_matches, initial_channel,
}
use astra_feed_engine.Decoder.State.{
  DecodeStatus, is_ok, is_terminal_decode_failure, DecodeResult, MessageHandler, Clock,
  MoldUdpDecoder, PacketView, terminal_failure, new_decoder, merge_latency,
}
use astra_feed_engine.Decoder.Messages.{validate_sequenced_packet, process_sequenced_packet}
use astra_feed_engine.Decoder.Drain.{drain_gap_buffer}
use astra_feed_engine.Decoder.Packet.{
  bind_session, early_end_of_session, process_end_of_session, process_heartbeat, note_insertion,
  buffer_packet, settle, resolve_pending_end_of_stream, conclude, advance, apply_packet,
  process_sequenced, process_datagram, process_bytes, process_packet, process_packets,
}
use astra_feed_engine.Decoder.Loop.{is_ok→eq}
use astra_feed_engine.Decoder.Termination.{
  process_sequenced_packet-Kept, process_sequenced_packet-Outcome, drain_gap_buffer-Exhausted,
}
use astra_feed_engine.Decoder.Delivery.{
  validate_loop-Outcome, Outcome-fatal, not-true, not-false, advance_terminal, settle_same, Quiet,
  conclude-Quiet, buffer_packet-Quiet, process_end_of_session-Quiet, process_heartbeat-Quiet,
}
use astra_feed_engine.Decoder.InOrder.{ok-ne-bad}
use astra_feed_engine.Decoder.Sequencing.{bind_session_terminal}

-- Nothing of the session is missing: the stream itself reached its end and no gap is open.
pub record IsComplete (c : ChannelState) : Type 0 where
  pub closed : c.phase ≡ ChannelPhase.end_of_messages
  pub no_packet : GapBuffer.empty c.gap_buffer ≡ true
  pub no_watermark : c.heartbeat_next_seq_high_watermark ≡ 0
  pub healthy : c.status ≡ ChannelHealth.good

-- ok and packet_too_small leave the decoder live; end_of_stream and every failure are recorded, so
-- that the decoder stops; a failure also marks the channel invalid.
abbrev pub Verdict : {P : Type 0} → DecodeResult × MoldUdpDecoder P → Type 0
Verdict r =
    ((r.0.status ≡ DecodeStatus.ok) × (r.1.terminal_status ≡ DecodeStatus.ok))
    ⊎ ((r.0.status ≡ DecodeStatus.packet_too_small) × (r.1.terminal_status ≡ DecodeStatus.ok))
    ⊎ ((r.0.status ≡ DecodeStatus.end_of_stream)
        × (r.1.terminal_status ≡ DecodeStatus.end_of_stream)
        × IsComplete r.1.channel)
    ⊎ ((is_terminal_decode_failure r.0.status ≡ true)
        × (r.1.terminal_status ≡ r.0.status)
        × (r.1.channel.status ≡ ChannelHealth.invalid))

bind_session_buffer :
    {P : Type 0} (bytes : List ℕ) (d : MoldUdpDecoder P)
    → (bind_session bytes d).channel.gap_buffer ≡ d.channel.gap_buffer
unfolding bind_session set_session
bind_session_buffer bytes d = ground arith

pub new_decoder-IsCounted :
    {P : Type 0} (p : P) (channel_id first : ℕ)
    → IsCounted (new_decoder p channel_id first).channel.gap_buffer
unfolding new_decoder initial_channel
new_decoder-IsCounted p channel_id first = clear-IsCounted

module _ {P : Type 0} where
  terminal_failure-Verdict :
      (status : DecodeStatus) (d : MoldUdpDecoder P)
      → is_terminal_decode_failure status ≡ true
      → Verdict (terminal_failure status d)
  unfolding terminal_failure
  terminal_failure-Verdict status d bad = ground arith

  process_end_of_session-Verdict :
      (first_seq : ℕ) (d : MoldUdpDecoder P)
      → d.terminal_status ≡ DecodeStatus.ok
      → Verdict (process_end_of_session first_seq d)
  unfolding process_end_of_session early_end_of_session terminal_failure is_terminal_decode_failure
  process_end_of_session-Verdict first_seq d t = ground arith

  process_heartbeat-Verdict :
      (first_seq : ℕ) (d : MoldUdpDecoder P)
      → d.terminal_status ≡ DecodeStatus.ok
      → Verdict (process_heartbeat first_seq d)
  unfolding process_heartbeat terminal_failure is_terminal_decode_failure
  process_heartbeat-Verdict first_seq d t = ground arith

  buffer_packet-Verdict :
      (bytes : List ℕ) (first_seq count ticks : ℕ) (d : MoldUdpDecoder P)
      → d.terminal_status ≡ DecodeStatus.ok
      → Verdict (buffer_packet bytes first_seq count ticks d)
  unfolding buffer_packet note_insertion terminal_failure is_terminal_decode_failure
  buffer_packet-Verdict bytes first_seq count ticks d t = ground arith

  conclude-Verdict :
      (result : DecodeResult) (d : MoldUdpDecoder P)
      → result.status ≡ DecodeStatus.ok
      → d.terminal_status ≡ DecodeStatus.ok
      → Verdict (conclude result d)
  unfolding conclude resolve_pending_end_of_stream terminal_failure is_terminal_decode_failure
  conclude-Verdict result d fine t = ground arith

  advance_buffer :
      (packet_end : ℕ) (d : MoldUdpDecoder P)
      → (advance packet_end d).channel.gap_buffer ≡ d.channel.gap_buffer
  unfolding advance
  advance_buffer packet_end d = refl

  pub record Sound (r : DecodeResult × MoldUdpDecoder P) : Type 0 where
    pub verdict : Verdict r
    pub counted : IsCounted r.1.channel.gap_buffer

  failing :
      (status : DecodeStatus) (d : MoldUdpDecoder P)
      → is_terminal_decode_failure status ≡ true
      → IsCounted d.channel.gap_buffer
      → Sound (terminal_failure status d)
  unfolding terminal_failure
  failing status d bad c = record { verdict = terminal_failure-Verdict status d bad; counted = c }

  kept_buffer :
      {r : DecodeResult × MoldUdpDecoder P} {b : GapBuffer} (d : MoldUdpDecoder P)
      → Verdict r
      → Quiet b d r.1
      → IsCounted d.channel.gap_buffer
      → IsCounted b
      → Sound r
  kept_buffer d v q c c' = record {
    verdict = v;
    counted = elim q.buffer [ inl e ↦ rw e c | inr e ↦ rw e c' ];
  }

module _ {P : Type 0} (parser : MessageHandler P) (clock : Clock) where
  apply_packet-Sound :
      (bytes : List ℕ) (first_seq count ticks : ℕ) (d : MoldUdpDecoder P)
      → d.terminal_status ≡ DecodeStatus.ok
      → IsCounted d.channel.gap_buffer
      → Sound (apply_packet parser clock bytes first_seq count ticks d)
  unfolding apply_packet merge_latency
  apply_packet-Sound bytes first_seq count ticks d t c =
      let start = max d.channel.next_expected_seq first_seq in
      let run = process_sequenced_packet parser clock bytes first_seq count start ticks d in
      let k = process_sequenced_packet-Kept parser clock bytes first_seq count start ticks d in
      let o = process_sequenced_packet-Outcome parser clock bytes first_seq count start ticks d in
      let c1 : IsCounted run.1.channel.gap_buffer = rw k.buffer c in
      let d2 = advance (add_u64 first_seq count) run.1 in
      let c2 : IsCounted d2.channel.gap_buffer =
        rw (advance_buffer (add_u64 first_seq count) run.1) c1 in
      let drained = drain_gap_buffer parser clock d2 in
      let x = drain_gap_buffer-Exhausted parser clock d2 c2 in
      if_elim Sound (not (is_ok run.0.status))
        (λ bad. failing run.0.status run.1 (Outcome-fatal _ o (not-true bad)) c1)
        λ fine.
          if_elim Sound (not (is_ok drained.0.status))
            (λ bad.
              failing drained.0.status drained.1 (Outcome-fatal _ x.outcome (not-true bad))
                x.counted)
            λ good.
              let d3 = record (drained.1) { channel = settle drained.1.channel } in
              let t3 =
                x.terminal ∙ advance_terminal (add_u64 first_seq count) run.1 ∙ k.terminal ∙ t in
              let c3 : IsCounted d3.channel.gap_buffer =
                rw ((settle_same drained.1.channel).0) x.counted in
              kept_buffer d3 (conclude-Verdict _ d3 (is_ok→eq run.0.status (not-false fine)) t3)
                (conclude-Quiet _ d3 t3) c3 c3

  process_sequenced-Sound :
      (bytes : List ℕ) (first_seq count ticks : ℕ) (d : MoldUdpDecoder P)
      → d.terminal_status ≡ DecodeStatus.ok
      → IsCounted d.channel.gap_buffer
      → Sound (process_sequenced parser clock bytes first_seq count ticks d)
  unfolding process_sequenced validate_sequenced_packet is_terminal_decode_failure
  process_sequenced-Sound bytes first_seq count ticks d t c =
      if_elim Sound (ltb (2 ^ 64 - 1 - count) first_seq)
        (λ _. failing DecodeStatus.invalid_sequence d refl c)
        λ _.
          if_elim Sound (not (is_ok (validate_sequenced_packet bytes count)))
            (λ bad.
              failing _ d
                (Outcome-fatal _ (validate_loop-Outcome count bytes header_size) (not-true bad)) c)
            λ _.
              if_elim Sound
                (not (d.pending_end_sequence == 0)
                  && ltb d.pending_end_sequence (add_u64 first_seq count))
                (λ _. failing DecodeStatus.invalid_sequence d refl c)
                λ _.
                  if_elim Sound (leb (add_u64 first_seq count) d.channel.next_expected_seq)
                    (λ _. record { verdict = inl (refl, t); counted = c })
                    λ _.
                      if_elim Sound (ltb d.channel.next_expected_seq first_seq)
                        (λ _.
                          kept_buffer d (buffer_packet-Verdict bytes first_seq count ticks d t)
                            (buffer_packet-Quiet bytes first_seq count ticks d) c
                            (insert-IsCounted bytes first_seq count ticks d.channel.gap_buffer c))
                        λ _. apply_packet-Sound bytes first_seq count ticks d t c

  process_bytes-Sound :
      (payload : Option (List ℕ)) (ticks : ℕ) (d : MoldUdpDecoder P)
      → d.terminal_status ≡ DecodeStatus.ok
      → IsCounted d.channel.gap_buffer
      → Sound (process_bytes parser clock payload ticks d)
  unfolding process_bytes process_datagram is_terminal_decode_failure
  process_bytes-Sound none ticks d t c = record { verdict = inr (inl (refl, t)); counted = c }
  process_bytes-Sound (some bytes) ticks d t c =
      let count = read_u16_be bytes 18 in
      let seq = read_u64_be bytes 10 in
      let b = bind_session bytes d in
      let t' = bind_session_terminal bytes d ∙ t in
      let c' : IsCounted b.channel.gap_buffer = rw (bind_session_buffer bytes d) c in
      if_elim Sound (ltb (length bytes) header_size)
        (λ _. record { verdict = inr (inl (refl, t)); counted = c })
        λ _.
          if_elim Sound
            ((count == 0 || count == end_of_session_message_count)
              && not (length bytes == header_size))
            (λ _. failing DecodeStatus.invalid_size d refl c)
            λ _.
              if_elim Sound (d.first_packet_seen && not (session_matches bytes d.channel))
                (λ _. failing DecodeStatus.invalid_session d refl c)
                λ _.
                  if_elim Sound (count == end_of_session_message_count)
                    (λ _.
                      kept_buffer b (process_end_of_session-Verdict seq b t')
                        (process_end_of_session-Quiet seq b t') c' c')
                    λ _.
                      if_elim Sound (count == 0)
                        (λ _.
                          kept_buffer b (process_heartbeat-Verdict seq b t')
                            (process_heartbeat-Quiet seq b) c' c')
                        λ _. process_sequenced-Sound bytes seq count ticks b t' c'

  pub process_packet-Sound :
      (packet : PacketView) (d : MoldUdpDecoder P)
      → d.terminal_status ≡ DecodeStatus.ok
      → IsCounted d.channel.gap_buffer
      → Sound (process_packet parser clock packet d)
  unfolding process_packet
  process_packet-Sound packet d t c =
      if_elim Sound (is_ok d.terminal_status)
        (λ _. process_bytes-Sound packet.payload packet.receive_start_ticks d t c)
        λ dead. absurd (ok-ne-bad d.terminal_status t dead)

  -- A decoder that has stopped does nothing more.
  pub process_packets_stopped :
      (packets : List PacketView) (d : MoldUdpDecoder P)
      → d.terminal_status ≢ DecodeStatus.ok
      → process_packets parser clock packets d ≡ d
  unfolding process_packets process_packet
  process_packets_stopped [] d dead = refl
  process_packets_stopped (packet ∷ packets) d dead =
      let stays : (process_packet parser clock packet d).1 ≡ d =
        if_elim (λ (r : DecodeResult × MoldUdpDecoder P). r.1 ≡ d) (is_ok d.terminal_status)
          (λ live. absurd (dead (is_ok→eq _ live))) (λ _. refl) in
      ap (process_packets parser clock packets) stays ∙ process_packets_stopped packets d dead

  pub process_packets-IsCounted :
      (packets : List PacketView) (d : MoldUdpDecoder P)
      → IsCounted d.channel.gap_buffer
      → IsCounted (process_packets parser clock packets d).channel.gap_buffer
  unfolding process_packets
  process_packets-IsCounted [] d c = c
  process_packets-IsCounted (packet ∷ packets) d c = elim (Bool-cases (is_ok d.terminal_status)) [
    | inl live ↦
        process_packets-IsCounted packets _
          (process_packet-Sound packet d (is_ok→eq _ live) c).counted
    | inr dead ↦
        subst (λ e. IsCounted e.channel.gap_buffer)
          (sym (process_packets_stopped (packet ∷ packets) d (λ t. ok-ne-bad _ t dead))) c
  ]
