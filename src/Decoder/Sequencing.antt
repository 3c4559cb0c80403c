-- ===== src/Decoder/Sequencing.antt =====
-- The delivery theorem of processPacket, and its consequences for a run over any arrivals.
use astra_feed_engine.Prelude.{
  ℕ, ◌+◌, ◌-◌, ◌^◌, ◌≤◌, ◌<◌, ◌≡◌, ◌≢◌, refl, ◌∙◌, List, [], ◌∷◌, true, false, not, ◌&&◌, ◌||◌,
  ◌==◌, ltb, leb, length, Option, none, some, add_u64, add_u64-eq, All, arith, if_elim,
}
use astra_feed_engine.Wire.{header_size, end_of_session_message_count, read_u16_be, read_u64_be}
use astra_feed_engine.Wire.Octets.{read_u16_be-lt}
use astra_feed_engine.GapBuffer.Honest.{clear-AllStored, insert-AllStored}
use astra_feed_engine.Channel.{set_session, session_matches, initial_channel}
use astra_feed_engine.Decoder.State.{
  DecodeStatus, is_ok, is_terminal_decode_failure, DecodeResult, MessageHandler, Clock,
  MoldUdpDecoder, PacketView, terminal_failure, new_decoder,
}
use astra_feed_engine.Decoder.Messages.{validate_sequenced_packet}
use astra_feed_engine.Decoder.Packet.{
  bind_session, process_sequenced, process_datagram, process_bytes, process_packet, process_packets,
}
use astra_feed_engine.Decoder.Stream.{played, frames, Carries, HonestBytes, Honest}
use astra_feed_engine.Decoder.Loop.{is_ok→eq}
use astra_feed_engine.Decoder.InOrder.{HonestStored, not_leb→lt}
use astra_feed_engine.Decoder.Delivery.{
  Quiet, Quiet-Delivered, Delivered, apply_packet-Delivered, buffer_packet-Quiet,
  process_heartbeat-Quiet, process_end_of_session-Quiet, terminal_failure-Quiet,
  validate_loop-Outcome, Outcome-fatal, not-true,
}

pub bind_session-Quiet :
    {P : Type 0} (bytes : List ℕ) (d : MoldUdpDecoder P)
    → Quiet d.channel.gap_buffer d (bind_session bytes d)
unfolding bind_session set_session
bind_session-Quiet bytes d = ground arith

pub bind_session_terminal :
    {P : Type 0} (bytes : List ℕ) (d : MoldUdpDecoder P)
    → (bind_session bytes d).terminal_status ≡ d.terminal_status
unfolding bind_session
bind_session_terminal bytes d = ground arith

no_overflow :
    (first_seq count : ℕ)
    → count < 65536
    → ltb (2 ^ 64 - 1 - count) first_seq ≡ false
    → first_seq + count < 2 ^ 64
no_overflow first_seq count h t = ground arith

not_ltb→le : (a b : ℕ) → ltb a b ≡ false → b ≤ a
not_ltb→le a b h = ground arith

not_== : (a b : ℕ) → (a == b) ≡ false → a ≢ b
not_== a b h = ground arith

module _ {P : Type 0} (parser : MessageHandler P) (clock : Clock) (stream : ℕ → List ℕ) (first : ℕ)
    (p : P) where
  abbrev Good : MoldUdpDecoder P → Type 0
  Good = Delivered parser clock stream first p

  failing :
      (status : DecodeStatus) (d : MoldUdpDecoder P)
      → is_terminal_decode_failure status ≡ true
      → Good d
      → Good (terminal_failure status d).1
  failing status d bad h =
      Quiet-Delivered parser clock stream first p (terminal_failure-Quiet status d bad) h.buffered h

  process_sequenced-Delivered :
      (bytes : List ℕ) (first_seq count ticks : ℕ) (d : MoldUdpDecoder P)
      → d.terminal_status ≡ DecodeStatus.ok
      → Good d
      → count < 65536
      → Carries stream first_seq (frames count bytes header_size)
      → Good (process_sequenced parser clock bytes first_seq count ticks d).1
  unfolding process_sequenced validate_sequenced_packet is_terminal_decode_failure
  process_sequenced-Delivered bytes first_seq count ticks d t h n c =
      let G = λ (r : DecodeResult × MoldUdpDecoder P). Good r.1 in
      if_elim G (ltb (2 ^ 64 - 1 - count) first_seq)
        (λ _. failing DecodeStatus.invalid_sequence d refl h)
        λ fits.
          let w = no_overflow first_seq count n fits in
          let sum = add_u64-eq first_seq count w in
          if_elim G (not (is_ok (validate_sequenced_packet bytes count)))
            (λ bad.
              failing _ d
                (Outcome-fatal _ (validate_loop-Outcome count bytes header_size) (not-true bad)) h)
            λ _.
              if_elim G
                (not (d.pending_end_sequence == 0)
                  && ltb d.pending_end_sequence (add_u64 first_seq count))
                (λ _. failing DecodeStatus.invalid_sequence d refl h)
                λ _.
                  if_elim G (leb (add_u64 first_seq count) d.channel.next_expected_seq) (λ _. h)
                    λ new.
                      if_elim G (ltb d.channel.next_expected_seq first_seq)
                        (λ _.
                          Quiet-Delivered parser clock stream first p
                            (buffer_packet-Quiet bytes first_seq count ticks d)
                            (insert-AllStored (HonestStored stream) bytes first_seq count ticks
                              d.channel.gap_buffer (record { carries = c; bounded = w }) h.buffered)
                            h)
                        λ here.
                          apply_packet-Delivered parser clock stream first p bytes first_seq count
                            ticks d t h c w (not_ltb→le _ _ here)
                            (omega (arith, sum, not_leb→lt _ _ new))

  process_bytes-Delivered :
      (payload : Option (List ℕ)) (ticks : ℕ) (d : MoldUdpDecoder P)
      → d.terminal_status ≡ DecodeStatus.ok
      → Good d
      → HonestBytes stream payload
      → Good (process_bytes parser clock payload ticks d).1
  unfolding process_bytes process_datagram is_terminal_decode_failure
  process_bytes-Delivered none ticks d t h c = h
  process_bytes-Delivered (some bytes) ticks d t h (o, c) =
      let G = λ (r : DecodeResult × MoldUdpDecoder P). Good r.1 in
      let count = read_u16_be bytes 18 in
      let bound = bind_session bytes d in
      let h' : Good bound =
        Quiet-Delivered parser clock stream first p (bind_session-Quiet bytes d) h.buffered h in
      let t' = bind_session_terminal bytes d ∙ t in
      if_elim G (ltb (length bytes) header_size) (λ _. h)
        λ _.
          if_elim G
            ((count == 0 || count == end_of_session_message_count)
              && not (length bytes == header_size))
            (λ _. failing DecodeStatus.invalid_size d refl h)
            λ _.
              if_elim G (d.first_packet_seen && not (session_matches bytes d.channel))
                (λ _. failing DecodeStatus.invalid_session d refl h)
                λ _.
                  if_elim G (count == end_of_session_message_count)
                    (λ _.
                      Quiet-Delivered parser clock stream first p
                        (process_end_of_session-Quiet (read_u64_be bytes 10) bound t') h'.buffered
                        h')
                    λ some_messages.
                      if_elim G (count == 0)
                        (λ _.
                          Quiet-Delivered parser clock stream first p
                            (process_heartbeat-Quiet (read_u64_be bytes 10) bound) h'.buffered h')
                        λ _.
                          process_sequenced-Delivered bytes (read_u64_be bytes 10) count ticks bound
                            t' h' (read_u16_be-lt bytes 18 o)
                            (c (not_== count end_of_session_message_count some_messages))

  pub process_packet-Delivered :
      (packet : PacketView) (d : MoldUdpDecoder P)
      → Honest stream packet
      → Good d
      → Good (process_packet parser clock packet d).1
  unfolding process_packet
  process_packet-Delivered packet d c h =
      if_elim (λ (r : DecodeResult × MoldUdpDecoder P). Good r.1) (is_ok d.terminal_status)
        (λ live.
          process_bytes-Delivered packet.payload packet.receive_start_ticks d (is_ok→eq _ live) h
            c.carries)
        λ _. h

  new_decoder-Delivered : (channel_id : ℕ) → first < 2 ^ 64 → Good (new_decoder p channel_id first)
  unfolding new_decoder initial_channel played
  new_decoder-Delivered channel_id w = record {
    applied = 0;
    prefix = refl;
    current = λ _. (omega arith, w);
    buffered = clear-AllStored (HonestStored stream);
  }

  process_packets-Delivered :
      (packets : List PacketView) (d : MoldUdpDecoder P)
      → All (Honest stream) packets
      → Good d
      → Good (process_packets parser clock packets d)
  unfolding process_packets
  process_packets-Delivered [] d a h = h
  process_packets-Delivered (packet ∷ packets) d (c, a) h =
      process_packets-Delivered packets _ a (process_packet-Delivered packet d c h)

-- Whatever datagrams of a session arrive, in whatever order, lost or repeated: the parser of a new
-- decoder has handled a prefix of the session's message stream, in order and each message once. While
-- the decoder has not failed for good, that prefix ends right before the next expected number.
pub process_packets-in_order :
    {P : Type 0} (parser : MessageHandler P) (clock : Clock) (stream : ℕ → List ℕ) (first : ℕ)
    (p : P) (channel_id : ℕ) (packets : List PacketView)
    → first < 2 ^ 64
    → All (Honest stream) packets
    → let d = process_packets parser clock packets (new_decoder p channel_id first) in
      (n : ℕ) × (d.parser ≡ played parser stream first p n)
      × (is_terminal_decode_failure d.terminal_status ≡ false
          → first + n ≡ d.channel.next_expected_seq)
process_packets-in_order parser clock stream first p channel_id packets w a =
    let h =
      process_packets-Delivered parser clock stream first p packets _ a
        (new_decoder-Delivered parser clock stream first p channel_id w) in
    (h.applied, h.prefix, λ t. (h.current t).0)
