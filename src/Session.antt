-- ===== src/Session.antt =====
-- A whole session: the decoder of src/codec/MoldUdpDecoder.cpp with the parser of
-- src/parser/ItchParser.cpp behind it.
pub mod Day
pub mod Feed
use astra_feed_engine.Prelude.{
  ℕ, zero, suc, ◌+◌, ◌^◌, ◌<◌, ◌≡◌, ◌≢◌, inl, inr, refl, sym, ◌∙◌, subst, ap, List, [], ◌∷◌, All,
  arith,
}
use astra_feed_engine.Channel.{ChannelPhase, initial_channel}
use astra_feed_engine.Symbols.{StockDirectory}
use astra_feed_engine.Decoder.State.{
  DecodeStatus, is_terminal_decode_failure, DecodeResult, MessageHandler, Clock, MoldUdpDecoder,
  PacketView, new_decoder,
}
use astra_feed_engine.Decoder.Packet.{process_packet, process_packets}
use astra_feed_engine.Decoder.Stream.{played, Honest}
use astra_feed_engine.Decoder.Sequencing.{process_packets-in_order}
use astra_feed_engine.Decoder.Verdict.{
  IsComplete, Verdict, process_packet-Sound, process_packets_stopped, new_decoder-IsCounted,
}
use astra_feed_engine.Decoder.PhaseSync.{Synced, process_packets-Synced}
use astra_feed_engine.GapBuffer.Count.{IsCounted}
use astra_feed_engine.Parser.State.{Books, ItchParser, new_parser}
use astra_feed_engine.Parser.Dispatch.{itch_handler}
use astra_feed_engine.Parser.Closed.{
  IsSettled, new_parser-IsSettled, handle_prevalidated_message-IsSettled,
}

module _ {P : Type 0} (parser : MessageHandler P) (clock : Clock) where
  -- A datagram leaves a live decoder live, or ends the stream with nothing missing, or fails.
  data Next (e : MoldUdpDecoder P) : Type 0 where
    live : e.terminal_status ≡ DecodeStatus.ok → Next e
    ended : e.terminal_status ≢ DecodeStatus.ok → IsComplete e.channel → Next e
    failed :
        e.terminal_status ≢ DecodeStatus.ok
        → e.terminal_status ≢ DecodeStatus.end_of_stream
        → Next e

  follow_up : (r : DecodeResult × MoldUdpDecoder P) → Verdict r → Next r.1
  unfolding is_terminal_decode_failure
  follow_up r (inl (_, t)) = live t
  follow_up r (inr (inl (_, t))) = live t
  follow_up r (inr (inr (inl (_, t, c)))) = ended (ground arith) c
  follow_up r (inr (inr (inr (bad, t, _)))) = failed (ground arith) (ground arith)

  pub process_packets-IsComplete :
      (packets : List PacketView) (d : MoldUdpDecoder P)
      → IsCounted d.channel.gap_buffer
      → d.terminal_status ≡ DecodeStatus.ok
      → (process_packets parser clock packets d).terminal_status ≡ DecodeStatus.end_of_stream
      → IsComplete (process_packets parser clock packets d).channel
  unfolding process_packets
  process_packets-IsComplete [] d c t e = ground arith
  process_packets-IsComplete (packet ∷ packets) d c t e =
      let s = process_packet-Sound parser clock packet d t c in
      after (follow_up (process_packet parser clock packet d) s.verdict) e
        (process_packets-IsComplete packets (process_packet parser clock packet d).1 s.counted)
    where
      after :
          Next (process_packet parser clock packet d).1
          → (process_packets parser clock packets
              (process_packet parser clock packet d).1).terminal_status
            ≡ DecodeStatus.end_of_stream
          → ((process_packet parser clock packet d).1.terminal_status ≡ DecodeStatus.ok
              → (process_packets parser clock packets
                  (process_packet parser clock packet d).1).terminal_status
                ≡ DecodeStatus.end_of_stream
              → IsComplete
                  (process_packets parser clock packets
                    (process_packet parser clock packet d).1).channel)
          → IsComplete
              (process_packets parser clock packets
                (process_packet parser clock packet d).1).channel
      after (live t') e' ih = ih t' e'
      after (ended n complete) e' ih =
          subst (λ (f : MoldUdpDecoder P). IsComplete f.channel)
            (sym (process_packets_stopped parser clock packets _ n)) complete
      after (failed n other) e' ih = absurd (
          other (
            sym (
              ap (λ (f : MoldUdpDecoder P). f.terminal_status)
                (process_packets_stopped parser clock packets _ n))
            ∙ e'))

played-IsSettled :
    {B : Type 0} (manager : Books B) (stream : ℕ → List ℕ) (first : ℕ) (p : ItchParser B) (n : ℕ)
    → IsSettled manager p
    → IsSettled manager (played (itch_handler manager) stream first p n)
unfolding played itch_handler
played-IsSettled manager stream first p zero h = h
played-IsSettled manager stream first p (suc n) h =
    handle_prevalidated_message-IsSettled manager (stream (first + n)) _
      (played-IsSettled manager stream first p n h)

phase_of :
    {B : Type 0} (manager : Books B) (p : ItchParser B)
    → (itch_handler manager).channel_phase p ≡ p.channel_phase
unfolding itch_handler
phase_of manager p = refl

new_decoder-Synced :
    {B : Type 0} (manager : Books B) (symbols : StockDirectory) (books : B) (channel_id first : ℕ)
    → Synced (itch_handler manager) (new_decoder (new_parser symbols books) channel_id first)
unfolding new_decoder initial_channel itch_handler new_parser
new_decoder-Synced manager symbols books channel_id first = record { phase = refl }

new_decoder_live :
    {P : Type 0} (p : P) (channel_id first : ℕ)
    → (new_decoder p channel_id first).terminal_status ≡ DecodeStatus.ok
unfolding new_decoder
new_decoder_live p channel_id first = refl

-- An accepted end of stream means a complete session. Over any arrivals from honest lines, and with
-- any book manager behind the parser: when the decoder has accepted the end of the stream, the parser
-- has handled all messages of the stream up to the next expected number, each once and in order; it
-- has seen the end of messages; and the books hold no live order.
pub process_packets-end_of_stream :
    {B : Type 0} (manager : Books B) (clock : Clock) (stream : ℕ → List ℕ) (first : ℕ)
    (symbols : StockDirectory) (books : B) (channel_id : ℕ) (packets : List PacketView)
    → first < 2 ^ 64
    → All (Honest stream) packets
    → (process_packets
        (itch_handler manager)
        clock
        packets
        (new_decoder (new_parser symbols books) channel_id first)).terminal_status
      ≡ DecodeStatus.end_of_stream
    → let d =
        process_packets
          (itch_handler manager)
          clock
          packets
          (new_decoder (new_parser symbols books) channel_id first) in
      (n : ℕ) × (d.parser ≡ played (itch_handler manager) stream first (new_parser symbols books) n)
      × (first + n ≡ d.channel.next_expected_seq)
      × (d.parser.channel_phase ≡ ChannelPhase.end_of_messages)
      × (manager.total_live_order_count d.parser.books ≡ 0)
unfolding is_terminal_decode_failure
process_packets-end_of_stream {B} manager clock stream first symbols books channel_id packets w a
      e =
    let p = new_parser symbols books in
    let start = new_decoder p channel_id first in
    let d = process_packets (itch_handler manager) clock packets start in
    let (n, prefix, current) =
      process_packets-in_order (itch_handler manager) clock stream first p channel_id packets w a in
    let complete =
      process_packets-IsComplete (itch_handler manager) clock packets start
        (new_decoder-IsCounted p channel_id first) (new_decoder_live p channel_id first) e in
    let synced =
      process_packets-Synced (itch_handler manager) clock packets start
        (new_decoder-Synced manager symbols books channel_id first) in
    let phase : d.parser.channel_phase ≡ ChannelPhase.end_of_messages =
      sym (phase_of manager d.parser) ∙ sym synced.phase ∙ complete.closed in
    let settled : IsSettled manager d.parser =
      subst (IsSettled manager) (sym prefix)
        (played-IsSettled manager stream first p n (new_parser-IsSettled manager symbols books)) in
    (n, prefix, current (ground arith), phase, settled.settled phase)
