-- ===== src/Decoder/Finality.antt =====
-- src/codec/MoldUdpDecoder.cpp, processPacket: what its status means, in any state a run reaches.
use astra_feed_engine.Prelude.{ℕ, ◌≡◌, ◌≢◌, true, List, refl, ◌∙◌, if_elim, arith}
use astra_feed_engine.Decoder.State.{
  DecodeStatus, is_ok, is_terminal_decode_failure, DecodeResult, MessageHandler, Clock,
  MoldUdpDecoder, PacketView, new_decoder,
}
use astra_feed_engine.Decoder.Packet.{process_packet, process_packets}
use astra_feed_engine.Decoder.Loop.{is_ok→eq}
use astra_feed_engine.Decoder.Verdict.{
  Verdict, process_packet-Sound, process_packets_stopped, process_packets-IsCounted,
  new_decoder-IsCounted,
}

-- The decoder after the datagrams, from its construction on.
abbrev pub run :
    {P : Type 0} → MessageHandler P → Clock → P → ℕ → ℕ → List PacketView → MoldUdpDecoder P
run parser clock p channel_id first packets =
    process_packets parser clock packets (new_decoder p channel_id first)

-- In any state that a run reaches, a datagram that is given to a live decoder has one of four
-- outcomes: ok or packet_too_small, and the decoder stays live; end_of_stream, recorded, and then the
-- stream has reached its end of messages with nothing buffered, no number awaited and a good channel;
-- or a terminal failure, recorded, with the channel invalid.
pub process_packet-Verdict :
    {P : Type 0} (parser : MessageHandler P) (clock : Clock) (p : P) (channel_id first : ℕ)
    (packets : List PacketView) (packet : PacketView)
    → (run parser clock p channel_id first packets).terminal_status ≡ DecodeStatus.ok
    → Verdict (process_packet parser clock packet (run parser clock p channel_id first packets))
process_packet-Verdict parser clock p channel_id first packets packet t =
    (process_packet-Sound parser clock packet _ t (
      process_packets-IsCounted parser clock packets _
        (new_decoder-IsCounted p channel_id first))).verdict

fatal_recorded :
    {P : Type 0} (result : DecodeResult) (e : MoldUdpDecoder P)
    → Verdict (result, e)
    → is_terminal_decode_failure result.status ≡ true
    → (e.terminal_status ≡ result.status) × (e.terminal_status ≢ DecodeStatus.ok)
unfolding is_terminal_decode_failure
fatal_recorded result e v bad = ground arith

stopped_status :
    {P : Type 0} (parser : MessageHandler P) (clock : Clock) (packet : PacketView)
    (d : MoldUdpDecoder P)
    → d.terminal_status ≢ DecodeStatus.ok
    → (process_packet parser clock packet d).0.status ≡ d.terminal_status
unfolding process_packet
stopped_status {P} parser clock packet d dead =
    if_elim (λ (r : DecodeResult × MoldUdpDecoder P). r.0.status ≡ d.terminal_status)
      (is_ok d.terminal_status) (λ live. absurd (dead (is_ok→eq _ live))) (λ _. refl)

-- A terminal failure is final: in any state that a run reaches, once a datagram is answered by a
-- terminal failure, no later datagram changes the decoder, and each is answered by the same status.
pub process_packet-failure_is_final :
    {P : Type 0} (parser : MessageHandler P) (clock : Clock) (p : P) (channel_id first : ℕ)
    (packets later : List PacketView) (packet next : PacketView)
    → (run parser clock p channel_id first packets).terminal_status ≡ DecodeStatus.ok
    → is_terminal_decode_failure
        (process_packet parser clock packet (run parser clock p channel_id first packets)).0.status
      ≡ true
    → let (result, e) =
        process_packet parser clock packet (run parser clock p channel_id first packets) in
      (process_packets parser clock later e ≡ e)
      × ((process_packet parser clock next e).0.status ≡ result.status)
process_packet-failure_is_final parser clock p channel_id first packets later packet next t bad =
    let r = process_packet parser clock packet (run parser clock p channel_id first packets) in
    let v = process_packet-Verdict parser clock p channel_id first packets packet t in
    let f = fatal_recorded r.0 r.1 v bad in
    (
      process_packets_stopped parser clock later r.1 f.1,
      stopped_status parser clock next r.1 f.1 ∙ f.0,
    )
