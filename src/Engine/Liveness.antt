-- ===== src/Engine/Liveness.antt =====
-- src/engine/MarketDataEngine.cpp over src/codec/MoldUdpDecoder.cpp: the engine runs no longer than its
-- decoder lives.
use astra_feed_engine.Prelude.{
  ℕ, ◌≡◌, refl, sym, List, [], ◌∷◌, true, false, Option, none, some, if◌then◌else◌, arith, if_elim,
  true-ne-false,
}
use astra_feed_engine.Decoder.State.{
  DecodeStatus, is_terminal_decode_failure, DecodeResult, PacketView, MessageHandler, Clock,
  MoldUdpDecoder, new_decoder,
}
use astra_feed_engine.Decoder.Packet.{process_packet}
use astra_feed_engine.Decoder.Verdict.{Sound, process_packet-Sound, new_decoder-IsCounted}
use astra_feed_engine.GapBuffer.Count.{IsCounted}
use astra_feed_engine.Engine.{
  EngineConfig, Collaborators, MarketDataEngine, Round, stop, react, receive, run_loop,
}

module _ {P R : Type 0} (parser : MessageHandler P) (clock : Clock)
    (record_duration : ℕ → ℕ → R → R) where
  -- The decoder as the engine's processor.
  abbrev pub collaborators : Collaborators (MoldUdpDecoder P) R
  collaborators = record {
    process_packet = process_packet parser clock;
    record_duration = record_duration;
  }

  pub record IsAlive (e : MarketDataEngine (MoldUdpDecoder P) R) : Type 0 where
    pub live : e.running ≡ true → e.processor.terminal_status ≡ DecodeStatus.ok
    pub counted : IsCounted e.processor.channel.gap_buffer

  react-IsAlive :
      (config : EngineConfig) (result : DecodeResult) (e : MarketDataEngine (MoldUdpDecoder P) R)
      → Sound (result, e.processor)
      → IsAlive (react config collaborators result e)
  unfolding react is_terminal_decode_failure
  react-IsAlive config result e s = record {
    live = ground (arith, s.verdict);
    counted = ground (arith, s.counted);
  }

  -- A stopped engine is left as it is, so only a live decoder is given datagrams.
  receive-IsAlive :
      (config : EngineConfig) (received : Option PacketView)
      (e : MarketDataEngine (MoldUdpDecoder P) R)
      → e.running ≡ true
      → IsAlive e
      → IsAlive (receive config collaborators received e)
  unfolding receive
  receive-IsAlive config none e running a = a
  receive-IsAlive config (some packet) e running a =
      let r = process_packet parser clock packet e.processor in
      react-IsAlive config r.0 (record e { processor = r.1 })
        (process_packet-Sound parser clock packet e.processor (a.live running) a.counted)

  run_loop-IsAlive :
      (config : EngineConfig) (rounds : List Round) (e : MarketDataEngine (MoldUdpDecoder P) R)
      → IsAlive e
      → IsAlive (run_loop config collaborators rounds e)
  unfolding run_loop
  run_loop-IsAlive config [] e a = a
  run_loop-IsAlive config (round ∷ rounds) e a =
      let current = if round.stop_called then stop e else e in
      let a' : IsAlive current =
        if_elim IsAlive round.stop_called
          (λ _. record {
            live = λ (f : false ≡ true). absurd (true-ne-false (sym f));
            counted = a.counted;
          })
          (λ _. a) in
      if_elim IsAlive current.running
        (λ running.
          run_loop-IsAlive config rounds _
            (receive-IsAlive config round.received current running a'))
        λ _. a'

-- The engine as it is constructed, over a new decoder.
unfoldable pub new_engine : {P R : Type 0} → P → ℕ → ℕ → R → MarketDataEngine (MoldUdpDecoder P) R
new_engine p channel_id first latency_recorder = record {
  processor = new_decoder p channel_id first;
  latency_recorder = latency_recorder;
  running = true;
}

new_engine-IsAlive :
    {P R : Type 0} (parser : MessageHandler P) (clock : Clock) (record_duration : ℕ → ℕ → R → R)
    (p : P) (channel_id first : ℕ) (latency_recorder : R)
    → IsAlive parser clock record_duration (new_engine p channel_id first latency_recorder)
unfolding new_engine new_decoder
new_engine-IsAlive parser clock record_duration p channel_id first latency_recorder = record {
  live = λ _. refl;
  counted = new_decoder-IsCounted p channel_id first;
}

-- The engine runs no longer than its decoder lives: after any rounds, whatever arrived, whoever called
-- stop, and however the engine is configured, an engine that still runs has a decoder that has neither
-- failed for good nor accepted the end of the stream.
pub run_loop-live :
    {P R : Type 0} (parser : MessageHandler P) (clock : Clock) (record_duration : ℕ → ℕ → R → R)
    (config : EngineConfig) (rounds : List Round) (p : P) (channel_id first : ℕ)
    (latency_recorder : R)
    → (run_loop config
        (collaborators parser clock record_duration)
        rounds
        (new_engine p channel_id first latency_recorder)).running
      ≡ true
    → (run_loop config
        (collaborators parser clock record_duration)
        rounds
        (new_engine p channel_id first latency_recorder)).processor.terminal_status
      ≡ DecodeStatus.ok
run_loop-live parser clock record_duration config rounds p channel_id first latency_recorder =
    (run_loop-IsAlive parser clock record_duration config rounds _
      (new_engine-IsAlive parser clock record_duration p channel_id first latency_recorder)).live
