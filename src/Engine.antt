-- ===== src/Engine.antt =====
-- src/engine/MarketDataEngine.cpp and include/astra/engine/: the loop that receives datagrams and hands
-- them to the packet processor, an interface that the decoder fills. The source is the sequence of its
-- answers; console output is left out.
pub mod Liveness
use astra_feed_engine.Prelude.{
  ℕ, ◌/◌, List, [], ◌∷◌, Bool, true, false, not, ◌&&◌, ◌||◌, Option, none, some, ◌==◌,
  if◌then◌else◌,
}
use astra_feed_engine.Decoder.State.{
  is_ok, is_end_of_stream, is_terminal_decode_failure, DecodeResult, PacketView,
}

pub record EngineConfig : Type 0 where
  pub enable_latency_metrics : Bool
  pub stop_on_decode_error : Bool
  pub stop_on_sequence_gap : Bool

-- IPacketProcessor::processPacket, and LatencyRecorder::recordDuration.
pub record Collaborators (S R : Type 0) : Type 0 where
  pub process_packet : PacketView → S → DecodeResult × S
  pub record_duration : ℕ → ℕ → R → R

pub record MarketDataEngine (S R : Type 0) : Type 0 where
  pub processor : S
  pub latency_recorder : R
  pub running : Bool

-- What a round of the loop meets: whether stop() was called from outside before it, and the source's
-- answer, none when there is no datagram.
pub record Round : Type 0 where
  pub stop_called : Bool
  pub received : Option PacketView

module _ {S R : Type 0} where
  abbrev pub stop : MarketDataEngine S R → MarketDataEngine S R
  stop e = record e { running = false }

module _ {S R : Type 0} (config : EngineConfig) (use_of : Collaborators S R) where
  -- The loop's body after processPacket.
  unfoldable pub react : DecodeResult → MarketDataEngine S R → MarketDataEngine S R
  react result e =
      if is_end_of_stream result.status
      then stop e
      else if not (is_ok result.status)
      then if is_terminal_decode_failure result.status || config.stop_on_decode_error
        then stop e
        else e
      else if result.had_gap && config.stop_on_sequence_gap
      then stop e
      else if config.enable_latency_metrics && not (result.latency_sample_count == 0)
      then record e {
        latency_recorder =
            use_of.record_duration (result.latency_total_ns / result.latency_sample_count)
              result.latency_sample_count e.latency_recorder;
      }
      else e

  unfoldable pub receive : Option PacketView → MarketDataEngine S R → MarketDataEngine S R
  receive none e = e
  receive (some packet) e =
      let (result, processor) = use_of.process_packet packet e.processor in
      react result (record e { processor = processor })

  -- The loop, as long as the rounds last.
  unfoldable pub run_loop : List Round → MarketDataEngine S R → MarketDataEngine S R
  run_loop [] e = e
  run_loop (round ∷ rounds) e =
      let current = if round.stop_called then stop e else e in
      let rest = run_loop rounds (receive round.received current) in
      if current.running then rest else current
