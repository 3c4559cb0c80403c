-- ===== src/Decoder/Loop.antt =====
-- processSequencedPacket hands the parser the next messages of the stream, in order.
use astra_feed_engine.Prelude.{
  ℕ, zero, suc, ◌+◌, ◌-◌, ◌^◌, ◌≤◌, ◌<◌, ◌≡◌, ◌≢◌, ◌⊎◌, inl, inr, refl, subst, ◌∙◌, max, List, true,
  not, ◌&&◌, ◌||◌, ◌==◌, ltb, if◌then◌else◌, length, add_u64, add_u64-eq, arith, if_elim,
}
use astra_feed_engine.Wire.{header_size, subspan, read_u16_be}
use astra_feed_engine.Channel.{ChannelHealth}
use astra_feed_engine.Decoder.State.{
  DecodeStatus, ok, invalid_size, invalid_itch_message, is_ok, is_terminal_decode_failure,
  DecodeResult, MessageHandler, Clock, MoldUdpDecoder, with_status,
}
use astra_feed_engine.Decoder.Messages.{
  apply_message, message_loop, timed_result, process_sequenced_packet,
}
use astra_feed_engine.Decoder.Stream.{played, frames, Carries}

-- The parts of the decoder that applying messages leaves alone.
pub record Kept {P : Type 0} (d e : MoldUdpDecoder P) : Type 0 where
  pub expected : e.channel.next_expected_seq ≡ d.channel.next_expected_seq
  pub buffer : e.channel.gap_buffer ≡ d.channel.gap_buffer
  pub terminal : e.terminal_status ≡ d.terminal_status

-- A walk over messages ends well, or with a status that stops the decoder for good.
abbrev pub Outcome : DecodeStatus → Type 0
Outcome status = (status ≡ ok) ⊎ (is_terminal_decode_failure status ≡ true)

pub fatal-ne-ok : (status : DecodeStatus) → is_terminal_decode_failure status ≡ true → status ≢ ok
unfolding is_terminal_decode_failure
fatal-ne-ok DecodeStatus.ok h e = cc
fatal-ne-ok _ h e = cc

out_of_range :
    (start seq end : ℕ) → (ltb start seq || ltb end start) ≡ true → (start < seq) ⊎ (end < start)
out_of_range start seq end h = ground arith

pub is_ok→eq : (status : DecodeStatus) → is_ok status ≡ true → status ≡ ok
is_ok→eq DecodeStatus.ok h = refl
is_ok→eq _ h = cc

pub Kept-refl : {P : Type 0} (d : MoldUdpDecoder P) → Kept d d
Kept-refl d = record { expected = refl; buffer = refl; terminal = refl }

module _ {P : Type 0} (parser : MessageHandler P) (stream : ℕ → List ℕ) (first : ℕ) (p : P) where
  -- The messages up to `end` are applied if the status is ok; in any case some prefix is.
  pub record Applied (end : ℕ) (d : MoldUdpDecoder P) (status : DecodeStatus) (e : MoldUdpDecoder P)
      : Type 0 where
    pub applied : ℕ
    pub prefix : e.parser ≡ played parser stream first p applied
    pub complete : status ≡ ok → first + applied ≡ end
    pub fatal : Outcome status
    pub kept : Kept d e

  apply_message-played :
      (m : List ℕ) (seq : ℕ) (d : MoldUdpDecoder P)
      → first ≤ seq
      → m ≡ stream seq
      → d.parser ≡ played parser stream first p (seq - first)
      → (apply_message parser m d).parser ≡ played parser stream first p (seq + 1 - first)
  unfolding apply_message played
  apply_message-played m seq d h e q =
      let n : seq + 1 - first ≡ suc (seq - first) = omega arith in
      let same : first + (seq - first) ≡ seq = omega arith in rw n (cc (q, e, same))

  -- Where the loop stands: the messages before `seq`, or before `start` if that is later.
  abbrev Reached : ℕ → ℕ → MoldUdpDecoder P → Type 0
  Reached seq start d = d.parser ≡ played parser stream first p (max seq start - first)

  -- One round moves on, whether the message is skipped or applied.
  round-Reached :
      (m : List ℕ) (seq start : ℕ) (d : MoldUdpDecoder P)
      → first ≤ start
      → m ≡ stream seq
      → Reached seq start d
      → Reached (seq + 1) start (if ltb seq start then d else apply_message parser m d)
  round-Reached m seq start d h e q =
      if_elim (Reached (seq + 1) start) (ltb seq start)
        (λ before.
          let same : max (seq + 1) start - first ≡ max seq start - first = ground arith in
          rw same q)
        λ after.
          let here : max seq start ≡ seq = ground arith in
          let there : max (seq + 1) start ≡ seq + 1 = ground arith in
          rw there (apply_message-played m seq d (ground arith) e (rw here at q))

  apply-Kept : (m : List ℕ) (d : MoldUdpDecoder P) → Kept d (apply_message parser m d)
  unfolding apply_message
  apply-Kept m d = record { expected = refl; buffer = refl; terminal = refl }

  round-Kept :
      (m : List ℕ) (seq start : ℕ) (d : MoldUdpDecoder P)
      → Kept d (if ltb seq start then d else apply_message parser m d)
  round-Kept m seq start d =
      if_elim (Kept d) (ltb seq start)
        (λ _. record { expected = refl; buffer = refl; terminal = refl }) (λ _. apply-Kept m d)

  Kept-trans : {c d e : MoldUdpDecoder P} → Kept c d → Kept d e → Kept c e
  Kept-trans h k = record {
    expected = k.expected ∙ h.expected;
    buffer = k.buffer ∙ h.buffer;
    terminal = k.terminal ∙ h.terminal;
  }

  record LoopApplied (end : ℕ) (d : MoldUdpDecoder P) (r : DecodeStatus × ℕ × MoldUdpDecoder P)
      : Type 0 where
    result : Applied end d r.0 r.2

  stopped :
      (end applied : ℕ) (d e : MoldUdpDecoder P) (status : DecodeStatus)
      → is_terminal_decode_failure status ≡ true
      → e.parser ≡ played parser stream first p applied
      → Kept d e
      → Applied end d status e
  stopped end applied d e status bad q k = record {
    applied = applied;
    prefix = q;
    complete = λ o. absurd (fatal-ne-ok status bad o);
    fatal = inr bad;
    kept = k;
  }

  Applied_trans :
      {end : ℕ} {c d : MoldUdpDecoder P} {r : DecodeStatus × ℕ × MoldUdpDecoder P}
      → Kept c d
      → LoopApplied end d r
      → LoopApplied end c r
  Applied_trans k h = record {
    result = record {
      applied = h.result.applied;
      prefix = h.result.prefix;
      complete = h.result.complete;
      fatal = h.result.fatal;
      kept = Kept-trans k h.result.kept;
    };
  }

  message_loop-Applied :
      (rounds : ℕ) (bytes : List ℕ) (offset seq start processed : ℕ) (d : MoldUdpDecoder P)
      → first ≤ start
      → seq + rounds < 2 ^ 64
      → Carries stream seq (frames rounds bytes offset)
      → Reached seq start d
      → LoopApplied
          (max (seq + rounds) start)
          d
          (message_loop parser rounds bytes offset seq start processed d)
  unfolding message_loop frames is_terminal_decode_failure
  message_loop-Applied zero bytes offset seq start processed d h w c q =
      let e : seq + 0 ≡ seq = omega arith in
      record {
        result = rw e (record {
          applied = max seq start - first;
          prefix = q;
          complete = λ _. omega arith;
          fatal = inl refl;
          kept = record { expected = refl; buffer = refl; terminal = refl };
        });
      }
  message_loop-Applied (suc rounds) bytes offset seq start processed d h w (m, c) q =
      let G = LoopApplied (max (seq + suc rounds) start) d in
      let len = read_u16_be bytes offset in
      let message = subspan bytes (offset + 2) len in
      let d' = if ltb seq start then d else apply_message parser message d in
      let there = round-Reached message seq start d h m q in
      let kept = round-Kept message seq start d in
      let here = Kept-refl d in
      if_elim G (ltb (length bytes) (offset + 2))
        (λ _. record { result = stopped _ _ d d invalid_size refl q here })
        λ _.
          if_elim G (len == 0 || ltb (length bytes) (offset + 2 + len))
            (λ _. record { result = stopped _ _ d d invalid_size refl q here })
            λ _.
              if_elim G (not (ltb seq start) && parser.failed d'.parser)
                (λ _. record {
                  result =
                      stopped _ _ d (with_status ChannelHealth.invalid d') invalid_itch_message refl
                        there
                        (record {
                          expected = kept.expected;
                          buffer = kept.buffer;
                          terminal = kept.terminal;
                        });
                })
                λ _.
                  let e : add_u64 seq 1 ≡ seq + 1 = add_u64-eq seq 1 (omega arith) in
                  let f : seq + suc rounds ≡ seq + 1 + rounds = omega arith in
                  rw (e, f)
                    (Applied_trans kept (
                      message_loop-Applied rounds bytes _ (seq + 1) start _ d' h (omega arith) c
                        there))

  -- The outcome of processSequencedPacket.
  pub record PacketApplied (end : ℕ) (d : MoldUdpDecoder P) (r : DecodeResult × MoldUdpDecoder P)
      : Type 0 where
    pub result : Applied end d r.0.status r.1

  timed_result-Applied :
      (clock : Clock) (ticks processed end : ℕ) (d e : MoldUdpDecoder P)
      → Applied end d ok e
      → PacketApplied end d (timed_result parser clock ticks processed e)
  unfolding timed_result
  timed_result-Applied clock ticks processed end d e h =
      if_elim (PacketApplied end d) (not (ticks == 0) && not (processed == 0))
        (λ _. record {
          result = record {
            applied = h.applied;
            prefix = h.prefix;
            complete = h.complete;
            fatal = inl refl;
            kept = record {
              expected = h.kept.expected;
              buffer = h.kept.buffer;
              terminal = h.kept.terminal;
            };
          };
        })
        λ _. record { result = h }

  -- Of a datagram that carries the stream, the messages from `start` on are applied, in order.
  pub process_sequenced_packet-Applied :
      (clock : Clock) (bytes : List ℕ) (seq count start ticks : ℕ) (d : MoldUdpDecoder P)
      → first ≤ start
      → seq ≤ start
      → start ≤ seq + count
      → seq + count < 2 ^ 64
      → Carries stream seq (frames count bytes header_size)
      → d.parser ≡ played parser stream first p (start - first)
      → PacketApplied
          (seq + count)
          d
          (process_sequenced_packet parser clock bytes seq count start ticks d)
  unfolding process_sequenced_packet
  process_sequenced_packet-Applied clock bytes seq count start ticks d h a b w c q =
      let loop = message_loop parser count bytes header_size seq start 0 d in
      let e : max (seq + count) start ≡ seq + count = omega arith in
      let e' : max seq start ≡ start = omega arith in
      let done : LoopApplied (seq + count) d loop =
        rw e at (message_loop-Applied count bytes header_size seq start 0 d h w c (rw e' q)) in
      if_elim (PacketApplied (seq + count) d) (ltb start seq || ltb (add_u64 seq count) start)
        (λ out.
          absurd
            (omega (arith, add_u64-eq seq count w, out_of_range start seq (add_u64 seq count) out)))
        λ _.
          if_elim (PacketApplied (seq + count) d) (is_ok loop.0)
            (λ fine.
              timed_result-Applied clock ticks loop.1 (seq + count) d loop.2
                (subst (λ s. Applied (seq + count) d s loop.2) (is_ok→eq loop.0 fine) done.result))
            λ _. record { result = done.result }
