-- ===== src/Decoder/InOrder.antt =====
-- drainGapBuffer keeps the order: each round hands on the next messages of the stream, or takes a
-- packet away that holds nothing new.
use astra_feed_engine.Prelude.{
  ℕ, zero, suc, ◌+◌, ◌-◌, ◌^◌, ◌≤◌, ◌<◌, ◌≡◌, inl, inr, refl, sym, subst, ◌∙◌, List, false, leb,
  some, add_u64, add_u64-eq, arith, if_elim, some_eq, none-ne-some, Option-cases,
}
use astra_feed_engine.Wire.{header_size}
use astra_feed_engine.GapBuffer.{SequencedPacket, GapBuffer, InsertResult}
use astra_feed_engine.GapBuffer
use astra_feed_engine.GapBuffer.Honest.{AllStored, erase-AllStored, find-AllStored}
use astra_feed_engine.Decoder.State.{
  DecodeStatus, is_ok, DecodeResult, MessageHandler, Clock, MoldUdpDecoder, merge_latency,
}
use astra_feed_engine.Decoder.Messages.{process_sequenced_packet}
use astra_feed_engine.Decoder.Drain.{
  nearest, nearest_candidate, DrainStep, finished, again, erase_packet, drain_packet, drain_step,
  drain_loop, drain_gap_buffer,
}
use astra_feed_engine.Decoder.Stream.{played, frames, Carries}
use astra_feed_engine.Decoder.Loop.{is_ok→eq, Outcome, process_sequenced_packet-Applied}

-- A stored packet carries the stream.
pub record HonestStored (stream : ℕ → List ℕ) (p : SequencedPacket) : Type 0 where
  pub carries : Carries stream p.seq (frames p.msg_count p.payload header_size)
  pub bounded : p.seq + p.msg_count < 2 ^ 64

pub ok-ne-bad : (status : DecodeStatus) → status ≡ DecodeStatus.ok → is_ok status ≡ false → ⊥
ok-ne-bad DecodeStatus.ok h b = cc
ok-ne-bad _ h b = cc

pub not_leb→lt : (a b : ℕ) → leb a b ≡ false → b < a
not_leb→lt a b h = ground arith

pub nearest_lem :
    (Q : SequencedPacket → Type 0) (rounds distance expected : ℕ) (b : GapBuffer)
    {p : SequencedPacket}
    → AllStored Q b
    → nearest rounds distance expected b ≡ some p
    → Q p × (p.seq ≤ expected) × (GapBuffer.find p.seq b ≡ some p)
unfolding nearest
nearest_lem Q zero distance expected b a e = absurd (none-ne-some e)
nearest_lem Q (suc rounds) distance expected b {p} a e =
    elim (Option-cases (GapBuffer.find (expected - distance) b)) [
      | inl miss ↦ nearest_lem Q rounds (distance + 1) expected b a (rw (miss, nearest) at e)
      | inr (q, hit) ↦
          let same : q ≡ p = some_eq (rw (hit, nearest) at e) in
          let (good, number) =
            find-AllStored Q (expected - distance) b a
              (subst (λ x. GapBuffer.find (expected - distance) b ≡ some x) same hit) in
          (
            good,
            omega (arith, number),
            subst (λ n. GapBuffer.find n b ≡ some p) (sym number)
                (subst (λ x. GapBuffer.find (expected - distance) b ≡ some x) same hit),
          )
    ]

module _ {P : Type 0} (parser : MessageHandler P) (clock : Clock) (stream : ℕ → List ℕ) (first : ℕ)
    (p : P) where
  -- Between two rounds of the drain loop: every message before the expected number is applied.
  pub record InOrder (d : MoldUdpDecoder P) : Type 0 where
    pub started : first ≤ d.channel.next_expected_seq
    pub bounded : d.channel.next_expected_seq < 2 ^ 64
    pub prefix : d.parser ≡ played parser stream first p (d.channel.next_expected_seq - first)
    pub buffered : AllStored (HonestStored stream) d.channel.gap_buffer

  -- What the drain loop leaves: as above if the status is ok; in any case a prefix.
  pub record Drained (d : MoldUdpDecoder P) (status : DecodeStatus) (e : MoldUdpDecoder P)
      : Type 0 where
    pub applied : ℕ
    pub prefix : e.parser ≡ played parser stream first p applied
    pub in_order : status ≡ DecodeStatus.ok → InOrder e
    pub fatal : Outcome status
    pub buffered : AllStored (HonestStored stream) e.channel.gap_buffer
    pub terminal : e.terminal_status ≡ d.terminal_status

  data StepCases (d : MoldUdpDecoder P) (r : DrainStep P) : Type 0 where
    ends :
        (a : DecodeResult) (e : MoldUdpDecoder P)
        → r ≡ finished a e
        → Drained d a.status e
        → StepCases d r
    goes_on :
        (a : DecodeResult) (e : MoldUdpDecoder P)
        → r ≡ again a e
        → (a.status ≡ DecodeStatus.ok)
        → InOrder e
        → e.terminal_status ≡ d.terminal_status
        → StepCases d r

  drain_packet-cases :
      (q : SequencedPacket) (aggregate : DecodeResult) (d : MoldUdpDecoder P)
      → aggregate.status ≡ DecodeStatus.ok
      → InOrder d
      → HonestStored stream q
      → q.seq ≤ d.channel.next_expected_seq
      → d.channel.next_expected_seq < q.seq + q.msg_count
      → StepCases d (drain_packet parser clock q (add_u64 q.seq q.msg_count) aggregate d)
  unfolding drain_packet erase_packet merge_latency
  drain_packet-cases q aggregate d fine h g le lt =
      let run =
        process_sequenced_packet parser clock q.payload q.seq q.msg_count
          d.channel.next_expected_seq q.receive_start_ticks d in
      let a =
        (process_sequenced_packet-Applied parser stream first p clock q.payload q.seq q.msg_count
          d.channel.next_expected_seq q.receive_start_ticks d h.started le (omega arith) g.bounded
          g.carries h.prefix).result in
      let e = add_u64-eq q.seq q.msg_count g.bounded in
      let buffered =
        erase-AllStored (HonestStored stream) q.seq _
          (subst (AllStored (HonestStored stream)) (sym a.kept.buffer) h.buffered) in
      if_elim (StepCases d) (is_ok run.0.status)
        (λ fine'.
          let done = a.complete (is_ok→eq _ fine') in
          let n : add_u64 q.seq q.msg_count - first ≡ a.applied = omega (arith, e, done) in
          goes_on _ _ refl fine
            (record {
              started = omega (arith, e, h.started);
              bounded = omega (arith, e, g.bounded);
              prefix = rw n a.prefix;
              buffered = buffered;
            })
            a.kept.terminal)
        λ bad. ends _ _ refl (record {
          applied = a.applied;
          prefix = a.prefix;
          in_order = λ good. absurd (ok-ne-bad run.0.status good bad);
          fatal = a.fatal;
          buffered = buffered;
          terminal = a.kept.terminal;
        })

  drain_step-cases :
      (aggregate : DecodeResult) (d : MoldUdpDecoder P)
      → aggregate.status ≡ DecodeStatus.ok
      → InOrder d
      → StepCases d (drain_step parser clock aggregate d)
  unfolding drain_step nearest_candidate erase_packet
  drain_step-cases aggregate d fine h =
      elim (Option-cases (nearest_candidate d.channel.next_expected_seq d.channel.gap_buffer)) [
        | inl miss ↦
            rw (miss, drain_step)
              (ends aggregate d refl (record {
                applied = d.channel.next_expected_seq - first;
                prefix = h.prefix;
                in_order = λ _. h;
                fatal = inl fine;
                buffered = h.buffered;
                terminal = refl;
              }))
        | inr (q, hit) ↦
            let (good, le, _) =
              nearest_lem (HonestStored stream) _ 0 d.channel.next_expected_seq d.channel.gap_buffer
                h.buffered hit in
            let e = add_u64-eq q.seq q.msg_count good.bounded in
            rw (hit, drain_step)
              (if_elim (StepCases d) (leb (add_u64 q.seq q.msg_count) d.channel.next_expected_seq)
                (λ stale.
                  goes_on aggregate _ refl fine
                    (record {
                      started = h.started;
                      bounded = h.bounded;
                      prefix = h.prefix;
                      buffered =
                          erase-AllStored (HonestStored stream) q.seq d.channel.gap_buffer
                            h.buffered;
                    })
                    refl)
                λ fresh.
                  drain_packet-cases q aggregate d fine h good le
                    (omega (arith, e, not_leb→lt _ _ fresh)))
      ]

  pub record LoopDrained (d : MoldUdpDecoder P) (r : DecodeResult × MoldUdpDecoder P) : Type 0 where
    pub result : Drained d r.0.status r.1

  drain_loop-Drained :
      (fuel : ℕ) (aggregate : DecodeResult) (d : MoldUdpDecoder P)
      → aggregate.status ≡ DecodeStatus.ok
      → InOrder d
      → LoopDrained d (drain_loop parser clock fuel aggregate d)
  unfolding drain_loop
  drain_loop-Drained zero aggregate d fine h = record {
    result = record {
      applied = d.channel.next_expected_seq - first;
      prefix = h.prefix;
      in_order = λ _. h;
      fatal = inl fine;
      buffered = h.buffered;
      terminal = refl;
    };
  }
  drain_loop-Drained (suc fuel) aggregate d fine h =
      after (drain_step-cases aggregate d fine h) (drain_loop-Drained fuel)
    where
      after :
          StepCases d (drain_step parser clock aggregate d)
          → ((a : DecodeResult) (e : MoldUdpDecoder P)
              → a.status ≡ DecodeStatus.ok
              → InOrder e
              → LoopDrained e (drain_loop parser clock fuel a e))
          → LoopDrained d (drain_loop parser clock (suc fuel) aggregate d)
      after (ends a e eq dr) ih = rw (eq, drain_loop) (record { result = dr })
      after (goes_on a e eq fine' h' t) ih =
          rw (eq, drain_loop)
            (let r = (ih a e fine' h').result in
              record {
                result = record {
                  applied = r.applied;
                  prefix = r.prefix;
                  in_order = r.in_order;
                  fatal = r.fatal;
                  buffered = r.buffered;
                  terminal = r.terminal ∙ t;
                };
              })

  pub drain_gap_buffer-Drained :
      (d : MoldUdpDecoder P) → InOrder d → LoopDrained d (drain_gap_buffer parser clock d)
  unfolding drain_gap_buffer
  drain_gap_buffer-Drained d h = drain_loop-Drained _ _ d refl h
