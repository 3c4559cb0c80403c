-- ===== src/Parser/Prevalidated.antt =====
-- src/codec/MoldUdpDecoder.cpp and src/parser/ItchParser.cpp: what the decoder's validation of a packet
-- lets the parser skip.
use astra_feed_engine.Prelude.{
  ℕ, zero, suc, ◌+◌, ◌≤◌, ◌≡◌, ◌≢◌, refl, sym, ◌∙◌, ap, List, [], ◌∷◌, length, drop, length-take,
  length-drop, All, arith,
}
use astra_feed_engine.Wire.{
  header_size, byte_at, subspan, read_u16_be, expected_itch_message_length,
}
use astra_feed_engine.Decoder.State.{DecodeStatus}
use astra_feed_engine.Decoder.Messages.{validate_loop, validate_sequenced_packet}
use astra_feed_engine.Decoder.Validated.{validate_loop-step}
use astra_feed_engine.Decoder.Stream.{frames}
use astra_feed_engine.Parser.State.{Books, ItchParser}
use astra_feed_engine.Parser.Dispatch.{handle_message, handle_prevalidated_message}

-- A message of a type that ITCH 5.0 has, of exactly the length of that type.
pub record WellFormed (m : List ℕ) : Type 0 where
  pub known : expected_itch_message_length (byte_at m 0) ≢ 0
  pub exact : length m ≡ expected_itch_message_length (byte_at m 0)

byte_at-subspan :
    (bytes : List ℕ) (off n : ℕ) → n ≢ 0 → byte_at (subspan bytes off n) 0 ≡ byte_at bytes off
unfolding byte_at subspan
byte_at-subspan bytes off zero h = absurd (h refl)
byte_at-subspan [] zero (suc n) h = refl
byte_at-subspan [] (suc off) (suc n) h = refl
byte_at-subspan (b ∷ bytes) zero (suc n) h = refl
byte_at-subspan (b ∷ bytes) (suc off) (suc n) h = byte_at-subspan bytes off (suc n) h

length-subspan :
    (bytes : List ℕ) (off n : ℕ) → off + n ≤ length bytes → length (subspan bytes off n) ≡ n
unfolding subspan
length-subspan bytes off n h = omega (arith, length-take n (drop off bytes), length-drop off bytes)

validate_loop-WellFormed :
    (rounds : ℕ) (bytes : List ℕ) (offset : ℕ)
    → validate_loop rounds bytes offset ≡ DecodeStatus.ok
    → All WellFormed (frames rounds bytes offset)
unfolding frames
validate_loop-WellFormed zero bytes offset h = tt
validate_loop-WellFormed (suc rounds) bytes offset h =
    let (some_bytes, inside, known, rest) = validate_loop-step rounds bytes offset h in
    let len = read_u16_be bytes offset in
    let type =
      ap expected_itch_message_length (byte_at-subspan bytes (offset + 2) len some_bytes) ∙ known in
    (
      record {
        known = λ z. some_bytes (sym type ∙ z);
        exact = length-subspan bytes (offset + 2) len inside ∙ sym type;
      },
      validate_loop-WellFormed rounds bytes (offset + 2 + len) rest,
    )

no_type_zero : expected_itch_message_length 0 ≡ 0
unfolding expected_itch_message_length
no_type_zero = refl

handle_message-prevalidated :
    {B : Type 0} (manager : Books B) (p : ItchParser B) (m : List ℕ)
    → WellFormed m
    → handle_message manager m p ≡ handle_prevalidated_message manager m p
unfolding handle_message handle_prevalidated_message byte_at
handle_message-prevalidated manager p [] w = absurd (w.known no_type_zero)
handle_message-prevalidated manager p (c ∷ cs) w = ground (arith, w.known, w.exact)

All-map :
    {A : Type 0} {P Q : A → Type 0} (f : (a : A) → P a → Q a) (xs : List A) → All P xs → All Q xs
All-map f [] h = tt
All-map f (x ∷ xs) (h, t) = (f x h, All-map f xs t)

-- On every message of a packet that passes validateSequencedPacket, the decoder's entry, which tests
-- neither type nor length, does exactly what the testing entry does.
pub validate_sequenced_packet-prevalidates :
    {B : Type 0} (manager : Books B) (p : ItchParser B) (bytes : List ℕ) (count : ℕ)
    → validate_sequenced_packet bytes count ≡ DecodeStatus.ok
    → All
        (λ m. handle_message manager m p ≡ handle_prevalidated_message manager m p)
        (frames count bytes header_size)
unfolding validate_sequenced_packet
validate_sequenced_packet-prevalidates manager p bytes count h =
    All-map (handle_message-prevalidated manager p) _
      (validate_loop-WellFormed count bytes header_size h)
