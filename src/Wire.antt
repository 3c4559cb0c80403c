-- ===== src/Wire.antt =====
-- Wire formats: include/astra/protocol/ItchMessageLength.hpp, PacketHeader.hpp, ItchPrice.hpp and
-- the big-endian readers of src/codec/MoldUdpDecoder.cpp and src/parser/ItchParser.cpp. A datagram
-- is the list of its bytes.
pub mod Octets
use astra_feed_engine.Prelude.{
  ℕ, zero, suc, ◌+◌, ◌*◌, List, Bool, ◌==◌, leb, if◌then◌else◌, get_or, take, drop,
}

abbrev pub header_size : ℕ
header_size = 20

abbrev pub session_size : ℕ
session_size = 10

abbrev pub end_of_session_message_count : ℕ
end_of_session_message_count = 0xFFFF

-- Every read is guarded by the caller's length tests; past the end the value is 0.
unfoldable pub byte_at : List ℕ → ℕ → ℕ
byte_at bytes i = get_or bytes i 0

-- The bytes [off, off + n).
unfoldable pub subspan : List ℕ → ℕ → ℕ → List ℕ
subspan bytes off n = take n (drop off bytes)

-- `v = (v << 8) | p[i]` for n bytes from `off`; the bytes are below 256, so `|` adds.
unfoldable pub read_be : ℕ → ℕ → List ℕ → ℕ → ℕ
unfolding byte_at
read_be zero v bytes off = v
read_be (suc n) v bytes off = read_be n (v * 256 + byte_at bytes off) bytes (off + 1)

unfoldable pub read_u16_be : List ℕ → ℕ → ℕ
unfolding byte_at
read_u16_be bytes off = byte_at bytes off * 256 + byte_at bytes (off + 1)

unfoldable pub read_u32_be : List ℕ → ℕ → ℕ
unfolding byte_at
read_u32_be bytes off =
    byte_at bytes off * 16777216
    + byte_at bytes (off + 1) * 65536
    + byte_at bytes (off + 2) * 256
    + byte_at bytes (off + 3)

unfoldable pub read_u48_be : List ℕ → ℕ → ℕ
unfolding read_be
read_u48_be bytes off = read_be 6 0 bytes off

unfoldable pub read_u64_be : List ℕ → ℕ → ℕ
unfolding read_be
read_u64_be bytes off = read_be 8 0 bytes off

-- kItchMessageLengths, indexed by the message type byte; 0 for a type that ITCH 5.0 lacks.
unfoldable pub expected_itch_message_length : ℕ → ℕ
expected_itch_message_length type =
    if type == b'S'
    then 12
    else if type == b'R'
    then 39
    else if type == b'H'
    then 25
    else if type == b'Y'
    then 20
    else if type == b'L'
    then 26
    else if type == b'V'
    then 35
    else if type == b'W'
    then 12
    else if type == b'K'
    then 28
    else if type == b'J'
    then 35
    else if type == b'h'
    then 21
    else if type == b'A'
    then 36
    else if type == b'F'
    then 40
    else if type == b'E'
    then 31
    else if type == b'C'
    then 36
    else if type == b'X'
    then 23
    else if type == b'D'
    then 19
    else if type == b'U'
    then 35
    else if type == b'P'
    then 44
    else if type == b'Q'
    then 40
    else if type == b'B'
    then 19
    else if type == b'I'
    then 50
    else if type == b'N'
    then 20
    else if type == b'O'
    then 48
    else 0

abbrev pub max_itch_price4 : ℕ
max_itch_price4 = 2000000000

unfoldable pub is_valid_itch_price4 : ℕ → Bool
is_valid_itch_price4 raw_price = leb raw_price max_itch_price4
