-- ===== src/Wire/Octets.antt =====
-- Reads of octets stay within their width.
use astra_feed_engine.Prelude.{◌^◌, ℕ, zero, suc, ◌+◌, ◌<◌, List, [], ◌∷◌, All, arith}
use astra_feed_engine.Wire.{byte_at, read_u16_be, read_u32_be}

abbrev pub Octets : List ℕ → Type 0
Octets bytes = All (λ b. b < 256) bytes

pub byte_at-lt : (bytes : List ℕ) (i : ℕ) → Octets bytes → byte_at bytes i < 256
unfolding byte_at
byte_at-lt [] i o = omega arith
byte_at-lt (b ∷ bytes) zero o = o.0
byte_at-lt (b ∷ bytes) (suc i) o = byte_at-lt bytes i o.1

pub read_u16_be-lt : (bytes : List ℕ) (i : ℕ) → Octets bytes → read_u16_be bytes i < 65536
unfolding read_u16_be
read_u16_be-lt bytes i o = omega (arith, byte_at-lt bytes i o, byte_at-lt bytes (i + 1) o)

pub read_u32_be-lt : (bytes : List ℕ) (i : ℕ) → Octets bytes → read_u32_be bytes i < 2 ^ 32
unfolding read_u32_be
read_u32_be-lt bytes i o = omega (
  arith,
  byte_at-lt bytes i o,
  byte_at-lt bytes (i + 1) o,
  byte_at-lt bytes (i + 2) o,
  byte_at-lt bytes (i + 3) o,
)
