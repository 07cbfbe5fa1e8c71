-- ===== src/Base/Words.antt =====
-- Words of several bytes in memory and on the wire.
use Prim.Native.Nat.{ℕ, ◌+◌, ◌*◌, ◌/◌, ◌%◌, ◌^◌, ◌<◌}
use mathlib.Core.Path.{◌≡◌}
use mathlib.Core.List.{◌∷◌}
use native.Mathlib.Omega.{arith}
use eltex_practice.Base.Lists.{get_or}
use eltex_practice.Base.Strings.{Bytes}

-- A 16-bit value in network order, and a 16-bit and a 32-bit value as they lie in the memory of a
-- little-endian machine, each in front of what follows.
abbrev pub be16 : ℕ → Bytes → Bytes
be16 n rest = (n / 256 % 256) ∷ (n % 256) ∷ rest

abbrev pub le16 : ℕ → Bytes → Bytes
le16 n rest = (n % 256) ∷ (n / 256 % 256) ∷ rest

abbrev pub le32 : ℕ → Bytes → Bytes
le32 n rest = (n % 256) ∷ (n / 256 % 256) ∷ (n / 65536 % 256) ∷ (n / 16777216 % 256) ∷ rest

-- Their values at a place in a buffer.
abbrev pub byte : ℕ → Bytes → ℕ
byte i buffer = get_or buffer i 0

abbrev pub be16_at : ℕ → Bytes → ℕ
be16_at i buffer = byte i buffer * 256 + byte (i + 1) buffer

abbrev pub le32_at : ℕ → Bytes → ℕ
le32_at i buffer =
    byte i buffer
    + byte (i + 1) buffer * 256
    + byte (i + 2) buffer * 65536
    + byte (i + 3) buffer * 16777216

-- What was written is read back.
pub word : (n : ℕ) → n < 65536 → n / 256 % 256 * 256 + n % 256 ≡ n
word n h = omega arith

pub long :
    (n : ℕ)
    → n < 2 ^ 32
    → n % 256 + n / 256 % 256 * 256 + n / 65536 % 256 * 65536 + n / 16777216 % 256 * 16777216 ≡ n
long n h = omega arith
