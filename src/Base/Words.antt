-- ===== src/Base/Words.antt =====
-- `to_be_bytes` and `from_be_bytes` of the integer types that the wire formats use. Bytes are
-- native numbers; a signed value goes through its two's-complement pattern.
use Prim.Native.Nat.{ℕ, ◌+◌, ◌-◌, ◌*◌, ◌/◌, ◌%◌, ◌^◌, ◌<◌}
use mathlib.Core.Path.{◌≡◌}
use mathlib.Core.List.{List, [], ◌∷◌}
use native.Mathlib.Omega.{arith}
use webshooter.Base.Tests.{ltb, if◌then◌else◌}
use webshooter.Base.Int.{ℤ, pos, negsuc, IsI16, IsI32}

abbrev pub IsByte : ℕ → Type 0
IsByte b = b < 256

abbrev pub IsU16 : ℕ → Type 0
IsU16 n = n < 2 ^ 16

abbrev pub IsU32 : ℕ → Type 0
IsU32 n = n < 2 ^ 32

abbrev pub from_be_16 : ℕ → ℕ → ℕ
from_be_16 a b = a * 256 + b

abbrev pub from_be_32 : ℕ → ℕ → ℕ → ℕ → ℕ
from_be_32 a b c d = ((a * 256 + b) * 256 + c) * 256 + d

-- The bytes of a number, by their weight: byte 0 is the lowest.
abbrev pub byte_at : ℕ → ℕ → ℕ
byte_at k n = n / 256 ^ k % 256

abbrev pub to_be_16 : ℕ → List ℕ
to_be_16 n = byte_at 1 n ∷ byte_at 0 n ∷ []

abbrev pub to_be_32 : ℕ → List ℕ
to_be_32 n = byte_at 3 n ∷ byte_at 2 n ∷ byte_at 1 n ∷ byte_at 0 n ∷ []

-- The patterns of signed values.
abbrev pub pattern_16 : ℤ → ℕ
pattern_16 (pos n) = n % 2 ^ 16
pattern_16 (negsuc n) = 2 ^ 16 - 1 - n % 2 ^ 16

abbrev pub pattern_32 : ℤ → ℕ
pattern_32 (pos n) = n % 2 ^ 32
pattern_32 (negsuc n) = 2 ^ 32 - 1 - n % 2 ^ 32

abbrev pub signed_16 : ℕ → ℤ
signed_16 w = if ltb w (2 ^ 15) then pos w else negsuc (2 ^ 16 - 1 - w)

abbrev pub signed_32 : ℕ → ℤ
signed_32 w = if ltb w (2 ^ 31) then pos w else negsuc (2 ^ 32 - 1 - w)

pub from_be_16-to_be_16 : (n : ℕ) → IsU16 n → from_be_16 (byte_at 1 n) (byte_at 0 n) ≡ n
from_be_16-to_be_16 n h = omega arith

pub from_be_32-to_be_32 :
    (n : ℕ) → IsU32 n → from_be_32 (byte_at 3 n) (byte_at 2 n) (byte_at 1 n) (byte_at 0 n) ≡ n
from_be_32-to_be_32 n h = omega arith

pub signed_16-pattern_16 : (z : ℤ) → IsI16 z → signed_16 (pattern_16 z) ≡ z
signed_16-pattern_16 z h = ground arith

pub signed_32-pattern_32 : (z : ℤ) → IsI32 z → signed_32 (pattern_32 z) ≡ z
signed_32-pattern_32 z h = ground arith

pub pattern_16-IsU16 : (z : ℤ) → IsU16 (pattern_16 z)
pattern_16-IsU16 z = ground arith

pub pattern_32-IsU32 : (z : ℤ) → IsU32 (pattern_32 z)
pattern_32-IsU32 z = ground arith

pub signed_16-IsI16 : (w : ℕ) → IsU16 w → IsI16 (signed_16 w)
signed_16-IsI16 w h = ground arith

pub signed_32-IsI32 : (w : ℕ) → IsU32 w → IsI32 (signed_32 w)
signed_32-IsI32 w h = ground arith
