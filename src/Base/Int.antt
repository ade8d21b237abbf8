-- ===== src/Base/Int.antt =====
-- Signed machine integers: integers over the native numbers, their two's-complement patterns and
-- the saturating sums of `i16` and `i32`.
use Prim.Native.Nat.{ℕ, suc, ◌+◌, ◌-◌, ◌^◌, ◌≤◌, ◌<◌}
use mathlib.Core.Path.{◌≡◌}
use mathlib.Core.Bool.{Bool, true, ◌&&◌}
use mathlib.Core.Logic.{◌↔◌}
use native.Mathlib.Omega.{arith}
use webshooter.Base.Tests.{leb, if◌then◌else◌}

-- `negsuc n` is -(n + 1).
pub data ℤ : Type 0 where
  pos : ℕ → ℤ
  negsuc : ℕ → ℤ

abbrev pub pos_part : ℤ → ℕ
pos_part (pos n) = n
pos_part (negsuc n) = 0

abbrev pub neg_part : ℤ → ℕ
neg_part (pos n) = 0
neg_part (negsuc n) = suc n

-- a - b, as an integer.
abbrev pub sub_ℕ : ℕ → ℕ → ℤ
sub_ℕ a b = if leb b a then pos (a - b) else negsuc (b - a - 1)

infixl 65 ◌+ℤ◌
infix 50 ◌≤ℤ◌ ◌==ℤ◌
unfoldable pub ◌+ℤ◌ : ℤ → ℤ → ℤ
a +ℤ b = sub_ℕ (pos_part a + pos_part b) (neg_part a + neg_part b)

abbrev pub ◌≤ℤ◌ : ℤ → ℤ → Type 0
a ≤ℤ b = pos_part a + neg_part b ≤ pos_part b + neg_part a

abbrev pub leb_ℤ : ℤ → ℤ → Bool
leb_ℤ a b = leb (pos_part a + neg_part b) (pos_part b + neg_part a)

abbrev pub ◌==ℤ◌ : ℤ → ℤ → Bool
a ==ℤ b = leb_ℤ a b && leb_ℤ b a

abbrev pub clamp_ℤ : ℤ → ℤ → ℤ → ℤ
clamp_ℤ lo hi a = if leb_ℤ a lo then lo else if leb_ℤ hi a then hi else a

-- The values of an `i16` and of an `i32`.
abbrev pub IsI16 : ℤ → Type 0
IsI16 (pos n) = n < 2 ^ 15
IsI16 (negsuc n) = n < 2 ^ 15

abbrev pub IsI32 : ℤ → Type 0
IsI32 (pos n) = n < 2 ^ 31
IsI32 (negsuc n) = n < 2 ^ 31

-- `i16::saturating_add` and `i32::saturating_add`.
unfoldable pub saturating_add_16 : ℤ → ℤ → ℤ
unfolding ◌+ℤ◌
saturating_add_16 a b = clamp_ℤ (negsuc (2 ^ 15 - 1)) (pos (2 ^ 15 - 1)) (a +ℤ b)

unfoldable pub saturating_add_32 : ℤ → ℤ → ℤ
unfolding ◌+ℤ◌
saturating_add_32 a b = clamp_ℤ (negsuc (2 ^ 31 - 1)) (pos (2 ^ 31 - 1)) (a +ℤ b)

pub saturating_add_16-IsI16 : (a b : ℤ) → IsI16 (saturating_add_16 a b)
unfolding saturating_add_16
saturating_add_16-IsI16 a b = ground arith

pub saturating_add_32-IsI32 : (a b : ℤ) → IsI32 (saturating_add_32 a b)
unfolding saturating_add_32
saturating_add_32-IsI32 a b = ground arith

-- Where the sum fits, the saturating sum is the sum.
pub saturating_add_16-eq-+ℤ : (a b : ℤ) → IsI16 (a +ℤ b) → saturating_add_16 a b ≡ a +ℤ b
unfolding saturating_add_16
saturating_add_16-eq-+ℤ a b h = ground arith

pub saturating_add_32-eq-+ℤ : (a b : ℤ) → IsI32 (a +ℤ b) → saturating_add_32 a b ≡ a +ℤ b
unfolding saturating_add_32
saturating_add_32-eq-+ℤ a b h = ground arith

pub +ℤ_comm : (a b : ℤ) → a +ℤ b ≡ b +ℤ a
unfolding ◌+ℤ◌
+ℤ_comm a b = ground arith

pub +ℤ_assoc : (a b c : ℤ) → a +ℤ b +ℤ c ≡ a +ℤ (b +ℤ c)
unfolding ◌+ℤ◌
+ℤ_assoc a b c = ground arith

pub zero-+ℤ : (a : ℤ) → pos 0 +ℤ a ≡ a
unfolding ◌+ℤ◌
zero-+ℤ a = ground arith

pub +ℤ-zero : (a : ℤ) → a +ℤ pos 0 ≡ a
unfolding ◌+ℤ◌
+ℤ-zero a = ground arith

pub ==ℤ_iff : (a b : ℤ) → ((a ==ℤ b) ≡ true) ↔ (a ≡ b)
==ℤ_iff a b = ground arith
