-- ===== src/Shared/ClientDatagram/Axis.antt =====
-- The motion axes of shared/src/client_datagram.rs. An `f32` is its bit pattern; the operations of
-- the floating-point unit are a parameter, with the two facts of Rust's casts that matter here.
use webshooter.Base.{ℕ, ◌-◌, ◌^◌}
use webshooter.Base.Int.{ℤ, pos, negsuc, IsI16}
use webshooter.Base.Words.{IsU32}

abbrev pub F32 : Type 0
F32 = ℕ

-- `as i16` saturates, so that its result is an `i16`; an `f32` has 32 bits.
pub record Floats : Type 1 where
  pub F64 : Type 0
  pub from_f32 : F32 → F64
  pub to_f32 : F64 → F32
  pub from_i16 : ℤ → F64
  pub to_i16 : F64 → ℤ
  pub literal : ℕ → F64
  pub mul : F64 → F64 → F64
  pub div : F64 → F64 → F64
  pub clamp : F64 → F64 → F64 → F64
  pub to_i16-IsI16 : (x : F64) → IsI16 (to_i16 x)
  pub to_f32-IsU32 : (x : F64) → IsU32 (to_f32 x)

-- `MOTION_ACCEL_SCALE` and `MOTION_GYRO_SCALE`.
abbrev pub motion_accel_scale : ℕ
motion_accel_scale = 100

abbrev pub motion_gyro_scale : ℕ
motion_gyro_scale = 10

module _ (fl : Floats) where
  open fl use {F64, from_f32, to_f32, from_i16, to_i16, literal, mul, div, clamp}

  unfoldable pub axis_to_wire : F32 → ℕ → ℤ
  axis_to_wire value scale = to_i16 (
      clamp (mul (from_f32 value) (literal scale)) (from_i16 (negsuc (2 ^ 15 - 1)))
        (from_i16 (pos (2 ^ 15 - 1))))

  unfoldable pub axis_from_wire : ℤ → ℕ → F32
  axis_from_wire value scale = to_f32 (div (from_i16 value) (literal scale))

  pub axis_to_wire-IsI16 : (value : F32) (scale : ℕ) → IsI16 (axis_to_wire value scale)
  unfolding axis_to_wire
  axis_to_wire-IsI16 value scale = fl.to_i16-IsI16 _

  pub axis_from_wire-IsU32 : (value : ℤ) (scale : ℕ) → IsU32 (axis_from_wire value scale)
  unfolding axis_from_wire
  axis_from_wire-IsU32 value scale = fl.to_f32-IsU32 _
