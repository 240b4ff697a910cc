-- ===== src/Camera/Ranges.antt =====
-- camera/V4L2/v4l2_camera_data.cpp: the range of a property. The call of `ioctl` that asks the device
-- about a control, and the kernel's numbers in its answer, are parameters.
use Prim.Native.Nat.{bit_and, bit_or}
use my_streamer.Prelude.{
  ℕ, Bool, true, false, not, ◌||◌, Option, none, some, ◌≡◌, refl, ◌==◌, if◌then◌else◌, get_elem?,
}
use my_streamer.Prelude.Int.{ℤ}
use my_streamer.Errors.{
  ErrorCode, success, failed, unknown_property, device_not_ready, configuration_not_supported,
}
use my_streamer.Camera.{
  VideoProperty, index, native_video_properties, NativeId, CameraData, is_out_of_range,
}

-- `v4l2_queryctrl`, as far as it is read
pub record QueryControl : Type 0 where
  pub flags : ℕ
  pub type : ℕ
  pub minimum : ℤ
  pub maximum : ℤ
  pub step : ℤ
  pub default_value : ℤ

-- `queryctrl` gives no value where the call of `ioctl` returns a negative number.
pub record Queries (D : Type 0) : Type 0 where
  pub queryctrl : Option NativeId → D → Option QueryControl
  pub flag_disabled : ℕ
  pub type_boolean : ℕ
  pub type_integer : ℕ

-- `*min`, `*max`, `*step` and `*def`
pub record Range : Type 0 where
  pub min : ℤ
  pub max : ℤ
  pub step : ℤ
  pub def : ℤ

abbrev pub range_of : QueryControl → Range
range_of q = record { min = q.minimum; max = q.maximum; step = q.step; def = q.default_value }

-- the two tests that stand before the answer, as Booleans
unfoldable pub gate : Bool → Bool → ErrorCode × Option Range → ErrorCode × Option Range
gate b d x = if b then (unknown_property, none) else if d then (device_not_ready, none) else x

pub gate-success :
    (b d : Bool) (x : ErrorCode × Option Range)
    → (gate b d x).0 ≡ success
    → (b ≡ false) × (d ≡ false)
unfolding gate
gate-success true d x e = absurd (cc)
gate-success false true x e = absurd (cc)
gate-success false false x e = (refl, refl)

pub gate-some :
    (b d : Bool) (x : ErrorCode × Option Range) (r : Range) → (gate b d x).1 ≡ some r → x.1 ≡ some r
unfolding gate
gate-some true d x r e = absurd (cc)
gate-some false true x r e = absurd (cc)
gate-some false false x r e = e

module _ {D : Type 0} (queries : Queries D) where
  open queries use {queryctrl, flag_disabled, type_boolean, type_integer}

  abbrev pub range_answer : Option QueryControl → ErrorCode × Option Range
  range_answer none = (failed, none)
  range_answer (some q) =
      if not (bit_and q.flags flag_disabled == 0)
      then (configuration_not_supported, none)
      else if not (bit_and q.type (bit_or type_boolean type_integer) == 0)
      then (success, some (range_of q))
      else (configuration_not_supported, none)

  -- The range is what goes through the pointers, which are never null here.
  unfoldable pub get_video_property_range : VideoProperty → CameraData D → ErrorCode × Option Range
  get_video_property_range p c =
      if is_out_of_range p
      then (unknown_property, none)
      else if not c.running || not c.video_open
      then (device_not_ready, none)
      else range_answer (queryctrl (get_elem? native_video_properties (index p)) c.device)
