-- ===== src/Camera.antt =====
-- camera/V4L2/v4l2_camera_data.h and v4l2_camera_data.cpp: the camera's properties. The two calls of
-- `ioctl` that write and read a control are the device's, a parameter.
pub mod Config
pub mod Deferred
pub mod Fits
pub mod Info
pub mod Ranges
pub mod Offered
pub mod ReadBack
pub mod Tests
use my_streamer.Prelude.{
  ℕ, Bool, true, false, not, ◌&&◌, ◌||◌, List, [], ◌∷◌, Option, none, some, ◌==◌, ltb,
  if◌then◌else◌, get_elem?,
}
use my_streamer.Prelude.Int.{ℤ}
use my_streamer.Errors.{ErrorCode, success, failed, unknown_property, device_not_ready, is_success}

pub data VideoProperty : Type 0 where
  brightness contrast saturation hue sharpness gain : VideoProperty
  backlight_compensation red_balance blue_balance auto_white_balance : VideoProperty
  horizontal_flip vertical_flip : VideoProperty

-- `static_cast<int>(property)`, by which properties are compared too
abbrev pub index : VideoProperty → ℕ
index brightness = 0
index contrast = 1
index saturation = 2
index hue = 3
index sharpness = 4
index gain = 5
index backlight_compensation = 6
index red_balance = 7
index blue_balance = 8
index auto_white_balance = 9
index horizontal_flip = 10
index vertical_flip = 11

-- the kernel's numbers of the controls, by name
pub data NativeId : Type 0 where
  cid_brightness cid_contrast cid_saturation cid_hue cid_sharpness cid_gain : NativeId
  cid_backlight_compensation cid_red_balance cid_blue_balance cid_auto_white_balance : NativeId
  cid_hflip cid_vflip : NativeId

abbrev pub native_video_properties : List NativeId
native_video_properties =
    cid_brightness ∷ cid_contrast ∷ cid_saturation ∷ cid_hue ∷ cid_sharpness ∷ cid_gain
    ∷ cid_backlight_compensation ∷ cid_red_balance ∷ cid_blue_balance ∷ cid_auto_white_balance
    ∷ cid_hflip ∷ cid_vflip ∷ []

-- The device behind the file descriptor. `s_ctrl` and `g_ctrl` are the calls of `ioctl`; a call that
-- returns a negative number gives `false`, or no value. The control's number is `none` where the table
-- would be read out of range.
pub record Device : Type 1 where
  pub Dev : Type 0
  pub s_ctrl : Option NativeId → ℤ → Dev → Dev × Bool
  pub g_ctrl : Option NativeId → Dev → Option ℤ

-- `Running`, `VideoFd != -1`, `PropertiesToSet` in the order of its keys, and the device.
pub record CameraData (D : Type 0) : Type 0 where
  pub running : Bool
  pub video_open : Bool
  pub properties_to_set : List (VideoProperty × ℤ)
  pub device : D

-- `PropertiesToSet[property] = value`
unfoldable pub put : VideoProperty → ℤ → List (VideoProperty × ℤ) → List (VideoProperty × ℤ)
put p v [] = (p, v) ∷ []
put p v ((q, w) ∷ m) =
    if index p == index q
    then (q, v) ∷ m
    else if ltb (index p) (index q)
    then (p, v) ∷ (q, w) ∷ m
    else (q, w) ∷ put p v m

abbrev pub is_out_of_range : VideoProperty → Bool
is_out_of_range p = ltb (index p) (index brightness) || ltb (index gain) (index p)

module _ (dev : Device) where
  open dev use {Dev, s_ctrl, g_ctrl}

  unfoldable pub set_video_property :
      VideoProperty → ℤ → CameraData Dev → CameraData Dev × ErrorCode
  unfolding put
  set_video_property p v c =
      if is_out_of_range p
      then (c, unknown_property)
      else if not c.running || not c.video_open
      then (record c { properties_to_set = put p v c.properties_to_set }, success)
      else (let (d, done) = s_ctrl (get_elem? native_video_properties (index p)) v c.device in
          (record c { device = d }, if done then success else failed))

  -- The value is what goes through the pointer, which is never null here.
  unfoldable pub get_video_property : VideoProperty → CameraData Dev → ErrorCode × Option ℤ
  get_video_property p c =
      if is_out_of_range p
      then (unknown_property, none)
      else if not c.running || not c.video_open
      then (device_not_ready, none)
      else elim (g_ctrl (get_elem? native_video_properties (index p)) c.device) [
        | none ↦ (failed, none)
        | some v ↦ (success, some v)
      ]

  -- The end of `Init`: the properties that were set before the device ran. The result is `configOK`.
  unfoldable pub apply_each :
      List (VideoProperty × ℤ) → Bool → CameraData Dev → CameraData Dev × Bool
  apply_each [] ok c = (c, ok)
  apply_each ((p, v) ∷ m) ok c =
      let (c', e) = set_video_property p v c in apply_each m (ok && is_success e) c'

  unfoldable pub apply_properties : CameraData Dev → CameraData Dev × Bool
  unfolding apply_each
  apply_properties c =
      let (c', ok) = apply_each c.properties_to_set true c in
      (record c' { properties_to_set = [] }, ok)
