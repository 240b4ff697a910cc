-- ===== src/Camera/Config.antt =====
-- camera/V4L2/v4l2_camera_config.cpp: properties by name, with values as text. The C library's
-- `sscanf` and `sprintf` with "%d" are parameters.
use my_streamer.Prelude.{
  ℕ, true, List, [], ◌∷◌, Option, none, some, ◌≡◌, refl, ◌⊎◌, inl, inr, arith, if◌then◌else◌,
}
use my_streamer.Prelude.Int.{ℤ}
use my_streamer.Prelude.Text.{Text, codes, equal}
use my_streamer.Prelude.Assoc.{Map, insert}
use my_streamer.Errors.{ErrorCode, unknown_property, invalid_property_value}
use my_streamer.Camera.{
  VideoProperty, brightness, contrast, saturation, hue, sharpness, gain, backlight_compensation,
  red_balance, blue_balance, auto_white_balance, horizontal_flip, vertical_flip, Device, CameraData,
  is_out_of_range, set_video_property, get_video_property,
}

-- `TYPE_INT` and `TYPE_BOOL`
pub data ValueType : Type 0 where
  type_int type_bool : ValueType

pub record PropertyInformation : Type 0 where
  pub video_property : VideoProperty
  pub value_type : ValueType
  pub order : ℕ
  pub name : Text

abbrev information : VideoProperty → ValueType → ℕ → Text → PropertyInformation
information p t o n = record { video_property = p; value_type = t; order = o; name = n }

-- `SupportedProperties`, in the order of the keys
abbrev pub supported_properties : List (Text × PropertyInformation)
supported_properties =
    (codes "awb", information auto_white_balance type_bool 9 (codes "Automatic White Balance"))
    ∷ (codes "blc", information backlight_compensation type_int 6 (codes "Back Light Compensation"))
    ∷ (codes "blueBalance", information blue_balance type_int 8 (codes "Blue Balance"))
    ∷ (codes "brightness", information brightness type_int 0 (codes "Brightness"))
    ∷ (codes "contrast", information contrast type_int 1 (codes "Contrast"))
    ∷ (codes "gain", information gain type_int 5 (codes "Gain"))
    ∷ (codes "hflip", information horizontal_flip type_bool 10 (codes "Horizontal Flip"))
    ∷ (codes "hue", information hue type_int 3 (codes "Hue"))
    ∷ (codes "redBalance", information red_balance type_int 7 (codes "Red Balance"))
    ∷ (codes "saturation", information saturation type_int 2 (codes "Saturation"))
    ∷ (codes "sharpness", information sharpness type_int 4 (codes "Sharpness"))
    ∷ (codes "vflip", information vertical_flip type_bool 11 (codes "Vertical Flip"))
    ∷ []

-- `SupportedProperties.find`
unfoldable pub find_in : Text → List (Text × PropertyInformation) → Option PropertyInformation
unfolding equal
find_in k [] = none
find_in k ((j, i) ∷ m) = if equal k j then some i else find_in k m

unfoldable pub find_property : Text → Option PropertyInformation
unfolding find_in
find_property k = find_in k supported_properties

pub record Format : Type 0 where
  pub scan_int : Text → Option ℤ
  pub print_int : ℤ → Text

module _ (dev : Device) (format : Format) where
  open dev use {Dev}
  open format use {scan_int, print_int}

  unfoldable pub set_property : Text → Text → CameraData Dev → CameraData Dev × ErrorCode
  set_property name value c = elim (scan_int value) [
    | none ↦ (c, invalid_property_value)
    | some v ↦ elim (find_property name) [
      | none ↦ (c, unknown_property)
      | some i ↦ set_video_property dev i.video_property v c
    ]
  ]

  -- The value is printed where the camera's call succeeded.
  unfoldable pub get_property : Text → CameraData Dev → ErrorCode × Option Text
  get_property name c = elim (find_property name) [
    | none ↦ (unknown_property, none)
    | some i ↦
        let (e, v) = get_video_property dev i.video_property c in
        (e, (elim v [ none ↦ none | some n ↦ some (print_int n) ]))
  ]

  unfoldable pub get_each : List (Text × PropertyInformation) → CameraData Dev → Map → Map
  get_each [] c m = m
  get_each ((k, i) ∷ r) c m =
      get_each r c (elim (get_property k c).1 [ none ↦ m | some t ↦ insert k t m ])

  unfoldable pub get_all_properties : CameraData Dev → Map
  unfolding get_each
  get_all_properties c = get_each supported_properties c []

  -- The names behind "gain" in the order of the enumeration.
  abbrev pub beyond_gain : List Text
  beyond_gain =
      codes "blc"
      ∷ codes "redBalance"
      ∷ codes "blueBalance"
      ∷ codes "awb"
      ∷ codes "hflip"
      ∷ codes "vflip"
      ∷ []

  abbrev pub IsAmong : Text → List Text → Type 0
  IsAmong t [] = ⊥
  IsAmong t (s ∷ r) = (t ≡ s) ⊎ IsAmong t r

  refused_at :
      (name value : Text) (v : ℤ) (c : CameraData Dev) (i : PropertyInformation)
      → find_property name ≡ some i
      → is_out_of_range i.video_property ≡ true
      → scan_int value ≡ some v
      → (set_property name value c ≡ (c, unknown_property))
        × (get_property name c ≡ (unknown_property, none))
  unfolding set_property get_property set_video_property get_video_property
  refused_at name value v c i f o s = ground arith

  -- The last six of the twelve supported properties cannot be set or read: on every camera, running or
  -- not, a whole number for them is refused as an unknown property and changes nothing, and no value is
  -- given.
  pub beyond_gain_refused :
      (name value : Text) (v : ℤ) (c : CameraData Dev)
      → IsAmong name beyond_gain
      → scan_int value ≡ some v
      → (set_property name value c ≡ (c, unknown_property))
        × (get_property name c ≡ (unknown_property, none))
  unfolding find_property
  beyond_gain_refused name value v c (inl e) s = rw e (refused_at _ value v c _ refl refl s)
  beyond_gain_refused name value v c (inr (inl e)) s = rw e (refused_at _ value v c _ refl refl s)
  beyond_gain_refused name value v c (inr (inr (inl e))) s =
      rw e (refused_at _ value v c _ refl refl s)
  beyond_gain_refused name value v c (inr (inr (inr (inl e)))) s =
      rw e (refused_at _ value v c _ refl refl s)
  beyond_gain_refused name value v c (inr (inr (inr (inr (inl e))))) s =
      rw e (refused_at _ value v c _ refl refl s)
  beyond_gain_refused name value v c (inr (inr (inr (inr (inr (inl e)))))) s =
      rw e (refused_at _ value v c _ refl refl s)
  beyond_gain_refused name value v c (inr (inr (inr (inr (inr (inr e)))))) s = absurd e
