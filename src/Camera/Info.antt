-- ===== src/Camera/Info.antt =====
-- camera/V4L2/v4l2_camera_config.cpp: what the camera tells of its properties, as text.
use my_streamer.Prelude.{ℕ, List, [], ◌∷◌, ◌++◌, Option, none, some, ◌≡◌, refl}
use my_streamer.Prelude.Int.{pos}
use my_streamer.Prelude.Text.{Text, codes}
use my_streamer.Prelude.Assoc.{Map, insert}
use my_streamer.Errors.{ErrorCode, unknown_property}
use my_streamer.Camera.{CameraData}
use my_streamer.Camera.Config.{
  ValueType, type_int, type_bool, PropertyInformation, supported_properties, find_property, Format,
}
use my_streamer.Camera.Ranges.{Queries, Range, get_video_property_range}

module _ {D : Type 0} (queries : Queries D) (format : Format) where
  open format use {print_int}

  -- the order and the name, with which both texts end
  abbrev pub info_end : ℕ → Text → Text
  info_end order name =
      codes ",\"order\":" ++ print_int (pos order) ++ codes ",\"name\":\"" ++ name ++ codes "\"}"

  -- what `sprintf` writes into the buffer of 128 bytes, without the null behind it
  abbrev pub info_text : ValueType → Range → ℕ → Text → Text
  info_text type_int r order name =
      codes "{\"min\":"
      ++ print_int r.min
      ++ codes ",\"max\":"
      ++ print_int r.max
      ++ codes ",\"def\":"
      ++ print_int r.def
      ++ codes ",\"type\":\"int\""
      ++ info_end order name
  info_text type_bool r order name =
      codes "{\"def\":" ++ print_int r.def ++ codes ",\"type\":\"bool\"" ++ info_end order name

  -- `GetProperty` of V4L2CameraPropsInfo
  unfoldable pub get_info : Text → CameraData D → ErrorCode × Option Text
  get_info name c = elim (find_property name) [
    | none ↦ (unknown_property, none)
    | some i ↦
        let (e, r) = get_video_property_range queries i.video_property c in
        (e, (elim r [ none ↦ none | some v ↦ some (info_text i.value_type v i.order i.name) ]))
  ]

  unfoldable pub get_each_info : List (Text × PropertyInformation) → CameraData D → Map → Map
  get_each_info [] c m = m
  get_each_info ((k, i) ∷ r) c m =
      get_each_info r c (elim (get_info k c).1 [ none ↦ m | some t ↦ insert k t m ])

  -- `GetAllProperties` of V4L2CameraPropsInfo
  unfoldable pub get_all_info : CameraData D → Map
  unfolding get_each_info
  get_all_info c = get_each_info supported_properties c []

  pub get_info-known :
      (name : Text) (c : CameraData D) (i : PropertyInformation)
      → find_property name ≡ some i
      → (get_info name c).0 ≡ (get_video_property_range queries i.video_property c).0
  unfolding get_info
  get_info-known name c i f = rw (f, get_info) refl

  pub get_info-unknown :
      (name : Text) (c : CameraData D)
      → find_property name ≡ none
      → get_info name c ≡ (unknown_property, none)
  unfolding get_info
  get_info-unknown name c f = rw (f, get_info) refl
