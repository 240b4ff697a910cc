-- ===== src/Camera/ReadBack.antt =====
-- What is set on a running camera is read back.
use my_streamer.Prelude.{true, false, not, ◌||◌, some, ◌≡◌, refl, ap, ◌∙◌, if◌then◌else◌, get_elem?}
use my_streamer.Prelude.Int.{ℤ}
use my_streamer.Prelude.Text.{Text}
use my_streamer.Errors.{success, failed}
use my_streamer.Camera.{
  VideoProperty, index, native_video_properties, Device, CameraData, is_out_of_range,
  set_video_property, get_video_property,
}
use my_streamer.Camera.Config.{
  PropertyInformation, find_property, Format, set_property, get_property,
}

module _ (dev : Device) (format : Format) where
  open dev use {Dev, s_ctrl, g_ctrl}
  open format use {scan_int, print_int}

  abbrev pub IsRunning : CameraData Dev → Type 0
  IsRunning c = (not c.running || not c.video_open) ≡ false

  pub set_video_property-running :
      (p : VideoProperty) (v : ℤ) (c : CameraData Dev)
      → is_out_of_range p ≡ false
      → IsRunning c
      → let (d, done) = s_ctrl (get_elem? native_video_properties (index p)) v c.device in
        set_video_property dev p v c ≡ (record c { device = d }, (if done then success else failed))
  unfolding set_video_property
  set_video_property-running p v c r s = rw (r, s, set_video_property) refl

  get_video_property-running :
      (p : VideoProperty) (v : ℤ) (c : CameraData Dev)
      → is_out_of_range p ≡ false
      → IsRunning c
      → g_ctrl (get_elem? native_video_properties (index p)) c.device ≡ some v
      → get_video_property dev p c ≡ (success, some v)
  unfolding get_video_property
  get_video_property-running p v c r s g = rw (r, s, g, get_video_property) refl

  pub set_property-known :
      (name value : Text) (v : ℤ) (c : CameraData Dev) (i : PropertyInformation)
      → scan_int value ≡ some v
      → find_property name ≡ some i
      → set_property dev format name value c ≡ set_video_property dev i.video_property v c
  unfolding set_property
  set_property-known name value v c i s f = rw (s, f, set_property) refl

  get_property-known :
      (name : Text) (v : ℤ) (c : CameraData Dev) (i : PropertyInformation)
      → find_property name ≡ some i
      → get_video_property dev i.video_property c ≡ (success, some v)
      → get_property dev format name c ≡ (success, some (print_int v))
  unfolding get_property
  get_property-known name v c i f g = rw (f, g, get_property) refl

  -- On a running camera a supported property in range is set to the number that the text is read as,
  -- and then read back as that number printed, if the device takes the number and reads it back itself.
  pub get_property-set_property :
      (name value : Text) (v : ℤ) (c : CameraData Dev) (i : PropertyInformation)
      → find_property name ≡ some i
      → is_out_of_range i.video_property ≡ false
      → IsRunning c
      → scan_int value ≡ some v
      → (s_ctrl (get_elem? native_video_properties (index i.video_property)) v c.device).1 ≡ true
      → let d =
          (s_ctrl (get_elem? native_video_properties (index i.video_property)) v c.device).0 in
        g_ctrl (get_elem? native_video_properties (index i.video_property)) d ≡ some v
        → ((set_property dev format name value c).1 ≡ success)
          × (get_property dev format name (set_property dev format name value c).0
              ≡ (success, some (print_int v)))
  get_property-set_property name value v c i f r s n t g =
      let p = i.video_property in
      let d = (s_ctrl (get_elem? native_video_properties (index p)) v c.device).0 in
      let e = set_property-known name value v c i n f ∙ set_video_property-running p v c r s in
      rw e (
        ap (λ b. if b then success else failed) t,
        get_property-known name v (record c { device = d }) i f
            (get_video_property-running p v (record c { device = d }) r s g),
      )
