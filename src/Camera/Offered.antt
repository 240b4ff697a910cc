-- ===== src/Camera/Offered.antt =====
-- What the camera tells of holds for the calls that set a property.
use my_streamer.Prelude.{
  false, not, ◌||◌, some, Option-cases, ◌≡◌, ◌≢◌, inl, inr, ap, sym, ◌∙◌, if◌then◌else◌, get_elem?,
}
use my_streamer.Prelude.Int.{ℤ}
use my_streamer.Prelude.Text.{Text}
use my_streamer.Errors.{success, failed, unknown_property}
use my_streamer.Camera.{
  VideoProperty, is_out_of_range, index, native_video_properties, Device, CameraData,
}
use my_streamer.Camera.Config.{PropertyInformation, find_property, Format, set_property}
use my_streamer.Camera.ReadBack.{set_property-known, set_video_property-running}
use my_streamer.Camera.Ranges.{Queries, get_video_property_range, gate, gate-success}
use my_streamer.Camera.Info.{get_info, get_info-unknown, get_info-known}

unknown-ne-success : unknown_property ≢ success
unknown-ne-success e = cc

module _ {D : Type 0} (queries : Queries D) where
  get_video_property_range-ready :
      (p : VideoProperty) (c : CameraData D)
      → (get_video_property_range queries p c).0 ≡ success
      → (is_out_of_range p ≡ false) × ((not c.running || not c.video_open) ≡ false)
  unfolding get_video_property_range gate
  get_video_property_range-ready p c e = gate-success _ _ _ e

module _ (dev : Device) (format : Format) where
  abbrev pub Reaches : Text → Text → ℤ → CameraData dev.Dev → Type 0
  Reaches name value v c =
      (i : PropertyInformation) × (find_property name ≡ some i)
      × (let (d, done) =
            dev.s_ctrl (get_elem? native_video_properties (index i.video_property)) v c.device in
          set_property dev format name value c
          ≡ (record c { device = d }, (if done then success else failed)))

  module _ (queries : Queries dev.Dev) where
    -- A property that the camera tells of can be set: a whole number for it reaches the device under the
    -- number of its control, the answer says whether the device took it, and nothing is kept for later.
    pub offered_settable :
        (name value : Text) (v : ℤ) (c : CameraData dev.Dev)
        → (get_info queries format name c).0 ≡ success
        → format.scan_int value ≡ some v
        → Reaches name value v c
    offered_settable name value v c e s =
        elim (Option-cases (find_property name)) as (λ _. Reaches name value v c) [
          | inl f ↦ absurd (
              unknown-ne-success
                (sym (ap (λ x. x.0) (get_info-unknown queries format name c f)) ∙ e))
          | inr (i, f) ↦
              let (r, n) =
                get_video_property_range-ready queries i.video_property c
                  (sym (get_info-known queries format name c i f) ∙ e) in
              (
                i,
                f,
                set_property-known dev format name value v c i s f
                    ∙ set_video_property-running dev format i.video_property v c r n,
              )
        ]
