-- ===== src/Camera/Deferred.antt =====
-- A property that is set while the device does not run is kept, and set when it does.
use my_streamer.Prelude.{true, false, not, ◌||◌, [], ◌∷◌, ◌≡◌, refl, if◌then◌else◌, get_elem?}
use my_streamer.Prelude.Int.{ℤ}
use my_streamer.Errors.{success, failed, is_success}
use my_streamer.Camera.{
  VideoProperty, index, native_video_properties, Device, CameraData, is_out_of_range,
  set_video_property, apply_properties,
}

module _ (dev : Device) where
  open dev use {Dev, s_ctrl}

  -- the camera as `Init` leaves it before the kept properties are set
  abbrev pub opened : CameraData Dev → CameraData Dev
  opened c = record c { running = true; video_open = true }

  abbrev pub IsStopped : CameraData Dev → Type 0
  IsStopped c = (not c.running || not c.video_open) ≡ true

  kept_lem :
      (p : VideoProperty) (v : ℤ) (c : CameraData Dev)
      → is_out_of_range p ≡ false
      → IsStopped c
      → c.properties_to_set ≡ []
      → set_video_property dev p v c ≡ (record c { properties_to_set = (p, v) ∷ [] }, success)
  unfolding set_video_property
  kept_lem p v c r s e = rw (r, s, set_video_property) (rw e)

  direct_lem :
      (p : VideoProperty) (v : ℤ) (c : CameraData Dev)
      → is_out_of_range p ≡ false
      → let (d, done) = s_ctrl (get_elem? native_video_properties (index p)) v c.device in
        set_video_property dev p v (opened c)
        ≡ (record (opened c) { device = d }, (if done then success else failed))
  unfolding set_video_property
  direct_lem p v c r = rw (r, set_video_property)

  -- A property in range that is set while the camera is stopped and none is kept is answered by success
  -- at once. Setting the kept properties when the camera runs then does to the device what setting the
  -- property on the running camera does, says whether that succeeds, and keeps nothing.
  pub deferred-eq-direct :
      (p : VideoProperty) (v : ℤ) (c : CameraData Dev)
      → is_out_of_range p ≡ false
      → IsStopped c
      → c.properties_to_set ≡ []
      → let kept = set_video_property dev p v c in
        let direct = set_video_property dev p v (opened c) in
        let (after, config_ok) = apply_properties dev (opened kept.0) in
        (kept.1 ≡ success)
        × (kept.0.device ≡ c.device)
        × (after ≡ direct.0)
        × (config_ok ≡ is_success direct.1)
  unfolding apply_properties
  deferred-eq-direct p v c r s e =
      let kept = record c { properties_to_set = (p, v) ∷ [] } in
      rw (kept_lem p v c r s e)
        (rw (direct_lem p v kept r, direct_lem p v c r) (refl, refl, rw e, refl))
