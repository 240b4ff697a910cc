-- ===== src/Service/Page.antt =====
-- A control of the page, changed: what HandlePostRequest makes of the body that the page posts. In the
-- program nothing calls HandlePostRequest, so no post comes to it.
use my_streamer.Prelude.{
  true, false, [], ◌∷◌, some, ◌≡◌, ◌≢◌, refl, sym, ap, ◌∙◌, if◌then◌else◌, inl, inr,
}
use my_streamer.Prelude.Text.{Text, codes}
use my_streamer.Errors.{ErrorCode, success, is_success}
use my_streamer.Camera.{Device, CameraData}
use my_streamer.Camera.Config.{Format, set_property}
use my_streamer.Json.{simple_json_parser}
use my_streamer.Json.Strings.{IsPrintable}
use my_streamer.Properties.{
  CheckBox, Input, handle_bool_property, handle_range_property, handle_selection_property,
}
use my_streamer.Properties.Wire.{Stringify, controls_parsed}
use my_streamer.Http.Response.{HttpResponse}
use my_streamer.Service.{
  Progress, status_ok, status_of, reply_text, answer, set_each, handle_post_request,
}
use my_streamer.Service.Post.{set_one-success, set_one-failure, success_cases}

module _ (dev : Device) (format : Format) where
  open dev use {Dev}

  -- the answer to one property, by what the camera says to it
  abbrev pub reply_for : Text → ErrorCode → Text
  reply_for name e = if is_success e then reply_text status_ok [] else reply_text (status_of e) name

  -- the camera behind one property, and the answer
  abbrev pub single : Text → Text → CameraData Dev → HttpResponse → CameraData Dev × HttpResponse
  single name value c r =
      let (c', e) = set_property dev format name value c in (c', answer (reply_for name e) r)

  is_success_ne : (e : ErrorCode) → e ≢ success → is_success e ≡ false
  is_success_ne success ne = absurd (ne refl)
  is_success_ne _ ne = refl

  single_lem :
      (text name value : Text) (c : CameraData Dev) (r : HttpResponse)
      → simple_json_parser text ≡ some (true, (name, value) ∷ [])
      → handle_post_request dev format text c r ≡ some (single name value c r)
  unfolding handle_post_request set_each
  single_lem text name value c r h =
      let s : Progress Dev = record { camera = c; status = status_ok; failed_property = [] } in
      rw (h, handle_post_request)
        (elim (success_cases dev format (set_property dev format name value c).1) [
          | inl e ↦
              ap
                (λ (t : Progress Dev).
                  some (t.camera, answer (reply_text t.status t.failed_property) r))
                (set_one-success dev format name value s e)
              ∙ ap
                  (λ x.
                    some ((set_property dev format name value c).0, answer (reply_for name x) r))
                  (sym e)
          | inr ne ↦
              ap
                (λ (t : Progress Dev).
                  some (t.camera, answer (reply_text t.status t.failed_property) r))
                (set_one-failure dev format name value s _ refl ne)
              ∙ rw (is_success_ne _ ne) refl
        ])

  -- Where the id and the value of a control hold no control character, HandlePostRequest, if it is given
  -- the body that the control posts, which nothing in the program does, sets the property of the control's
  -- id, and no other, to the value that the control shows, "1" or "0" for a check box. It answers "OK" if
  -- the camera accepts it, and the camera's complaint with the id if not.
  pub controls_applied :
      (j : Stringify) (cb : CheckBox) (i : Input) (c : CameraData Dev) (r : HttpResponse)
      → IsPrintable cb.id
      → IsPrintable i.id
      → IsPrintable i.value
      → (handle_post_request dev format (handle_bool_property j.stringify cb).body c r
          ≡ some (single cb.id (if cb.checked then codes "1" else codes "0") c r))
        × (handle_post_request dev format (handle_range_property j.stringify i).body c r
            ≡ some (single i.id i.value c r))
        × (handle_post_request dev format (handle_selection_property j.stringify i).body c r
            ≡ some (single i.id i.value c r))
  controls_applied j cb i c r hc hi hv =
      let (a, b, d) = controls_parsed j cb i hc hi hv in
      (single_lem _ _ _ c r a, single_lem _ _ _ c r b, single_lem _ _ _ c r d)
