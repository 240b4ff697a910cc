-- ===== src/Service/Post.antt =====
-- What a POST does to the camera and what it answers.
use my_streamer.Prelude.{
  Bool, true, false, [], ◌∷◌, some, ◌≡◌, ◌≢◌, ◌↔◌, refl, sym, ap, ap₂, ◌∙◌, arith, if◌then◌else◌,
  ◌⊎◌, inl, inr, subst, get_elem?,
}
use mathlib.Core.Option.{some-injective}
use my_streamer.Prelude.Text.{Text}
use my_streamer.Prelude.Assoc.{Map}
use my_streamer.Errors.{ErrorCode, success, failed, unknown_property, invalid_property_value}
use my_streamer.Camera.{Device, CameraData}
use my_streamer.Camera.Config.{Format, set_property}
use my_streamer.Json.{simple_json_parser}
use my_streamer.Json.Fuel.{simple_json_parser_total}
use my_streamer.Http.Response.{HttpResponse}
use my_streamer.Service.{
  Progress, status_ok, status_invalid_json, status_of, reply_text, answer, set_one, set_each,
  handle_post_request,
}

module _ (dev : Device) (format : Format) where
  open dev use {Dev}

  -- Each pair is accepted by the camera as the ones before have left it.
  abbrev pub AllAccepted : Map → CameraData Dev → Type 0
  AllAccepted [] c = Unit
  AllAccepted ((k, v) ∷ m) c =
      let (c', e) = set_property dev format k v c in (e ≡ success) × AllAccepted m c'

  -- the camera behind the loop: every pair is tried
  abbrev pub camera_after : Map → CameraData Dev → CameraData Dev
  camera_after [] c = c
  camera_after ((k, v) ∷ m) c = camera_after m (set_property dev format k v c).0

  abbrev IsComplaint : Text → Type 0
  IsComplaint [] = ⊥
  IsComplaint (c ∷ t) = c ≢ b'O'

  status_of-IsComplaint : (e : ErrorCode) → IsComplaint (status_of e)
  unfolding status_of
  status_of-IsComplaint unknown_property = omega arith
  status_of-IsComplaint invalid_property_value = omega arith
  status_of-IsComplaint _ = omega arith

  pub set_one-success :
      (k v : Text) (s : Progress Dev)
      → (set_property dev format k v s.camera).1 ≡ success
      → set_one dev format k v s ≡ record s { camera = (set_property dev format k v s.camera).0 }
  unfolding set_one
  set_one-success k v s h = rw (h, set_one)

  pub set_one-failure :
      (k v : Text) (s : Progress Dev) (e : ErrorCode)
      → (set_property dev format k v s.camera).1 ≡ e
      → e ≢ success
      → set_one dev format k v s ≡ record {
        camera = (set_property dev format k v s.camera).0;
        status = status_of e;
        failed_property = k;
      }
  unfolding set_one
  set_one-failure k v s success h ne = absurd (ne refl)
  set_one-failure k v s failed h ne = rw (h, set_one)
  set_one-failure k v s _ h ne = rw (h, set_one)

  pub success_cases : (e : ErrorCode) → (e ≡ success) ⊎ (e ≢ success)
  success_cases success = inl refl
  success_cases _ = inr (ground arith)

  set_one-camera :
      (k v : Text) (s : Progress Dev)
      → (set_one dev format k v s).camera ≡ (set_property dev format k v s.camera).0
  set_one-camera k v s = elim (success_cases (set_property dev format k v s.camera).1) [
    | inl h ↦ ap (λ t. t.camera) (set_one-success k v s h)
    | inr ne ↦ ap (λ t. t.camera) (set_one-failure k v s _ refl ne)
  ]

  set_each-camera :
      (m : Map) (s : Progress Dev) → (set_each dev format m s).camera ≡ camera_after m s.camera
  unfolding set_each
  set_each-camera [] s = refl
  set_each-camera ((k, v) ∷ m) s =
      set_each-camera m (set_one dev format k v s) ∙ ap (camera_after m) (set_one-camera k v s)

  set_one-IsComplaint :
      (k v : Text) (s : Progress Dev)
      → IsComplaint s.status
      → IsComplaint (set_one dev format k v s).status
  set_one-IsComplaint k v s c = elim (success_cases (set_property dev format k v s.camera).1) [
    | inl h ↦ subst (λ (t : Progress Dev). IsComplaint t.status) (sym (set_one-success k v s h)) c
    | inr ne ↦
        subst (λ (t : Progress Dev). IsComplaint t.status) (sym (set_one-failure k v s _ refl ne))
          (status_of-IsComplaint (set_property dev format k v s.camera).1)
  ]

  set_each-IsComplaint :
      (m : Map) (s : Progress Dev)
      → IsComplaint s.status
      → IsComplaint (set_each dev format m s).status
  unfolding set_each
  set_each-IsComplaint [] s c = c
  set_each-IsComplaint ((k, v) ∷ m) s c =
      set_each-IsComplaint m (set_one dev format k v s) (set_one-IsComplaint k v s c)

  set_each-accepted :
      (k v : Text) (m : Map) (s : Progress Dev)
      → (set_property dev format k v s.camera).1 ≡ success
      → set_each dev format ((k, v) ∷ m) s
        ≡ set_each dev format m (record s { camera = (set_property dev format k v s.camera).0 })
  unfolding set_each
  set_each-accepted k v m s h = ap (set_each dev format m) (set_one-success k v s h)

  set_each-refused :
      (k v : Text) (m : Map) (s : Progress Dev)
      → (set_property dev format k v s.camera).1 ≢ success
      → IsComplaint (set_each dev format ((k, v) ∷ m) s).status
  unfolding set_each
  set_each-refused k v m s ne = set_each-IsComplaint m (set_one dev format k v s) (
      subst (λ (t : Progress Dev). IsComplaint t.status) (sym (set_one-failure k v s _ refl ne))
        (status_of-IsComplaint (set_property dev format k v s.camera).1))

  -- behind the loop: the status it began with, or a complaint
  set_each_cases :
      (m : Map) (s : Progress Dev)
      → (AllAccepted m s.camera
          × ((set_each dev format m s).status ≡ s.status)
          × ((set_each dev format m s).failed_property ≡ s.failed_property))
        ⊎ ((¬ AllAccepted m s.camera) × IsComplaint (set_each dev format m s).status)
  unfolding set_each
  set_each_cases [] s = inl (tt, refl, refl)
  set_each_cases ((k, v) ∷ m) s = elim (success_cases (set_property dev format k v s.camera).1) [
    | inl h ↦
        rw (set_each-accepted k v m s h)
          (elim (set_each_cases m
            (record s { camera = (set_property dev format k v s.camera).0 })) [
              | inl (a, e, f) ↦ inl ((h, a), e, f)
              | inr (n, c) ↦ inr ((λ (_, a). n a), c)
            ])
    | inr ne ↦ inr ((λ (h, _). ne h), set_each-refused k v m s ne)
  ]

  reply_text-ok :
      (status failed_property : Text)
      → IsComplaint status
      → reply_text status failed_property ≢ reply_text status_ok []
  unfolding reply_text
  reply_text-ok [] f c e = absurd c
  reply_text-ok (a ∷ t) f c e = c (some-injective _ _ (ap (λ (r : Text). get_elem? r 11) e))

  abbrev pub IsOk : HttpResponse → Type 0
  IsOk r = r.body ≡ reply_text status_ok []

  -- what a POST comes to, by what the parser says of its text
  abbrev pub IsAnswer : Bool → Map → CameraData Dev → CameraData Dev × HttpResponse → Type 0
  IsAnswer valid values c (c', r) =
      (c' ≡ (if valid then camera_after values c else c))
      × (IsOk r ↔ ((valid ≡ true) × AllAccepted values c))

  answer-body : (t : Text) (r : HttpResponse) → (answer t r).body ≡ t
  unfolding answer
  answer-body t r = refl

  outcome_lem :
      (text : Text) (c : CameraData Dev) (r : HttpResponse) (valid : Bool) (values : Map)
      → simple_json_parser text ≡ some (valid, values)
      → (out : CameraData Dev × HttpResponse) × (handle_post_request dev format text c r ≡ some out)
        × IsAnswer valid values c out
  unfolding handle_post_request
  outcome_lem text c r false values h =
      rw (h, handle_post_request)
        (
          (c, answer (reply_text status_invalid_json []) r),
          refl,
          (
            refl,
            rw (answer-body (reply_text status_invalid_json []) r) (
              (λ e. absurd (reply_text-ok status_invalid_json [] (omega arith) e)),
              λ (e, _). absurd (cc e),
            ),
          ),
        )
  outcome_lem text c r true values h =
      let s : Progress Dev = record { camera = c; status = status_ok; failed_property = [] } in
      let t : Progress Dev = set_each dev format values s in
      rw (h, handle_post_request)
        (
          (t.camera, answer (reply_text t.status t.failed_property) r),
          refl,
          (
            set_each-camera values s,
            rw (answer-body (reply_text t.status t.failed_property) r)
                (elim (set_each_cases values s) [
                  | inl (a, e, f) ↦ ((λ _. (refl, a)), λ _. ap₂ reply_text e f)
                  | inr (n, k) ↦ (
                    (λ e. absurd (reply_text-ok t.status t.failed_property k e)),
                    λ (_, a). absurd (n a),
                  )
                ]),
          ),
        )

  -- A POST is always answered. If its text parses, the camera behind it has had every pair of the text
  -- set in order, those after a refused one included; if it does not, the camera is untouched. The body
  -- of the answer is `{"status":"OK"}` exactly where the text parses and the camera accepts every pair.
  pub post_answered :
      (text : Text) (c : CameraData Dev) (r : HttpResponse)
      → (valid : Bool) × (values : Map) × (out : CameraData Dev × HttpResponse)
        × (simple_json_parser text ≡ some (valid, values))
        × (handle_post_request dev format text c r ≡ some out)
        × IsAnswer valid values c out
  post_answered text c r =
      let ((valid, values), h) = simple_json_parser_total text in
      let (out, e, a) = outcome_lem text c r valid values h in (valid, values, out, h, e, a)
