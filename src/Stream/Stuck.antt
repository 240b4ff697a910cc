-- ===== src/Stream/Stuck.antt =====
-- The buffer that a failed `realloc` takes away.
use mathlib.Core.Option.{some-injective}
use my_streamer.Prelude.{
  ℕ, ◌+◌, ◌/◌, ◌<◌, Bool, true, false, not, ◌||◌, List, [], ◌∷◌, Option, none, some, ltb,
  if◌then◌else◌, ◌≡◌, refl, sym, ap, ◌∙◌, arith, inl, inr, Bool-cases, subst,
}
use my_streamer.Prelude.Text.{Text}
use my_streamer.Errors.{out_of_memory, is_success}
use my_streamer.Images.{Image, is_jpeg, Heap, copy_data_or_clone}
use my_streamer.Http.Response.{HttpResponse, server_error, send_fast}
use my_streamer.Stream.{
  StreamData, Tools, Visit, brings, reports, visited, quiet, is_error, on_new_image, on_error,
  enlarge, store, take_jpeg, take_encoded, take_image, take_new, seen, encode_camera_image,
  encode_unless_error, handle_jpeg, jpeg_answer, report_error,
}
use my_streamer.Stream.Safe.{finished-quiet, no_use}
use my_streamer.Stream.Reach.{Step, Steps, arrives, fails, asked, stays, goes}

-- no buffer, and either an error or an image that waits for it
record IsLost (s : StreamData) : Type 0 where
  buffer_gone : s.jpeg_buffer ≡ none
  blocked : (is_error s || s.new_image_available) ≡ true

by_tests :
    (a b : Bool) (x y z w : HttpResponse)
    → (a || b) ≡ true
    → x.status_code ≡ server_error
    → y.status_code ≡ server_error
    → (if a || b then (if a then x else if b then y else z) else w).status_code ≡ server_error
by_tests true b x y z w h p q = p
by_tests false true x y z w h p q = q
by_tests false false x y z w h p q = absurd (cc h)

-- An error makes the answer one of the server's.
pub report_error-status :
    (show : ℕ → Text) (s : StreamData) (r : HttpResponse)
    → is_error s ≡ true
    → (jpeg_answer show r s).status_code ≡ server_error
unfolding is_error report_error send_fast
report_error-status show s r e =
    by_tests (not (is_success s.internal_error)) s.video_source_error _ _ _ _ e refl refl

module _ (tools : Tools) (heap : Heap) where
  -- what a request leaves that is not interrupted: an error, and still no buffer
  asked_lost :
      (s : StreamData)
      → IsLost s
      → (t : StreamData) × (encode_unless_error tools heap [] s ≡ some t)
        × (is_error t ≡ true)
        × (t.jpeg_buffer ≡ none)
  unfolding encode_camera_image is_error
  asked_lost s lost = elim (Bool-cases (is_error s)) [
    | inl e ↦
        (s, ap (λ b. if b then some s else encode_camera_image tools s) e, e, lost.buffer_gone)
    | inr e ↦
        let n : s.new_image_available ≡ true = ground (arith, lost.blocked) in
        (
          record s { internal_error = out_of_memory; new_image_available = false },
          ap (λ b. if b then some s else encode_camera_image tools s) e
              ∙ ap (λ b. if b then seen (take_new tools s.jpeg_buffer s) else some s) n
              ∙ ap (λ m. seen (take_new tools m s)) lost.buffer_gone,
          refl,
          lost.buffer_gone,
        )
  ]

  -- what the encoding leaves
  encoded-IsLost :
      (s : StreamData)
      → IsLost s
      → (t : StreamData) × (encode_camera_image tools s ≡ some t) × IsLost t
  unfolding encode_camera_image is_error
  encoded-IsLost s lost =
      let by : Bool → Option StreamData =
        λ b. if b then seen (take_new tools s.jpeg_buffer s) else some s in
      elim (Bool-cases s.new_image_available) [
        | inl n ↦ (
          record s { internal_error = out_of_memory; new_image_available = false },
          ap by n ∙ ap (λ m. seen (take_new tools m s)) lost.buffer_gone,
          record { buffer_gone = lost.buffer_gone; blocked = refl },
        )
        | inr n ↦ (s, ap by n, lost)
      ]

  arrived-IsLost : (i : Image) (s : StreamData) → IsLost s → IsLost (on_new_image heap i s)
  unfolding on_new_image is_error
  arrived-IsLost i s lost = record {
    buffer_gone = lost.buffer_gone;
    blocked = elim (Bool-cases (is_success (copy_data_or_clone heap i s.camera_image).1)) [
      | inl e ↦ ground (arith, e)
      | inr e ↦ ground (arith, e)
    ];
  }

  failed-IsLost : (message : Text) (s : StreamData) → IsLost s → IsLost (on_error message s)
  unfolding on_error is_error
  failed-IsLost message s lost = record { buffer_gone = lost.buffer_gone; blocked = ground arith }

  visited-IsLost : (vs : List Visit) (s : StreamData) → IsLost s → IsLost (visited heap vs s)
  visited-IsLost [] s lost = lost
  visited-IsLost (brings i ∷ vs) s lost =
      visited-IsLost vs (on_new_image heap i s) (arrived-IsLost i s lost)
  visited-IsLost (reports message ∷ vs) s lost =
      visited-IsLost vs (on_error message s) (failed-IsLost message s lost)

  Step-IsLost : {s t : StreamData} → Step tools heap s t → IsLost s → IsLost t
  Step-IsLost (arrives {s} i src v) lost = arrived-IsLost i s lost
  Step-IsLost (fails {s} message) lost = failed-IsLost message s lost
  Step-IsLost (asked {s} {t} vs w e) lost =
      let u = visited heap vs s in
      let by : Bool → Option StreamData = λ b. if b then some u else encode_camera_image tools u in
      let still = visited-IsLost vs s lost in
      elim (Bool-cases (is_error s)) [
        | inl b ↦ subst IsLost (some-injective _ _ (sym (ap by b) ∙ e)) still
        | inr b ↦
            let (x, q, next) = encoded-IsLost u still in
            subst IsLost (some-injective _ _ (sym (ap by b ∙ q) ∙ e)) next
      ]

  Steps-IsLost : {s t : StreamData} → Steps tools heap s t → IsLost s → IsLost t
  Steps-IsLost stays lost = lost
  Steps-IsLost (goes steps step) lost = Step-IsLost step (Steps-IsLost steps lost)

  enlarge-gone :
      (s : StreamData) (w : ℕ) (b : List ℕ)
      → ltb s.jpeg_buffer_size w ≡ true
      → tools.realloc b (w + w / 10) ≡ none
      → enlarge tools w b s ≡ record s { jpeg_buffer = none; internal_error = out_of_memory }
  unfolding enlarge
  enlarge-gone s w b small refused =
      let larger : Option (List ℕ) → StreamData = λ m. elim m [
        | none ↦ record s { jpeg_buffer = none; internal_error = out_of_memory }
        | some c ↦ record s { jpeg_buffer = some c; jpeg_buffer_size = w + w / 10 }
      ] in
      ap (λ f. if f then larger (tools.realloc b (w + w / 10)) else s) small ∙ ap larger refused

  -- no buffer after the `realloc` that fails
  take_image-gone :
      (s : StreamData) (i : Image) (src b : List ℕ)
      → s.camera_image ≡ some i
      → is_jpeg i.format ≡ true
      → i.memory ≡ some src
      → ltb s.jpeg_buffer_size i.width ≡ true
      → tools.realloc b (i.width + i.width / 10) ≡ none
      → take_image tools s.camera_image b s
        ≡ some (record s { jpeg_buffer = none; internal_error = out_of_memory })
  unfolding take_jpeg
  take_image-gone s i src b c j m small refused =
      ap (λ x. take_image tools x b s) c
      ∙ ap
          (λ f.
            if f
            then (elim i.memory [
              | none ↦ none
              | some bytes ↦ some (take_jpeg tools i.width bytes b s)
            ])
            else some (take_encoded tools i b s))
          j
      ∙ ap (λ x. elim x [ none ↦ none | some bytes ↦ some (take_jpeg tools i.width bytes b s) ]) m
      ∙ ap (λ t. some (store i.width src t.jpeg_buffer t)) (enlarge-gone s i.width b small refused)

  -- Once the memory for a larger JPEG is refused, to a request that found no error and a new JPEG that
  -- does not fit the buffer, every later request for a picture that the camera's thread does not interrupt
  -- is answered with an error of the server, whatever images and errors follow and however much memory there is then: the buffer's pointer is
  -- lost and no step allocates another.
  pub lost_for_good :
      (s t u : StreamData) (i : Image) (src b : List ℕ)
      → is_error s ≡ false
      → s.new_image_available ≡ true
      → s.camera_image ≡ some i
      → is_jpeg i.format ≡ true
      → i.memory ≡ some src
      → s.jpeg_buffer ≡ some b
      → s.jpeg_buffer_size < i.width
      → tools.realloc b (i.width + i.width / 10) ≡ none
      → encode_unless_error tools heap [] s ≡ some t
      → Steps tools heap t u
      → (show : ℕ → Text) (r : HttpResponse)
      → (v : StreamData) × (q : HttpResponse) × (handle_jpeg tools heap show quiet u r
          ≡ some (v, q))
        × (q.status_code ≡ server_error)
  unfolding handle_jpeg encode_camera_image is_error
  lost_for_good s t u i src b ok n c j m at small refused e steps show r =
      let gone = record s {
        jpeg_buffer = none;
        internal_error = out_of_memory;
        new_image_available = false;
      } in
      let first : encode_unless_error tools heap [] s ≡ some gone =
        ap (λ f. if f then some s else encode_camera_image tools s) ok
        ∙ ap (λ f. if f then seen (take_new tools s.jpeg_buffer s) else some s) n
        ∙ ap (λ x. seen (take_new tools x s)) at
        ∙ ap seen (take_image-gone s i src b c j m (ground arith) refused) in
      let lost : IsLost gone = record { buffer_gone = refl; blocked = refl } in
      let later = Steps-IsLost steps (subst IsLost (some-injective _ _ (sym first ∙ e)) lost) in
      let (v, q, error, _) = asked_lost u later in
      (
        v,
        jpeg_answer show r v,
        finished-quiet tools heap show (λ _. true) (λ x. jpeg_answer show r x) u v q
            (no_use v.jpeg_buffer v.jpeg_size error),
        report_error-status show v r error,
      )
