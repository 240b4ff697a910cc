-- ===== src/Stream/Reach.antt =====
-- The states of StreamData that are reached from the constructor, and the requests in them.
use my_streamer.Prelude.{
  ℕ, ◌*◌, ◌&&◌, ltb, ◌+◌, ◌-◌, ◌%◌, ◌^◌, ◌≤◌, [], ◌∷◌, true, false, if◌then◌else◌, ◌⊎◌, inl, inr,
  Bool-cases, List, Option, none, some, ◌≡◌, sym, ap, ◌∙◌, arith, length, Bool, subst,
}
use mathlib.Core.Option.{some-injective}
use my_streamer.Prelude.Text.{Text}
use my_streamer.Images.{Image, Heap}
use my_streamer.Images.Copies.{IsImage}
use my_streamer.Http.Response.{HttpResponse}
use my_streamer.Stream.{
  StreamData, Tools, Visit, brings, reports, visited, Visits, uses_null, finished, is_error,
  encode_camera_image, new_stream_data, jpeg_buffer_bytes, on_new_image, on_error,
  encode_unless_error, handle_jpeg, handle_mjpeg, handle_timer, jpeg_answer, mjpeg_answer,
  timer_actions,
}
use my_streamer.Stream.Safe.{
  HeapLaw, ToolsLaw, IsSafe, arrived, is_error-success, no_use, encode_camera_image-cases,
}

-- the images that the camera's thread brings are whole
abbrev pub AreWhole : List Visit → Type 0
AreWhole [] = Unit
AreWhole (brings i ∷ vs) = ((src : List ℕ) × IsImage i src) × AreWhole vs
AreWhole (reports message ∷ vs) = AreWhole vs

-- What the program does to the data: a whole image arrives; the camera fails; a request takes the picture,
-- with the calls of the camera's thread that come behind its test.
pub data Step (tools : Tools) (heap : Heap) : StreamData → StreamData → Type 0 where
  arrives :
      {s : StreamData} (i : Image) (src : List ℕ)
      → IsImage i src
      → Step tools heap s (on_new_image heap i s)
  fails : {s : StreamData} (message : Text) → Step tools heap s (on_error message s)
  asked :
      {s t : StreamData} (vs : List Visit)
      → AreWhole vs
      → encode_unless_error tools heap vs s ≡ some t
      → Step tools heap s t

pub data Steps (tools : Tools) (heap : Heap) : StreamData → StreamData → Type 0 where
  stays : {s : StreamData} → Steps tools heap s s
  goes : {s t u : StreamData} → Steps tools heap s t → Step tools heap t u → Steps tools heap s u

-- from the constructor, with a buffer that is as large as was asked for, or with a null pointer
pub record Reached (tools : Tools) (heap : Heap) (s : StreamData) : Type 0 where
  pub buffer : Option (List ℕ)
  pub buffer_room : (b : List ℕ) → buffer ≡ some b → jpeg_buffer_bytes ≤ length b
  pub steps : Steps tools heap (new_stream_data buffer) s

both : (a : Bool) {b : Bool} → (a && b) ≡ true → b ≡ true
both a {b} h = ground arith

failed_error : (message : Text) (s : StreamData) → is_error (on_error message s) ≡ true
unfolding on_error is_error
failed_error message s = ground arith

on_error-IsSafe : (message : Text) (s : StreamData) → IsSafe s → IsSafe (on_error message s)
unfolding on_error
on_error-IsSafe message s safe = record {
  image_whole = safe.image_whole;
  image_there = safe.image_there;
  picture_there =
      λ u. absurd (cc (sym (no_use s.jpeg_buffer s.jpeg_size (failed_error message s)) ∙ u));
  buffer_room = safe.buffer_room;
  picture_fits = safe.picture_fits;
}

new_stream_data-IsSafe :
    (m : Option (List ℕ))
    → ((b : List ℕ) → m ≡ some b → jpeg_buffer_bytes ≤ length b)
    → IsSafe (new_stream_data m)
unfolding is_error
new_stream_data-IsSafe none room = record {
  image_whole = λ i e. absurd (cc e);
  image_there = λ e _. absurd (cc e);
  picture_there = λ u. absurd (cc u);
  buffer_room = λ b e. absurd (cc e);
  picture_fits = λ b e. absurd (cc e);
}
new_stream_data-IsSafe (some m) room = record {
  image_whole = λ i e. absurd (cc e);
  image_there = λ e _. absurd (cc e);
  picture_there = λ u. absurd (cc u);
  buffer_room = λ b e. room b e;
  picture_fits = λ b e. omega arith;
}

-- a new image without a pointer is one that could not be copied
gone-error :
    (u : StreamData)
    → IsSafe u
    → u.new_image_available ≡ true
    → u.camera_image ≡ none
    → is_error u ≡ true
gone-error u safe n gone = elim (Bool-cases (is_error u)) [
  | inl b ↦ b
  | inr b ↦ let (i, there) = safe.image_there n (is_error-success u b) in absurd (cc (gone, there))
]

module _ (tools : Tools) (heap : Heap) (tools_law : ToolsLaw tools) (heap_law : HeapLaw heap) where
  pub visited-IsSafe :
      (vs : List Visit) (s : StreamData) → AreWhole vs → IsSafe s → IsSafe (visited heap vs s)
  visited-IsSafe [] s w safe = safe
  visited-IsSafe (brings i ∷ vs) s ((src, v), w) safe =
      visited-IsSafe vs (on_new_image heap i s) w (arrived heap i src s heap_law v safe)
  visited-IsSafe (reports message ∷ vs) s w safe =
      visited-IsSafe vs (on_error message s) w (on_error-IsSafe message s safe)

  Step-IsSafe : {s t : StreamData} → Step tools heap s t → IsSafe s → IsSafe t
  Step-IsSafe (arrives {s} i src v) safe = arrived heap i src s heap_law v safe
  Step-IsSafe (fails {s} message) safe = on_error-IsSafe message s safe
  Step-IsSafe (asked {s} {t} vs w e) safe =
      let u = visited heap vs s in
      let calm = visited-IsSafe vs s w safe in
      elim (Bool-cases (is_error s)) [
        | inl b ↦
            let q = ap (λ x. if x then some u else encode_camera_image tools u) b in
            subst IsSafe (some-injective _ _ (sym q ∙ e)) calm
        | inr b ↦
            let q = ap (λ x. if x then some u else encode_camera_image tools u) b in
            elim (encode_camera_image-cases tools tools_law u calm) [
              | inl (n, _, _) ↦ absurd (cc (sym n ∙ sym q ∙ e))
              | inr (x, f, next, _) ↦ subst IsSafe (some-injective _ _ (sym f ∙ sym q ∙ e)) next
            ]
      ]

  pub Steps-IsSafe : {s t : StreamData} → Steps tools heap s t → IsSafe s → IsSafe t
  Steps-IsSafe stays safe = safe
  Steps-IsSafe (goes steps step) safe = Step-IsSafe step (Steps-IsSafe steps safe)

  pub Reached-IsSafe : {s : StreamData} → Reached tools heap s → IsSafe s
  Reached-IsSafe r = Steps-IsSafe r.steps (new_stream_data-IsSafe r.buffer r.buffer_room)

  -- the calls of the camera's thread are steps
  visited-Steps :
      (vs : List Visit) {s t : StreamData}
      → AreWhole vs
      → Steps tools heap s t
      → Steps tools heap s (visited heap vs t)
  visited-Steps [] w steps = steps
  visited-Steps (brings i ∷ vs) ((src, v), w) steps =
      visited-Steps vs w (goes steps (arrives i src v))
  visited-Steps (reports message ∷ vs) w steps = visited-Steps vs w (goes steps (fails message))

  -- A request that found no error is interrupted: behind its test there is one, and a new image is said
  -- to be there whose pointer is null.
  abbrev pub Interrupted : StreamData → List Visit → Type 0
  Interrupted s vs =
      let t = visited heap vs s in
      (is_error s ≡ false)
      × (is_error t ≡ true)
      × (t.new_image_available ≡ true)
      × (t.camera_image ≡ none)

  -- A request whose picture is gone is overtaken: a new image that is not encoded yet has cleared the error
  -- before the second test.
  abbrev pub Overtaken : StreamData → Visits → Type 0
  Overtaken s vs =
      (t : StreamData) × (encode_unless_error tools heap vs.tested s ≡ some t)
      × (uses_null (visited heap vs.encoded t) ≡ true)
      × ((visited heap vs.encoded t).new_image_available ≡ true)

  -- A null pointer is used, by a request that is interrupted or overtaken so; or the request returns.
  abbrev pub Ends : {A : Type 0} → StreamData → Visits → Option (StreamData × A) → Type 0
  Ends {A} s vs o =
      ((o ≡ none) × (Interrupted s vs.tested ⊎ Overtaken s vs))
      ⊎ ((t : StreamData) × (a : A) × (o ≡ some (t, a)) × Reached tools heap t)

  encoded-cases :
      (vs : List Visit) (s : StreamData)
      → AreWhole vs
      → Reached tools heap s
      → ((encode_unless_error tools heap vs s ≡ none) × Interrupted s vs)
        ⊎ ((t : StreamData) × (encode_unless_error tools heap vs s ≡ some t) × Reached tools heap t)
  encoded-cases vs s w r =
      let u = visited heap vs s in
      let by : Bool → Option StreamData = λ x. if x then some u else encode_camera_image tools u in
      let next : (t : StreamData)
          → encode_unless_error tools heap vs s ≡ some t
          → Reached tools heap t =
        λ t e. record {
          buffer = r.buffer;
          buffer_room = r.buffer_room;
          steps = goes r.steps (asked vs w e);
        } in
      let safe = visited-IsSafe vs s w (Reached-IsSafe r) in
      elim (Bool-cases (is_error s)) [
        | inl b ↦ inr (u, ap by b, next u (ap by b))
        | inr b ↦ elim (encode_camera_image-cases tools tools_law u safe) [
          | inl (e, n, gone) ↦ inl (ap by b ∙ e, (b, gone-error u safe n gone, n, gone))
          | inr (t, e, _, _) ↦ inr (t, ap by b ∙ e, next t (ap by b ∙ e))
        ]
      ]

  finished-Ends :
      {A : Type 0} (reads : StreamData → Bool) (answer : StreamData → A) (vs : Visits)
      (s : StreamData)
      → AreWhole vs.tested
      → AreWhole vs.encoded
      → Reached tools heap s
      → (show : ℕ → Text) → Ends s vs (finished tools heap show reads answer vs s)
  finished-Ends {A} reads answer vs s w x r show =
      let finish : Option StreamData → Option (StreamData × A) = λ o. elim o [
        | none ↦ none
        | some t ↦
            let u = visited heap vs.encoded t in
            if reads u && uses_null u then none else some (u, answer u)
      ] in
      elim (encoded-cases vs.tested s w r) [
        | inl (e, i) ↦ inl (ap finish e, inl i)
        | inr (t, e, q) ↦
            let u = visited heap vs.encoded t in
            let by : Bool → Option (StreamData × A) = λ b. if b then none else some (u, answer u) in
            let next : Reached tools heap u = record {
              buffer = q.buffer;
              buffer_room = q.buffer_room;
              steps = visited-Steps vs.encoded x q.steps;
            } in
            elim (Bool-cases (reads u && uses_null u)) [
              | inl n ↦ inl (
                ap finish e ∙ ap by n,
                inr (
                  t,
                  e,
                  both (reads u) n,
                  (Reached-IsSafe next).picture_there (both (reads u) n),
                ),
              )
              | inr n ↦ inr (u, answer u, ap finish e ∙ ap by n, next)
            ]
      ]

  -- However whole images, errors of the camera and requests have followed on one another since the data
  -- was made, with memory that is as large as was asked for and an encoder that keeps to its buffer or
  -- returns a larger one: each of the three requests, with any calls of the camera's thread between its
  -- first test of the error and the encoding, and between that and its second test, returns, on every
  -- response, and leaves data that is reached again; or it uses a null pointer. Then either it found no
  -- error and the calls behind its first test have left one, and a new image whose pointer is null; or the
  -- buffer is gone, and a new image that is not encoded has cleared the error before the second test.
  pub requests_return :
      (show : ℕ → Text) (s : StreamData) (vs : Visits)
      → Reached tools heap s
      → AreWhole vs.tested
      → AreWhole vs.encoded
      → ((r : HttpResponse) → Ends s vs (handle_jpeg tools heap show vs s r))
        × ((interval now : ℕ) (r : HttpResponse)
            → Ends s vs (handle_mjpeg tools heap show interval now vs s r))
        × ((interval start end now : ℕ) (up : Bool) (waiting : ℕ)
            → Ends s vs (handle_timer tools heap show interval start end now up waiting vs s))
  unfolding handle_jpeg handle_mjpeg handle_timer
  requests_return show s vs r w x = (
    λ q. finished-Ends (λ t. true) (λ t. jpeg_answer show q t) vs s w x r show,
    λ interval now q.
        finished-Ends (λ t. true) (λ t. mjpeg_answer show interval now q t) vs s w x r show,
    λ interval start end now up waiting.
        let handling = (end + 2 ^ 32 - start % 2 ^ 32) % 2 ^ 32 in
        finished-Ends (λ t. ltb waiting (2 * t.jpeg_size % 2 ^ 32))
          (λ t. timer_actions show interval handling now up waiting t) vs s w x r show,
  )
