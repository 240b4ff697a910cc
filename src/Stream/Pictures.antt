-- ===== src/Stream/Pictures.antt =====
-- The picture that a request gets behind the arrival of a JPEG.
use mathlib.Core.Option.{some-injective}
use my_streamer.Prelude.{
  ℕ, ◌^◌, ◌<◌, true, false, not, ◌||◌, List, some, if◌then◌else◌, ◌≡◌, refl, sym, ap, ◌∙◌, arith,
  ◌⊎◌, inl, inr, length, get_or, subst,
}
use my_streamer.Prelude.Text.{Text}
use my_streamer.Prelude.Memory.{length-copy_out, get_or-copy_out}
use my_streamer.Errors.{is_success}
use my_streamer.Images.{Image, is_jpeg, jpeg, Heap}
use my_streamer.Images.Copies.{IsImage}
use my_streamer.Images.Clones.{copy_data_or_clone_lem, width_in}
use my_streamer.Http.Response.{HttpResponse, ok, server_error, add_header, set_content_type}
use my_streamer.Stream.{
  StreamData, Tools, uses_null, quiet, is_error, on_new_image, encode_camera_image, handle_jpeg,
  jpeg_answer, report_error, jpeg_response, picture,
}
use my_streamer.Stream.Safe.{
  HeapLaw, arrived, ToolsLaw, finished-quiet, no_use, encode_unless_error-IsSafe,
}
use my_streamer.Stream.Reach.{Reached, Reached-IsSafe}
use my_streamer.Stream.Stuck.{report_error-status}
use my_streamer.Stream.Shown.{Shown, oom_error, same_bytes, picture_taken}

-- an answer with the first `w` bytes of `src`, and with `w` bytes at all events
abbrev pub Answers : ℕ → ℕ → List ℕ → HttpResponse → Type 0
Answers w n src q =
    (q.status_code ≡ ok)
    × (length q.body ≡ w)
    × ((k : ℕ) → k < w → k < n → get_or q.body k 0 ≡ get_or src k 0)

-- an error, or a picture of `w` bytes whose first `n` are those of `src`
abbrev pub ShownFrom : ℕ → ℕ → List ℕ → StreamData → Type 0
ShownFrom w n src t =
    (is_error t ≡ true)
    ⊎ ((is_error t ≡ false)
        × (t.jpeg_size ≡ w)
        × (length (picture t) ≡ w)
        × ((k : ℕ) → k < w → k < n → get_or (picture t) k 0 ≡ get_or src k 0))

Shown-ShownFrom :
    (t : StreamData) (w n : ℕ) (m src : List ℕ)
    → ((k : ℕ) → k < n → get_or m k 0 ≡ get_or src k 0)
    → Shown w m t
    → ShownFrom w n src t
unfolding Shown
Shown-ShownFrom t w n m src same (inl e) = inl e
Shown-ShownFrom t w n m src same (inr (e, z, p)) = inr (
  e,
  z,
  ap length p ∙ length-copy_out m 0 w,
  λ k h l.
      ap (λ x. get_or x k 0) p
      ∙ get_or-copy_out m 0 w k h
      ∙ ap (λ x. get_or m x 0) (omega arith)
      ∙ same k l,
)

jpeg_answer-Answers :
    (show : ℕ → Text) (t : StreamData) (r : HttpResponse) (w n : ℕ) (src : List ℕ)
    → ShownFrom w n src t
    → ((jpeg_answer show r t).status_code ≡ server_error) ⊎ Answers w n src (jpeg_answer show r t)
unfolding add_header set_content_type
jpeg_answer-Answers show t r w n src (inl e) = inl (report_error-status show t r e)
jpeg_answer-Answers show t r w n src (inr (e, _, l, p)) =
    subst
      (λ b.
        ((if b then report_error show t r else jpeg_response show t r).status_code ≡ server_error)
        ⊎ Answers w n src (if b then report_error show t r else jpeg_response show t r))
      (sym e) (inr (refl, l, p))

module _ (tools : Tools) (heap : Heap) (tools_law : ToolsLaw tools) (heap_law : HeapLaw heap) where
  -- the data behind the request
  pub picture_shown :
      (s : StreamData) (i : Image) (src : List ℕ)
      → Reached tools heap s
      → IsImage i src
      → i.format ≡ jpeg
      → i.height ≡ 1
      → i.width < 2 ^ 28
      → (show : ℕ → Text) (r : HttpResponse)
      → (t : StreamData) × (handle_jpeg tools heap show quiet (on_new_image heap i s) r
          ≡ some (t, jpeg_answer show r t))
        × ShownFrom (width_in i s.camera_image) i.width src t
  unfolding handle_jpeg on_new_image is_error
  picture_shown s i src reached v f h small show r =
      let safe = Reached-IsSafe tools heap tools_law heap_law reached in
      let s' = on_new_image heap i s in
      let safe' = arrived heap i src s heap_law v safe in
      elim (copy_data_or_clone_lem heap heap_law i src v s.camera_image safe.image_whole) [
        | inl p ↦
            let fine : is_error s' ≡ false = ap (λ c. not (is_success c) || false) p.succeeds in
            let fresh : s'.new_image_available ≡ true =
              ap (λ c. if is_success c then true else s.new_image_available) p.succeeds in
            let (t, e, shown) =
              picture_taken tools tools_law heap s' p.image p.bytes fine fresh p.image_at
                (ap is_jpeg (p.format_at ∙ f)) p.valid.memory_at safe' in
            let (t', e', _, there) = encode_unless_error-IsSafe tools tools_law heap s' safe' in
            let used : uses_null t ≡ false =
              subst (λ x. uses_null x ≡ false) (some-injective _ _ (sym e' ∙ e)) there in
            (
              t,
              finished-quiet tools heap show (λ _. true) (λ u. jpeg_answer show r u) s' t e used,
              Shown-ShownFrom t (width_in i s.camera_image) i.width p.bytes src
                  (same_bytes i p.image src p.bytes f h small p.pixels)
                  (subst (λ w. Shown w p.bytes t) p.width_at shown),
            )
        | inr (e, _) ↦
            let failed : is_error s' ≡ true = oom_error s' e in
            (
              s',
              finished-quiet tools heap show (λ _. true) (λ u. jpeg_answer show r u) s' s'
                  (ap (λ b. if b then some s' else encode_camera_image tools s') failed)
                  (no_use s'.jpeg_buffer s'.jpeg_size failed),
              inl failed,
            )
      ]

  -- A whole JPEG of one row, as the camera makes them, arrives at any data that the program reaches.
  -- The next request for a picture returns, and its answer is an error of the server or the picture: as
  -- many bytes as the image is wide that the copy went to, the new image's first bytes among them. The
  -- memory that is given is as large as was asked for.
  pub picture_answered :
      (s : StreamData) (i : Image) (src : List ℕ)
      → Reached tools heap s
      → IsImage i src
      → i.format ≡ jpeg
      → i.height ≡ 1
      → i.width < 2 ^ 28
      → (show : ℕ → Text) (r : HttpResponse)
      → (t : StreamData) × (q : HttpResponse) × (handle_jpeg tools heap show quiet
            (on_new_image heap i s)
            r
          ≡ some (t, q))
        × ((q.status_code ≡ server_error) ⊎ Answers (width_in i s.camera_image) i.width src q)
  picture_answered s i src reached v f h small show r =
      let w = width_in i s.camera_image in
      let (t, e, shown) = picture_shown s i src reached v f h small show r in
      (t, jpeg_answer show r t, e, jpeg_answer-Answers show t r w i.width src shown)
