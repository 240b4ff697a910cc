-- ===== src/Program/Delivered.antt =====
-- A picture from the camera to the browser.
use my_streamer.Prelude.{
  ℕ, ◌^◌, ◌<◌, Bool, true, false, not, ◌||◌, List, [], ◌∷◌, ◌++◌, Option, none, some, if◌then◌else◌,
  ◌≡◌, refl, ap, ◌∙◌, ◌⊎◌, inl, inr, length, get_or,
}
use my_streamer.Prelude.Text.{Text, codes, equal}
use my_streamer.Prelude.Assoc.{put, before}
use my_streamer.Images.{Image, jpeg, Heap}
use my_streamer.Images.Copies.{IsImage}
use my_streamer.Images.Clones.{width_in}
use my_streamer.Http.Request.{Method, is_invalid}
use my_streamer.Http.Response.{
  HttpResponse, new, add_header, set_content_type, append_to_buffer, send_fast,
}
use my_streamer.Http.Context.{fresh}
use my_streamer.Http.Context.Written.{IsTarget, request_text}
use my_streamer.Http.Server.{on_message, sends, served}
use my_streamer.Stream.{
  StreamData, Tools, is_error, on_new_image, jpeg_answer, report_error, jpeg_response, picture,
}
use my_streamer.Errors.{is_success}
use my_streamer.Stream.Safe.{HeapLaw, ToolsLaw}
use my_streamer.Stream.Reach.{Reached}
use my_streamer.Stream.Pictures.{ShownFrom, picture_shown}
use my_streamer.Web.{Files, Handler, handle_request}
use my_streamer.Program.{jpeg_handler, camera_server, answer, camera_asked}

abbrev pub failure : (ℕ → Text) → Text → Text
failure show rest = codes "HTTP/1.1 " ++ (show 500 ++ (codes " 500 Server Error\r\n" ++ rest))

abbrev pub picture_headers : (ℕ → Text) → ℕ → Text
picture_headers show size =
    codes "Cache-Control: no-store, must-revalidate\r\nConnection: Keep-Alive\r\nContent-Length: "
    ++ (show size ++ codes "\r\nContent-Type: image/png\r\nExpires: 0\r\nPragma: no-cache\r\n")

-- a failure of the server, or a picture of `w` bytes, its first `n` from `src`
abbrev pub Delivers : (ℕ → Text) → ℕ → ℕ → List ℕ → Text → Type 0
Delivers show w n src text =
    ((rest : Text) × (text ≡ failure show rest))
    ⊎ ((shown : Text) × (text
          ≡ codes "HTTP/1.1 "
            ++ (show 200
                ++ (codes " OK\r\n" ++ (picture_headers show w ++ (codes "\r\n" ++ shown)))))
        × (length shown ≡ w)
        × ((k : ℕ) → k < w → k < n → get_or shown k 0 ≡ get_or src k 0))

-- what holds of the errors and of a picture
by_answers :
    (P : HttpResponse → Type 0) (a b c : Bool) (x y z w : HttpResponse)
    → P x
    → P y
    → P z
    → P w
    → P (if a then (if b then x else if c then y else z) else w)
by_answers P true true c x y z w h i j k = h
by_answers P true false true x y z w h i j k = i
by_answers P true false false x y z w h i j k = j
by_answers P false b c x y z w h i j k = k

by_errors :
    (P : HttpResponse → Type 0) (a b : Bool) (x y z w : HttpResponse)
    → (a || b) ≡ true
    → P x
    → P y
    → P (if a || b then (if a then x else if b then y else z) else w)
by_errors P true b x y z w e h i = h
by_errors P false true x y z w e h i = i
by_errors P false false x y z w e h i = absurd (cc e)

jpeg_answer-close :
    (show : ℕ → Text) (r : HttpResponse) (t : StreamData)
    → (jpeg_answer show r t).close_connection ≡ r.close_connection
unfolding add_header set_content_type report_error send_fast
jpeg_answer-close show r t =
    by_answers (λ a. a.close_connection ≡ r.close_connection) (is_error t)
      (not (is_success t.internal_error)) t.video_source_error _ _ _ _ refl refl refl refl

failure-Delivers :
    (show : ℕ → Text) (t : StreamData)
    → is_error t ≡ true
    → (rest : Text) × (answer show (jpeg_answer show (new false) t) ≡ failure show rest)
unfolding append_to_buffer add_header is_error report_error send_fast
failure-Delivers show t e =
    by_errors (λ a. (rest : Text) × (answer show a ≡ failure show rest))
      (not (is_success t.internal_error)) t.video_source_error _ _ _ _ e (_, refl) (_, refl)

picture-Delivers :
    (show : ℕ → Text) (t : StreamData) (w n : ℕ) (src : List ℕ)
    → ShownFrom w n src t
    → Delivers show w n src (answer show (jpeg_answer show (new false) t))
unfolding append_to_buffer add_header set_content_type put before equal
picture-Delivers show t w n src (inl e) = inl (failure-Delivers show t e)
picture-Delivers show t w n src (inr (e, z, l, p)) = inr (
  picture t,
  ap
        (λ b.
          answer show
            (if b then report_error show t (new false) else jpeg_response show t (new false)))
        e
      ∙ ap
          (λ k.
            codes "HTTP/1.1 "
            ++ (show 200
                ++ (codes " OK\r\n" ++ (picture_headers show k ++ (codes "\r\n" ++ picture t)))))
          z,
  l,
  p,
)

module _ (tools : Tools) (heap : Heap) (tools_law : ToolsLaw tools) (heap_law : HeapLaw heap) where
  -- From the camera to the browser. A whole JPEG of one row, as the camera makes them, arrives at any data
  -- that the program reaches, and then a message whose request asks, without headers, for
  -- `/camera/jpeg`, where no file has that name, and the camera's thread does not interrupt it. The server writes one text to the connection, keeps the
  -- connection, and leaves what stands behind the request in the buffer. The text is an error of the
  -- server, or the headers with the length and the picture: as many bytes as the image is wide that the
  -- copy went to, the new image's first bytes among them. The memory that is given is as large as was
  -- asked for.
  pub jpeg_delivered :
      (s : StreamData) (i : Image) (src : List ℕ)
      → Reached tools heap s
      → IsImage i src
      → i.format ≡ jpeg
      → i.height ≡ 1
      → i.width < 2 ^ 28
      → (show : ℕ → Text) (files : Files) (m : Handler) (time : ℕ) (method : Method)
        (query : Option Text) (body : Text)
      → is_invalid method ≡ false
      → IsTarget (codes "/camera/jpeg") query
      → files (codes "web/camera/jpeg") ≡ none
      → (text : Text) × (on_message show
            (handle_request show files
              (camera_server (jpeg_handler tools heap show (on_new_image heap i s)) m))
            time
            (request_text method (codes "/camera/jpeg") query [] body)
            fresh
          ≡ some (served (sends text ∷ []) body fresh))
        × Delivers show (width_in i s.camera_image) i.width src text
  jpeg_delivered s i src reached v f h small show files m time method query body valid target
        missing =
      let handler = jpeg_handler tools heap show (on_new_image heap i s) in
      let (t, e, shown) =
        picture_shown tools heap tools_law heap_law s i src reached v f h small show (new false) in
      let got = ap (λ o. elim o [ none ↦ new false | some (u, p) ↦ p ]) e in
      (
        answer show (jpeg_answer show (new false) t),
        camera_asked show files handler m time method query body valid target missing
              (ap (λ r. r.close_connection) got ∙ jpeg_answer-close show (new false) t)
            ∙ ap (λ r. some (served (sends (answer show r) ∷ []) body fresh)) got,
        picture-Delivers show t (width_in i s.camera_image) i.width src shown,
      )
