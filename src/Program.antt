-- ===== src/Program.antt =====
-- main.cpp: how the program joins the web server to the source of pictures, and what a request for a
-- picture gets.
pub mod Delivered
mod Tests
use mathlib.Core.Option
use my_streamer.Prelude.{
  ℕ, ◌+◌, ◌^◌, ◌<◌, Bool, true, false, not, ◌||◌, List, [], ◌∷◌, ◌++◌, Option, none, some,
  if◌then◌else◌, ◌≡◌, refl, sym, ap, ◌∙◌, subst, ◌⊎◌, inl, inr, arith, length, get_or,
}
use my_streamer.Prelude.Text.{Text, codes, equal}
use my_streamer.Prelude.Assoc.{put, before}
use my_streamer.Images.{Image, jpeg, Heap}
use my_streamer.Images.Copies.{IsImage}
use my_streamer.Images.Clones.{width_in}
use my_streamer.Http.Request.{Method, HttpRequest, is_invalid, get_header}
use my_streamer.Http.Response.{
  HttpResponse, new, server_error, state_map, add_header, set_content_type, append_to_buffer,
  send_fast,
}
use my_streamer.Http.Context.{fresh}
use my_streamer.Http.Context.Written.{IsTarget, request_text, line_request, parse_request-text}
use my_streamer.Http.Server.{closes, on_request, after_parse, on_message, sends, shuts_down, served}
use my_streamer.Stream.{
  StreamData, Tools, quiet, is_error, on_new_image, handle_jpeg, jpeg_answer, report_error,
  jpeg_response, picture,
}
use my_streamer.Errors.{is_success}
use my_streamer.Stream.Safe.{HeapLaw, ToolsLaw}
use my_streamer.Stream.Reach.{Reached}
use my_streamer.Stream.Pictures.{ShownFrom, picture_shown}
use my_streamer.Web.{
  Files, Handler, WebCameraServer, new_web_camera_server, assign, find_handler, add_handler,
  service_response, handle_file, handle_request,
}

-- The handler of pictures on the data of this moment, where the camera's thread does not interrupt it. Where the call has no result, which is a read of an
-- image without memory, the response stays as it is.
abbrev pub jpeg_handler : Tools → Heap → (ℕ → Text) → StreamData → Handler
jpeg_handler tools heap show s q r = elim (handle_jpeg tools heap show quiet s r) [
  | none ↦ r
  | some (t, p) ↦ p
]

abbrev pub camera_server : Handler → Handler → WebCameraServer
camera_server jpeg_handler mjpeg_handler =
    add_handler (codes "/camera/mjpeg") mjpeg_handler
      (add_handler (codes "/camera/jpeg") jpeg_handler (new_web_camera_server (codes "web")))

pub handle_camera :
    (show : ℕ → Text) (files : Files) (j m : Handler) (q : HttpRequest) (r : HttpResponse)
    → q.path ≡ codes "/camera/jpeg"
    → files (codes "web/camera/jpeg") ≡ none
    → handle_request show files (camera_server j m) q r ≡ j q r
unfolding handle_request handle_file add_handler assign find_handler equal
handle_camera show files j m q r p f =
    let by : Option Text → Option Handler → HttpResponse = λ x h.
      if elim x [ none ↦ false | some _ ↦ true ]
      then handle_file show files (codes "web") q r
      else service_response show files h q r in
    ap (λ x. by x (find_handler q.path (camera_server j m).function_map))
      (ap (λ x. files (codes "web" ++ x)) p ∙ f)
    ∙ ap (λ x. by none (find_handler x (camera_server j m).function_map)) p

-- the answer on the connection
abbrev pub answer : (ℕ → Text) → HttpResponse → Text
answer show r = let (_, text) = append_to_buffer show r in text

pub camera_asked :
    (show : ℕ → Text) (files : Files) (j m : Handler) (time : ℕ) (method : Method)
    (query : Option Text) (body : Text)
    → is_invalid method ≡ false
    → IsTarget (codes "/camera/jpeg") query
    → files (codes "web/camera/jpeg") ≡ none
    → let q = record (line_request method (codes "/camera/jpeg") query) { receive_time = time } in
      (j q (new false)).close_connection ≡ false
      → on_message show
          (handle_request show files (camera_server j m))
          time
          (request_text method (codes "/camera/jpeg") query [] body)
          fresh
        ≡ some (served (sends (answer show (j q (new false))) ∷ []) body fresh)
unfolding on_message on_request append_to_buffer add_header closes get_header equal handle_request
camera_asked show files j m time method query body i h f c =
    let q = record (line_request method (codes "/camera/jpeg") query) { receive_time = time } in
    ap
      (λ o. elim o [
        | none ↦ none
        | some x ↦ some (after_parse show (handle_request show files (camera_server j m)) x)
      ])
      (parse_request-text time method (codes "/camera/jpeg") query [] body i h tt)
    ∙ ap
        (λ a.
          let (r, text) = append_to_buffer show a in
          some
            (served (sends text ∷ (if r.close_connection then shuts_down ∷ [] else [])) body fresh))
        (handle_camera show files j m q (new false) refl f)
    ∙ ap
        (λ b. some (
          served (sends (answer show (j q (new false))) ∷ (if b then shuts_down ∷ [] else [])) body
            fresh))
        c
