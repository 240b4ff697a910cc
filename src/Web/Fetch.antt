-- ===== src/Web/Fetch.antt =====
-- A request for a file, from the bytes that come to the bytes that go.
use my_streamer.Prelude.{
  ℕ, true, false, if◌then◌else◌, [], ◌∷◌, ◌++◌, Option, none, some, ◌≡◌, ap, ◌∙◌, length,
}
use my_streamer.Prelude.Text.{Text, codes, equal}
use my_streamer.Prelude.Assoc.{put, before}
use my_streamer.Http.Request.{Method, HttpRequest, is_invalid, get_header}
use my_streamer.Http.Response.{HttpResponse, new, add_header, set_content_type, append_to_buffer}
use my_streamer.Http.Context.{fresh}
use my_streamer.Http.Context.Written.{IsTarget, request_text, line_request, parse_request-text}
use my_streamer.Http.Server.{closes, on_request, after_parse, on_message, sends, shuts_down, served}
use my_streamer.Web.{
  Files, type_of, not_found_file, file_response, handle_file, service_response, find_handler,
  WebCameraServer, handle_request,
}

abbrev pub file_headers : (ℕ → Text) → Text → Text → Text
file_headers show type content =
    codes "Connection: Keep-Alive\r\nContent-Length: "
    ++ (show (length content) ++ (codes "\r\nContent-Type: " ++ (type ++ codes "\r\n")))

abbrev pub file_answer : (ℕ → Text) → Text → Text → Text
file_answer show type content =
    codes "HTTP/1.1 "
    ++ (show 200
        ++ (codes " OK\r\n" ++ (file_headers show type content ++ (codes "\r\n" ++ content))))

file_handled :
    (show : ℕ → Text) (files : Files) (w : WebCameraServer) (q : HttpRequest) (r : HttpResponse)
    (content type : Text)
    → w.file_root_path ≡ w.root_path
    → files (w.root_path ++ q.path) ≡ some content
    → type_of q.path ≡ type
    → handle_request show files w q r ≡ file_response show files q.path type content r
unfolding handle_request handle_file
file_handled show files w q r content type roots f k =
    let by : Option Text → Option Text → Text → HttpResponse = λ x y u.
      if elim x [ none ↦ false | some _ ↦ true ]
      then (if elim y [ none ↦ false | some _ ↦ true ]
          then file_response show files q.path u (elim y [ none ↦ [] | some c ↦ c ]) r
          else not_found_file show files q.path r)
      else service_response show files (find_handler q.path w.function_map) q r in
    ap (λ x. by x (files (w.file_root_path ++ q.path)) (type_of q.path)) f
    ∙ ap (λ x. by (some content) x (type_of q.path)) (ap (λ x. files (x ++ q.path)) roots ∙ f)
    ∙ ap (by (some content) (some content)) k

-- A request of any method without headers, whose path behind the root names a file of the table's types
-- with something in it, gets the file: the answer is the line of status 200, the connection's header,
-- the length and the type, an empty line and the content. The connection is kept, and what stands behind
-- the request waits in the buffer. The path has no space, question mark or carriage return, nor has the
-- query a space or a carriage return, and nothing is asked of the path's points and slashes. The handler of
-- files has the server's root.
pub file_fetched :
    (show : ℕ → Text) (files : Files) (w : WebCameraServer) (time : ℕ) (m : Method) (path : Text)
    (query : Option Text) (body : Text) (c : ℕ) (content : Text) (t : ℕ) (type : Text)
    → is_invalid m ≡ false
    → IsTarget path query
    → w.file_root_path ≡ w.root_path
    → files (w.root_path ++ path) ≡ some (c ∷ content)
    → type_of path ≡ t ∷ type
    → on_message show (handle_request show files w) time (request_text m path query [] body) fresh
      ≡ some (served (sends (file_answer show (t ∷ type) (c ∷ content)) ∷ []) body fresh)
unfolding on_message on_request append_to_buffer add_header set_content_type put before equal closes
    get_header
file_fetched show files w time m path query body c content t type i h roots f k =
    let q = record (line_request m path query) { receive_time = time } in
    let response = file_response show files path (t ∷ type) (c ∷ content) (new false) in
    ap
      (λ o. elim o [
        | none ↦ none
        | some x ↦ some (after_parse show (handle_request show files w) x)
      ])
      (parse_request-text time m path query [] body i h tt)
    ∙ ap
        (λ a.
          let (r, text) = append_to_buffer show a in
          some
            (served (sends text ∷ (if r.close_connection then shuts_down ∷ [] else [])) body fresh))
        (file_handled show files w q (new false) (c ∷ content) (t ∷ type) roots f k)
