-- ===== src/Web/Tests.antt =====
-- Requests to a small server, and the theorems at them.
use my_streamer.Prelude.{
  ℕ, true, false, not, ◌&&◌, [], ◌∷◌, none, some, if◌then◌else◌, ◌≡◌, refl, replicate,
}
use my_streamer.Prelude.Text.{Text, codes, equal}
use my_streamer.Http.Request.{HttpRequest, k_get, k_delete, fresh_request}
use my_streamer.Http.Response.{new, ok, not_found}
use my_streamer.Http.Context.{fresh}
use my_streamer.Http.Context.Lacks.{is_lacking-Lacks}
use my_streamer.Http.Context.Written.{IsTarget, request_text}
use my_streamer.Http.Server.{on_message, sends, served}
use my_streamer.Web.{
  Files, file_exiting, get_file_type, type_of, handle_file, Handler, WebCameraServer,
  new_web_camera_server, set_root_path, add_handler, handle_request, uri_of,
}
use my_streamer.Web.Dispatch.{handle_request-add_handler, Answered, handle_request-Answered}
use my_streamer.Web.Fetch.{file_answer, file_fetched}
use my_streamer.Web.Uris.{IsUri, uri_of-IsUri}

abbrev show : ℕ → Text
show n = replicate n b'1'

-- Two files: one under the root "web", one beside it.
abbrev files : Files
files name =
    if equal name (codes "web/index.html")
    then some (codes "<p>")
    else if equal name (codes "web/../notes.txt")
    then some (codes "s")
    else none

abbrev stop : Handler
stop q r = record r { status_code = ok; body = codes "stopped" }

abbrev server : WebCameraServer
server = new_web_camera_server (codes "web")

abbrev asks : Text → HttpRequest
asks path = record fresh_request { method = k_get; path = path }

type_of_last : get_file_type (codes "/a.b/c.tar.gz") ≡ codes ".gz"
unfolding get_file_type
type_of_last = refl

no_type : get_file_type (codes ".html") ≡ []
unfolding get_file_type
no_type = refl

uri_shortened : uri_of (codes "camera//") ≡ codes "/camera"
unfolding uri_of
uri_shortened = refl

uri_empty : uri_of [] ≡ codes "/"
unfolding uri_of
uri_empty = refl

-- With a root that is set later, the file is found under it and read under the old one.
root_split :
    (handle_request show files
      (set_root_path (codes "web") (new_web_camera_server (codes "old")))
      (asks (codes "/index.html"))
      (new false)).status_code
    ≡ not_found
unfolding handle_request handle_file my_streamer.Web.not_found_file
root_split = refl

handle_request-add_handler_example :
    handle_request show files
      (add_handler (codes "/stop") stop server)
      (asks (codes "/stop"))
      (new true)
    ≡ (if not (file_exiting files (codes "web/stop")) && equal (codes "/stop") (codes "/stop")
        then stop (asks (codes "/stop")) (new true)
        else handle_request show files server (asks (codes "/stop")) (new true))
handle_request-add_handler_example =
    handle_request-add_handler show files server (codes "/stop") stop (asks (codes "/stop"))
      (new true)

handle_request-Answered_case :
    Answered files server
      (asks (codes "/index.html"))
      (new false)
      (handle_request show files server (asks (codes "/index.html")) (new false))
handle_request-Answered_case =
    handle_request-Answered show files server (asks (codes "/index.html")) (new false) refl

notes-IsTarget : IsTarget (codes "/../notes.txt") none
notes-IsTarget = (
  is_lacking-Lacks b' ' (codes "/../notes.txt") refl,
  is_lacking-Lacks b'?' (codes "/../notes.txt") refl,
  is_lacking-Lacks b'\r' (codes "/../notes.txt") refl,
)

-- The path leads out of the root.
file_fetched_example :
    on_message show
      (handle_request show files server)
      5
      (request_text k_delete (codes "/../notes.txt") none [] (codes "GET"))
      fresh
    ≡ some (
        served (sends (file_answer show (codes "text/plain") (codes "s")) ∷ []) (codes "GET") fresh)
unfolding equal type_of
file_fetched_example =
    file_fetched show files server 5 k_delete (codes "/../notes.txt") none (codes "GET") b's' []
      b't' (codes "ext/plain") refl notes-IsTarget refl refl refl

uri_of-IsUri_case :
    IsUri (uri_of (codes "camera//"))
    × (IsUri (codes "camera//") → uri_of (codes "camera//") ≡ codes "camera//")
uri_of-IsUri_case = uri_of-IsUri (codes "camera//")
