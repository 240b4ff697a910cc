-- ===== src/Web.antt =====
-- webcamera/web_camera_server.h and .cpp, file_request_handler.cpp and the constructor of
-- web_request_handler.cpp, with the functions on files of base/base_tool.cpp: which handler answers a
-- request. The files are a parameter: what a name that can be opened reads as, which is nothing for a
-- directory.
pub mod Dispatch
pub mod Fetch
pub mod Uris
mod Tests
use my_streamer.Prelude.{
  ℕ, Bool, true, false, List, [], ◌∷◌, ◌++◌, Option, none, some, ◌==◌, if◌then◌else◌, length,
}
use my_streamer.Prelude.Text.{Text, codes, equal}
use my_streamer.Prelude.Assoc.{Map, lookup}
use my_streamer.Http.Request.{HttpRequest}
use my_streamer.Http.Response.{HttpResponse, ok, not_found, add_header, set_content_type, send_fast}

-- `HttpResponse::file_type`
abbrev pub file_type : Map
file_type =
    (codes ".html", codes "text/html")
    ∷ (codes ".css", codes "text/css")
    ∷ (codes ".js", codes "application/x-javascript")
    ∷ (codes ".avi", codes "video/x-msvideo")
    ∷ (codes ".bmp", codes "image/bmp")
    ∷ (codes ".c", codes "text/plain")
    ∷ (codes ".doc", codes "application/msword")
    ∷ (codes ".gif", codes "image/gif")
    ∷ (codes ".gz", codes "application/x-gzip")
    ∷ (codes ".htm", codes "text/html")
    ∷ (codes ".ico", codes "image/x-icon")
    ∷ (codes ".jpg", codes "image/jpeg")
    ∷ (codes ".png", codes "image/png")
    ∷ (codes ".txt", codes "text/plain")
    ∷ (codes ".mp3", codes "audio/mp3")
    ∷ (codes "default", codes "text/html")
    ∷ []

-- `rfind(".")`, as the text from there on
unfoldable pub from_last_dot : Text → Option Text
from_last_dot [] = none
from_last_dot (c ∷ t) = elim (from_last_dot t) [
  | none ↦ if c == b'.' then some (c ∷ t) else none
  | some s ↦ some s
]

-- A name whose only point is its first character has no type.
unfoldable pub get_file_type : Text → Text
unfolding from_last_dot
get_file_type [] = []
get_file_type (c ∷ t) = elim (from_last_dot t) [ none ↦ [] | some s ↦ s ]

abbrev pub Files : Type 0
Files = Text → Option Text

abbrev pub file_exiting : Files → Text → Bool
file_exiting files name = elim (files name) [ none ↦ false | some _ ↦ true ]

abbrev pub read_file : Files → Text → Text
read_file files name = elim (files name) [ none ↦ [] | some t ↦ t ]

-- the type in the table, or an empty text
unfoldable pub type_of : Text → Text
unfolding get_file_type lookup
type_of path = elim (lookup (get_file_type path) file_type) [ none ↦ [] | some t ↦ t ]

module _ (show : ℕ → Text) (files : Files) where
  unfoldable pub not_found_file : Text → HttpResponse → HttpResponse
  unfolding send_fast
  not_found_file path r =
      send_fast show not_found (codes " :(  Not Found File:" ++ (path ++ codes " .")) r

  -- by the type, and by what is read
  abbrev pub file_response : Text → Text → Text → HttpResponse → HttpResponse
  file_response path [] content r = not_found_file path r
  file_response path (t ∷ ts) [] r = not_found_file path r
  file_response path (t ∷ ts) (c ∷ cs) r =
      let shown =
        set_content_type (t ∷ ts) (record r { status_code = ok; status_message = codes "OK" }) in
      add_header (codes "Content-Length") (show (length (c ∷ cs))) (record shown { body = c ∷ cs })

  -- FileRequestHandler::HandleHttpRequest, with its root
  unfoldable pub handle_file : Text → HttpRequest → HttpResponse → HttpResponse
  unfolding type_of
  handle_file root q r =
      if file_exiting files (root ++ q.path)
      then file_response q.path (type_of q.path) (read_file files (root ++ q.path)) r
      else not_found_file q.path r

-- a handler of requests, on the data of this moment
abbrev pub Handler : Type 0
Handler = HttpRequest → HttpResponse → HttpResponse

-- The handler of files has a root of its own.
pub record WebCameraServer : Type 0 where
  pub function_map : List (Text × Handler)
  pub root_path : Text
  pub file_root_path : Text

-- The constructor.
abbrev pub new_web_camera_server : Text → WebCameraServer
new_web_camera_server path = record { function_map = []; root_path = path; file_root_path = path }

abbrev pub set_root_path : Text → WebCameraServer → WebCameraServer
set_root_path new_path w = record w { root_path = new_path }

-- `map[name] = handler`; the order is of no account.
unfoldable pub assign : Text → Handler → List (Text × Handler) → List (Text × Handler)
unfolding equal
assign name h [] = (name, h) ∷ []
assign name h ((n, k) ∷ m) = if equal name n then (n, h) ∷ m else (n, k) ∷ assign name h m

unfoldable pub find_handler : Text → List (Text × Handler) → Option Handler
unfolding equal
find_handler name [] = none
find_handler name ((n, k) ∷ m) = if equal name n then some k else find_handler name m

unfoldable pub add_handler : Text → Handler → WebCameraServer → WebCameraServer
unfolding assign
add_handler name h w = record w { function_map = assign name h w.function_map }

module _ (show : ℕ → Text) (files : Files) where
  -- the answer where no file has the name
  abbrev pub service_response : Option Handler → HttpRequest → HttpResponse → HttpResponse
  service_response none q r =
      record (send_fast show not_found (codes "Not found request service ") r) {
        close_connection = true;
      }
  service_response (some h) q r = h q r

  -- onRequest
  unfoldable pub handle_request : WebCameraServer → HttpRequest → HttpResponse → HttpResponse
  unfolding handle_file find_handler
  handle_request w q r =
      if file_exiting files (w.root_path ++ q.path)
      then handle_file show files w.file_root_path q r
      else service_response (find_handler q.path w.function_map) q r

-- the slashes at the end, where something stands before them
unfoldable pub drop_last_slashes : Text → Text
drop_last_slashes [] = []
drop_last_slashes (c ∷ t) = elim (drop_last_slashes t) [
  | [] ↦ if c == b'/' then [] else c ∷ []
  | d ∷ r ↦ c ∷ d ∷ r
]

-- WebRequestHandlerInterface: what is left of the address
abbrev pub with_slash : Text → Text
with_slash [] = b'/' ∷ []
with_slash (c ∷ t) = if c == b'/' then c ∷ t else b'/' ∷ c ∷ t

abbrev pub shorten : Text → Text
shorten [] = []
shorten (c ∷ t) = c ∷ drop_last_slashes t

unfoldable pub uri_of : Text → Text
unfolding drop_last_slashes
uri_of uri = shorten (with_slash uri)
