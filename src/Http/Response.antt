-- ===== src/Http/Response.antt =====
-- network/http/net_http_response.h and net_http_response.cpp: what a handler fills in. The decimal
-- printing of the C++ library is a parameter where it is used.
use my_streamer.Prelude.{ℕ, Bool, [], ◌∷◌, ◌++◌, if◌then◌else◌, length}
use my_streamer.Prelude.Text.{Text, codes}
use my_streamer.Prelude.Assoc.{Map, put}

-- `HttpStatusCode`
pub data StatusCode : Type 0 where
  unknown ok moved_permanently bad_request not_found method_not_allowed server_error : StatusCode

abbrev pub number_of : StatusCode → ℕ
number_of unknown = 0
number_of ok = 200
number_of moved_permanently = 301
number_of bad_request = 400
number_of not_found = 404
number_of method_not_allowed = 405
number_of server_error = 500

-- `state_map`
abbrev pub state_map : StatusCode → Text
state_map unknown = codes "Unkown error"
state_map ok = codes "OK"
state_map moved_permanently = codes "301 Moved Permanently"
state_map bad_request = codes "400 Bad Request"
state_map not_found = codes "404 Not Found"
state_map method_not_allowed = codes "405 Method Not Allowed"
state_map server_error = codes "500 Server Error"

pub record HttpResponse : Type 0 where
  pub headers : Map
  pub status_code : StatusCode
  pub status_message : Text
  pub close_connection : Bool
  pub body : Text
  pub external_header : Text

-- The constructor.
abbrev pub new : Bool → HttpResponse
new close = record {
  headers = [];
  status_code = unknown;
  status_message = [];
  close_connection = close;
  body = [];
  external_header = [];
}

unfoldable pub add_header : Text → Text → HttpResponse → HttpResponse
add_header key value r = record r { headers = put key value r.headers }

unfoldable pub set_content_type : Text → HttpResponse → HttpResponse
unfolding add_header
set_content_type t r = add_header (codes "Content-Type") t r

-- The lines of the headers, in the order of the map.
abbrev pub header_lines : Map → Text
header_lines [] = []
header_lines ((k, v) ∷ m) = k ++ (codes ": " ++ (v ++ (codes "\r\n" ++ header_lines m)))

module _ (show : ℕ → Text) where
  unfoldable pub send_fast : StatusCode → Text → HttpResponse → HttpResponse
  unfolding add_header
  send_fast code text r =
      add_header (codes "Content-Length") (show (length text))
        (record r { status_code = code; status_message = state_map code; body = text })

  -- The `Connection` header is added to the response itself.
  unfoldable pub append_to_buffer : HttpResponse → HttpResponse × Text
  unfolding add_header
  append_to_buffer r =
      let q =
        add_header (codes "Connection")
          (if r.close_connection then codes "close" else codes "Keep-Alive") r in
      (
        q,
        codes "HTTP/1.1 "
            ++ (show (number_of r.status_code)
                ++ (b' '
                    ∷ (r.status_message
                        ++ (codes "\r\n"
                            ++ (header_lines q.headers
                                ++ (r.external_header ++ (codes "\r\n" ++ r.body))))))),
      )
