-- ===== src/Http/Tests.antt =====
-- A request in two pieces, a line that is refused, and the theorems at concrete inputs.
use my_streamer.Prelude.{ℕ, true, false, List, [], ◌∷◌, ◌++◌, some, ◌≡◌, refl, arith}
use my_streamer.Prelude.Text.{Text, codes}
use my_streamer.Prelude.Assoc.{put}
use my_streamer.Http.Request.{
  k_post, k_get, k_http11, HttpRequest, fresh_request, set_method, add_header, trim,
}
use my_streamer.Http.Response.{HttpResponse, ok, send_fast}
use my_streamer.Http.Context.{
  expect_headers, got_all, HttpContext, fresh, find_crlf, process_request_line, returns,
  parse_request, parse_loop, round, take_line, take_header,
}
use my_streamer.Http.Context.Chunks.{parse_request_resumes}
use my_streamer.Http.Context.Lacks.{is_lacking-Lacks}
use my_streamer.Http.Context.Written.{
  line_request, IsTarget, AreHeaders, stored, request_text, parse_request-text,
}
use my_streamer.Http.Server.{Message, served, crashes, bad_request, on_message}
use my_streamer.Http.Server.Served.{IsServed, on_message-IsServed}
use my_streamer.Http.Server.Refused.{refused, refused_crashes}

abbrev first_piece : Text
first_piece = codes "GET /?a HTTP/1.1\r\nHo"

abbrev second_piece : Text
second_piece = codes "st: b \r\n\r\n"

abbrev line_read : HttpRequest
line_read = record {
  method = k_get;
  version = k_http11;
  path = codes "/";
  query = codes "?a";
  receive_time = 5;
  headers = [];
}

abbrev waiting : HttpContext
waiting = record { state = expect_headers; request = line_read }

first_read : parse_request 5 first_piece fresh ≡ some (returns true (codes "Ho") waiting)
unfolding parse_request parse_loop round find_crlf take_line process_request_line set_method
first_read = refl

second_read :
    parse_request 6 (codes "Ho" ++ second_piece) waiting
    ≡ some (
        returns true [] (record {
          state = got_all;
          request = record line_read { headers = (codes "Host", codes "b") ∷ [] };
        }))
unfolding parse_request parse_loop round find_crlf take_header add_header put trim
second_read = refl

parse_request_resumes_example :
    parse_request 5 (codes "Ho" ++ second_piece) waiting
    ≡ parse_request 5 (first_piece ++ second_piece) fresh
parse_request_resumes_example =
    parse_request_resumes 5 first_piece second_piece (codes "Ho") fresh waiting refl first_read
      (ground arith)

-- a number is printed as nothing: enough for the theorems
abbrev show : ℕ → Text
show n = []

abbrev handler : HttpRequest → HttpResponse → HttpResponse
handler q r = send_fast show ok q.path r

on_message-IsServed_example :
    (m : Message) × (on_message show handler 5 (codes "GET / HTTP/1.0\r\n\r\n") fresh ≡ some m)
    × IsServed m
on_message-IsServed_example =
    on_message-IsServed show handler 5 (codes "GET / HTTP/1.0\r\n\r\n") fresh refl

abbrev half_read : HttpRequest
half_read = record fresh_request { method = k_get }

half_line : process_request_line (codes "GET /") fresh_request ≡ some (half_read, false)
unfolding process_request_line set_method
half_line = refl

half_found : find_crlf (codes "GET /\r\n") ≡ some (codes "GET /", [])
unfolding find_crlf
half_found = refl

refused_crashes_example :
    (on_message show handler 5 (codes "GET /\r\n") fresh
      ≡ some (served bad_request (codes "GET /\r\n") (refused half_read)))
    × (on_message show handler 6 (codes "GET /\r\n" ++ codes "x") (refused half_read)
        ≡ some crashes)
refused_crashes_example =
    refused_crashes show handler 5 6 (codes "GET /\r\n") (codes "x") (codes "GET /") [] half_read
      half_found half_line refl

abbrev two_headers : List (Text × Text)
two_headers = (codes "Host", codes " b ") ∷ (codes "Accept", codes "*/*") ∷ []

config-IsTarget : IsTarget (codes "/camera/config") (some (codes "a=1"))
config-IsTarget = (
  (
    is_lacking-Lacks b' ' (codes "/camera/config") refl,
    is_lacking-Lacks b'?' (codes "/camera/config") refl,
    is_lacking-Lacks b'\r' (codes "/camera/config") refl,
  ),
  is_lacking-Lacks b' ' (codes "a=1") refl,
  is_lacking-Lacks b'\r' (codes "a=1") refl,
)

two_headers-AreHeaders : AreHeaders two_headers
two_headers-AreHeaders = (
  (
    is_lacking-Lacks b':' (codes "Host") refl,
    is_lacking-Lacks b'\r' (codes "Host") refl,
    is_lacking-Lacks b'\r' (codes " b ") refl,
  ),
  (
    (
      is_lacking-Lacks b':' (codes "Accept") refl,
      is_lacking-Lacks b'\r' (codes "Accept") refl,
      is_lacking-Lacks b'\r' (codes "*/*") refl,
    ),
    tt,
  ),
)

parse_request-text_example :
    parse_request 7
      (request_text k_post (codes "/camera/config") (some (codes "a=1")) two_headers (codes "{}"))
      fresh
    ≡ some (
        returns true (codes "{}") (record {
          state = got_all;
          request =
              stored two_headers
                (record (line_request k_post (codes "/camera/config") (some (codes "a=1"))) {
                  receive_time = 7;
                });
        }))
parse_request-text_example =
    parse_request-text 7 k_post (codes "/camera/config") (some (codes "a=1")) two_headers
      (codes "{}") refl config-IsTarget two_headers-AreHeaders
