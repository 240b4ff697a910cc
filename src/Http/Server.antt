-- ===== src/Http/Server.antt =====
-- network/http/net_http_server.cpp: what the server does with a message on a connection. The callback
-- is a parameter, and so is the decimal printing of the response.
pub mod Served
pub mod Refused
use my_streamer.Prelude.{
  ℕ, Bool, true, false, not, ◌&&◌, ◌||◌, List, [], ◌∷◌, ◌++◌, Option, none, some, if◌then◌else◌,
}
use my_streamer.Prelude.Text.{Text, codes, equal}
use my_streamer.Http.Request.{Version, k_http10, HttpRequest, get_header}
use my_streamer.Http.Response.{HttpResponse, new, append_to_buffer}
use my_streamer.Http.Context.{
  HttpRequestParseState, got_all, HttpContext, fresh, Outcome, returns, asserts, parse_request,
}

-- the calls of the connection
pub data Event : Type 0 where
  sends : Text → Event
  shuts_down : Event

abbrev pub is_got_all : HttpRequestParseState → Bool
is_got_all got_all = true
is_got_all _ = false

abbrev pub is_http10 : Version → Bool
is_http10 k_http10 = true
is_http10 _ = false

unfoldable pub closes : HttpRequest → Bool
closes q =
    let connection = get_header (codes "Connection") q.headers in
    equal connection (codes "close")
    || (is_http10 q.version && not (equal connection (codes "Keep-Alive")))

abbrev pub bad_request : List Event
bad_request = sends (codes "HTTP/1.1 400 Bad Request\r\n\r\n") ∷ shuts_down ∷ []

-- What a message comes to: the calls of the connection, what is left of its buffer, and its context; or
-- the failed assertion.
pub data Message : Type 0 where
  served : List Event → Text → HttpContext → Message
  crashes : Message

module _ (show : ℕ → Text) (http_callback : HttpRequest → HttpResponse → HttpResponse) where
  unfoldable pub on_request : HttpRequest → List Event
  unfolding closes
  on_request q =
      let (r, text) = append_to_buffer show (http_callback q (new (closes q))) in
      sends text ∷ (if r.close_connection then shuts_down ∷ [] else [])

  abbrev pub after_parse : Outcome → Message
  after_parse asserts = crashes
  after_parse (returns ok rest d) =
      served
        ((if ok then [] else bad_request)
          ++ (if is_got_all d.state then on_request d.request else []))
        rest (if is_got_all d.state then fresh else d)

  -- The buffer holds what was left and what has come.
  unfoldable pub on_message : ℕ → Text → HttpContext → Option Message
  on_message time buf c = elim (parse_request time buf c) [
    | none ↦ none
    | some o ↦ some (after_parse o)
  ]
