-- ===== src/Http/Server/Refused.antt =====
-- A request line that is refused stays in the buffer, and its method in the context.
use my_streamer.Prelude.{
  ℕ, Bool, true, false, [], ◌∷◌, ◌++◌, Option, none, some, length, ◌≡◌, refl, sym, ap, ◌∙◌,
}
use mathlib.Core.Option.{some-injective}
use my_streamer.Prelude.Text.{Text}
use my_streamer.Http.Request.{HttpRequest, fresh_request, is_invalid, set_method}
use my_streamer.Http.Response.{HttpResponse}
use my_streamer.Http.Context.{
  expect_request_line, HttpContext, fresh, find_crlf, find, with_method, process_request_line,
  take_line, verdict, line_round, round, returns, asserts, parse_request,
}
use my_streamer.Http.Context.Extends.{find_crlf-append}
use my_streamer.Http.Context.Rounds.{parse_loop-done, parse_loop-aborts}
use my_streamer.Http.Server.{bad_request, served, crashes, on_message}

line_without_space :
    (line : Text) (q : HttpRequest)
    → (find b' ' line).1 ≡ []
    → process_request_line line q ≡ some (q, false)
unfolding process_request_line
line_without_space line q e = ap (λ t. with_method (find b' ' line).0 t q) e

-- once a method is set, a line with a space fails the assertion
line_again :
    (line : Text) (q p : HttpRequest)
    → process_request_line line q ≡ some (p, false)
    → is_invalid q.method ≡ true
    → is_invalid p.method ≡ false
    → process_request_line line p ≡ none
unfolding process_request_line set_method
line_again line q p h i v = go (find b' ' line).1 refl
  where
    go : (t : Text) → (find b' ' line).1 ≡ t → process_request_line line p ≡ none
    go [] e =
        let same : q ≡ p =
          ap (λ x. x.0) (some-injective _ _ (sym (line_without_space line q e) ∙ h)) in
        absurd (cc (i, v, ap (λ (x : HttpRequest). is_invalid x.method) same))
    go (s ∷ t) e = ap (λ x. with_method (find b' ' line).0 x p) e ∙ rw (v, with_method) refl

abbrev pub refused : HttpRequest → HttpContext
refused p = record { state = expect_request_line; request = p }

take_line_by :
    (time : ℕ) (buf line rest : Text) (q : HttpRequest) (v : Option (HttpRequest × Bool))
    → find_crlf buf ≡ some (line, rest)
    → process_request_line line q ≡ v
    → round time buf (refused q) ≡ verdict time rest buf v
unfolding round take_line
take_line_by time buf line rest q v f h = rw (f, line_round) (rw h refl)

first_parse :
    (time : ℕ) (buf line rest : Text) (p : HttpRequest)
    → find_crlf buf ≡ some (line, rest)
    → process_request_line line fresh_request ≡ some (p, false)
    → parse_request time buf fresh ≡ some (returns false buf (refused p))
unfolding parse_request
first_parse time buf line rest p f h =
    parse_loop-done time (length buf) buf fresh false buf (refused p)
      (take_line_by time buf line rest fresh_request (some (p, false)) f h)

second_parse :
    (time : ℕ) (buf line rest : Text) (p : HttpRequest)
    → find_crlf buf ≡ some (line, rest)
    → process_request_line line p ≡ none
    → parse_request time buf (refused p) ≡ some asserts
unfolding parse_request
second_parse time buf line rest p f h =
    parse_loop-aborts time (length buf) buf (refused p) (take_line_by time buf line rest p none f h)

-- Where the first line of a new connection is refused although it begins with a known method, the
-- server answers by an error and shuts its side down. Whatever bytes come on the connection then, the
-- line is read again and the assertion on the method fails.
pub refused_crashes :
    (show : ℕ → Text) (http_callback : HttpRequest → HttpResponse → HttpResponse) (time later : ℕ)
    (buf more line rest : Text) (p : HttpRequest)
    → find_crlf buf ≡ some (line, rest)
    → process_request_line line fresh_request ≡ some (p, false)
    → is_invalid p.method ≡ false
    → (on_message show http_callback time buf fresh ≡ some (served bad_request buf (refused p)))
      × (on_message show http_callback later (buf ++ more) (refused p) ≡ some crashes)
unfolding on_message
refused_crashes show http_callback time later buf more line rest p f h v = (
  rw (first_parse time buf line rest p f h, on_message) refl,
  rw
      (
        second_parse later (buf ++ more) line (rest ++ more) p
            (find_crlf-append buf more line rest f) (line_again line fresh_request p h refl v),
        on_message,
      )
      refl,
)
