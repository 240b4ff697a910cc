-- ===== src/Http/Context.antt =====
-- network/http/net_http_context.h and net_http_context.cpp: the parser of requests, which is called
-- again when more bytes have come. The buffer is the list of its readable bytes.
pub mod Extends
pub mod Rounds
pub mod Chunks
pub mod Lacks
pub mod Written
use my_streamer.Prelude.{
  ℕ, zero, suc, Bool, true, false, not, ◌&&◌, List, [], ◌∷◌, ◌++◌, Option, none, some, ◌==◌,
  if◌then◌else◌, length, get_elem?,
}
use my_streamer.Prelude.Text.{Text, codes, equal}
use my_streamer.Http.Request.{
  Version, k_unknown, k_http10, k_http11, HttpRequest, fresh_request, is_invalid, set_method,
  add_header,
}

pub data HttpRequestParseState : Type 0 where
  expect_request_line expect_headers expect_body got_all : HttpRequestParseState

pub record HttpContext : Type 0 where
  pub state : HttpRequestParseState
  pub request : HttpRequest

-- The constructor, and what `reset` leaves.
abbrev pub fresh : HttpContext
fresh = record { state = expect_request_line; request = fresh_request }

-- `findCRLF`: the first line and what stands behind its end
unfoldable pub find_crlf : Text → Option (Text × Text)
find_crlf [] = none
find_crlf (c ∷ []) = none
find_crlf (c ∷ d ∷ t) =
    if c == b'\r' && (d == b'\n')
    then some ([], t)
    else elim (find_crlf (d ∷ t)) [ none ↦ none | some (l, r) ↦ some (c ∷ l, r) ]

-- `std::find`: what stands before the first `c`, and the text from there on, empty where there is none
unfoldable pub find : ℕ → Text → Text × Text
find c [] = ([], [])
find c (d ∷ t) = if d == c then ([], d ∷ t) else (let (a, r) = find c t in (d ∷ a, r))

-- The query keeps its question mark.
abbrev pub aimed : Text → Text → HttpRequest → HttpRequest
aimed path [] q = record q { path = path }
aimed path (question ∷ query) q = record q { path = path; query = question ∷ query }

unfoldable pub set_target : Text → HttpRequest → HttpRequest
unfolding find
set_target t q = let (path, query) = find b'?' t in aimed path query q

-- the version, behind the second space
unfoldable pub set_version : Text → HttpRequest → HttpRequest × Bool
unfolding equal
set_version t q =
    if equal t (codes "HTTP/1.1")
    then (record q { version = k_http11 }, true)
    else if equal t (codes "HTTP/1.0")
    then (record q { version = k_http10 }, true)
    else (q, false)

-- the target, and what stands behind it from the second space on
abbrev pub aimed_at : Text → Text → HttpRequest → HttpRequest × Bool
aimed_at target [] q = (q, false)
aimed_at target (space ∷ version) q = set_version version (set_target target q)

unfoldable pub target_and_version : Text → HttpRequest → HttpRequest × Bool
unfolding find set_target set_version
target_and_version t q = let (target, behind) = find b' ' t in aimed_at target behind q

-- the method, and what stands behind it from the first space on
abbrev pub with_method : Text → Text → HttpRequest → Option (HttpRequest × Bool)
with_method m [] q = some (q, false)
with_method m (space ∷ rest) q = elim (set_method m q) [
  | none ↦ none
  | some p ↦ if is_invalid p.method then some (p, false) else some (target_and_version rest p)
]

-- The request is changed also where the line is refused. `none` is the failed assertion.
unfoldable pub process_request_line : Text → HttpRequest → Option (HttpRequest × Bool)
unfolding find target_and_version
process_request_line line q = let (m, behind) = find b' ' line in with_method m behind q

-- What one round of the loop comes to: it ends the loop, goes on with what is left of the buffer, or
-- fails the assertion.
pub data Round : Type 0 where
  done : Bool → Text → HttpContext → Round
  again : Text → HttpContext → Round
  aborts : Round

-- behind a request line: what stands behind it, the whole buffer, and what the line comes to
abbrev pub verdict : ℕ → Text → Text → Option (HttpRequest × Bool) → Round
verdict time rest buf none = aborts
verdict time rest buf (some (p, true)) =
    again rest (record { state = expect_headers; request = record p { receive_time = time } })
verdict time rest buf (some (p, false)) =
    done false buf (record { state = expect_request_line; request = p })

unfoldable pub take_line : ℕ → Text → Text → Text → HttpRequest → Round
take_line time line rest buf q = verdict time rest buf (process_request_line line q)

unfoldable pub line_round : ℕ → Text → HttpRequest → Round
line_round time buf q = elim (find_crlf buf) [
  | none ↦ done true buf (record { state = expect_request_line; request = q })
  | some (line, rest) ↦ take_line time line rest buf q
]

-- A line without a colon ends the headers.
abbrev pub header_of : Text → Text → Text → HttpRequest → Round
header_of field [] rest q = done true rest (record { state = got_all; request = q })
header_of field (colon ∷ value) rest q =
    again rest (record { state = expect_headers; request = add_header field value q })

unfoldable pub take_header : Text → Text → HttpRequest → Round
unfolding find
take_header line rest q = let (field, behind) = find b':' line in header_of field behind rest q

unfoldable pub header_round : Text → HttpRequest → Round
header_round buf q = elim (find_crlf buf) [
  | none ↦ done true buf (record { state = expect_headers; request = q })
  | some (line, rest) ↦ take_header line rest q
]

-- In the last two states the loop changes nothing and does not end.
unfoldable pub round : ℕ → Text → HttpContext → Round
unfolding line_round header_round
round time buf c = elim c.state [
  | expect_request_line ↦ line_round time buf c.request
  | expect_headers ↦ header_round buf c.request
  | expect_body ↦ again buf c
  | got_all ↦ again buf c
]

-- What a call comes to: `ok`, what is left of the buffer, and the context; or the failed assertion.
pub data Outcome : Type 0 where
  returns : Bool → Text → HttpContext → Outcome
  asserts : Outcome

unfoldable pub parse_loop : ℕ → ℕ → Text → HttpContext → Option Outcome
parse_loop zero time buf c = none
parse_loop (suc n) time buf c = elim (round time buf c) [
  | done ok b d ↦ some (returns ok b d)
  | again b d ↦ parse_loop n time b d
  | aborts ↦ some asserts
]

-- Each round that goes on takes a line from the buffer, so one round more than bytes is enough.
unfoldable pub parse_request : ℕ → Text → HttpContext → Option Outcome
parse_request time buf c = parse_loop (suc (length buf)) time buf c
