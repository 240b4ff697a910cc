-- ===== src/Http/Context/Written.antt =====
-- A request as a client writes it is read as it was meant.
use my_streamer.Prelude.{
  ℕ, zero, suc, true, false, List, [], ◌∷◌, ◌++◌, Option, none, some, length, length-append,
  append-nil, ◌≡◌, ◌<◌, refl, ap, ◌∙◌, arith,
}
use my_streamer.Prelude.Text.{Text, codes}
use my_streamer.Http.Request.{
  Method, k_invalid, k_get, k_post, k_head, k_put, k_delete, k_http11, HttpRequest, fresh_request,
  is_invalid, set_method, add_header, method_string,
}
use my_streamer.Http.Context.{
  expect_headers, got_all, fresh, find_crlf, find, set_target, aimed, aimed_at, set_version,
  target_and_version, process_request_line, verdict, take_line, header_of, take_header, line_round,
  header_round, round, returns, again, done, parse_loop, parse_request,
}
use my_streamer.Http.Context.Rounds.{parse_loop-done, parse_loop-again}
use my_streamer.Http.Context.Lacks.{
  Lacks, is_lacking-Lacks, find-Lacks, find-Lacks_all, find_crlf-Lacks, Lacks-append,
}

-- the query as it is written
abbrev pub query_text : Option Text → Text
query_text none = []
query_text (some a) = b'?' ∷ a

abbrev pub IsTarget : Text → Option Text → Type 0
IsTarget path none = Lacks b' ' path × Lacks b'?' path × Lacks b'\r' path
IsTarget path (some a) =
    (Lacks b' ' path × Lacks b'?' path × Lacks b'\r' path) × Lacks b' ' a × Lacks b'\r' a

abbrev target_text : Text → Option Text → Text
target_text path query = path ++ query_text query

set_target-text :
    (path : Text) (query : Option Text) (q : HttpRequest)
    → Lacks b'?' path
    → q.query ≡ []
    → set_target (target_text path query) q ≡ record q { path = path; query = query_text query }
unfolding set_target
set_target-text path none q h e =
    ap (λ (x : Text × Text). aimed x.0 x.1 q)
      (ap (find b'?') (append-nil path) ∙ find-Lacks_all b'?' path h)
    ∙ ap (λ x. record q { path = path; query = x }) e
set_target-text path (some a) q h e =
    ap (λ (x : Text × Text). aimed x.0 x.1 q) (find-Lacks b'?' path a refl h)

abbrev pub line_text : Method → Text → Option Text → Text
line_text m path query = method_string m ++ (b' ' ∷ (target_text path query ++ codes " HTTP/1.1"))

-- the request that the line gives
abbrev pub line_request : Method → Text → Option Text → HttpRequest
line_request m path query = record fresh_request {
  method = m;
  version = k_http11;
  path = path;
  query = query_text query;
}

IsTarget-path : (path : Text) (query : Option Text) → IsTarget path query → Lacks b'?' path
IsTarget-path path none h = h.1
IsTarget-path path (some a) h = h.0.1

target_text-spaces :
    (path : Text) (query : Option Text) → IsTarget path query → Lacks b' ' (target_text path query)
target_text-spaces path none h = Lacks-append b' ' path [] h.0 tt
target_text-spaces path (some a) h = Lacks-append b' ' path (b'?' ∷ a) h.0.0 (refl, h.1)

target_text-ends :
    (path : Text) (query : Option Text) → IsTarget path query → Lacks b'\r' (target_text path query)
target_text-ends path none h = Lacks-append b'\r' path [] h.2 tt
target_text-ends path (some a) h = Lacks-append b'\r' path (b'?' ∷ a) h.0.2 (refl, h.2)

target_and_version-text :
    (path : Text) (query : Option Text) (q : HttpRequest)
    → IsTarget path query
    → q.query ≡ []
    → target_and_version (target_text path query ++ codes " HTTP/1.1") q
      ≡ (record q { path = path; query = query_text query; version = k_http11 }, true)
unfolding target_and_version set_version
target_and_version-text path query q h e =
    ap (λ (x : Text × Text). aimed_at x.0 x.1 q)
      (find-Lacks b' ' (target_text path query) (codes "HTTP/1.1") refl
        (target_text-spaces path query h))
    ∙ ap (λ (p : HttpRequest). (record p { version = k_http11 }, true))
        (set_target-text path query q (IsTarget-path path query h) e)

process_request_line-text :
    (m : Method) (path : Text) (query : Option Text)
    → is_invalid m ≡ false
    → IsTarget path query
    → process_request_line (line_text m path query) fresh_request
      ≡ some (line_request m path query, true)
unfolding process_request_line set_method method_string
process_request_line-text k_invalid path query i h = absurd (cc i)
process_request_line-text k_get path query i h =
    ap some (target_and_version-text path query (record fresh_request { method = k_get }) h refl)
process_request_line-text k_post path query i h =
    ap some (target_and_version-text path query (record fresh_request { method = k_post }) h refl)
process_request_line-text k_head path query i h =
    ap some (target_and_version-text path query (record fresh_request { method = k_head }) h refl)
process_request_line-text k_put path query i h =
    ap some (target_and_version-text path query (record fresh_request { method = k_put }) h refl)
process_request_line-text k_delete path query i h =
    ap some (target_and_version-text path query (record fresh_request { method = k_delete }) h refl)

method_string-ends : (m : Method) → Lacks b'\r' (method_string m)
unfolding method_string
method_string-ends k_invalid = is_lacking-Lacks b'\r' (codes "UNKNOWN") refl
method_string-ends k_get = is_lacking-Lacks b'\r' (codes "GET") refl
method_string-ends k_post = is_lacking-Lacks b'\r' (codes "POST") refl
method_string-ends k_head = is_lacking-Lacks b'\r' (codes "HEAD") refl
method_string-ends k_put = is_lacking-Lacks b'\r' (codes "PUT") refl
method_string-ends k_delete = is_lacking-Lacks b'\r' (codes "DELETE") refl

line_text-ends :
    (m : Method) (path : Text) (query : Option Text)
    → IsTarget path query
    → Lacks b'\r' (line_text m path query)
line_text-ends m path query h =
    Lacks-append b'\r' (method_string m) (b' ' ∷ (target_text path query ++ codes " HTTP/1.1"))
      (method_string-ends m)
      (
        refl,
        Lacks-append b'\r' (target_text path query) (codes " HTTP/1.1")
            (target_text-ends path query h) (is_lacking-Lacks b'\r' (codes " HTTP/1.1") refl),
      )

-- The headers with their end, and what stands behind it.
abbrev pub headers_text : List (Text × Text) → Text → Text
headers_text [] body = codes "\r\n" ++ body
headers_text ((k, v) ∷ r) body = (k ++ b':' ∷ v) ++ (codes "\r\n" ++ headers_text r body)

abbrev pub AreHeaders : List (Text × Text) → Type 0
AreHeaders [] = Unit
AreHeaders ((k, v) ∷ r) = (Lacks b':' k × Lacks b'\r' k × Lacks b'\r' v) × AreHeaders r

abbrev pub stored : List (Text × Text) → HttpRequest → HttpRequest
stored [] q = q
stored ((k, v) ∷ r) q = stored r (add_header k v q)

header_round_by :
    (buf line rest : Text) (q : HttpRequest)
    → find_crlf buf ≡ some (line, rest)
    → header_round buf q ≡ take_header line rest q
unfolding header_round
header_round_by buf line rest q f = rw (f, header_round) refl

header_round-text :
    (k v rest : Text) (q : HttpRequest)
    → Lacks b':' k
    → Lacks b'\r' k
    → Lacks b'\r' v
    → header_round ((k ++ b':' ∷ v) ++ (codes "\r\n" ++ rest)) q
      ≡ again rest (record { state = expect_headers; request = add_header k v q })
unfolding take_header
header_round-text k v rest q c h g =
    header_round_by ((k ++ b':' ∷ v) ++ (codes "\r\n" ++ rest)) (k ++ b':' ∷ v) rest q
      (find_crlf-Lacks (k ++ b':' ∷ v) rest (Lacks-append b'\r' k (b':' ∷ v) h (refl, g)))
    ∙ ap (λ (x : Text × Text). header_of x.0 x.1 rest q) (find-Lacks b':' k v refl c)

header_round-end :
    (body : Text) (q : HttpRequest)
    → header_round (codes "\r\n" ++ body) q
      ≡ done true body (record { state = got_all; request = q })
unfolding take_header
header_round-end body q =
    header_round_by (codes "\r\n" ++ body) [] body q (find_crlf-Lacks [] body tt)

-- the loop on the headers and their end
headers_read :
    (time n : ℕ) (hs : List (Text × Text)) (body : Text) (q : HttpRequest)
    → AreHeaders hs
    → length (headers_text hs body) < n
    → parse_loop n time (headers_text hs body) (record { state = expect_headers; request = q })
      ≡ some (returns true body (record { state = got_all; request = stored hs q }))
unfolding round
headers_read time zero hs body q h l = absurd (omega arith)
headers_read time (suc n) [] body q h l =
    parse_loop-done time n (headers_text [] body) (record { state = expect_headers; request = q })
      true body (record { state = got_all; request = q }) (header_round-end body q)
headers_read time (suc n) ((k, v) ∷ hs) body q h l =
    parse_loop-again time n (headers_text ((k, v) ∷ hs) body)
      (record { state = expect_headers; request = q }) (headers_text hs body)
      (record { state = expect_headers; request = add_header k v q })
      (header_round-text k v (headers_text hs body) q h.0.0 h.0.1 h.0.2)
    ∙ headers_read time n hs body (add_header k v q) h.1
        (omega (arith, length-append (k ++ b':' ∷ v) (codes "\r\n" ++ headers_text hs body)))

abbrev pub request_text : Method → Text → Option Text → List (Text × Text) → Text → Text
request_text m path query hs body = line_text m path query ++ (codes "\r\n" ++ headers_text hs body)

line_round-text :
    (time : ℕ) (m : Method) (path : Text) (query : Option Text) (rest : Text)
    → is_invalid m ≡ false
    → IsTarget path query
    → line_round time (line_text m path query ++ (codes "\r\n" ++ rest)) fresh_request
      ≡ again rest (record {
        state = expect_headers;
        request = record (line_request m path query) { receive_time = time };
      })
unfolding line_round take_line
line_round-text time m path query rest i h =
    let line = line_text m path query in
    rw (find_crlf-Lacks line rest (line_text-ends m path query h), line_round)
      (ap (verdict time rest (line ++ (codes "\r\n" ++ rest)))
        (process_request_line-text m path query i h))

-- A request that is written as the protocol says is read as it was meant, on a new connection: the
-- method, the path, the query with its question mark, the version 1.1 and the time, and the headers in
-- their order, each without the spaces round its value, the last of two with one name. What stands
-- behind the empty line is left in the buffer. The path has no space, question mark or carriage return,
-- the query and the values of the headers no carriage return, the query no space, and the names of the
-- headers no colon and no carriage return.
pub parse_request-text :
    (time : ℕ) (m : Method) (path : Text) (query : Option Text) (hs : List (Text × Text))
    (body : Text)
    → is_invalid m ≡ false
    → IsTarget path query
    → AreHeaders hs
    → parse_request time (request_text m path query hs body) fresh
      ≡ some (
          returns true body (record {
            state = got_all;
            request = stored hs (record (line_request m path query) { receive_time = time });
          }))
unfolding parse_request round
parse_request-text time m path query hs body i h k =
    let line = line_text m path query in
    let rest = headers_text hs body in
    let q = record (line_request m path query) { receive_time = time } in
    let buf = request_text m path query hs body in
    parse_loop-again time (length buf) buf fresh rest
      (record { state = expect_headers; request = q }) (line_round-text time m path query rest i h)
    ∙ headers_read time (length buf) hs body q k
        (omega (arith, length-append line (codes "\r\n" ++ rest)))
