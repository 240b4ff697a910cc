-- ===== src/Http/Context/Extends.antt =====
-- One round of parseRequest where more bytes stand behind the buffer.
use my_streamer.Prelude.{
  ℕ, Bool, true, false, ◌&&◌, [], ◌∷◌, ◌++◌, Option, none, some, ◌==◌, if◌then◌else◌, length, ◌≡◌,
  ◌<◌, ◌⊎◌, inl, inr, refl, sym, ap, arith,
}
use mathlib.Core.Option.{some-injective}
use my_streamer.Prelude.Text.{Text}
use my_streamer.Http.Request.{HttpRequest}
use my_streamer.Http.Context.{
  HttpRequestParseState, expect_request_line, expect_headers, expect_body, got_all, HttpContext,
  find_crlf, find, process_request_line, take_line, take_header, verdict, header_of, Round, done,
  again, aborts, line_round, header_round, round,
}

-- a line that ends at the first byte, or further on
find_crlf_cases :
    (c d : ℕ) (t l r : Text)
    → find_crlf (c ∷ d ∷ t) ≡ some (l, r)
    → (((c == b'\r' && (d == b'\n')) ≡ true) × (r ≡ t) × (l ≡ []))
      ⊎ (((c == b'\r' && (d == b'\n')) ≡ false)
          × (m : Text) × (find_crlf (d ∷ t) ≡ some (m, r))
          × (l ≡ c ∷ m))
unfolding find_crlf
find_crlf_cases c d t l r h = go (c == b'\r' && (d == b'\n')) (find_crlf (d ∷ t)) h
  where
    go :
        (x : Bool) (y : Option (Text × Text))
        → if◌then◌else◌ {A = Option (Text × Text)} x
            (some ([], t))
            (elim y [ none ↦ none | some (m, s) ↦ some (c ∷ m, s) ])
          ≡ some (l, r)
        → ((x ≡ true) × (r ≡ t) × (l ≡ []))
          ⊎ ((x ≡ false) × (m : Text) × (y ≡ some (m, r)) × (l ≡ c ∷ m))
    go true y h =
        let e = some-injective _ _ h in inl (refl, sym (ap (λ x. x.1) e), sym (ap (λ x. x.0) e))
    go false none h = absurd (cc h)
    go false (some (m, r')) h =
        let e = some-injective _ _ h in
        inr (refl, m, ap (λ x. some (m, x)) (ap (λ x. x.1) e), sym (ap (λ x. x.0) e))

pub find_crlf-append :
    (a b l r : Text) → find_crlf a ≡ some (l, r) → find_crlf (a ++ b) ≡ some (l, r ++ b)
unfolding find_crlf
find_crlf-append [] b l r h = ground arith
find_crlf-append (c ∷ []) b l r h = ground arith
find_crlf-append (c ∷ d ∷ t) b l r h = elim (find_crlf_cases c d t l r h) [
  | inl (e, f, g) ↦ rw (e, f, g) refl
  | inr (e, m, f, g) ↦ rw (e, g, find_crlf-append (d ∷ t) b m r f) refl
]

find_crlf-length : (a l r : Text) → find_crlf a ≡ some (l, r) → length r < length a
unfolding find_crlf
find_crlf-length [] l r h = ground arith
find_crlf-length (c ∷ []) l r h = ground arith
find_crlf-length (c ∷ d ∷ t) l r h = elim (find_crlf_cases c d t l r h) [
  | inl (e, f, g) ↦ rw f (omega arith)
  | inr (e, m, f, g) ↦ omega (arith, find_crlf-length (d ∷ t) m r f)
]

-- How a round goes where more bytes stand behind the buffer: `x` is the round then.
abbrev pub Extends : Text → Text → HttpContext → Round → Round → Type 0
Extends a b c (done ok r d) x =
    ((ok ≡ true) × (r ≡ a) × (d ≡ c))
    ⊎ ((x ≡ done ok (r ++ b) d) × ((ok ≡ true) → d.state ≡ got_all))
Extends a b c (again r d) x =
    (x ≡ again (r ++ b) d) × (length r < length a) × (d.state ≡ expect_headers)
Extends a b c aborts x = x ≡ aborts

take_line-Extends :
    (time : ℕ) (line rest a b : Text) (q : HttpRequest)
    → length rest < length a
    → Extends a b
        (record { state = expect_request_line; request = q })
        (take_line time line rest a q)
        (take_line time line (rest ++ b) (a ++ b) q)
unfolding take_line
take_line-Extends time line rest a b q l = go (process_request_line line q)
  where
    go :
        (p : Option (HttpRequest × Bool))
        → Extends a b
            (record { state = expect_request_line; request = q })
            (verdict time rest a p)
            (verdict time (rest ++ b) (a ++ b) p)
    go none = refl
    go (some (p, true)) = (refl, l, refl)
    go (some (p, false)) = inr (refl, λ e. absurd (cc e))

take_header-Extends :
    (line rest a b : Text) (q : HttpRequest)
    → length rest < length a
    → Extends a b
        (record { state = expect_headers; request = q })
        (take_header line rest q)
        (take_header line (rest ++ b) q)
unfolding take_header
take_header-Extends line rest a b q l = go (find b':' line).1
  where
    go :
        (v : Text)
        → Extends a b
            (record { state = expect_headers; request = q })
            (header_of (find b':' line).0 v rest q)
            (header_of (find b':' line).0 v (rest ++ b) q)
    go [] = inr (refl, λ _. refl)
    go (colon ∷ value) = (refl, l, refl)

line_round-Extends :
    (time : ℕ) (a b : Text) (q : HttpRequest)
    → Extends a b
        (record { state = expect_request_line; request = q })
        (line_round time a q)
        (line_round time (a ++ b) q)
unfolding line_round
line_round-Extends time a b q = go (find_crlf a) refl
  where
    go :
        (f : Option (Text × Text))
        → find_crlf a ≡ f
        → Extends a b
            (record { state = expect_request_line; request = q })
            (line_round time a q)
            (line_round time (a ++ b) q)
    go none h = rw (h, line_round) (inl (refl, refl, refl))
    go (some (line, rest)) h =
        rw (h, find_crlf-append a b line rest h, line_round)
          (take_line-Extends time line rest a b q (find_crlf-length a line rest h))

header_round-Extends :
    (a b : Text) (q : HttpRequest)
    → Extends a b
        (record { state = expect_headers; request = q })
        (header_round a q)
        (header_round (a ++ b) q)
unfolding header_round
header_round-Extends a b q = go (find_crlf a) refl
  where
    go :
        (f : Option (Text × Text))
        → find_crlf a ≡ f
        → Extends a b
            (record { state = expect_headers; request = q })
            (header_round a q)
            (header_round (a ++ b) q)
    go none h = rw (h, header_round) (inl (refl, refl, refl))
    go (some (line, rest)) h =
        rw (h, find_crlf-append a b line rest h, header_round)
          (take_header-Extends line rest a b q (find_crlf-length a line rest h))

-- a state in which the loop ends
abbrev pub is_active : HttpRequestParseState → Bool
is_active expect_request_line = true
is_active expect_headers = true
is_active _ = false

abbrev pub IsActive : HttpContext → Type 0
IsActive c = is_active c.state ≡ true

pub round-Extends :
    (time : ℕ) (a b : Text) (c : HttpContext)
    → IsActive c
    → Extends a b c (round time a c) (round time (a ++ b) c)
unfolding round
round-Extends time a b c h = by_state c.state c.request h
  where
    by_state :
        (s : HttpRequestParseState) (q : HttpRequest)
        → is_active s ≡ true
        → Extends a b
            (record { state = s; request = q })
            (round time a (record { state = s; request = q }))
            (round time (a ++ b) (record { state = s; request = q }))
    by_state expect_request_line q h = line_round-Extends time a b q
    by_state expect_headers q h = header_round-Extends a b q
    by_state expect_body q h = absurd (cc h)
    by_state got_all q h = absurd (cc h)
