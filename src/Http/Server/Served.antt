-- ===== src/Http/Server/Served.antt =====
-- The context that a message leaves is one that the next message is parsed with.
use my_streamer.Prelude.{
  ℕ, zero, suc, Bool, true, false, [], ◌∷◌, Option, none, some, length, ◌≡◌, ◌⊎◌, inl, inr,
  Bool-cases, refl, sym, ◌∙◌, subst,
}
use mathlib.Core.Option.{some-injective}
use my_streamer.Prelude.Text.{Text}
use my_streamer.Http.Request.{HttpRequest}
use my_streamer.Http.Response.{HttpResponse}
use my_streamer.Http.Context.{
  HttpRequestParseState, expect_request_line, expect_headers, expect_body, got_all, HttpContext,
  find_crlf, find, process_request_line, Round, done, again, verdict, take_line, header_of,
  take_header, line_round, header_round, round, Outcome, returns, asserts, parse_loop,
  parse_request,
}
use my_streamer.Http.Context.Extends.{is_active, IsActive}
use my_streamer.Http.Context.Rounds.{
  round_cases, parse_loop-done, parse_loop-again, parse_loop-aborts, round-Extends_at,
  IsActive-headers, parse_request_total,
}
use my_streamer.Http.Server.{Message, served, crashes, is_got_all, after_parse, on_message}

-- a round that ends the loop leaves a state that is active or the last
abbrev Ends : Round → Type 0
Ends (done ok r d) = IsActive d ⊎ (d.state ≡ got_all)
Ends _ = Unit

verdict-Ends :
    (time : ℕ) (rest buf : Text) (v : Option (HttpRequest × Bool)) → Ends (verdict time rest buf v)
verdict-Ends time rest buf none = tt
verdict-Ends time rest buf (some (p, true)) = tt
verdict-Ends time rest buf (some (p, false)) = inl refl

header_of-Ends : (field v rest : Text) (q : HttpRequest) → Ends (header_of field v rest q)
header_of-Ends field [] rest q = inr refl
header_of-Ends field (c ∷ v) rest q = tt

line_round-Ends : (time : ℕ) (buf : Text) (q : HttpRequest) → Ends (line_round time buf q)
unfolding line_round take_line
line_round-Ends time buf q = go (find_crlf buf) refl
  where
    go : (f : Option (Text × Text)) → find_crlf buf ≡ f → Ends (line_round time buf q)
    go none h = rw (h, line_round) (inl refl)
    go (some (line, rest)) h =
        rw (h, line_round) (verdict-Ends time rest buf (process_request_line line q))

header_round-Ends : (buf : Text) (q : HttpRequest) → Ends (header_round buf q)
unfolding header_round take_header
header_round-Ends buf q = go (find_crlf buf) refl
  where
    go : (f : Option (Text × Text)) → find_crlf buf ≡ f → Ends (header_round buf q)
    go none h = rw (h, header_round) (inl refl)
    go (some (line, rest)) h =
        rw (h, header_round) (header_of-Ends (find b':' line).0 (find b':' line).1 rest q)

round-Ends : (time : ℕ) (buf : Text) (c : HttpContext) → IsActive c → Ends (round time buf c)
unfolding round
round-Ends time buf c h = by_state c.state c.request h
  where
    by_state :
        (s : HttpRequestParseState) (q : HttpRequest)
        → is_active s ≡ true
        → Ends (round time buf (record { state = s; request = q }))
    by_state expect_request_line q h = line_round-Ends time buf q
    by_state expect_headers q h = header_round-Ends buf q
    by_state expect_body q h = absurd (cc h)
    by_state got_all q h = absurd (cc h)

abbrev EndsWell : Outcome → Type 0
EndsWell (returns ok r d) = IsActive d ⊎ (d.state ≡ got_all)
EndsWell asserts = Unit

parse_loop-Ends :
    (time n : ℕ) (a : Text) (c : HttpContext) (o : Outcome)
    → IsActive c
    → parse_loop n time a c ≡ some o
    → EndsWell o
unfolding parse_loop
parse_loop-Ends time zero a c o s h = absurd (cc h)
parse_loop-Ends time (suc n) a c o s h = elim (round_cases (round time a c)) [
  | inl (ok, r, d, w) ↦
      subst EndsWell (some-injective _ _ (sym (parse_loop-done time n a c ok r d w) ∙ h))
        (subst Ends w (round-Ends time a c s))
  | inr (inl (r, d, w)) ↦
      let (_, shorter, e) = round-Extends_at time a [] c (again r d) w s in
      parse_loop-Ends time n r d o (IsActive-headers time d e)
        (sym (parse_loop-again time n a c r d w) ∙ h)
  | inr (inr w) ↦ subst EndsWell (some-injective _ _ (sym (parse_loop-aborts time n a c w) ∙ h)) tt
]

-- the message is served and leaves a context that is parsed with, or the assertion fails
abbrev pub IsServed : Message → Type 0
IsServed (served events rest d) = IsActive d
IsServed crashes = Unit

module _ (show : ℕ → Text) (http_callback : HttpRequest → HttpResponse → HttpResponse) where
  after_parse-IsServed : (o : Outcome) → EndsWell o → IsServed (after_parse show http_callback o)
  after_parse-IsServed asserts w = tt
  after_parse-IsServed (returns ok r d) (inl s) = elim (Bool-cases (is_got_all d.state)) [
    | inl e ↦ rw e refl
    | inr e ↦ rw e s
  ]
  after_parse-IsServed (returns ok r d) (inr e) = rw e refl

  -- From a context that waits for a request line or for headers, as that of a new connection, every
  -- message is dealt with: the call returns and leaves a context that again waits for one of them, or
  -- the assertion fails.
  pub on_message-IsServed :
      (time : ℕ) (buf : Text) (c : HttpContext)
      → IsActive c
      → (m : Message) × (on_message show http_callback time buf c ≡ some m) × IsServed m
  unfolding on_message parse_request
  on_message-IsServed time buf c s =
      let (o, h) = parse_request_total time buf c s in
      (
        after_parse show http_callback o,
        rw (h, on_message) refl,
        after_parse-IsServed o (parse_loop-Ends time (suc (length buf)) buf c o s h),
      )
