-- ===== src/Http/Context/Rounds.antt =====
-- The loop of parseRequest round by round, and that one round more than bytes is enough.
use my_streamer.Prelude.{
  ℕ, zero, suc, Bool, [], ◌++◌, some, length, ◌≡◌, ◌<◌, ◌⊎◌, inl, inr, refl, sym, ap, ◌∙◌, arith,
  subst,
}
use my_streamer.Http.Context.Extends.{is_active, IsActive, Extends, round-Extends}
use my_streamer.Prelude.Text.{Text}
use my_streamer.Http.Context.{
  expect_headers, HttpContext, Round, done, again, aborts, round, Outcome, returns, asserts,
  parse_loop, parse_request,
}

-- the three kinds of a round
pub round_cases :
    (x : Round)
    → ((ok : Bool) × (r : Text) × (d : HttpContext) × (x ≡ done ok r d))
      ⊎ ((r : Text) × (d : HttpContext) × (x ≡ again r d))
      ⊎ (x ≡ aborts)
round_cases (done ok r d) = inl (ok, r, d, refl)
round_cases (again r d) = inr (inl (r, d, refl))
round_cases aborts = inr (inr refl)

module _ (time : ℕ) where
  pub parse_loop-done :
      (n : ℕ) (a : Text) (c : HttpContext) (ok : Bool) (r : Text) (d : HttpContext)
      → round time a c ≡ done ok r d
      → parse_loop (suc n) time a c ≡ some (returns ok r d)
  unfolding parse_loop
  parse_loop-done n a c ok r d h = rw (h, parse_loop) refl

  pub parse_loop-again :
      (n : ℕ) (a : Text) (c : HttpContext) (r : Text) (d : HttpContext)
      → round time a c ≡ again r d
      → parse_loop (suc n) time a c ≡ parse_loop n time r d
  unfolding parse_loop
  parse_loop-again n a c r d h = rw (h, parse_loop) refl

  pub parse_loop-aborts :
      (n : ℕ) (a : Text) (c : HttpContext)
      → round time a c ≡ aborts
      → parse_loop (suc n) time a c ≡ some asserts
  unfolding parse_loop
  parse_loop-aborts n a c h = rw (h, parse_loop) refl

  -- the round above, by its value
  pub round-Extends_at :
      (a b : Text) (c : HttpContext) (x : Round)
      → round time a c ≡ x
      → IsActive c
      → Extends a b c x (round time (a ++ b) c)
  round-Extends_at a b c x h s =
      subst (λ y. Extends a b c y (round time (a ++ b) c)) h (round-Extends time a b c s)

  pub IsActive-headers : (d : HttpContext) → d.state ≡ expect_headers → IsActive d
  IsActive-headers d e = ap is_active e

  pub parse_loop_enough :
      (n m : ℕ) (a : Text) (c : HttpContext)
      → IsActive c
      → length a < n
      → length a < m
      → parse_loop n time a c ≡ parse_loop m time a c
  parse_loop_enough zero m a c s l k = absurd (omega arith)
  parse_loop_enough (suc n) zero a c s l k = absurd (omega arith)
  parse_loop_enough (suc n) (suc m) a c s l k = elim (round_cases (round time a c)) [
    | inl (ok, r, d, h) ↦ parse_loop-done n a c ok r d h ∙ sym (parse_loop-done m a c ok r d h)
    | inr (inl (r, d, h)) ↦
        let (_, shorter, e) = round-Extends_at a [] c (again r d) h s in
        parse_loop-again n a c r d h
        ∙ parse_loop_enough n m r d (IsActive-headers d e) (omega arith) (omega arith)
        ∙ sym (parse_loop-again m a c r d h)
    | inr (inr h) ↦ parse_loop-aborts n a c h ∙ sym (parse_loop-aborts m a c h)
  ]

  parse_loop_total :
      (n : ℕ) (a : Text) (c : HttpContext)
      → IsActive c
      → length a < n
      → (o : Outcome) × (parse_loop n time a c ≡ some o)
  parse_loop_total zero a c s l = absurd (omega arith)
  parse_loop_total (suc n) a c s l = elim (round_cases (round time a c)) [
    | inl (ok, r, d, h) ↦ (returns ok r d, parse_loop-done n a c ok r d h)
    | inr (inl (r, d, h)) ↦
        let (_, shorter, e) = round-Extends_at a [] c (again r d) h s in
        let (o, p) = parse_loop_total n r d (IsActive-headers d e) (omega arith) in
        (o, parse_loop-again n a c r d h ∙ p)
    | inr (inr h) ↦ (asserts, parse_loop-aborts n a c h)
  ]

-- parseRequest ends on every buffer, from each state in which it is called: it returns, or its
-- assertion fails.
pub parse_request_total :
    (time : ℕ) (a : Text) (c : HttpContext)
    → IsActive c
    → (o : Outcome) × (parse_request time a c ≡ some o)
unfolding parse_request
parse_request_total time a c s = parse_loop_total time (suc (length a)) a c s (omega arith)
