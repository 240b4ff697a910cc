-- ===== src/Http/Context/Chunks.antt =====
-- A request may come in any pieces: the parser that has read one piece goes on with the next.
use my_streamer.Prelude.{
  ℕ, zero, suc, Bool, true, ◌++◌, some, length, length-append, ◌≡◌, ◌≢◌, ◌<◌, inl, inr, sym, ap,
  ◌∙◌, arith, subst,
}
use my_streamer.Http.Context.Extends.{IsActive, Extends}
use my_streamer.Http.Context.Rounds.{
  round_cases, parse_loop-done, parse_loop-again, parse_loop-aborts, round-Extends_at,
  IsActive-headers, parse_loop_enough,
}
use mathlib.Core.Option.{some-injective}
use my_streamer.Prelude.Text.{Text}
use my_streamer.Http.Context.{
  got_all, HttpContext, done, again, round, returns, parse_loop, parse_request,
}

module _ (time : ℕ) where
  -- the round that ends the loop on the first piece
  stopped :
      (m k : ℕ) (a b rest : Text) (c d : HttpContext) (ok : Bool) (r : Text) (e : HttpContext)
      → IsActive c
      → length (a ++ b) < suc m
      → length (rest ++ b) < k
      → d.state ≢ got_all
      → returns ok r e ≡ returns true rest d
      → Extends a b c (done ok r e) (round time (a ++ b) c)
      → parse_loop (suc m) time (a ++ b) c ≡ parse_loop k time (rest ++ b) d
  stopped m k a b rest c d ok r e s l l' g p (inl (_, f, q)) =
      let left : rest ≡ a = cc (p, f) in
      let same : d ≡ c = cc (p, q) in
      let l'' : length (a ++ b) < k = subst (λ t. length (t ++ b) < k) left l' in
      rw (left, same) (parse_loop_enough time (suc m) k (a ++ b) c s l l'')
  stopped m k a b rest c d ok r e s l l' g p (inr (f, q)) =
      let all : e.state ≡ got_all = q (cc p) in
      let same : e ≡ d = cc p in absurd (g (sym (ap (λ x. x.state) same) ∙ all))

  resume_lem :
      (n m k : ℕ) (a b rest : Text) (c d : HttpContext)
      → IsActive c
      → length a < n
      → length (a ++ b) < m
      → length (rest ++ b) < k
      → parse_loop n time a c ≡ some (returns true rest d)
      → d.state ≢ got_all
      → parse_loop m time (a ++ b) c ≡ parse_loop k time (rest ++ b) d
  resume_lem zero m k a b rest c d s l l' l'' h g = absurd (omega arith)
  resume_lem (suc n) zero k a b rest c d s l l' l'' h g = absurd (omega arith)
  resume_lem (suc n) (suc m) k a b rest c d s l l' l'' h g = elim (round_cases (round time a c)) [
    | inl (ok, r, e, w) ↦
        stopped m k a b rest c d ok r e s l' l'' g
          (some-injective _ _ (sym (parse_loop-done time n a c ok r e w) ∙ h))
          (round-Extends_at time a b c (done ok r e) w s)
    | inr (inl (r, e, w)) ↦
        let (next, shorter, f) = round-Extends_at time a b c (again r e) w s in
        parse_loop-again time m (a ++ b) c (r ++ b) e next
        ∙ resume_lem n m k r b rest e d (IsActive-headers time e f) (omega arith)
            (omega (arith, length-append a b, length-append r b)) l''
            (sym (parse_loop-again time n a c r e w) ∙ h) g
    | inr (inr w) ↦ absurd (cc (sym (parse_loop-aborts time n a c w) ∙ h))
  ]

-- A piece of a request that does not end it is read and kept: where a call of parseRequest on the first
-- piece returns without an error and wants more, the call on what it left and the second piece has the
-- outcome that one call on both pieces, received at the same time, has.
pub parse_request_resumes :
    (time : ℕ) (a b rest : Text) (c d : HttpContext)
    → IsActive c
    → parse_request time a c ≡ some (returns true rest d)
    → d.state ≢ got_all
    → parse_request time (rest ++ b) d ≡ parse_request time (a ++ b) c
unfolding parse_request
parse_request_resumes time a b rest c d s h g = sym (
    resume_lem time (suc (length a)) (suc (length (a ++ b))) (suc (length (rest ++ b))) a b rest c d
      s (omega arith) (omega arith) (omega arith) h g)
