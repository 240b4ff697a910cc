-- ===== src/Web/Uris.antt =====
-- The addresses that handlers are made with.
use my_streamer.Prelude.{
  ℕ, Bool, true, false, [], ◌∷◌, ◌++◌, ◌==◌, if◌then◌else◌, ◌≡◌, ◌≢◌, refl, sym, ap, ◌∙◌, arith,
  Bool-cases, inl, inr,
}
use my_streamer.Prelude.Text.{Text}
use my_streamer.Web.{drop_last_slashes, with_slash, shorten, uri_of}

-- a slash, and then a text that does not end with one
abbrev pub IsUri : Text → Type 0
IsUri t = (r : Text) × (t ≡ b'/' ∷ r) × ((x : Text) → r ≢ x ++ (b'/' ∷ []))

head_of : Text → ℕ
head_of [] = 0
head_of (c ∷ t) = c

tail_of : Text → Text
tail_of [] = []
tail_of (c ∷ t) = t

single-ends : (c : ℕ) (y : Text) → (c == b'/') ≡ false → (c ∷ []) ≢ y ++ (b'/' ∷ [])
unfolding head_of tail_of
single-ends c [] h e = let q : c ≡ b'/' = ap head_of e in absurd (ground (arith, h))
single-ends c (d ∷ []) h e = absurd (cc (ap tail_of e))
single-ends c (d ∷ f ∷ y) h e = absurd (cc (ap tail_of e))

nothing-ends : (y : Text) → ◌≢◌ {A = Text} [] (y ++ (b'/' ∷ []))
nothing-ends [] e = absurd (cc e)
nothing-ends (d ∷ y) e = absurd (cc e)

drop_last_slashes-ends : (t x : Text) → drop_last_slashes t ≢ x ++ (b'/' ∷ [])
unfolding drop_last_slashes tail_of
drop_last_slashes-ends [] x e = nothing-ends x e
drop_last_slashes-ends (c ∷ t) x e = go (drop_last_slashes t) (drop_last_slashes-ends t) x e
  where
    ends_by :
        (b : Bool) → (c == b'/') ≡ b → (y : Text) → (if b then [] else c ∷ []) ≢ y ++ (b'/' ∷ [])
    ends_by true h y e = nothing-ends y e
    ends_by false h y e = single-ends c y h e

    go :
        (d : Text)
        → ((y : Text) → d ≢ y ++ (b'/' ∷ []))
        → (y : Text)
        → (elim d [ [] ↦ if c == b'/' then [] else c ∷ [] | f ∷ r ↦ c ∷ f ∷ r ]) ≢ y ++ (b'/' ∷ [])
    go [] h y e = ends_by (c == b'/') refl y e
    go (f ∷ r) h [] e = absurd (cc (ap tail_of e))
    go (f ∷ r) h (y ∷ ys) e = h ys (ap tail_of e)

drop_last_slashes-same : (t : Text) → ((x : Text) → t ≢ x ++ (b'/' ∷ [])) → drop_last_slashes t ≡ t
unfolding drop_last_slashes
drop_last_slashes-same [] h = refl
drop_last_slashes-same (c ∷ []) h = elim (Bool-cases (c == b'/')) [
  | inl e ↦ let q : c ≡ b'/' = ground (arith, e) in absurd (h [] (ap (λ x. x ∷ []) q))
  | inr e ↦ ap (λ b. if b then [] else c ∷ []) e
]
drop_last_slashes-same (c ∷ d ∷ t) h =
    ap (λ r. elim r [ [] ↦ if c == b'/' then [] else c ∷ [] | f ∷ s ↦ c ∷ f ∷ s ])
      (drop_last_slashes-same (d ∷ t) (λ x e. h (c ∷ x) (ap (λ r. c ∷ r) e)))

with_slash-cases : (t : Text) → (r : Text) × (with_slash t ≡ b'/' ∷ r)
with_slash-cases [] = ([], refl)
with_slash-cases (c ∷ t) = elim (Bool-cases (c == b'/')) [
  | inl e ↦
      let q : c ≡ b'/' = ground (arith, e) in
      (t, ap (λ b. if b then c ∷ t else b'/' ∷ c ∷ t) e ∙ ap (λ x. x ∷ t) q)
  | inr e ↦ (c ∷ t, ap (λ b. if b then c ∷ t else b'/' ∷ c ∷ t) e)
]

-- The address of a handler always starts with a slash and ends with none but the first, whatever text it
-- is made with, and a text that is such an address stays as it is.
pub uri_of-IsUri : (t : Text) → IsUri (uri_of t) × (IsUri t → uri_of t ≡ t)
unfolding uri_of
uri_of-IsUri t =
    let (r, e) = with_slash-cases t in
    (
      (drop_last_slashes r, ap shorten e, λ x. drop_last_slashes-ends r x),
      λ (s, q, h).
          ap (λ x. shorten (with_slash x)) q
          ∙ ap (λ x. b'/' ∷ x) (drop_last_slashes-same s h)
          ∙ sym q,
    )
