-- ===== src/Http/Context/Lacks.antt =====
-- Where a character is not, the searches of the parser go past.
use my_streamer.Prelude.{ℕ, Bool, true, false, not, ◌&&◌, [], ◌∷◌, ◌++◌, some, ◌==◌, ◌≡◌, refl}
use my_streamer.Prelude.Text.{Text, codes}
use my_streamer.Http.Request.{}
use my_streamer.Http.Context.{find_crlf, find}

-- The character `c` is not in the text.
abbrev pub Lacks : ℕ → Text → Type 0
Lacks c [] = Unit
Lacks c (d ∷ t) = ((d == c) ≡ false) × Lacks c t

abbrev pub is_lacking : ℕ → Text → Bool
is_lacking c [] = true
is_lacking c (d ∷ t) = not (d == c) && is_lacking c t

pub is_lacking-Lacks : (c : ℕ) (t : Text) → is_lacking c t ≡ true → Lacks c t
is_lacking-Lacks c [] h = tt
is_lacking-Lacks c (d ∷ t) h = go (d == c) (is_lacking c t) h (is_lacking-Lacks c t)
  where
    go : (x y : Bool) → (not x && y) ≡ true → ((y ≡ true) → Lacks c t) → (x ≡ false) × Lacks c t
    go true y h k = absurd (cc h)
    go false y h k = (refl, k h)

pub find-Lacks :
    (c : ℕ) (t r : Text) → (c == c) ≡ true → Lacks c t → find c (t ++ c ∷ r) ≡ (t, c ∷ r)
unfolding find
find-Lacks c [] r e h = rw e refl
find-Lacks c (d ∷ t) r e h = rw (h.0, find-Lacks c t r e h.1) refl

pub find-Lacks_all : (c : ℕ) (t : Text) → Lacks c t → find c t ≡ (t, [])
unfolding find
find-Lacks_all c [] h = refl
find-Lacks_all c (d ∷ t) h = rw (h.0, find-Lacks_all c t h.1) refl

pub find_crlf-Lacks :
    (line r : Text) → Lacks b'\r' line → find_crlf (line ++ (codes "\r\n" ++ r)) ≡ some (line, r)
unfolding find_crlf
find_crlf-Lacks [] r h = refl
find_crlf-Lacks (c ∷ []) r h = rw h.0 refl
find_crlf-Lacks (c ∷ d ∷ t) r h = rw (h.0, find_crlf-Lacks (d ∷ t) r h.1) refl

pub Lacks-append : (c : ℕ) (s t : Text) → Lacks c s → Lacks c t → Lacks c (s ++ t)
Lacks-append c [] t h k = k
Lacks-append c (d ∷ s) t h k = (h.0, Lacks-append c s t h.1 k)
