-- ===== src/Json/Strings.antt =====
-- The parser reads back a quoted string whose quotes and backslashes are escaped, and a word of digits,
-- whatever text follows.
use my_streamer.Prelude.{
  ℕ, zero, ◌≤◌, [], ◌∷◌, ◌++◌, ◌≡◌, ◌≢◌, refl, ap, ◌∙◌, arith, append_assoc, append-nil,
}
use native.Mathlib.Decide.{ℕ_discrete}
use my_streamer.Prelude.Text.{Text}
use my_streamer.Json.{yields, c_str, skip_spaces, string_loop, extract_string}

-- Every byte satisfies the predicate.
abbrev pub All : (ℕ → Type 0) → Text → Type 0
All P [] = Unit
All P (c ∷ p) = P c × All P p

-- no control character
abbrev pub IsPrintable : Text → Type 0
IsPrintable = All (λ c. 32 ≤ c)

abbrev pub IsDigits : Text → Type 0
IsDigits = All (λ c. (48 ≤ c) × (c ≤ 57))

-- How one character of a string is written.
pub record Escaping : Type 0 where
  pub esc : ℕ → Text
  pub esc_quote : esc b'"' ≡ b'\\' ∷ b'"' ∷ []
  pub esc_backslash : esc b'\\' ≡ b'\\' ∷ b'\\' ∷ []
  pub esc_plain : (c : ℕ) → 32 ≤ c → c ≢ b'"' → c ≢ b'\\' → esc c ≡ c ∷ []

module _ (e : Escaping) where
  open e use {esc, esc_quote, esc_backslash, esc_plain}

  abbrev pub escaped : Text → Text
  escaped [] = []
  escaped (c ∷ s) = esc c ++ escaped s

  -- a string between quotes, and what follows it
  abbrev pub quote : Text → Text → Text
  quote s rest = b'"' ∷ (escaped s ++ b'"' ∷ rest)

  string_loop_plain :
      (s : Text) (c : ℕ) (p : Text)
      → c ≢ b'"'
      → c ≢ b'\\'
      → string_loop s zero (c ∷ p) ≡ string_loop (s ++ c ∷ []) zero p
  unfolding string_loop
  string_loop_plain s c [] q b = ground arith
  string_loop_plain s c (d ∷ p) q b = ground arith

  string_loop_end : (s p : Text) → string_loop s zero (b'"' ∷ p) ≡ yields s (skip_spaces p)
  unfolding string_loop
  string_loop_end s [] = refl
  string_loop_end s (d ∷ p) = refl

  string_loop_esc :
      (s : Text) (c : ℕ) (p : Text)
      → 32 ≤ c
      → string_loop s zero (esc c ++ p) ≡ string_loop (s ++ c ∷ []) zero p
  string_loop_esc s c p h = elim (ℕ_discrete c b'"') [
    | yes q ↦ rw (q, esc_quote) (unfold string_loop in refl)
    | no nq ↦ elim (ℕ_discrete c b'\\') [
      | yes b ↦ rw (b, esc_backslash) (unfold string_loop in refl)
      | no nb ↦ rw (esc_plain c h nq nb) (string_loop_plain s c p nq nb)
    ]
  ]

  string_loop-escaped :
      (s t rest : Text)
      → IsPrintable t
      → string_loop s zero (escaped t ++ b'"' ∷ rest) ≡ yields (s ++ t) (skip_spaces rest)
  string_loop-escaped s [] rest h = rw append-nil (string_loop_end s rest)
  string_loop-escaped s (c ∷ t) rest h = rw append_assoc (
      string_loop_esc s c (escaped t ++ b'"' ∷ rest) h.0
      ∙ string_loop-escaped (s ++ c ∷ []) t rest h.1
      ∙ rw append_assoc)

  -- `ExtractString` reads a quoted string back and stands behind the spaces that follow it.
  pub extract_string-quote :
      (t rest : Text) → IsPrintable t → extract_string (quote t rest) ≡ yields t (skip_spaces rest)
  unfolding extract_string
  extract_string-quote t rest h = string_loop-escaped [] t rest h

  c_str_plain : (c : ℕ) (p : Text) → 32 ≤ c → c_str (c ∷ p) ≡ c ∷ c_str p
  unfolding c_str
  c_str_plain c p h = ground arith

  c_str_esc : (c : ℕ) (p : Text) → 32 ≤ c → c_str (esc c ++ p) ≡ esc c ++ c_str p
  c_str_esc c p h = elim (ℕ_discrete c b'"') [
    | yes q ↦ rw (q, esc_quote) (unfold c_str in refl)
    | no nq ↦ elim (ℕ_discrete c b'\\') [
      | yes b ↦ rw (b, esc_backslash) (unfold c_str in refl)
      | no nb ↦ rw (esc_plain c h nq nb) (c_str_plain c p h)
    ]
  ]

  c_str-escaped : (t p : Text) → IsPrintable t → c_str (escaped t ++ p) ≡ escaped t ++ c_str p
  c_str-escaped [] p h = refl
  c_str-escaped (c ∷ t) p h = rw append_assoc (
      c_str_esc c (escaped t ++ p) h.0
      ∙ ap (λ x. esc c ++ x) (c_str-escaped t p h.1)
      ∙ rw append_assoc)

  -- A quoted string holds no terminator.
  pub c_str-quote : (t rest : Text) → IsPrintable t → c_str (quote t rest) ≡ quote t (c_str rest)
  c_str-quote t rest h =
      c_str_plain b'"' (escaped t ++ b'"' ∷ rest) (omega arith)
      ∙ ap (λ x. b'"' ∷ x)
          (c_str-escaped t (b'"' ∷ rest) h
            ∙ ap (λ x. escaped t ++ x) (c_str_plain b'"' rest (omega arith)))
