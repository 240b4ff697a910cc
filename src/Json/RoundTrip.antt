-- ===== src/Json/RoundTrip.antt =====
-- The parser reads back an object that is written with no space: its members in order, each a quoted
-- name and a quoted string or a word of digits.
use my_streamer.Prelude.{
  ℕ, zero, suc, ◌+◌, ◌≤◌, ◌<◌, true, false, List, [], ◌∷◌, ◌++◌, some, ◌≡◌, ◌≢◌, refl, ap, ◌∙◌,
  arith, append_assoc, append-nil, length, length-append,
}
use my_streamer.Prelude.Text.{Text}
use my_streamer.Prelude.Assoc.{Map, insert}
use my_streamer.Json.{
  yields, Kind, c_str, skip_spaces, extract_string, ends_word, word_loop, is_misspelt, extract_word,
  kind, extract_value, member_loop, fuel_for, simple_json_parser,
}
use my_streamer.Json.Strings.{
  IsPrintable, IsDigits, Escaping, escaped, quote, extract_string-quote, c_str-quote,
}

-- a value as it is written, and the string that the parser stores for it
pub data Member : Type 0 where
  string : Text → Member
  digits : Text → Member

abbrev pub stored : Member → Text
stored (string t) = t
stored (digits d) = d

abbrev pub IsWritable : Member → Type 0
IsWritable (string t) = IsPrintable t
IsWritable (digits d) = IsDigits d × (d ≢ [])

abbrev pub Members : Type 0
Members = List (Text × Member)

abbrev pub AllWritable : Members → Type 0
AllWritable [] = Unit
AllWritable ((k, v) ∷ r) = IsPrintable k × IsWritable v × AllWritable r

word_loop-digits :
    (s d : Text) (c : ℕ) (rest : Text)
    → IsDigits d
    → ends_word c ≡ true
    → word_loop s (d ++ c ∷ rest) ≡ (s ++ d, c ∷ rest)
unfolding word_loop
word_loop-digits s [] c rest h e = rw (e, append-nil)
word_loop-digits s (x ∷ d) c rest h e =
    let plain : ends_word x ≡ false = ground (arith, h.0) in
    rw plain (word_loop-digits (s ++ x ∷ []) d c rest h.1 e ∙ rw append_assoc)

extract_word-digits :
    (d : Text) (c : ℕ) (rest : Text)
    → IsDigits d
    → d ≢ []
    → ends_word c ≡ true
    → extract_word (d ++ c ∷ rest) ≡ yields d (skip_spaces (c ∷ rest))
unfolding extract_word
extract_word-digits [] c rest h ne e = absurd (ne refl)
extract_word-digits (x ∷ d) c rest h ne e =
    let spelt : is_misspelt (x ∷ d) ≡ false = unfold is_misspelt in ground (arith, h.0) in
    rw (word_loop-digits [] (x ∷ d) c rest h e, spelt)

skip_spaces-digits :
    (d : Text) (rest : Text) → IsDigits d → d ≢ [] → skip_spaces (d ++ rest) ≡ d ++ rest
unfolding skip_spaces
skip_spaces-digits [] rest h ne = absurd (ne refl)
skip_spaces-digits (x ∷ d) rest h ne = ground (arith, h.0)

kind-digits : (d : Text) (rest : Text) → IsDigits d → d ≢ [] → kind (d ++ rest) ≡ Kind.word
unfolding kind
kind-digits [] rest h ne = absurd (ne refl)
kind-digits (x ∷ d) rest h ne = ground (arith, h.0)

-- the pairs in the order in which they are stored
abbrev pub stored_in : Map → Members → Map
stored_in m [] = m
stored_in m ((k, v) ∷ r) = stored_in (insert k (stored v) m) r

module _ (e : Escaping) where
  abbrev pub written : Member → Text → Text
  written (string t) rest = quote e t rest
  written (digits d) rest = d ++ rest

  -- what follows a member, and the text behind the opening brace
  abbrev pub follow : Members → Text
  follow [] = b'}' ∷ []
  follow ((k, v) ∷ r) = b',' ∷ quote e k (b':' ∷ written v (follow r))

  abbrev pub body : Members → Text
  body [] = b'}' ∷ []
  body ((k, v) ∷ r) = quote e k (b':' ∷ written v (follow r))

  extract_value-written :
      (f : ℕ) (v : Member) (c : ℕ) (rest : Text)
      → IsWritable v
      → ends_word c ≡ true
      → extract_value (suc f) false (written v (c ∷ rest))
        ≡ yields (stored v) (skip_spaces (c ∷ rest))
  unfolding extract_value
  extract_value-written f (string t) c rest h n =
      unfold kind skip_spaces in extract_string-quote e t (c ∷ rest) h
  extract_value-written f (digits d) c rest h n =
      rw (skip_spaces-digits d (c ∷ rest) h.0 h.1, kind-digits d (c ∷ rest) h.0 h.1, extract_value)
        (rw (skip_spaces-digits d (c ∷ rest) h.0 h.1) (extract_word-digits d c rest h.0 h.1 n))

  skip_spaces-follow : (r : Members) → skip_spaces (follow r) ≡ follow r
  unfolding skip_spaces
  skip_spaces-follow [] = refl
  skip_spaces-follow (x ∷ r) = refl

  extract_value-follow :
      (f : ℕ) (v : Member) (r : Members)
      → IsWritable v
      → extract_value (suc f) false (written v (follow r)) ≡ yields (stored v) (follow r)
  unfolding skip_spaces
  extract_value-follow f v [] h = extract_value-written f v b'}' [] h refl
  extract_value-follow f v ((k, w) ∷ r) h = extract_value-written f v b',' _ h refl

  extract_string-name :
      (k p : Text) → IsPrintable k → extract_string (quote e k (b':' ∷ p)) ≡ yields k (b':' ∷ p)
  extract_string-name k p h = extract_string-quote e k (b':' ∷ p) h ∙ unfold skip_spaces in refl

  member_loop_last :
      (f : ℕ) (m : Map) (lead : ℕ) (k : Text) (v : Member)
      → IsPrintable k
      → IsWritable v
      → member_loop (suc (suc f)) m (lead ∷ body ((k, v) ∷ [])) ≡ some (true, insert k (stored v) m)
  unfolding member_loop
  member_loop_last f m lead k v hk hv =
      rw (extract_string-name k (written v (follow [])) hk, member_loop)
        (rw (extract_value-follow f v [] hv, member_loop))

  member_loop_next :
      (f : ℕ) (m : Map) (lead : ℕ) (k : Text) (v : Member) (x : Text × Member) (r : Members)
      → IsPrintable k
      → IsWritable v
      → member_loop (suc (suc f)) m (lead ∷ body ((k, v) ∷ x ∷ r))
        ≡ member_loop (suc f) (insert k (stored v) m) (b',' ∷ body (x ∷ r))
  unfolding member_loop
  member_loop_next f m lead k v (j, w) r hk hv =
      rw (extract_string-name k (written v (follow ((j, w) ∷ r))) hk, member_loop)
        (rw (extract_value-follow f v ((j, w) ∷ r) hv, member_loop))

  member_loop-body :
      (f : ℕ) (m : Map) (lead : ℕ) (k : Text) (v : Member) (r : Members)
      → length r + 2 ≤ f
      → AllWritable ((k, v) ∷ r)
      → member_loop f m (lead ∷ body ((k, v) ∷ r)) ≡ some (true, stored_in m ((k, v) ∷ r))
  member_loop-body zero m lead k v r l h = absurd (omega arith)
  member_loop-body (suc zero) m lead k v r l h = absurd (omega arith)
  member_loop-body (suc (suc f)) m lead k v [] l (hk, hv, hr) = member_loop_last f m lead k v hk hv
  member_loop-body (suc (suc f)) m lead k v ((j, w) ∷ r) l (hk, hv, hr) =
      member_loop_next f m lead k v (j, w) r hk hv
      ∙ member_loop-body (suc f) (insert k (stored v) m) b',' j w r (omega arith) hr

  c_str_byte : (c : ℕ) (p : Text) → 32 ≤ c → c_str (c ∷ p) ≡ c ∷ c_str p
  unfolding c_str
  c_str_byte c p h = ground arith

  c_str-digits : (d p : Text) → IsDigits d → c_str (d ++ p) ≡ d ++ c_str p
  c_str-digits [] p h = refl
  c_str-digits (x ∷ d) p h =
      c_str_byte x (d ++ p) (omega (arith, h.0)) ∙ ap (λ q. x ∷ q) (c_str-digits d p h.1)

  c_str-written : (v : Member) (p : Text) → IsWritable v → c_str (written v p) ≡ written v (c_str p)
  c_str-written (string t) p h = c_str-quote e t p h
  c_str-written (digits d) p h = c_str-digits d p h.0

  c_str-member :
      (k : Text) (v : Member) (p : Text)
      → IsPrintable k
      → IsWritable v
      → c_str (quote e k (b':' ∷ written v p)) ≡ quote e k (b':' ∷ written v (c_str p))
  c_str-member k v p hk hv =
      c_str-quote e k (b':' ∷ written v p) hk
      ∙ ap (quote e k)
          (c_str_byte b':' (written v p) (omega arith) ∙ ap (λ q. b':' ∷ q) (c_str-written v p hv))

  c_str-follow : (r : Members) → AllWritable r → c_str (follow r) ≡ follow r
  c_str-follow [] h = unfold c_str in refl
  c_str-follow ((k, v) ∷ r) (hk, hv, hr) =
      c_str_byte b',' _ (omega arith)
      ∙ ap (λ q. b',' ∷ q)
          (c_str-member k v (follow r) hk hv
            ∙ ap (λ q. quote e k (b':' ∷ written v q)) (c_str-follow r hr))

  length-member :
      (k : Text) (v : Member) (p : Text) → length p < length (quote e k (b':' ∷ written v p))
  length-member k (string t) p = omega (
    arith,
    length-append (escaped e k) (b'"' ∷ b':' ∷ quote e t p),
    length-append (escaped e t) (b'"' ∷ p),
  )
  length-member k (digits d) p =
      omega (arith, length-append (escaped e k) (b'"' ∷ b':' ∷ (d ++ p)), length-append d p)

  length-follow : (r : Members) → length r < length (follow r)
  length-follow [] = omega arith
  length-follow ((k, v) ∷ r) = omega (arith, length-follow r, length-member k v (follow r))

  simple_json_parser-step :
      (p : Text)
      → c_str p ≡ p
      → simple_json_parser (b'{' ∷ p) ≡ member_loop (fuel_for (b'{' ∷ p)) [] (b'{' ∷ p)
  unfolding simple_json_parser skip_spaces
  simple_json_parser-step p h = rw (c_str_byte b'{' p (omega arith), h)

  -- `SimpleJsonParser` accepts every object written without spaces whose strings hold no control
  -- character, with quotes and backslashes escaped, and whose other values are runs of digits. It
  -- stores the members in order, a string without its quotes and a number as its digits; of two
  -- members with one name the first is kept, as `insert` does.
  pub parser-body :
      (r : Members)
      → AllWritable r
      → simple_json_parser (b'{' ∷ body r) ≡ some (true, stored_in [] r)
  parser-body [] h = unfold simple_json_parser skip_spaces c_str member_loop extract_string in refl
  parser-body ((k, v) ∷ r) (hk, hv, hr) =
      simple_json_parser-step (body ((k, v) ∷ r)) (
        c_str-member k v (follow r) hk hv
        ∙ ap (λ q. quote e k (b':' ∷ written v q)) (c_str-follow r hr))
      ∙ member_loop-body (fuel_for (b'{' ∷ body ((k, v) ∷ r))) [] b'{' k v r
          (omega (arith, length-follow r, length-member k v (follow r))) (hk, hv, hr)
