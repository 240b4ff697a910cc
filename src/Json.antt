-- ===== src/Json.antt =====
-- base/base_json_parser.cpp. The pointer `*ptr` is the text that is left, whose end is the
-- terminator: `*p == '\0'` is `[]`. A function that returns true returns its string and the text left.
pub mod Leaves
pub mod Fuel
pub mod Strings
pub mod RoundTrip
mod Tests
use my_streamer.Prelude.{
  ℕ, zero, suc, ◌+◌, ◌*◌, Bool, true, false, not, ◌&&◌, ◌||◌, List, [], ◌∷◌, ◌++◌, Option, none,
  some, ◌==◌, leb, if◌then◌else◌, length,
}
use my_streamer.Prelude.Text.{Text, codes, equal}
use my_streamer.Prelude.Assoc.{Map, insert}

-- The outcome of an extraction; `starved` says that the model's fuel ran out.
pub data Scan : Type 0 where
  yields : Text → Text → Scan
  refused : Scan
  starved : Scan

-- `*p`, where `p` is not at the end, and `p++`
abbrev pub at : ℕ → Text → Bool
at c [] = false
at c (d ∷ p) = d == c

abbrev pub tail : Text → Text
tail [] = []
tail (c ∷ p) = p

-- the text that `c_str()` shows: up to the first terminator
unfoldable pub c_str : Text → Text
c_str [] = []
c_str (c ∷ p) = let rest = c ∷ c_str p in if c == 0 then [] else rest

-- SKIP_SPACES
unfoldable pub skip_spaces : Text → Text
skip_spaces [] = []
skip_spaces (c ∷ p) = let rest = skip_spaces p in if c == b' ' then rest else c ∷ p

-- The `switch (esc)` of `ExtractString`.
pub data Escape : Type 0 where
  push : ℕ → Escape
  skip_four : Escape
  unknown : Escape

unfoldable pub unescape : ℕ → Escape
unescape e =
    if e == b'"'
    then push b'"'
    else if e == b'\\'
    then push b'\\'
    else if e == b'/'
    then push b'/'
    else if e == b'b'
    then push 8
    else if e == b'f'
    then push 12
    else if e == b'n'
    then push 10
    else if e == b'r'
    then push 13
    else if e == b't'
    then push 9
    else if e == b'u'
    then skip_four
    else unknown

-- The `while` loop of `ExtractString`, with `s` the string so far and the number of hex digits
-- that are still to be skipped. The closing quote and the spaces behind it are passed over.
unfoldable pub string_loop : Text → ℕ → Text → Scan
unfolding unescape skip_spaces
string_loop s k [] = refused
string_loop s (suc k) (c ∷ p) = string_loop s k p
string_loop s zero (c ∷ []) = if c == b'"' then yields s [] else refused
string_loop s zero (c ∷ e ∷ p) = elim (c == b'"') [
  | true ↦ yields s (skip_spaces (e ∷ p))
  | false ↦ elim (c == b'\\') [
    | false ↦ string_loop (s ++ c ∷ []) zero (e ∷ p)
    | true ↦ elim (unescape e) [
      | push d ↦ string_loop (s ++ d ∷ []) zero p
      | skip_four ↦ string_loop s 4 p
      | unknown ↦ refused
    ]
  ]
]

unfoldable pub extract_string : Text → Scan
unfolding string_loop skip_spaces
extract_string p =
    let q = skip_spaces p in if at b'"' q then string_loop [] zero (tail q) else refused

-- The bytes up to the next space or one of `,}]`, and the text left.
abbrev pub ends_word : ℕ → Bool
ends_word c = c == b' ' || c == b',' || c == b'}' || c == b']'

unfoldable pub word_loop : Text → Text → Text × Text
word_loop s [] = (s, [])
word_loop s (c ∷ p) =
    let more = word_loop (s ++ c ∷ []) p in if ends_word c then (s, c ∷ p) else more

-- the test on `true`, `false` and `null`
unfoldable pub is_misspelt : Text → Bool
unfolding equal
is_misspelt s =
    (at b't' s && not (equal s (codes "true")))
    || (at b'f' s && not (equal s (codes "false")))
    || (at b'n' s && not (equal s (codes "null")))

unfoldable pub extract_word : Text → Scan
unfolding word_loop is_misspelt skip_spaces
extract_word p =
    let (s, q) = word_loop [] p in if is_misspelt s then refused else yields s (skip_spaces q)

-- The `switch (*p)` of `ExtractValue`.
pub data Kind : Type 0 where
  quoted object array word broken : Kind

unfoldable pub kind : Text → Kind
kind [] = broken
kind (c ∷ p) =
    if c == b'"'
    then quoted
    else if c == b'{'
    then object
    else if c == b'['
    then array
    else if c == b't' || c == b'f' || c == b'n' || c == b'-' || (leb b'0' c && leb c b'9')
    then word
    else broken

abbrev pub add_quotes : Bool → Scan → Scan
add_quotes true (yields s p) = yields (b'"' ∷ (s ++ b'"' ∷ [])) p
add_quotes _ r = r

-- `if (!s.empty()) s.append(",")`
abbrev pub comma : Text → Text
comma [] = []
comma (c ∷ s) = (c ∷ s) ++ b',' ∷ []

-- what stands behind the `for` loop: the closing bracket is checked, and the string wrapped
unfoldable pub close : ℕ → ℕ → Text → Text → Scan
unfolding skip_spaces
close left right s p =
    if at right p then yields (left ∷ (s ++ right ∷ [])) (skip_spaces (tail p)) else refused

unfoldable mutual
  -- ExtractValue
  pub extract_value : ℕ → Bool → Text → Scan
  extract_value zero quotes p = starved
  extract_value (suc f) quotes p = elim (kind (skip_spaces p)) [
    | quoted ↦ add_quotes quotes (extract_string (skip_spaces p))
    | object ↦ extract_object f (skip_spaces p)
    | array ↦ extract_array f (skip_spaces p)
    | word ↦ extract_word (skip_spaces p)
    | broken ↦ refused
  ]

  -- ExtractArrayAsString
  pub extract_array : ℕ → Text → Scan
  extract_array zero p = starved
  extract_array (suc f) p = elim (at b'[' (skip_spaces p)) [
    | true ↦ array_loop f [] (skip_spaces p)
    | false ↦ refused
  ]

  -- its `for` loop, which begins by `p++`
  pub array_loop : ℕ → Text → Text → Scan
  array_loop zero s p = starved
  array_loop (suc f) s p = elim (extract_value f true (tail p)) [
    | starved ↦ starved
    | refused ↦ close b'[' b']' s (tail p)
    | yields v q ↦ elim (at b']' q) [
      | true ↦ close b'[' b']' (comma s ++ v) q
      | false ↦ elim (at b',' q) [ true ↦ array_loop f (comma s ++ v) q | false ↦ refused ]
    ]
  ]

  -- ExtractObjectAsString
  pub extract_object : ℕ → Text → Scan
  extract_object zero p = starved
  extract_object (suc f) p = elim (at b'{' (skip_spaces p)) [
    | true ↦ object_loop f [] (skip_spaces p)
    | false ↦ refused
  ]

  pub object_loop : ℕ → Text → Text → Scan
  object_loop zero s p = starved
  object_loop (suc f) s p = elim (extract_string (tail p)) [
    | starved ↦ starved
    | refused ↦ close b'{' b'}' s (tail p)
    | yields name q ↦ elim (at b':' q) [
      | false ↦ refused
      | true ↦ elim (extract_value f true (tail q)) [
        | starved ↦ starved
        | refused ↦ refused
        | yields v r ↦
            let s' = comma s ++ (name ++ b':' ∷ v) in
            elim (at b'}' r) [
              | true ↦ close b'{' b'}' s' r
              | false ↦ elim (at b',' r) [ true ↦ object_loop f s' r | false ↦ refused ]
            ]
      ]
    ]
  ]

-- The `for` loop of `SimpleJsonParser`: what it returns and the map, which holds the pairs read before
-- a failure too. `none` says that the fuel ran out.
unfoldable pub member_loop : ℕ → Map → Text → Option (Bool × Map)
member_loop zero m p = none
member_loop (suc f) m p = elim (extract_string (tail p)) [
  | starved ↦ none
  | refused ↦ some (at b'}' (tail p), m)
  | yields name q ↦ elim (at b':' q) [
    | false ↦ some (false, m)
    | true ↦ elim (extract_value f false (tail q)) [
      | starved ↦ none
      | refused ↦ some (false, m)
      | yields v r ↦ elim (at b'}' r) [
        | true ↦ some (true, insert name v m)
        | false ↦ elim (at b',' r) [
          | true ↦ member_loop f (insert name v m) r
          | false ↦ some (false, insert name v m)
        ]
      ]
    ]
  ]
]

abbrev pub fuel_for : Text → ℕ
fuel_for p = 3 * length p + 1

-- SimpleJsonParser
unfoldable pub simple_json_parser : Text → Option (Bool × Map)
simple_json_parser text =
    let p = skip_spaces (c_str text) in
    if at b'{' p then member_loop (fuel_for p) [] p else some (false, [])
