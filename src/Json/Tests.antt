-- ===== src/Json/Tests.antt =====
-- Runs of the parser, and its theorems at concrete inputs.
use my_streamer.Prelude.{
  ◌||◌, Bool, true, false, [], ◌∷◌, some, ◌≡◌, refl, arith, ◌==◌, if◌then◌else◌,
}
use my_streamer.Prelude.Text.{codes}
use my_streamer.Prelude.Assoc.{Map}
use my_streamer.Json.Fuel.{simple_json_parser_total}
use my_streamer.Json.Strings.{Escaping}
use my_streamer.Json.RoundTrip.{Members, string, digits, body, stored_in, parser-body}
use my_streamer.Prelude.Assoc.{insert}
use my_streamer.Json.{
  simple_json_parser, member_loop, extract_value, extract_string, extract_word, kind, close, c_str,
}

accepts :
    simple_json_parser (codes " {\"b\" : 12, \"a\":\"x\\\"y\", \"b\":3}")
    ≡ some (true, (codes "a", codes "x\"y") ∷ (codes "b", codes "12") ∷ [])
unfolding simple_json_parser member_loop extract_value extract_string extract_word kind close c_str
    insert
accepts = refl

nested :
    simple_json_parser (codes "{\"a\":[1,[],\"t\" ],\"o\":{\"k\":null}}")
    ≡ some (true, (codes "a", codes "[1,[],\"t\"]") ∷ (codes "o", codes "{k:null}") ∷ [])
unfolding simple_json_parser member_loop extract_value extract_string extract_word kind close c_str
    insert
nested = refl

-- A comma before the closing brace is accepted, a space between empty braces is not.
lenient : simple_json_parser (codes "{\"a\":1,}") ≡ some (true, (codes "a", codes "1") ∷ [])
unfolding simple_json_parser member_loop extract_value extract_string extract_word kind close c_str
    insert
lenient = refl

strict : simple_json_parser (codes "{ }") ≡ some (false, [])
unfolding simple_json_parser member_loop extract_value extract_string extract_word kind close c_str
    insert
strict = refl

-- a writer that puts a backslash before quotes and backslashes
abbrev escaping : Escaping
escaping = record {
  esc = λ c. if c == b'"' || c == b'\\' then b'\\' ∷ c ∷ [] else c ∷ [];
  esc_quote = refl;
  esc_backslash = refl;
  esc_plain = λ c h q b. ground arith;
}

abbrev settings : Members
settings =
    (codes "hue", string (codes "a\"\\b"))
    ∷ (codes "gain", digits (codes "12"))
    ∷ (codes "hue", digits (codes "7"))
    ∷ []

settings_stored :
    stored_in [] settings ≡ (codes "gain", codes "12") ∷ (codes "hue", codes "a\"\\b") ∷ []
unfolding insert
settings_stored = refl

parser-body_example :
    simple_json_parser (b'{' ∷ body escaping settings) ≡ some (true, stored_in [] settings)
parser-body_example = parser-body escaping settings (
  omega arith,
  omega arith,
  (omega arith, (omega arith, λ e. cc), (omega arith, (omega arith, λ e. cc), tt)),
)

simple_json_parser_total_example :
    (r : Bool × Map) × (simple_json_parser (codes "{\"a\":[1") ≡ some r)
simple_json_parser_total_example = simple_json_parser_total (codes "{\"a\":[1")
