-- ===== src/Properties/Tests.antt =====
-- A check box and a slider at work, and the theorems at concrete inputs. The engine's writer of JSON
-- is a function that meets what is assumed of it.
use Prim.Native.Nat.{ℕ, zero, suc}
use my_streamer.Prelude.{
  true, [], ◌∷◌, none, some, ◌≡◌, ◌≢◌, ◌↔◌, refl, arith, ◌==◌, ◌||◌, if◌then◌else◌, replicate,
}
use my_streamer.Prelude.Text.{Text, codes}
use my_streamer.Json.{simple_json_parser}
use my_streamer.Json.RoundTrip.{body, stored_in}
use my_streamer.Json.Strings.{Escaping, IsDigits}
use my_streamer.Properties.{
  number, text, CheckBox, Input, success, set_camera_properties, handle_bool_property,
  handle_range_property, handle_selection_property,
}
use my_streamer.Properties.Wire.{
  members_of, Stringify, set_camera_properties_parsed, controls_parsed, success-nil_iff,
}

abbrev pub esc : ℕ → Text
esc c = if c == b'"' || c == b'\\' then b'\\' ∷ c ∷ [] else c ∷ []

abbrev pub escaping : Escaping
escaping = record {
  esc = esc;
  esc_quote = refl;
  esc_backslash = refl;
  esc_plain = λ c h q b. ground arith;
}

-- numbers up to one, and the others by as many ones: enough for the controls
abbrev pub show : ℕ → Text
show zero = codes "0"
show (suc n) = replicate (suc n) b'1'

pub ones-IsDigits : (n : ℕ) → IsDigits (replicate n b'1')
ones-IsDigits zero = tt
ones-IsDigits (suc n) = (omega arith, ones-IsDigits n)

pub show-IsDigits : (n : ℕ) → IsDigits (show n)
show-IsDigits zero = omega arith
show-IsDigits (suc n) = ones-IsDigits (suc n)

pub show-ne-nil : (n : ℕ) → show n ≢ []
show-ne-nil zero e = cc
show-ne-nil (suc n) e = cc

abbrev pub engine : Stringify
engine = record {
  stringify = λ vars. b'{' ∷ body escaping (members_of show vars);
  show = show;
  escaping = escaping;
  show-IsDigits = show-IsDigits;
  show-ne-nil = show-ne-nil;
  show_zero = refl;
  show_one = refl;
  stringify_object = λ vars. refl;
}

abbrev pub flip : CheckBox
flip = record { id = codes "hflip"; checked = true }

abbrev pub slider : Input
slider = record { id = codes "hue"; value = codes "4\"2" }

posted : (handle_bool_property engine.stringify flip).body ≡ codes "{\"hflip\":1}"
unfolding handle_bool_property
posted = refl

complaint :
    success (record { status = some (codes "Unknown property"); property = some (codes "zoom") })
    ≡ codes "Failed setting camera property: Unknown property" ∷ codes "Property: zoom" ∷ []
unfolding success
complaint = refl

set_camera_properties_parsed_case :
    simple_json_parser
      (set_camera_properties engine.stringify
        ((codes "hue", text (codes "a\"b")) ∷ (codes "gain", number 1) ∷ [])).body
    ≡ some (
      true,
      stored_in []
          (members_of show ((codes "hue", text (codes "a\"b")) ∷ (codes "gain", number 1) ∷ [])),
    )
set_camera_properties_parsed_case =
    set_camera_properties_parsed engine
      ((codes "hue", text (codes "a\"b")) ∷ (codes "gain", number 1) ∷ []) (omega arith)

controls_parsed_case :
    (simple_json_parser (handle_bool_property engine.stringify flip).body
      ≡ some (true, (flip.id, (if flip.checked then codes "1" else codes "0")) ∷ []))
    × (simple_json_parser (handle_range_property engine.stringify slider).body
        ≡ some (true, (slider.id, slider.value) ∷ []))
    × (simple_json_parser (handle_selection_property engine.stringify slider).body
        ≡ some (true, (slider.id, slider.value) ∷ []))
controls_parsed_case = controls_parsed engine flip slider (omega arith) (omega arith) (omega arith)

success-nil_iff_case :
    (success (record { status = none; property = none }) ≡ []) ↔ (none ≡ some (codes "OK"))
success-nil_iff_case = success-nil_iff (record { status = none; property = none })
