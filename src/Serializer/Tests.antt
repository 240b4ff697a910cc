-- ===== src/Serializer/Tests.antt =====
-- A dictionary saved and loaded, and the theorems at it.
use my_streamer.Prelude.{◌≡◌, refl, [], ◌∷◌, some, true, arith}
use my_streamer.Prelude.Text.{Text, codes}
use my_streamer.Prelude.Assoc.{Map, put}
use my_streamer.Errors.{success}
use my_streamer.Serializer.{Configurator, save_configuration, load_configuration}
use my_streamer.Serializer.Restored.{AreWritable, set_all, load-save, load_configuration_total}

-- The object is its properties.
abbrev dictionary : Configurator
dictionary = record {
  Object = Map;
  set_property = λ n v m. (put n v m, success);
  get_all_properties = λ m. m;
}

abbrev two : Map
two = (codes "hue", codes "4") ∷ (codes "title", []) ∷ []

abbrev two_text : Text
two_text = codes "hue\n4\n\ntitle\n\n"

saved : save_configuration dictionary (codes "f") (some two) true ≡ (success, some two_text)
unfolding save_configuration
saved = refl

-- Blank lines and blanks at the ends of lines are passed over between properties.
loaded_blanks :
    load_configuration dictionary (codes "f") (some []) (some (codes "\n  \nhue\t\r\n4 \n"))
    ≡ some (success, some ((codes "hue", codes "4") ∷ []))
unfolding load_configuration put
loaded_blanks = refl

-- A name without a value sets nothing.
loaded_half :
    load_configuration dictionary (codes "f") (some []) (some (codes "hue"))
    ≡ some (success, some [])
unfolding load_configuration
loaded_half = refl

two-AreWritable : AreWritable two
two-AreWritable = (
  (
    (λ e. absurd (cc e), (refl, refl, (refl, refl, (refl, refl, refl))), omega arith),
    (refl, refl, refl),
    omega arith,
  ),
  (
    (
      (
        λ e. absurd (cc e),
        (refl, refl, (refl, refl, (refl, refl, (refl, refl, (refl, refl, refl))))),
        omega arith,
      ),
      tt,
      omega arith,
    ),
    tt,
  ),
)

load-save_example :
    load_configuration dictionary (codes "f") (some []) (some two_text)
    ≡ some (success, some (set_all dictionary two []))
load-save_example =
    load-save dictionary (codes "f") two [] two_text (λ e. absurd (cc e)) two-AreWritable saved

load_configuration_total_case :
    (o : Map) × (load_configuration dictionary (codes "f") (some two) (some two_text)
      ≡ some (success, some o))
load_configuration_total_case =
    load_configuration_total dictionary (codes "f") two two_text (λ e. absurd (cc e))
