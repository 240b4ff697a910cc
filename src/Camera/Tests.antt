-- ===== src/Camera/Tests.antt =====
-- A device that takes every whole number that is not negative, and the theorems at concrete inputs.
use my_streamer.Prelude.{
  subst, ap, ◌/◌, ◌%◌, ◌≤◌, zero, suc, ltb, length, refl, arith, ◌*◌, ◌+◌, ◌-◌, inl, inr, ℕ, Bool,
  true, false, List, [], ◌∷◌, Option, none, some, ◌≡◌, ◌&&◌, leb, refl, if◌then◌else◌,
}
use mathlib.Core.Option.{some-injective}
use my_streamer.Prelude.Int.{ℤ, pos, negsuc}
use my_streamer.Prelude.Text.{Text, codes}
use my_streamer.Prelude.Assoc.{insert}
use my_streamer.Errors.{success, unknown_property, is_success}
use my_streamer.Camera.{
  hue, gain, NativeId, Device, CameraData, set_video_property, apply_properties, put,
}
use my_streamer.Camera.ReadBack.{get_property-set_property}
use my_streamer.Camera.Config.{
  PropertyInformation, type_int, Format, set_property, get_property, beyond_gain_refused,
  find_property,
}
use my_streamer.Camera.Ranges.{QueryControl, Queries, range_of, get_video_property_range}
use my_streamer.Camera.Info.{get_info, get_all_info}
use my_streamer.Camera.Fits.{IsRange32, Prints32, Answers32, get_info_fits}
use my_streamer.Camera.Offered.{Reaches, offered_settable}
use my_streamer.Camera.Deferred.{opened, deferred-eq-direct}

abbrev pub write : Option NativeId → ℤ → List (NativeId × ℤ) → List (NativeId × ℤ) × Bool
write (some n) (pos v) d = ((n, pos v) ∷ d, true)
write _ _ d = (d, false)

abbrev pub read : Option NativeId → List (NativeId × ℤ) → Option ℤ
read (some n) ((m, v) ∷ d) = some v
read _ _ = none

-- It keeps what is written, and reads back what was written last.
abbrev pub recorder : Device
recorder = record { Dev = List (NativeId × ℤ); s_ctrl = write; g_ctrl = read }

abbrev pub scan_digits : Text → ℕ → ℕ
scan_digits [] n = n
scan_digits (c ∷ t) n = if leb b'0' c && leb c b'9' then scan_digits t (10 * n + (c - b'0')) else n

abbrev pub scan : Text → Option ℤ
scan [] = none
scan (c ∷ t) = if leb b'0' c && leb c b'9' then some (pos (scan_digits (c ∷ t) 0)) else none

-- one digit is enough here
abbrev pub print : ℤ → Text
print (pos n) = (b'0' + n) ∷ []
print (negsuc n) = b'-' ∷ (b'1' + n) ∷ []

abbrev pub decimal : Format
decimal = record { scan_int = scan; print_int = print }

abbrev pub stopped : CameraData (List (NativeId × ℤ))
stopped = record { running = false; video_open = false; properties_to_set = []; device = [] }

kept_then_set :
    (set_property recorder decimal (codes "hue") (codes "42") stopped)
    ≡ (record stopped { properties_to_set = (hue, pos 42) ∷ [] }, success)
unfolding set_property set_video_property find_property put
kept_then_set = refl

beyond_gain_refused_case :
    (set_property recorder decimal (codes "hflip") (codes "1") (opened recorder stopped)
      ≡ (opened recorder stopped, unknown_property))
    × (get_property recorder decimal (codes "hflip") (opened recorder stopped)
        ≡ (unknown_property, none))
beyond_gain_refused_case =
    beyond_gain_refused recorder decimal (codes "hflip") (codes "1") (pos 1)
      (opened recorder stopped) (inr (inr (inr (inr (inl refl))))) refl

deferred-eq-direct_example :
    let kept = set_video_property recorder gain (pos 7) stopped in
    let direct = set_video_property recorder gain (pos 7) (opened recorder stopped) in
    let (after, config_ok) = apply_properties recorder (opened recorder kept.0) in
    (kept.1 ≡ success)
    × (kept.0.device ≡ stopped.device)
    × (after ≡ direct.0)
    × (config_ok ≡ is_success direct.1)
deferred-eq-direct_example = deferred-eq-direct recorder gain (pos 7) stopped refl refl refl

abbrev hue_information : PropertyInformation
hue_information = record {
  video_property = hue;
  value_type = type_int;
  order = 3;
  name = codes "Hue";
}

hue_known : find_property (codes "hue") ≡ some hue_information
unfolding find_property
hue_known = refl

get_property-set_property_case :
    ((set_property recorder decimal (codes "hue") (codes "4") (opened recorder stopped)).1
      ≡ success)
    × (get_property recorder decimal
          (codes "hue")
          (set_property recorder decimal (codes "hue") (codes "4") (opened recorder stopped)).0
        ≡ (success, some (print (pos 4))))
get_property-set_property_case =
    get_property-set_property recorder decimal (codes "hue") (codes "4") (pos 4)
      (opened recorder stopped) hue_information hue_known refl refl refl refl refl

-- ten digits at most
digits_upto : ℕ → ℕ → Text → Text
digits_upto zero n t = t
digits_upto (suc k) n t =
    let rest = digits_upto k (n / 10) ((b'0' + n % 10) ∷ t) in
    if ltb n 10 then (b'0' + n) ∷ t else rest

length-digits_upto : (k n : ℕ) (t : Text) → length (digits_upto k n t) ≤ k + length t
unfolding digits_upto
length-digits_upto zero n t = omega arith
length-digits_upto (suc k) n t = grind (arith, length-digits_upto k (n / 10) ((b'0' + n % 10) ∷ t))

print_ten : ℤ → Text
unfolding digits_upto
print_ten (pos n) = digits_upto 10 n []
print_ten (negsuc n) = b'-' ∷ digits_upto 10 (suc n) []

abbrev ten_digits : Format
ten_digits = record { scan_int = scan; print_int = print_ten }

ten_digits-Prints32 : Prints32 ten_digits
unfolding print_ten
ten_digits-Prints32 (pos n) h = omega (arith, length-digits_upto 10 n [])
ten_digits-Prints32 (negsuc n) h = omega (arith, length-digits_upto 10 (suc n) [])

-- every control is a number from -180 to 180
abbrev degrees : QueryControl
degrees = record {
  flags = 0;
  type = 1;
  minimum = negsuc 179;
  maximum = pos 180;
  step = pos 1;
  default_value = pos 0;
}

abbrev asked : Option NativeId → List (NativeId × ℤ) → Option QueryControl
asked n d = some degrees

abbrev wheel : Queries (List (NativeId × ℤ))
wheel = record { queryctrl = asked; flag_disabled = 1; type_boolean = 2; type_integer = 1 }

hue_told : get_info wheel ten_digits (codes "hue") (opened recorder stopped) ≡ (
  success,
  some (codes "{\"min\":-180,\"max\":180,\"def\":0,\"type\":\"int\",\"order\":3,\"name\":\"Hue\"}"),
)
unfolding get_info get_video_property_range find_property print_ten
hue_told = refl

six_told : length (get_all_info wheel ten_digits (opened recorder stopped)) ≡ 6
unfolding get_all_info get_info get_video_property_range find_property insert
six_told = refl

wheel-Answers32 : Answers32 wheel
wheel-Answers32 n d q e =
    subst (λ x. IsRange32 (range_of x)) (some-injective degrees q e)
      (
        (omega arith, omega arith),
        (omega arith, omega arith),
        (omega arith, omega arith),
        (omega arith, omega arith),
      )

get_info_fits_example :
    suc (
      length (
        codes "{\"min\":-180,\"max\":180,\"def\":0,\"type\":\"int\",\"order\":3,\"name\":\"Hue\"}"))
    ≤ 128
get_info_fits_example =
    get_info_fits wheel ten_digits (codes "hue") (opened recorder stopped) _ ten_digits-Prints32
      wheel-Answers32 (ap (λ x. x.1) hue_told)

offered_settable_example :
    Reaches recorder ten_digits (codes "hue") (codes "42") (pos 42) (opened recorder stopped)
offered_settable_example =
    offered_settable recorder ten_digits wheel (codes "hue") (codes "42") (pos 42)
      (opened recorder stopped) (ap (λ x. x.0) hue_told) refl
