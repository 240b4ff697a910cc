-- ===== src/Service/Get.antt =====
-- HandleGetRequest of webcamera/web_camera_control_handler.cpp, with StringReplace of
-- base/base_str_tools.cpp.
pub mod Names
use my_streamer.Prelude.{
  ℕ, zero, suc, ◌-◌, Bool, true, false, ◌&&◌, List, [], ◌∷◌, ◌++◌, Option, none, some, ◌==◌, leb,
  if◌then◌else◌, length,
}
use my_streamer.Prelude.Text.{Text, codes}
use my_streamer.Prelude.Assoc.{Map, insert}
use my_streamer.Errors.{is_success}
use my_streamer.Camera.{Device, CameraData}
use my_streamer.Camera.Config.{Format, get_property, get_all_properties}
use my_streamer.Json.{simple_json_parser}
use my_streamer.Http.Response.{HttpResponse}
use my_streamer.Service.{answer}

-- the text begins with this one
abbrev pub starts_with : Text → Text → Bool
starts_with [] t = true
starts_with (x ∷ xs) [] = false
starts_with (x ∷ xs) (y ∷ ys) = x == y && starts_with xs ys

-- The search goes on behind what was put in; `skip` characters of what was found are left.
unfoldable pub replace_from : Text → Text → ℕ → Text → Text
replace_from look with skip [] = []
replace_from look with (suc skip) (c ∷ t) = replace_from look with skip t
replace_from look with zero (c ∷ t) =
    if starts_with look (c ∷ t)
    then with ++ replace_from look with (length look - 1) t
    else c ∷ replace_from look with 0 t

-- StringReplace
unfoldable pub string_replace : Text → Text → Text → Text
unfolding replace_from
string_replace t [] with = t
string_replace t (c ∷ look) with = replace_from (c ∷ look) with 0 t

-- an empty name is passed over
abbrev pub named : Text → List Text → List Text
named [] names = names
named (c ∷ t) names = (c ∷ t) ∷ names

-- The two loops over the names: what was read of a name, and what is left. A NUL ends the list.
unfoldable pub names_from : Text → Text → List Text
names_from name [] = named name []
names_from name (c ∷ t) =
    if c == 0
    then named name []
    else if c == b','
    then named name (names_from [] t)
    else names_from (name ++ (c ∷ [])) t

abbrev pub last_is : ℕ → Text → Bool
last_is c [] = false
last_is c (d ∷ []) = d == c
last_is c (d ∷ e ∷ t) = last_is c (e ∷ t)

abbrev pub first_is : ℕ → Text → Bool
first_is c [] = false
first_is c (d ∷ t) = d == c

abbrev pub is_parsed : Option (Bool × Map) → Bool
is_parsed none = false
is_parsed (some (b, m)) = b

-- the value is JSON already
unfoldable pub is_serialized : Text → Bool
is_serialized v =
    (leb 2 (length v) && first_is b'{' v && last_is b'}' v) && is_parsed (simple_json_parser v)

unfoldable pub value_text : Text → Text
unfolding is_serialized string_replace
value_text v =
    if is_serialized v
    then v
    else b'"' ∷ (string_replace v (codes "\"") (codes "\\\"") ++ codes "\"")

-- the loop over the values, with `first`
unfoldable pub entries : Bool → Map → Text
unfolding value_text
entries first [] = []
entries first ((k, v) ∷ m) =
    (if first then [] else codes ",")
    ++ (b'"' ∷ (k ++ (codes "\":" ++ (value_text v ++ entries false m))))

unfoldable pub config_text : Map → Text
unfolding entries
config_text m = codes "{\"status\":\"OK\",\"config\":{" ++ (entries true m ++ codes "}}")

module _ (dev : Device) (format : Format) where
  open dev use {Dev}

  -- a name whose property is not read is left out
  unfoldable pub collect : List Text → CameraData Dev → Map → Map
  collect [] c m = m
  collect (n ∷ ns) c m =
      let (e, v) = get_property dev format n c in
      collect ns c (if is_success e then insert n (elim v [ none ↦ [] | some t ↦ t ]) m else m)

  -- all values, or those of the names
  abbrev pub values_for : Text → CameraData Dev → Map
  values_for [] c = get_all_properties dev format c
  values_for (v ∷ vars) c = collect (names_from [] (v ∷ vars)) c []

  unfoldable pub handle_get_request : CameraData Dev → Text → HttpResponse → HttpResponse
  unfolding names_from collect config_text
  handle_get_request c vars r = answer (config_text (values_for vars c)) r
