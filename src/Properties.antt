-- ===== src/Properties.antt =====
-- web/cameraproperties.js: the settings controls of the page, which post a property of the camera to
-- the server, and web/cameraproperties.html's reading of the answer is not part of it.
pub mod Wire
pub mod Tests
use my_streamer.Prelude.{
  ℕ, Bool, true, false, not, List, [], ◌∷◌, ◌++◌, Option, none, some, if◌then◌else◌,
}
use my_streamer.Prelude.Text.{Text, codes, equal}

-- A value of `variablesMap`.
pub data Value : Type 0 where
  number : ℕ → Value
  text : Text → Value

abbrev pub Vars : Type 0
Vars = List (Text × Value)

-- The object that `$.ajax` is given, without its two callbacks.
pub record Request : Type 0 where
  pub type_of : Text
  pub url : Text
  pub body : Text
  pub content_type : Text
  pub data_type : Text
  pub async : Bool

-- The fields of an answer that the callback reads; `none` is `undefined`.
pub record Reply : Type 0 where
  pub status : Option Text
  pub property : Option Text

-- the controls of the page, as far as the handlers read them
pub record CheckBox : Type 0 where
  pub id : Text
  pub checked : Bool

pub record Input : Type 0 where
  pub id : Text
  pub value : Text

-- a text behind `+`
abbrev pub shown : Option Text → Text
shown none = codes "undefined"
shown (some t) = t

-- `data.status != "OK"`
unfoldable pub is_not_ok : Option Text → Bool
unfolding equal
is_not_ok none = true
is_not_ok (some t) = not (equal t (codes "OK"))

-- the line on the property, where `data.property` is set and not empty
abbrev pub property_line : Option Text → List Text
property_line none = []
property_line (some []) = []
property_line (some (c ∷ t)) = (codes "Property: " ++ c ∷ t) ∷ []

-- The callback `success`: the lines that it writes to the console.
unfoldable pub success : Reply → List Text
unfolding is_not_ok
success r =
    if is_not_ok r.status
    then (codes "Failed setting camera property: " ++ shown r.status) ∷ property_line r.property
    else []

-- The callback `failure`.
unfoldable pub failure : Text → List Text
failure message = message ∷ []

-- `JSON.stringify` is the engine's.
module _ (stringify : Vars → Text) where
  unfoldable pub set_camera_properties : Vars → Request
  set_camera_properties vars = record {
    type_of = codes "POST";
    url = codes "/camera/config";
    body = stringify vars;
    content_type = codes "application/json; charset=utf-8";
    data_type = codes "json";
    async = true;
  }

  unfoldable pub set_camera_property : Text → Value → Request
  unfolding set_camera_properties
  set_camera_property name value = set_camera_properties ((name, value) ∷ [])

  unfoldable pub handle_bool_property : CheckBox → Request
  unfolding set_camera_property
  handle_bool_property cb = set_camera_property cb.id (number (if cb.checked then 1 else 0))

  unfoldable pub handle_range_property : Input → Request
  unfolding set_camera_property
  handle_range_property range = set_camera_property range.id (text range.value)

  unfoldable pub handle_selection_property : Input → Request
  unfolding set_camera_property
  handle_selection_property selection = set_camera_property selection.id (text selection.value)
