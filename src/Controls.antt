-- ===== src/Controls.antt =====
-- web/cameraproperties.html: the script that asks for the camera's settings and for what is known of each
-- property, and shows them once both have come. The values of the replies are texts, as the server sends
-- them, and no property has the name of one that every object has.
pub mod Defaults
pub mod Loading
pub mod Reset
mod Tests
use my_streamer.Prelude.{
  ℕ, Bool, true, false, ◌&&◌, List, [], ◌∷◌, ◌++◌, Option, none, some, ltb, if◌then◌else◌,
}
use my_streamer.Prelude.Text.{Text, codes, equal}
use my_streamer.Prelude.Assoc.{Map, lookup}

pub data ControlType : Type 0 where
  int_type bool_type select_type other_type : ControlType

pub record PropertyInfo : Type 0 where
  pub type : ControlType
  pub name : Text
  pub order : ℕ
  pub min : Text
  pub max : Text
  pub def : Text
  pub choices : List (Text × Text)

-- The variables of the script, and what the list of properties shows.
pub record Page : Type 0 where
  pub properties : List (Text × PropertyInfo)
  pub config : Map
  pub config_loaded : Bool
  pub properties_loaded : Bool
  pub shown : Option Text

-- `config[name]`, where it counts as true
unfoldable pub value_of : Text → Map → Option Text
unfolding lookup
value_of name config = elim (lookup name config) [
  | none ↦ none
  | some [] ↦ none
  | some (c ∷ t) ↦ some (c ∷ t)
]

abbrev pub quoted : Text → Text
quoted t = b'"' ∷ (t ++ (b'"' ∷ []))

abbrev pub label : Text → Text → Text → Text
label id name end =
    codes "<label for=" ++ (quoted id ++ (codes ">" ++ (name ++ (end ++ codes "</label>"))))

abbrev pub range_html : Text → Text → PropertyInfo → Text
range_html id value info =
    label id info.name (codes ":")
    ++ (codes "<input type=\"range\" id="
        ++ (quoted id
            ++ (codes " value="
                ++ (quoted value
                    ++ (codes " min="
                        ++ (quoted info.min
                            ++ (codes " max="
                                ++ (quoted info.max
                                    ++ codes
                                        "oninput=\"handleRangeProperty(this)\" onchange=\"handleRangeProperty(this)\" />"))))))))

abbrev pub check_html : Text → Text → PropertyInfo → Text
check_html id value info =
    codes "<input id="
    ++ (quoted id
        ++ (codes " type=\"checkbox\" "
            ++ ((if equal value (codes "0") then [] else codes "checked ")
                ++ (codes "data-min=\"true\" onclick=\"handleBoolProperty(this);\" />"
                    ++ label id info.name []))))

unfoldable pub options_html : Text → List (Text × Text) → Text
unfolding equal
options_html value [] = []
options_html value ((choice, name) ∷ cs) =
    codes "<option value="
    ++ (quoted choice
        ++ ((if equal choice value then codes " selected" else [])
            ++ (codes ">" ++ (name ++ (codes "</option>" ++ options_html value cs)))))

abbrev pub select_html : Text → Text → PropertyInfo → Text
select_html id value info =
    label id info.name (codes ":")
    ++ (codes "<select id="
        ++ (quoted id
            ++ (codes " data-mini=\"true\" onchange=\"handleSelectionProperty(this)\">"
                ++ (options_html value info.choices ++ codes "</select>"))))

abbrev pub control_html : ControlType → Text → Text → PropertyInfo → Text
control_html int_type id value info = range_html id value info
control_html bool_type id value info = check_html id value info
control_html select_type id value info = select_html id value info
control_html other_type id value info = []

abbrev pub property_html : Option Text → Text → PropertyInfo → Text
property_html none id info = []
property_html (some value) id info =
    codes "<div id=\"div_"
    ++ (id ++ (codes "\">" ++ (control_html info.type id value info ++ codes "</div>")))

unfoldable pub properties_html : Map → List (Text × PropertyInfo) → Text
unfolding value_of options_html
properties_html config [] = []
properties_html config ((id, info) ∷ ps) =
    property_html (value_of id config) id info ++ properties_html config ps

abbrev pub show_settings : Page → Page
show_settings p =
    if p.config_loaded && p.properties_loaded
    then record p { shown = some (properties_html p.config p.properties) }
    else p

-- `sort(compare)`, which keeps the order of those with the same number
unfoldable pub insert_ordered :
    Text × PropertyInfo → List (Text × PropertyInfo) → List (Text × PropertyInfo)
insert_ordered (n, i) [] = (n, i) ∷ []
insert_ordered (n, i) ((m, j) ∷ ps) =
    if ltb j.order i.order then (m, j) ∷ insert_ordered (n, i) ps else (n, i) ∷ (m, j) ∷ ps

unfoldable pub sort_properties : List (Text × PropertyInfo) → List (Text × PropertyInfo)
unfolding insert_ordered
sort_properties [] = []
sort_properties (p ∷ ps) = insert_ordered p (sort_properties ps)

-- the callbacks, by whether the status is OK
abbrev pub on_config : Bool → Map → Page → Page
on_config false config p = p
on_config true config p = show_settings (record p { config = config; config_loaded = true })

abbrev pub on_properties : Bool → List (Text × PropertyInfo) → Page → Page
on_properties false infos p = p
on_properties true infos p =
    show_settings
      (record p { properties = sort_properties (p.properties ++ infos); properties_loaded = true })

-- getSettings, up to its two requests
abbrev pub get_settings : Page → Page
get_settings p = record p { config_loaded = false; properties_loaded = false }

abbrev pub new_page : Page
new_page = record {
  properties = [];
  config = [];
  config_loaded = false;
  properties_loaded = false;
  shown = none;
}
