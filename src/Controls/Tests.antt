-- ===== src/Controls/Tests.antt =====
-- The page with two properties, and its button for the defaults.
use my_streamer.Prelude.{none, map, arith, true, false, List, [], ◌∷◌, some, ◌≡◌, refl}
use my_streamer.Prelude.Text.{Text, codes, equal}
use my_streamer.Prelude.Assoc.{Map, lookup}
use my_streamer.Controls.{
  Page, PropertyInfo, int_type, bool_type, value_of, properties_html, insert_ordered,
  sort_properties, on_config, on_properties, get_settings, new_page,
}
use my_streamer.Camera.Tests.{recorder, decimal, stopped}
use my_streamer.Properties.Tests.{engine}
use my_streamer.Properties.{handle_bool_property, handle_range_property}
use my_streamer.Http.Response.{new}
use my_streamer.Controls.Reset.{reset_to_defaults}
use my_streamer.Controls.Defaults.{serve_each, with_defaults, defaults_applied}
use my_streamer.Controls.Loading.{World}

abbrev hue : PropertyInfo
hue = record {
  type = int_type;
  name = codes "Hue";
  order = 2;
  min = codes "0";
  max = codes "9";
  def = codes "4";
  choices = [];
}

abbrev flip : PropertyInfo
flip = record {
  type = bool_type;
  name = codes "Flip";
  order = 1;
  min = [];
  max = [];
  def = codes "0";
  choices = [];
}

abbrev infos : List (Text × PropertyInfo)
infos = (codes "hue", hue) ∷ (codes "flip", flip) ∷ []

-- The hue has no value.
abbrev config : Map
config = (codes "flip", codes "1") ∷ []

one_control :
    properties_html config (sort_properties infos)
    ≡ codes
        "<div id=\"div_flip\"><input id=\"flip\" type=\"checkbox\" checked data-min=\"true\" onclick=\"handleBoolProperty(this);\" /><label for=\"flip\">Flip</label></div>"
unfolding properties_html sort_properties insert_ordered value_of lookup equal
one_control = refl

abbrev both : World
both = record {
  page = on_config true config (on_properties true infos (get_settings new_page));
  config_asked = false;
  properties_asked = false;
}

abbrev accepts : PropertyInfo → Text → Text
accepts info t = t

abbrev ready : Page
ready = record {
  properties = (codes "flip", flip) ∷ (codes "hue", hue) ∷ [];
  config = (codes "flip", codes "1") ∷ (codes "hue", codes "7") ∷ [];
  config_loaded = true;
  properties_loaded = true;
  shown = none;
}

two_posts :
    map (λ q. q.body) (reset_to_defaults engine.stringify accepts ready).0
    ≡ codes "{\"flip\":0}" ∷ codes "{\"hue\":\"4\"}" ∷ []
unfolding reset_to_defaults handle_bool_property handle_range_property
two_posts = refl

defaults_applied_example :
    (serve_each accepts recorder decimal
        (reset_to_defaults engine.stringify accepts ready).0
        (new true)
        stopped
      ≡ some (with_defaults accepts recorder decimal ready.config ready.properties stopped))
    × ((reset_to_defaults engine.stringify accepts ready).1 ≡ true)
defaults_applied_example =
    defaults_applied accepts recorder decimal engine ready (new true) stopped refl (omega arith)
