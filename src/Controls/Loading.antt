-- ===== src/Controls/Loading.antt =====
-- The two replies, in any order.
use my_streamer.Prelude.{Bool, true, false, ◌&&◌, List, [], Option, none, some, if◌then◌else◌, ◌≡◌}
use my_streamer.Prelude.Text.{Text}
use my_streamer.Prelude.Assoc.{Map}
use my_streamer.Controls.{
  PropertyInfo, Page, properties_html, sort_properties, on_config, on_properties, get_settings,
  new_page,
}

-- the page, and which of the two requests is under way
pub record World : Type 0 where
  pub page : Page
  pub config_asked : Bool
  pub properties_asked : Bool

abbrev pub opened : World
opened = record { page = get_settings new_page; config_asked = true; properties_asked = true }

-- A reply comes, of status OK with the server's data or of another, or a request fails.
pub data Step (config : Map) (infos : List (Text × PropertyInfo)) : World → World → Type 0 where
  config_replied :
      {p : Page} {b : Bool} (ok : Bool)
      → Step config infos
          (record { page = p; config_asked = true; properties_asked = b })
          (record { page = on_config ok config p; config_asked = false; properties_asked = b })
  properties_replied :
      {p : Page} {a : Bool} (ok : Bool)
      → Step config infos
          (record { page = p; config_asked = a; properties_asked = true })
          (record { page = on_properties ok infos p; config_asked = a; properties_asked = false })
  config_failed :
      {p : Page} {b : Bool}
      → Step config infos
          (record { page = p; config_asked = true; properties_asked = b })
          (record { page = p; config_asked = false; properties_asked = b })
  properties_failed :
      {p : Page} {a : Bool}
      → Step config infos
          (record { page = p; config_asked = a; properties_asked = true })
          (record { page = p; config_asked = a; properties_asked = false })

pub data Steps (config : Map) (infos : List (Text × PropertyInfo)) : World → World → Type 0 where
  stays : {w : World} → Steps config infos w w
  goes : {u v w : World} → Steps config infos u v → Step config infos v w → Steps config infos u w

module _ (config : Map) (infos : List (Text × PropertyInfo)) where
  -- what is shown, by what has come
  abbrev pub whole : Bool → Bool → Option Text
  whole a b = if a && b then some (properties_html config (sort_properties infos)) else none

  -- A request that is under way has brought nothing yet.
  record IsLoading (w : World) : Type 0 where
    shows : w.page.shown ≡ whole w.page.config_loaded w.page.properties_loaded
    has_config : w.page.config_loaded ≡ true → w.page.config ≡ config
    has_properties :
        w.page.properties ≡ (if w.page.properties_loaded then sort_properties infos else [])
    config_waits : w.config_asked ≡ true → w.page.config_loaded ≡ false
    properties_wait : w.properties_asked ≡ true → w.page.properties_loaded ≡ false
