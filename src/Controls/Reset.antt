-- ===== src/Controls/Reset.antt =====
-- resetToDefaults of web/cameraproperties.html: each control that the page has is given its default and
-- calls its own handler. What the browser makes of a value that a slider or a list is given is a
-- parameter. jQuery's `change()` runs the handler of a list once more, and the calls of `refresh` run
-- none, since the browser has put the value into its bounds before.
use my_streamer.Prelude.{Bool, true, false, ◌&&◌, List, [], ◌∷◌, none, some, if◌then◌else◌}
use my_streamer.Prelude.Text.{Text, codes, equal}
use my_streamer.Prelude.Assoc.{Map}
use my_streamer.Controls.{
  ControlType, int_type, bool_type, select_type, other_type, PropertyInfo, Page, value_of,
}
use my_streamer.Properties.{
  Vars, Request, handle_bool_property, handle_range_property, handle_selection_property,
}

module _ (stringify : Vars → Text) (accepts : PropertyInfo → Text → Text) where
  -- The control's post, before those of the controls behind it.
  abbrev pub reset_control : ControlType → Text → PropertyInfo → List Request → List Request
  reset_control int_type id info rest =
      handle_range_property stringify (record { id = id; value = accepts info info.def }) ∷ rest
  reset_control bool_type id info rest =
      handle_bool_property stringify (record { id = id; checked = equal info.def (codes "1") })
      ∷ rest
  reset_control select_type id info rest =
      let post =
        handle_selection_property stringify (record { id = id; value = accepts info info.def }) in
      post ∷ post ∷ rest
  reset_control other_type id info rest = rest

  unfoldable pub reset_each : Map → List (Text × PropertyInfo) → List Request
  unfolding value_of equal
  reset_each config [] = []
  reset_each config ((id, info) ∷ ps) =
      let rest = reset_each config ps in
      elim (value_of id config) [ none ↦ rest | some v ↦ reset_control info.type id info rest ]

  -- What is posted, and whether the function ends in the ReferenceError behind its loop.
  unfoldable pub reset_to_defaults : Page → List Request × Bool
  unfolding reset_each
  reset_to_defaults p =
      if p.config_loaded && p.properties_loaded
      then (reset_each p.config p.properties, true)
      else ([], false)
