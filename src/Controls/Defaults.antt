-- ===== src/Controls/Defaults.antt =====
-- The settings page's button for the defaults, and what HandlePostRequest makes of its posts. In the
-- program nothing calls HandlePostRequest, so no post comes to it.
use my_streamer.Prelude.{
  Bool, true, false, ◌&&◌, List, [], ◌∷◌, Option, none, some, ◌≡◌, refl, ap, ◌∙◌, if◌then◌else◌,
}
use my_streamer.Prelude.Text.{Text, codes, equal}
use my_streamer.Prelude.Assoc.{Map}
use my_streamer.Json.Strings.{IsPrintable}
use my_streamer.Camera.{Device, CameraData}
use my_streamer.Camera.Config.{Format, set_property}
use my_streamer.Properties.{Request, Input, handle_selection_property}
use my_streamer.Properties.Wire.{Stringify}
use my_streamer.Http.Response.{HttpResponse}
use my_streamer.Service.{handle_post_request}
use my_streamer.Service.Page.{controls_applied}
use my_streamer.Controls.{
  ControlType, int_type, bool_type, select_type, other_type, PropertyInfo, Page, value_of,
}
use my_streamer.Controls.Reset.{reset_control, reset_each, reset_to_defaults}

module _ (accepts : PropertyInfo → Text → Text) where
  -- the names and texts whose characters can be posted
  abbrev pub AllPrintable : List (Text × PropertyInfo) → Type 0
  AllPrintable [] = Unit
  AllPrintable ((id, info) ∷ ps) =
      IsPrintable id × IsPrintable (accepts info info.def) × AllPrintable ps

  module _ (dev : Device) (format : Format) where
    open dev use {Dev}

    -- HandlePostRequest on the posts, one after the other, each with a new response.
    abbrev pub serve_each : List Request → HttpResponse → CameraData Dev → Option (CameraData Dev)
    serve_each [] r c = some c
    serve_each (q ∷ qs) r c = elim (handle_post_request dev format q.body c r) [
      | none ↦ none
      | some (c', out) ↦ serve_each qs r c'
    ]

    abbrev pub set_default : ControlType → Text → PropertyInfo → CameraData Dev → CameraData Dev
    set_default int_type id info c = (set_property dev format id (accepts info info.def) c).0
    set_default bool_type id info c =
        (set_property dev format id (if equal info.def (codes "1") then codes "1" else codes "0")
          c).0
    set_default select_type id info c =
        (set_property dev format id (accepts info info.def)
          (set_property dev format id (accepts info info.def) c).0).0
    set_default other_type id info c = c

    -- the camera, with each property that has a value set to its default, in order
    abbrev pub with_defaults : Map → List (Text × PropertyInfo) → CameraData Dev → CameraData Dev
    with_defaults config [] c = c
    with_defaults config ((id, info) ∷ ps) c =
        with_defaults config ps
          (elim (value_of id config) [ none ↦ c | some v ↦ set_default info.type id info c ])

    module _ (j : Stringify) where
      -- what is left of the posts, behind the first
      go_on :
          List Request
          → HttpResponse
          → Option (CameraData Dev × HttpResponse)
          → Option (CameraData Dev)
      go_on rest r o = elim o [ none ↦ none | some (c, out) ↦ serve_each rest r c ]

      control_served :
          (t : ControlType) (id : Text) (info : PropertyInfo) (rest : List Request)
          (r : HttpResponse) (c : CameraData Dev)
          → IsPrintable id
          → IsPrintable (accepts info info.def)
          → serve_each (reset_control j.stringify accepts t id info rest) r c
            ≡ serve_each rest r (set_default t id info c)
      unfolding go_on
      control_served int_type id info rest r c p q =
          let (a, b, d) =
            controls_applied dev format j (record { id = id; checked = true })
              (record { id = id; value = accepts info info.def }) c r p p q in
          ap (go_on rest r) b
      control_served bool_type id info rest r c p q =
          let (a, b, d) =
            controls_applied dev format j (record { id = id; checked = equal info.def (codes "1") })
              (record { id = id; value = accepts info info.def }) c r p p q in
          ap (go_on rest r) a
      control_served select_type id info rest r c p q =
          let i : Input = record { id = id; value = accepts info info.def } in
          let c' = (set_property dev format id i.value c).0 in
          let (a, b, d) =
            controls_applied dev format j (record { id = id; checked = true }) i c r p p q in
          let (a', b', d') =
            controls_applied dev format j (record { id = id; checked = true }) i c' r p p q in
          ap (go_on (handle_selection_property j.stringify i ∷ rest) r) d ∙ ap (go_on rest r) d'
      control_served other_type id info rest r c p q = refl

      reset_each_served :
          (config : Map) (ps : List (Text × PropertyInfo)) (r : HttpResponse) (c : CameraData Dev)
          → AllPrintable ps
          → serve_each (reset_each j.stringify accepts config ps) r c
            ≡ some (with_defaults config ps c)
      unfolding reset_each
      reset_each_served config [] r c h = refl
      reset_each_served config ((id, info) ∷ ps) r c (p, q, h) =
          let rest = reset_each j.stringify accepts config ps in
          elim (value_of id config)
            as (λ o.
              serve_each
                (elim o [
                  | none ↦ rest
                  | some v ↦ reset_control j.stringify accepts info.type id info rest
                ])
                r c
              ≡ some (
                  with_defaults config ps
                    (elim o [ none ↦ c | some v ↦ set_default info.type id info c ]))) [
                      | none ↦ reset_each_served config ps r c h
                      | some v ↦
                          control_served info.type id info rest r c p q
                          ∙ reset_each_served config ps r (set_default info.type id info c) h
                    ]

      -- On a page that both replies have reached, where no name and no default holds a control character:
      -- the button for the defaults makes posts of which HandlePostRequest, if it is given their bodies in
      -- order, which nothing in the program does, sets each property that has a control to its default, in
      -- the order of the page, and nothing else: a list twice, and a check box to "1" where the default is
      -- "1" and to "0" elsewhere. The button's function then ends in an error.
      pub defaults_applied :
          (p : Page) (r : HttpResponse) (c : CameraData Dev)
          → (p.config_loaded && p.properties_loaded) ≡ true
          → AllPrintable p.properties
          → (serve_each (reset_to_defaults j.stringify accepts p).0 r c
              ≡ some (with_defaults p.config p.properties c))
            × ((reset_to_defaults j.stringify accepts p).1 ≡ true)
      unfolding reset_to_defaults
      defaults_applied p r c l h =
          let choose : Bool → List Request × Bool = λ b.
            if b
            then (reset_each j.stringify accepts p.config p.properties, true)
            else ([], false) in
          (
            ap (λ b. serve_each (choose b).0 r c) l ∙ reset_each_served p.config p.properties r c h,
            ap (λ b. (choose b).1) l,
          )
