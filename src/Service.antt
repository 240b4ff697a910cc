-- ===== src/Service.antt =====
-- webcamera/web_camera_control_handler.cpp: the camera's properties over HTTP. A response is filled
-- in, so each function takes one and returns it.
pub mod Post
pub mod Page
pub mod Get
pub mod Handlers
mod Tests
use my_streamer.Prelude.{
  ℕ, Bool, true, false, List, [], ◌∷◌, ◌++◌, Option, none, some, if◌then◌else◌,
}
use my_streamer.Prelude.Text.{Text, codes}
use my_streamer.Prelude.Assoc.{Map}
use my_streamer.Errors.{ErrorCode, success, unknown_property, invalid_property_value}
use my_streamer.Camera.{Device, CameraData}
use my_streamer.Camera.Config.{Format, set_property}
use my_streamer.Json.{simple_json_parser}
use my_streamer.Http.Response.{HttpResponse, ok, add_header, set_content_type}

-- `StatusOK`, `StatusInvalidJson` and the other texts; the `switch` on the error code
abbrev pub status_ok : Text
status_ok = codes "OK"

abbrev pub status_invalid_json : Text
status_invalid_json = codes "Invalid JSON object"

unfoldable pub status_of : ErrorCode → Text
status_of unknown_property = codes "Unknown property"
status_of invalid_property_value = codes "Invalid property value"
status_of _ = codes "Failed setting property"

-- The loop's variables: the camera, `status` and `failedProperty`.
pub record Progress (D : Type 0) : Type 0 where
  pub camera : CameraData D
  pub status : Text
  pub failed_property : Text

-- The text of the answer.
abbrev pub property_part : Text → Text
property_part [] = []
property_part (c ∷ t) = codes "\",\"property\":\"" ++ c ∷ t

unfoldable pub reply_text : Text → Text → Text
reply_text status failed_property =
    codes "{\"status\":\"" ++ (status ++ (property_part failed_property ++ codes "\"}"))

-- what both handlers fill in around their answer
unfoldable pub answer : Text → HttpResponse → HttpResponse
unfolding add_header set_content_type
answer reply r =
    let a =
      set_content_type (codes "application/json")
        (record r { status_code = ok; status_message = codes "OK" }) in
    let b = add_header (codes "Cache-Control") (codes "no-store, must-revalidate") a in
    let d =
      add_header (codes "Expires") (codes "0") (add_header (codes "Pragma") (codes "no-cache") b) in
    record d { body = reply }

module _ (dev : Device) (format : Format) where
  open dev use {Dev}

  -- one round of the loop over the parsed pairs
  unfoldable pub set_one : Text → Text → Progress Dev → Progress Dev
  unfolding status_of
  set_one name value s =
      let (c, e) = set_property dev format name value s.camera in
      elim e [
        | success ↦ record s { camera = c }
        | code ↦ record { camera = c; status = status_of code; failed_property = name }
      ]

  unfoldable pub set_each : Map → Progress Dev → Progress Dev
  unfolding set_one
  set_each [] s = s
  set_each ((k, v) ∷ m) s = set_each m (set_one k v s)

  -- HandlePostRequest. `none` says that the parser's fuel ran out.
  unfoldable pub handle_post_request :
      Text → CameraData Dev → HttpResponse → Option (CameraData Dev × HttpResponse)
  handle_post_request text c r = elim (simple_json_parser text) [
    | none ↦ none
    | some (valid, values) ↦
        let s : Progress Dev = record { camera = c; status = status_ok; failed_property = [] } in
        let t : Progress Dev =
          if valid then set_each values s else record s { status = status_invalid_json } in
        some (t.camera, answer (reply_text t.status t.failed_property) r)
  ]
