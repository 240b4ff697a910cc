-- ===== src/Service/Handlers.antt =====
-- CameraInfoHandler and CameraControlHandler of webcamera/web_camera_control_handler.cpp, which main.cpp
-- does not add to the server. HandleGetRequest is called with no names, and nothing calls
-- HandlePostRequest.
use my_streamer.Prelude.{ℕ, true, [], Option, none, some}
use my_streamer.Prelude.Text.{Text, codes}
use my_streamer.Camera.{Device, CameraData}
use my_streamer.Camera.Config.{Format}
use my_streamer.Http.Request.{HttpRequest, k_get}
use my_streamer.Http.Response.{StatusCode, not_found, method_not_allowed, HttpResponse, send_fast}
use my_streamer.Service.Get.{handle_get_request}

module _ (dev : Device) (format : Format) (show : ℕ → Text) where
  open dev use {Dev}

  -- `SendFast`, and the connection is closed
  abbrev pub refused : StatusCode → Text → HttpResponse → HttpResponse
  refused code text r = record (send_fast show code text r) { close_connection = true }

  -- CameraInfoHandler::HandleHttpRequest, with the camera, if there is one
  unfoldable pub handle_info : Option (CameraData Dev) → HttpRequest → HttpResponse → HttpResponse
  unfolding handle_get_request send_fast
  handle_info camera q r = elim q.method [
    | k_get ↦ elim camera [
      | none ↦ refused not_found (codes "Don't have this Camera info ") r
      | some c ↦ handle_get_request dev format c [] r
    ]
    | _ ↦ refused method_not_allowed (codes "Method Not Allowed Please Using Get ") r
  ]

-- CameraControlHandler::HandleHttpRequest, which is empty
abbrev pub handle_control : HttpRequest → HttpResponse → HttpResponse
handle_control q r = r
