-- ===== src/Program/Tests.antt =====
-- A picture asked for by a browser.
use my_streamer.Prelude.{[], ◌∷◌, none, some, ◌≡◌, refl, arith}
use my_streamer.Prelude.Text.{Text, codes}
use my_streamer.Http.Context.Lacks.{is_lacking-Lacks}
use my_streamer.Images.Samples.{heap, heap_law, photo, photo_bytes, photo-IsImage}
use my_streamer.Images.Clones.{width_in}
use my_streamer.Http.Request.{k_get}
use my_streamer.Http.Context.{fresh}
use my_streamer.Http.Context.Written.{IsTarget, request_text}
use my_streamer.Http.Server.{on_message, sends, served}
use my_streamer.Stream.{on_new_image}
use my_streamer.Stream.Samples.{tools, tools_law, show, failed, failed-Reached}
use my_streamer.Web.{Files, Handler, handle_request}
use my_streamer.Program.{jpeg_handler, camera_server}
use my_streamer.Program.Delivered.{Delivers, jpeg_delivered}

abbrev no_files : Files
no_files name = none

abbrev silent : Handler
silent q r = r

camera-IsTarget : IsTarget (codes "/camera/jpeg") (some (codes "1"))
camera-IsTarget = (
  (
    is_lacking-Lacks b' ' (codes "/camera/jpeg") refl,
    is_lacking-Lacks b'?' (codes "/camera/jpeg") refl,
    is_lacking-Lacks b'\r' (codes "/camera/jpeg") refl,
  ),
  is_lacking-Lacks b' ' (codes "1") refl,
  is_lacking-Lacks b'\r' (codes "1") refl,
)

jpeg_delivered_example :
    (text : Text) × (on_message show
        (handle_request show no_files
          (camera_server (jpeg_handler tools heap show (on_new_image heap photo failed)) silent))
        7
        (request_text k_get (codes "/camera/jpeg") (some (codes "1")) [] (codes "GET"))
        fresh
      ≡ some (served (sends text ∷ []) (codes "GET") fresh))
    × Delivers show (width_in photo failed.camera_image) 4 photo_bytes text
jpeg_delivered_example =
    jpeg_delivered tools heap tools_law heap_law failed photo photo_bytes failed-Reached
      photo-IsImage refl refl (omega arith) show no_files silent 7 k_get (some (codes "1"))
      (codes "GET") refl camera-IsTarget refl
