-- ===== src/Stream/Tests.antt =====
-- The stream with one picture, and the theorems at it.
use my_streamer.Prelude.{
  ℕ, ◌||◌, ◌==◌, Bool, true, false, List, [], ◌∷◌, none, some, ◌≡◌, refl, arith, ◌⊎◌,
}
use my_streamer.Prelude.Text.{codes}
use my_streamer.Errors.{success, out_of_memory}
use my_streamer.Images.{Heap, Image, jpeg, create}
use my_streamer.Images.Samples.{heap, heap_law, photo, photo_bytes, photo-IsImage}
use my_streamer.Images.Clones.{width_in}
use my_streamer.Http.Response.{HttpResponse, server_error, new}
use my_streamer.Stream.{
  StreamData, Tools, Visits, brings, reports, quiet, new_stream_data, on_new_image,
  encode_unless_error, handle_jpeg, handle_mjpeg, handle_timer, is_error, encode_camera_image,
  take_jpeg, enlarge, Action, shuts_down,
}
use my_streamer.Stream.Reach.{Ends, arrives, stays, goes, requests_return}
use my_streamer.Stream.Pictures.{Answers, picture_answered}
use my_streamer.Stream.Pace.{GoesOn, timer_keeps_pace}
use my_streamer.Stream.Race.{race_meets_null}
use my_streamer.Stream.Stuck.{lost_for_good}
use my_streamer.Stream.Samples.{tools, tools_law, show, failed, failed-Reached}

-- the camera's thread brings a picture behind the test, and fails behind the encoding
abbrev busy : Visits
busy = record { tested = brings photo ∷ []; encoded = reports (codes "gone") ∷ [] }

requests_return_example :
    ((r : HttpResponse)
      → Ends tools heap tools_law heap_law failed busy (handle_jpeg tools heap show busy failed r))
    × ((interval now : ℕ) (r : HttpResponse)
        → Ends tools heap tools_law heap_law failed busy
            (handle_mjpeg tools heap show interval now busy failed r))
    × ((interval start end now : ℕ) (up : Bool) (waiting : ℕ)
        → Ends tools heap tools_law heap_law failed busy
            (handle_timer tools heap show interval start end now up waiting busy failed))
requests_return_example =
    requests_return tools heap tools_law heap_law show failed busy failed-Reached
      ((photo_bytes, photo-IsImage), tt) tt

picture_answered_case :
    (t : StreamData) × (q : HttpResponse) × (handle_jpeg tools heap show quiet
        (on_new_image heap photo failed)
        (new false)
      ≡ some (t, q))
    × ((q.status_code ≡ server_error)
        ⊎ Answers (width_in photo failed.camera_image) 4 photo_bytes q)
picture_answered_case =
    picture_answered tools heap tools_law heap_law failed photo photo_bytes failed-Reached
      photo-IsImage refl refl (omega arith) show (new false)

timer_keeps_pace_example :
    (t : StreamData) × (acts : List Action) × (handle_timer tools heap show 100 5000 6000 6001 true
        0 quiet failed
      ≡ some (t, acts))
    × ((((is_error t || (t.jpeg_size == 0)) ≡ true) × (acts ≡ shuts_down ∷ shuts_down ∷ []))
        ⊎ GoesOn show 100 5000 6001 0 t acts)
timer_keeps_pace_example =
    timer_keeps_pace tools heap tools_law heap_law show 100 5000 6000 6001 0 failed failed-Reached
      (omega arith) (omega arith) (omega arith) (omega arith) (omega arith)

-- A buffer of three bytes, a picture of four, and no more memory.
abbrev poor : Tools
poor = record { realloc = λ b n. none; encode_to_memory = λ i b n. (success, b, 0) }

abbrev tight : StreamData
tight = record (new_stream_data (some (0 ∷ 0 ∷ 0 ∷ []))) {
  jpeg_buffer_size = 3;
  camera_image = some photo;
  new_image_available = true;
}

abbrev lost : StreamData
lost = record tight {
  jpeg_buffer = none;
  internal_error = out_of_memory;
  new_image_available = false;
}

lost_for_good_example :
    (v : StreamData) × (q : HttpResponse) × (handle_jpeg poor heap show quiet
        (on_new_image heap photo lost)
        (new false)
      ≡ some (v, q))
    × (q.status_code ≡ server_error)
unfolding is_error encode_camera_image take_jpeg enlarge
lost_for_good_example =
    lost_for_good poor heap tight lost (on_new_image heap photo lost) photo photo_bytes
      (0 ∷ 0 ∷ 0 ∷ []) refl refl refl refl refl refl (omega arith) refl refl
      (goes stays (arrives photo photo_bytes photo-IsImage)) show (new false)

abbrev dry : Heap
dry = record { malloc = λ n. none; calloc = λ n. none; room = true }

-- a picture of one byte, too small for the next
abbrev speck : Image
speck = create (some (5 ∷ [])) 1 1 1 jpeg

abbrev waiting : StreamData
waiting = record (new_stream_data (some (0 ∷ 0 ∷ 0 ∷ []))) {
  camera_image = some speck;
  new_image_available = true;
}

race_meets_null_example :
    let t = on_new_image dry photo waiting in
    (encode_unless_error tools dry (brings photo ∷ []) waiting ≡ none)
    × (encode_unless_error tools dry [] t ≡ some t)
unfolding is_error
race_meets_null_example =
    race_meets_null tools dry waiting photo speck (0 ∷ 0 ∷ 0 ∷ []) refl refl refl refl refl
      (λ n. refl)
