-- ===== src/Service/Tests.antt =====
-- Two posts, and the theorems at concrete inputs.
use my_streamer.Prelude.{
  ℕ, replicate, false, Bool, true, List, [], ◌∷◌, Option, none, some, ◌≡◌, refl, if◌then◌else◌,
  arith,
}
use my_streamer.Prelude.Int.{ℤ, pos}
use my_streamer.Prelude.Text.{Text, codes}
use my_streamer.Prelude.Assoc.{Map, insert}
use my_streamer.Json.{
  simple_json_parser, skip_spaces, c_str, member_loop, extract_string, extract_value, kind,
  extract_word,
}
use my_streamer.Camera.{
  get_video_property, set_video_property, hue, VideoProperty, NativeId, CameraData,
}
use my_streamer.Camera.Config.{get_all_properties, get_property, set_property, find_property}
use my_streamer.Camera.Tests.{recorder, decimal, stopped}
use my_streamer.Properties.{handle_bool_property, handle_range_property, handle_selection_property}
use my_streamer.Properties.Tests.{engine, flip, slider}
use my_streamer.Http.Request.{fresh_request, k_get, k_post}
use my_streamer.Http.Response.{HttpResponse, method_not_allowed, new}
use my_streamer.Service.Handlers.{handle_info}
use my_streamer.Service.{handle_post_request, set_each, answer, reply_text}
use my_streamer.Service.Post.{IsAnswer, post_answered}
use my_streamer.Service.Get.{handle_get_request, collect, config_text, value_text, names_from}
use my_streamer.Service.Get.Names.{AreNames, handle_get_request-joined}
use my_streamer.Service.Page.{single, controls_applied}

abbrev strokes : ℕ → Text
strokes n = replicate n b'1'

abbrev two_properties : Text
two_properties = codes "{ \"hue\": \"4\", \"zoom\": 2 }"

post_answered_example :
    (valid : Bool) × (values : Map) × (out : CameraData (List (NativeId × ℤ)) × HttpResponse)
    × (simple_json_parser two_properties ≡ some (valid, values))
    × (handle_post_request recorder decimal two_properties stopped (new true) ≡ some out)
    × IsAnswer recorder decimal valid values stopped out
post_answered_example = post_answered recorder decimal two_properties stopped (new true)

controls_applied_example :
    (handle_post_request recorder decimal
        (handle_bool_property engine.stringify flip).body
        stopped
        (new true)
      ≡ some (
          single recorder decimal flip.id
            (if flip.checked then codes "1" else codes "0")
            stopped
            (new true)))
    × (handle_post_request recorder decimal
          (handle_range_property engine.stringify slider).body
          stopped
          (new true)
        ≡ some (single recorder decimal slider.id slider.value stopped (new true)))
    × (handle_post_request recorder decimal
          (handle_selection_property engine.stringify slider).body
          stopped
          (new true)
        ≡ some (single recorder decimal slider.id slider.value stopped (new true)))
controls_applied_example =
    controls_applied recorder decimal engine flip slider stopped (new true) (omega arith)
      (omega arith) (omega arith)

-- what an outcome shows
abbrev seen :
    Option (CameraData (List (NativeId × ℤ)) × HttpResponse)
    → Option (List (VideoProperty × ℤ) × Text)
seen none = none
seen (some (c, r)) = some (c.properties_to_set, r.body)

-- The property that the camera does not know is named in the answer, and the other is kept.
second_refused :
    seen (handle_post_request recorder decimal two_properties stopped (new true))
    ≡ some ((hue, pos 4) ∷ [], codes "{\"status\":\"Unknown property\",\"property\":\"zoom\"}")
unfolding handle_post_request set_each simple_json_parser skip_spaces c_str member_loop
    extract_string extract_value kind extract_word insert answer set_property find_property
    set_video_property reply_text
second_refused = refl

two_names-AreNames : AreNames (codes "hue" ∷ codes "zoom" ∷ [])
two_names-AreNames = (
  (λ e. absurd (cc e), (refl, refl, (refl, refl, (refl, refl, tt)))),
  ((λ e. absurd (cc e), (refl, refl, (refl, refl, (refl, refl, (refl, refl, tt))))), tt),
)

handle_get_request-joined_case :
    handle_get_request recorder decimal stopped (codes "hue,zoom") (new true)
    ≡ answer
        (config_text (collect recorder decimal (codes "hue" ∷ codes "zoom" ∷ []) stopped []))
        (new true)
handle_get_request-joined_case =
    handle_get_request-joined recorder decimal stopped (codes "hue") (codes "zoom" ∷ []) (new true)
      two_names-AreNames

-- Quotes are escaped, backslashes are not.
replaced : value_text (codes "a\"b\\") ≡ codes "\"a\\\"b\\\""
unfolding value_text simple_json_parser
replaced = refl

names_split : names_from [] (codes ",hue,,zoom,") ≡ codes "hue" ∷ codes "zoom" ∷ []
unfolding names_from
names_split = refl

-- A camera that does not run has no values to tell, and a POST is refused.
nothing_told :
    (handle_info recorder decimal strokes
      (some stopped)
      (record fresh_request { method = k_get })
      (new false)).body
    ≡ codes "{\"status\":\"OK\",\"config\":{}}"
unfolding handle_info handle_get_request answer get_all_properties get_property find_property
    get_video_property
nothing_told = refl

post_refused :
    let r =
      handle_info recorder decimal strokes
        (some stopped)
        (record fresh_request { method = k_post })
        (new false) in
    (r.status_code ≡ method_not_allowed) × (r.close_connection ≡ true)
unfolding handle_info
post_refused = (refl, refl)
