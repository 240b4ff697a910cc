-- ===== src/Player.antt =====
-- web/camera.js: the closure `Camera`, which keeps an <img> element showing the camera. Its variables
-- and what it sets outside (the element, the scheduled calls of `refreshImage`) are one record. Each
-- function takes the time that `new Date().getTime()` returns to it.
pub mod World
pub mod Pace
pub mod Urls
mod Tests
use my_streamer.Prelude.{ℕ, Bool, true, false, not, List, [], ◌∷◌, ◌++◌, if◌then◌else◌}
use my_streamer.Prelude.Text.{Text, codes}

-- The engine's numbers, as far as the script uses them. `undefined_num` is what a variable counts as
-- in arithmetic that has not been assigned.
pub record Numbers : Type 1 where
  pub Num : Type 0
  pub of_ℕ : ℕ → Num
  pub div : Num → Num → Num
  pub sub : Num → Num → Num
  pub gtb : Num → Num → Bool
  pub eqb : Num → Num → Bool
  pub show : Num → Text
  pub undefined_num : Num

-- `jpegUrl` and `mjpegUrl`
abbrev pub jpeg_url : Text
jpeg_url = codes "/camera/jpeg"

abbrev pub mjpeg_url : Text
mjpeg_url = codes "/camera/mjpeg"

-- An argument of `start`, by its `typeof`.
pub data Value (A : Type 0) : Type 0 where
  number : A → Value A
  other : Value A

-- `wired` says that the element is found and its two handlers are set; `timers` holds the delays
-- of the calls of `refreshImage` that are scheduled and not yet made.
pub record Page (A : Type 0) : Type 0 where
  pub mjpeg_mode : Bool
  pub frame_interval : A
  pub time_start : A
  pub src : Text
  pub wired : Bool
  pub timers : List A

module _ (n : Numbers) where
  open n use {Num, of_ℕ, div, sub, gtb, eqb, show, undefined_num}

  abbrev pub fresh : Page Num
  fresh = record {
    mjpeg_mode = false;
    frame_interval = undefined_num;
    time_start = undefined_num;
    src = [];
    wired = false;
    timers = [];
  }

  abbrev pub jpeg_at : Num → Text
  jpeg_at t = jpeg_url ++ (codes "?t=" ++ show t)

  unfoldable pub refresh_image : Num → Page Num → Page Num
  refresh_image now p =
      if p.mjpeg_mode
      then record p { src = mjpeg_url }
      else record p { time_start = now; src = jpeg_at now }

  -- `setTimeout(refreshImage, delay)`
  abbrev pub set_timeout : Num → Page Num → Page Num
  set_timeout delay p = record p { timers = p.timers ++ delay ∷ [] }

  unfoldable pub on_image_error : Page Num → Page Num
  on_image_error p = set_timeout (of_ℕ 1000) (record p { mjpeg_mode = not p.mjpeg_mode })

  -- the delay that `onImageLoaded` computes
  unfoldable pub pause : Num → Page Num → Num
  pause now p =
      let time_taken = sub now p.time_start in
      if gtb time_taken p.frame_interval then of_ℕ 0 else sub p.frame_interval time_taken

  unfoldable pub on_image_loaded : Num → Page Num → Page Num
  on_image_loaded now p = if p.mjpeg_mode then p else set_timeout (pause now p) p

  unfoldable pub interval_of : Value Num → Num
  interval_of (number fps) = if not (eqb fps (of_ℕ 0)) then div (of_ℕ 1000) fps else of_ℕ 100
  interval_of other = of_ℕ 100

  unfoldable pub start : Value Num → Num → Page Num → Page Num
  unfolding interval_of
  start fps now p =
      refresh_image now
        (record p { wired = true; frame_interval = interval_of fps; mjpeg_mode = false })
