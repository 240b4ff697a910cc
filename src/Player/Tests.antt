-- ===== src/Player/Tests.antt =====
-- Runs of the script, and its theorems at concrete inputs. The numbers are integers, printed as strokes.
use my_streamer.Prelude.{
  ℕ, zero, suc, ◌/◌, ◌&&◌, [], ◌∷◌, ◌++◌, none, ◌≡◌, ◌≢◌, ap₂, refl, arith, ◌==◌,
}
use my_streamer.Prelude.Int.{ℤ, pos, negsuc, pos_part, neg_part, ◌-ℤ◌, ltb_ℤ}
use my_streamer.Prelude.Text.{Text}
use my_streamer.Player.{
  Numbers, Page, number, mjpeg_url, jpeg_at, fresh, refresh_image, on_image_error, pause,
  on_image_loaded, start,
}
use my_streamer.Player.World.{
  World, Reach, here, next, fail, fire, started, request, IsAlive, Reach-IsAlive,
}
use my_streamer.Player.Pace.{IsExact, IsTimely, pause_due}
use my_streamer.Player.Urls.{flips, retries, errors_rotate, refresh_addresses}

-- division of whole numbers, rounded towards zero
abbrev div_ℤ : ℤ → ℤ → ℤ
div_ℤ (pos a) (pos b) = pos (a / b)
div_ℤ (pos a) (negsuc b) = pos 0 -ℤ pos (a / suc b)
div_ℤ (negsuc a) (pos b) = pos 0 -ℤ pos (suc a / b)
div_ℤ (negsuc a) (negsuc b) = pos (suc a / suc b)

abbrev strokes : ℕ → Text
strokes zero = []
strokes (suc n) = b'1' ∷ strokes n

abbrev show_ℤ : ℤ → Text
show_ℤ (pos n) = b'+' ∷ strokes n
show_ℤ (negsuc n) = b'-' ∷ strokes n

abbrev integers : Numbers
integers = record {
  Num = ℤ;
  of_ℕ = pos;
  div = div_ℤ;
  sub = ◌-ℤ◌;
  gtb = λ a b. ltb_ℤ b a;
  eqb = λ a b. pos_part a == pos_part b && neg_part a == neg_part b;
  show = show_ℤ;
  undefined_num = pos 0;
}

strokes_injective : (m n : ℕ) → strokes m ≡ strokes n → m ≡ n
strokes_injective zero zero e = refl
strokes_injective zero (suc n) e = cc
strokes_injective (suc m) zero e = cc
strokes_injective (suc m) (suc n) e = ground (arith, strokes_injective m n)

show_ℤ_injective : (a b : ℤ) → show_ℤ a ≡ show_ℤ b → a ≡ b
show_ℤ_injective (pos m) (pos n) e = ground (arith, strokes_injective m n)
show_ℤ_injective (pos m) (negsuc n) e = cc
show_ℤ_injective (negsuc m) (pos n) e = cc
show_ℤ_injective (negsuc m) (negsuc n) e = ground (arith, strokes_injective m n)

abbrev exact : IsExact integers
exact = record {
  IsWhole = λ a z. a ≡ z;
  whole_zero = refl;
  whole_sub = λ a b x y p q _. ap₂ (λ u v. u -ℤ v) p q;
  gtb_whole = λ a b x y p q. ap₂ (λ u v. ltb_ℤ v u) p q;
}

-- 50 frames a second: the first picture is asked for at 7, loads at 12, and the next call is due in 15
abbrev begun : Page ℤ
begun = start integers (number (pos 50)) (pos 7) (fresh integers)

interval_test : begun.frame_interval ≡ pos 20
unfolding start refresh_image ◌-ℤ◌
interval_test = refl

default_interval_test :
    (start integers (number (pos 0)) (pos 7) (fresh integers)).frame_interval ≡ pos 100
unfolding start refresh_image
default_interval_test = refl

loaded_test : (on_image_loaded integers (pos 12) begun).timers ≡ pos 15 ∷ []
unfolding start refresh_image on_image_loaded pause ◌-ℤ◌
loaded_test = refl

late_test : (on_image_loaded integers (pos 40) begun).timers ≡ pos 0 ∷ []
unfolding start refresh_image on_image_loaded pause ◌-ℤ◌
late_test = refl

-- the first picture has failed and the second request, for the stream, is under way
abbrev second : World integers
second =
    request integers
      (refresh_image integers (pos 9) (record (on_image_error integers begun) { timers = [] }))

second-Reach : Reach integers (started integers (number (pos 50)) (pos 7)) second
unfolding start refresh_image on_image_error
second-Reach =
    next (next here (fail begun (jpeg_at integers (pos 7))))
      (fire (on_image_error integers begun) [] [] (pos 1000) (pos 9) none refl)

Reach-IsAlive_example : IsAlive integers second
Reach-IsAlive_example = Reach-IsAlive integers (number (pos 50)) (pos 7) second-Reach

pause_due_example :
    (on_image_loaded integers (pos 12) begun
      ≡ record begun { timers = begun.timers ++ pause integers (pos 12) begun ∷ [] })
    × IsTimely integers exact (pause integers (pos 12) begun) (pos 12) (pos 7) (pos 20)
unfolding start refresh_image ◌-ℤ◌
pause_due_example =
    pause_due integers exact (pos 12) begun (pos 12) (pos 7) (pos 20) refl refl refl refl
      (omega arith, omega arith) (omega arith, omega arith)

errors_rotate_example :
    Reach integers
      (request integers begun)
      (request integers (retries integers (pos 1009 ∷ pos 2010 ∷ pos 3011 ∷ []) begun))
    × ((retries integers (pos 1009 ∷ pos 2010 ∷ pos 3011 ∷ []) begun).mjpeg_mode
        ≡ flips 3 begun.mjpeg_mode)
    × ((retries integers (pos 1009 ∷ pos 2010 ∷ pos 3011 ∷ []) begun).timers ≡ [])
unfolding start refresh_image
errors_rotate_example = errors_rotate integers (pos 1009 ∷ pos 2010 ∷ pos 3011 ∷ []) begun refl

refresh_addresses_case :
    ((refresh_image integers (pos 9) begun).src ≢ (refresh_image integers (pos 10) begun).src)
    × ((refresh_image integers (pos 9) begun).src ≢ mjpeg_url)
    × ((refresh_image integers (pos 10) begun).src ≢ mjpeg_url)
unfolding start refresh_image
refresh_addresses_case =
    refresh_addresses integers begun begun (pos 9) (pos 10) show_ℤ_injective refl refl (λ e. cc)
