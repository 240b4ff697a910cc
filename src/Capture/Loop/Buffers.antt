-- ===== src/Capture/Loop/Buffers.antt =====
-- The buffers that the loop takes and gives back.
use my_streamer.Prelude.{
  ℕ, ◌+◌, ◌/◌, ◌%◌, ◌^◌, ◌≤◌, length, Bool, true, false, List, [], ◌∷◌, some, if◌then◌else◌, ◌≡◌,
  sym, subst, arith,
}
use my_streamer.Prelude.Text.{codes, equal}
use my_streamer.Images.{Image}
use my_streamer.Capture.Loop.{
  yuyv_bytes, Settings, VideoBuffer, Round, Report, dequeued, requeued, shown, notified, Loop,
  failed_requeue, pause,
}
use my_streamer.Capture.Loop.Frames.{IsFrame}

-- how often a kind of report was made
abbrev pub count : (Report → Bool) → List Report → ℕ
count kind [] = 0
count kind (r ∷ rs) = (if kind r then 1 else 0) + count kind rs

abbrev pub is_dequeued : Report → Bool
is_dequeued (dequeued i) = true
is_dequeued _ = false

abbrev pub is_requeued : Report → Bool
is_requeued (requeued i) = true
is_requeued _ = false

abbrev pub is_shown : Report → Bool
is_shown (shown i) = true
is_shown _ = false

-- a buffer that the listener is told was not given back
abbrev pub is_lost : Report → Bool
is_lost (notified message fatal) = equal message (codes "Failed to requeue capture buffer")
is_lost _ = false

-- what the counts are where `n` frames were counted
abbrev pub AreCounts : ℕ → ℕ → List Report → Type 0
AreCounts frames n rs =
    (count is_dequeued rs ≡ count is_requeued rs + count is_lost rs)
    × (count is_shown rs ≡ count is_dequeued rs)
    × (n ≡ (frames + count is_dequeued rs) % 2 ^ 32)

-- Every buffer that was taken was shown, counted, and given back or reported; and the wait is not longer
-- than a frame.
abbrev pub IsBalanced : Settings → ℕ → Loop → Type 0
IsBalanced s frames l =
    AreCounts frames l.frames_received l.reports × (l.sleep_time ≤ 1000 / s.frame_rate)

-- the shared image is there where it is needed
unfoldable pub IsReady : Settings → Loop → Type 0
IsReady s l =
    s.jpeg_encoding ≡ false → (i : Image) × (m : List ℕ) × (l.rgb_image ≡ some i) × IsFrame s i m

-- what a round needs of the system: a mapped buffer, which holds a frame where that is decoded, and
-- memory for an image of its own where it is passed on
abbrev pub IsSupplied : Settings → Round → Type 0
IsSupplied s r =
    ((b : VideoBuffer)
      → r.buffer ≡ some b
      → (bytes : List ℕ) × (r.mapped b.index ≡ some bytes)
        × (s.jpeg_encoding ≡ false → yuyv_bytes s.frame_width s.frame_height ≤ length bytes))
    × (s.jpeg_encoding ≡ true → r.room ≡ true)

abbrev pub AreSupplied : Settings → List Round → Type 0
AreSupplied s [] = Unit
AreSupplied s (r ∷ rs) = IsSupplied s r × AreSupplied s rs

-- what a round does to the counts
pub data Turns (r : Round) (l t : Loop) : Type 0 where
  missed :
      t.reports ≡ notified (codes "Failed to dequeue capture buffer") false ∷ l.reports
      → t.frames_received ≡ l.frames_received
      → Turns r l t
  turned :
      (i k : ℕ) (j : Image)
      → t.reports
        ≡ (if r.requeue then requeued i else failed_requeue) ∷ shown j ∷ dequeued k ∷ l.reports
      → t.frames_received ≡ (l.frames_received + 1) % 2 ^ 32
      → Turns r l t

pub pause_short : (s : Settings) (h : ℕ) → pause s h ≤ 1000 / s.frame_rate
pause_short s h = ground arith

AreCounts-missed :
    (frames n : ℕ) (rs : List Report)
    → AreCounts frames n rs
    → AreCounts frames n (notified (codes "Failed to dequeue capture buffer") false ∷ rs)
unfolding equal
AreCounts-missed frames n rs (a, b, c) = (omega arith, omega arith, omega arith)

AreCounts-back :
    (frames n i k : ℕ) (j : Image) (rs : List Report) (b : Bool)
    → AreCounts frames n rs
    → AreCounts frames
        ((n + 1) % 2 ^ 32)
        ((if b then requeued i else failed_requeue) ∷ shown j ∷ dequeued k ∷ rs)
unfolding equal
AreCounts-back frames n i k j rs true (a, b, c) = (omega arith, omega arith, omega arith)
AreCounts-back frames n i k j rs false (a, b, c) = (omega arith, omega arith, omega arith)

pub Turns-IsBalanced :
    (s : Settings) (frames : ℕ) (r : Round) (l t : Loop)
    → Turns r l t
    → t.sleep_time ≡ pause s r.handling
    → IsBalanced s frames l
    → IsBalanced s frames t
Turns-IsBalanced s frames r l t (missed p q) w (c, d) = (
  subst (λ n. AreCounts frames n t.reports) (sym q)
      (subst (λ rs. AreCounts frames l.frames_received rs) (sym p)
        (AreCounts-missed frames l.frames_received l.reports c)),
  subst (λ x. x ≤ 1000 / s.frame_rate) (sym w) (pause_short s r.handling),
)
Turns-IsBalanced s frames r l t (turned i k j p q) w (c, d) = (
  subst (λ n. AreCounts frames n t.reports) (sym q)
      (subst (λ rs. AreCounts frames ((l.frames_received + 1) % 2 ^ 32) rs) (sym p)
        (AreCounts-back frames l.frames_received i k j l.reports r.requeue c)),
  subst (λ x. x ≤ 1000 / s.frame_rate) (sym w) (pause_short s r.handling),
)
