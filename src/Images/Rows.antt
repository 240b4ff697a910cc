-- ===== src/Images/Rows.antt =====
-- The loop over the rows copies every byte of every line to its place.
use native.Mathlib.Nat.{suc-mul}
use my_streamer.Prelude.{
  ℕ, zero, suc, ◌+◌, ◌*◌, ◌≤◌, ◌<◌, List, ◌≡◌, refl, ap, ◌∙◌, arith, inl, length, get_or,
}
use my_streamer.Prelude.Memory.{
  copy_in, copy_out, length-copy_in, length-copy_out, copy_in_outside, copy_in_inside,
  get_or-copy_out,
}
use my_streamer.Images.{copy_rows}

pub length-copy_rows :
    (n line : ℕ) (src : List ℕ) (s ss d ds : ℕ) (dst : List ℕ)
    → length (copy_rows n line src s ss d ds dst) ≡ length dst
unfolding copy_rows
length-copy_rows zero line src s ss d ds dst = refl
length-copy_rows (suc n) line src s ss d ds dst =
    length-copy_rows n line src (s + ss) ss (d + ds) ds (copy_in dst d (copy_out src s line))
    ∙ length-copy_in dst d (copy_out src s line)

copy_rows-below :
    (n line : ℕ) (src : List ℕ) (s ss d ds : ℕ) (dst : List ℕ) (p : ℕ)
    → p < d
    → get_or (copy_rows n line src s ss d ds dst) p 0 ≡ get_or dst p 0
unfolding copy_rows
copy_rows-below zero line src s ss d ds dst p h = refl
copy_rows-below (suc n) line src s ss d ds dst p h =
    copy_rows-below n line src (s + ss) ss (d + ds) ds (copy_in dst d (copy_out src s line)) p
      (omega arith)
    ∙ copy_in_outside dst d (copy_out src s line) p (inl h)

-- Row `y` of the source stands in row `y` of the copy.
pub copy_rows_lem :
    (n line : ℕ) (src : List ℕ) (s ss d ds : ℕ) (dst : List ℕ) (y x : ℕ)
    → y < n
    → x < line
    → line ≤ ds
    → d + n * ds ≤ length dst
    → get_or (copy_rows n line src s ss d ds dst) (d + y * ds + x) 0 ≡ get_or src (s + y * ss + x) 0
unfolding copy_rows
copy_rows_lem zero line src s ss d ds dst y x hy hx l room = absurd (omega arith)
copy_rows_lem (suc n) line src s ss d ds dst zero x hy hx l room =
    let first = copy_in dst d (copy_out src s line) in
    let fits : d + length (copy_out src s line) ≤ length dst =
      omega (arith, length-copy_out src s line, suc-mul n ds) in
    ap (λ p. get_or (copy_rows n line src (s + ss) ss (d + ds) ds first) p 0) (omega arith)
    ∙ copy_rows-below n line src (s + ss) ss (d + ds) ds first (d + x) (omega arith)
    ∙ copy_in_inside dst d (copy_out src s line) x (omega (arith, length-copy_out src s line)) fits
    ∙ get_or-copy_out src s line x hx
    ∙ ap (λ p. get_or src p 0) (omega arith)
copy_rows_lem (suc n) line src s ss d ds dst (suc y) x hy hx l room =
    let first = copy_in dst d (copy_out src s line) in
    ap (λ p. get_or (copy_rows n line src (s + ss) ss (d + ds) ds first) p 0)
      (omega (arith, suc-mul y ds))
    ∙ copy_rows_lem n line src (s + ss) ss (d + ds) ds first y x (omega arith) hx l
        (omega (arith, length-copy_in dst d (copy_out src s line), suc-mul n ds))
    ∙ ap (λ p. get_or src p 0) (omega (arith, suc-mul y ss))
