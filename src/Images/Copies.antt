-- ===== src/Images/Copies.antt =====
-- What CopyDataOrClone leaves behind the pointer.
use my_streamer.Prelude.{
  ℕ, ◌+◌, ◌*◌, ◌^◌, ◌≤◌, ◌<◌, true, false, List, Option, some, ◌≡◌, refl, sym, ap, ap₂, ◌∙◌, arith,
  ◌⊎◌, inl, inr, length, get_or, Bool-cases,
}
use my_streamer.Errors.{ErrorCode, success}
use my_streamer.Images.{
  PixelFormat, is_jpeg, same_format, unknown, grayscale8, rgb24, rgba32, jpeg,
  image_bytes_per_stride, image_bytes_per_line, Image, line_bits, copy_rows, mismatch, copy_data,
  must_clone,
}
use my_streamer.Images.Rows.{length-copy_rows, copy_rows_lem}

abbrev pub line_of : Image → ℕ
line_of i = image_bytes_per_line (line_bits i.width i.format)

-- An image with memory `m` for all its rows. A JPEG has no more in its one row than it is wide, but for
-- the rounding. The rows that `Allocate` makes for an image of this size count less than 2^31 bytes.
pub record IsImage (i : Image) (m : List ℕ) : Type 0 where
  pub memory_at : i.memory ≡ some m
  pub line_fits : line_of i ≤ i.stride
  pub rows_fit : i.height * i.stride ≤ length m
  pub countable : line_bits i.width i.format + 31 < 2 ^ 32
  pub allocatable : i.height * image_bytes_per_stride (line_bits i.width i.format) < 2 ^ 31
  pub tight :
      is_jpeg i.format ≡ true → i.stride ≤ image_bytes_per_stride (line_bits i.width i.format)

-- every byte of every line of `i` stands at its place in the copy
abbrev pub SamePixels : Image → List ℕ → Image → List ℕ → Type 0
SamePixels i src to dst =
    (y x : ℕ)
    → y < i.height
    → x < line_of i
    → get_or dst (y * to.stride + x) 0 ≡ get_or src (y * i.stride + x) 0

-- the memory that a copy leaves
abbrev pub copied : Image → List ℕ → Image → List ℕ → List ℕ
copied i src to dst = copy_rows i.height (line_of i) src 0 i.stride 0 to.stride dst

same_format-eq : (a b : PixelFormat) → same_format a b ≡ true → a ≡ b
same_format-eq unknown unknown h = refl
same_format-eq grayscale8 grayscale8 h = refl
same_format-eq rgb24 rgb24 h = refl
same_format-eq rgba32 rgba32 h = refl
same_format-eq jpeg jpeg h = refl
same_format-eq _ _ h = absurd (cc h)

pub copy_data-match :
    (i to : Image) (src dst : List ℕ)
    → i.memory ≡ some src
    → to.memory ≡ some dst
    → mismatch i to ≡ false
    → copy_data i (some to) ≡ (some (record to { memory = some (copied i src to dst) }), success)
unfolding copy_data
copy_data-match i to src dst p q h = rw (p, q, copy_data) (rw h refl)

SamePixels-copied :
    (i to : Image) (src dst : List ℕ)
    → line_of i ≤ to.stride
    → i.height ≡ to.height
    → to.height * to.stride ≤ length dst
    → SamePixels i src (record to { memory = some (copied i src to dst) }) (copied i src to dst)
SamePixels-copied i to src dst l e room y x hy hx =
    let rows : 0 + i.height * to.stride ≤ length dst =
      omega (arith, ap (λ (t : ℕ). t * to.stride) e) in
    ap (λ p. get_or (copied i src to dst) p 0) (omega arith)
    ∙ copy_rows_lem i.height (line_of i) src 0 i.stride 0 to.stride dst y x hy hx l rows
    ∙ ap (λ p. get_or src p 0) (omega arith)

-- What the test of CopyDataOrClone leaves: the facts that CopyData asks for.
pub record Fits (i to : Image) : Type 0 where
  pub matches : mismatch i to ≡ false
  pub height_at : i.height ≡ to.height
  pub format_at : to.format ≡ i.format
  pub room : (to.width ≡ i.width) ⊎ ((is_jpeg i.format ≡ true) × (i.stride ≤ to.stride))

fits_room :
    (i to : Image)
    → must_clone i to ≡ false
    → (to.width ≡ i.width) ⊎ ((is_jpeg i.format ≡ true) × (i.stride ≤ to.stride))
fits_room i to h = elim (Bool-cases (is_jpeg i.format)) [
  | inl e ↦ inr (e, ground arith)
  | inr e ↦ inl (ground arith)
]

pub must_clone-Fits : (i to : Image) → must_clone i to ≡ false → Fits i to
must_clone-Fits i to h = record {
  matches = ground arith;
  height_at = ground arith;
  format_at = same_format-eq to.format i.format (ground arith);
  room = fits_room i to h;
}

line_of-eq : (i to : Image) → to.width ≡ i.width → to.format ≡ i.format → line_of to ≡ line_of i
line_of-eq i to e f = ap₂ (λ w p. image_bytes_per_line (line_bits w p)) e f

-- what a copy leaves behind the pointer: an image of the width `w`
pub record HasPixels (i : Image) (src : List ℕ) (w : ℕ) (r : Option Image × ErrorCode)
    : Type 0 where
  pub succeeds : r.1 ≡ success
  pub image : Image
  pub bytes : List ℕ
  pub image_at : r.0 ≡ some image
  pub valid : IsImage image bytes
  pub width_at : image.width ≡ w
  pub height_at : image.height ≡ i.height
  pub format_at : image.format ≡ i.format
  pub pixels : SamePixels i src image bytes

pub copy_data-HasPixels :
    (i to : Image) (src dst : List ℕ)
    → IsImage i src
    → IsImage to dst
    → Fits i to
    → HasPixels i src to.width (copy_data i (some to))
copy_data-HasPixels i to src dst v w f =
    let copy = record to { memory = some (copied i src to dst) } in
    let e = copy_data-match i to src dst v.memory_at w.memory_at f.matches in
    let fits : line_of i ≤ to.stride = elim f.room [
      | inl same ↦ omega (arith, line_of-eq i to same f.format_at, w.line_fits)
      | inr (_, wide) ↦ omega (arith, v.line_fits)
    ] in
    let long : length (copied i src to dst) ≡ length dst =
      length-copy_rows i.height (line_of i) src 0 i.stride 0 to.stride dst in
    record {
      succeeds = ap (λ r. r.1) e;
      image = copy;
      bytes = copied i src to dst;
      image_at = ap (λ r. r.0) e;
      valid = record {
        memory_at = refl;
        line_fits = w.line_fits;
        rows_fit = omega (arith, w.rows_fit, long);
        countable = w.countable;
        allocatable = w.allocatable;
        tight = w.tight;
      };
      width_at = refl;
      height_at = sym f.height_at;
      format_at = f.format_at;
      pixels = SamePixels-copied i to src dst fits f.height_at w.rows_fit;
    }
