-- ===== src/Images/Tests.antt =====
-- Copies of small images, and the theorems at them.
use mathlib.Core.Option.{some-injective}
use my_streamer.Prelude.{
  ℕ, ◌+◌, ◌*◌, ◌%◌, ◌≤◌, ◌<◌, true, List, [], ◌∷◌, none, some, ◌≡◌, refl, arith, subst,
}
use my_streamer.Errors.{success, image_parameters_mismatch, null_pointer}
use my_streamer.Images.{
  Image, new_image, jpeg, rgb24, image_bytes_per_stride, image_bytes_per_line, copy_data, clone,
  copy_data_or_clone, copy_data_strict, update_time_stamp, create,
}
use my_streamer.Images.Samples.{heap, heap_law, photo, photo_bytes, photo-IsImage}
use my_streamer.Images.Sizes.{row_bytes}
use my_streamer.Images.Copies.{IsImage}
use my_streamer.Images.Clones.{Outcome, width_in, copy_data_or_clone_lem}
use my_streamer.Images.Stamps.{InOrder, update_time_stamp_lem}

abbrev older_bytes : List ℕ
older_bytes = 9 ∷ 9 ∷ 9 ∷ 9 ∷ 9 ∷ 9 ∷ 0 ∷ 0 ∷ []

abbrev older : Image
older = new_image (some older_bytes) 6 1 8 jpeg true

older-IsImage : IsImage older older_bytes
unfolding image_bytes_per_line image_bytes_per_stride
older-IsImage = record {
  memory_at = refl;
  line_fits = omega arith;
  rows_fit = omega arith;
  countable = omega arith;
  allocatable = omega arith;
  tight = λ _. omega arith;
}

-- Two rows of one pixel, each of three bytes and one that is not the image's.
abbrev dots : Image
dots = create (some (1 ∷ 2 ∷ 3 ∷ 7 ∷ 4 ∷ 5 ∷ 6 ∷ 7 ∷ [])) 1 2 4 rgb24

clone-dots :
    clone heap dots ≡ some (new_image (some (1 ∷ 2 ∷ 3 ∷ 0 ∷ 4 ∷ 5 ∷ 6 ∷ 0 ∷ [])) 1 2 4 rgb24 true)
unfolding clone
clone-dots = refl

copy_data_mismatch : copy_data dots (some older) ≡ (some older, image_parameters_mismatch)
unfolding copy_data
copy_data_mismatch = refl

copy_data_null : copy_data dots none ≡ (none, null_pointer)
unfolding copy_data
copy_data_null = refl

-- CopyDataStrict takes no notice of the strides: a byte between the rows is copied for one of a row.
copy_data_strict_rows :
    copy_data_strict dots (some (create (some (0 ∷ 0 ∷ 0 ∷ 0 ∷ 0 ∷ 0 ∷ 0 ∷ 0 ∷ [])) 1 2 4 rgb24))
    ≡ some (some (create (some (1 ∷ 2 ∷ 3 ∷ 7 ∷ 4 ∷ 5 ∷ 0 ∷ 0 ∷ [])) 1 2 4 rgb24), success)
unfolding copy_data_strict
copy_data_strict_rows = refl

row_bytes_case :
    (image_bytes_per_stride 1000 % 4 ≡ 0)
    × (image_bytes_per_line 1000 ≤ image_bytes_per_stride 1000)
    × (image_bytes_per_stride 1000 < image_bytes_per_line 1000 + 4)
    × (1000 ≤ image_bytes_per_line 1000 * 8)
    × (image_bytes_per_line 1000 * 8 < 1000 + 8)
row_bytes_case = row_bytes 1000 (omega arith)

copy_data_or_clone_lem_example :
    Outcome heap heap_law photo photo_bytes photo-IsImage
      (width_in photo (some older))
      (copy_data_or_clone heap photo (some older))
copy_data_or_clone_lem_example =
    copy_data_or_clone_lem heap heap_law photo photo_bytes photo-IsImage (some older) (λ to e.
      subst (λ i. (m : List ℕ) × IsImage i m) (some-injective _ _ e) (older_bytes, older-IsImage))

-- The width stays that of the picture before.
kept_width :
    copy_data_or_clone heap photo (some older)
    ≡ (some (new_image (some (1 ∷ 2 ∷ 3 ∷ 4 ∷ 9 ∷ 9 ∷ 0 ∷ 0 ∷ [])) 6 1 8 jpeg true), success)
unfolding copy_data_or_clone copy_data
kept_width = refl

abbrev stamped : Image
stamped = record photo { seconds = 100; microseconds = 5 }

update_time_stamp_lem_case : InOrder 90 6 stamped (update_time_stamp 90 6 stamped)
update_time_stamp_lem_case = update_time_stamp_lem 90 6 stamped
