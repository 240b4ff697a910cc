-- ===== src/Images/Samples.antt =====
-- A heap and a JPEG for the tests.
use mathlib.Core.Option.{some-injective}
use my_streamer.Prelude.{
  ℕ, ◌≤◌, true, List, [], ◌∷◌, some, ◌≡◌, refl, arith, length, replicate, length-replicate, subst,
}
use my_streamer.Images.{Image, Heap, jpeg, create, image_bytes_per_stride, image_bytes_per_line}
use my_streamer.Images.Copies.{IsImage}

abbrev pub heap : Heap
heap = record {
  malloc = λ n. some (replicate n 0);
  calloc = λ n. some (replicate n 0);
  room = true;
}

pub heap_law : (n : ℕ) (m : List ℕ) → heap.malloc n ≡ some m → n ≤ length m
heap_law n m e =
    subst (λ x. n ≤ length x) (some-injective _ _ e) (omega (arith, length-replicate {A = ℕ} n 0))

abbrev pub photo_bytes : List ℕ
photo_bytes = 1 ∷ 2 ∷ 3 ∷ 4 ∷ []

abbrev pub photo : Image
photo = create (some photo_bytes) 4 1 4 jpeg

pub photo-IsImage : IsImage photo photo_bytes
unfolding image_bytes_per_line image_bytes_per_stride
photo-IsImage = record {
  memory_at = refl;
  line_fits = omega arith;
  rows_fit = omega arith;
  countable = omega arith;
  allocatable = omega arith;
  tight = λ _. omega arith;
}
