-- ===== src/Images/Clones.antt =====
-- CopyDataOrClone, on an image that is there and on none.
use my_streamer.Prelude.{
  ℕ, ◌*◌, ◌≤◌, ◌<◌, ◌^◌, true, false, List, Option, none, some, if◌then◌else◌, ◌≡◌, refl, sym, ap,
  ◌∙◌, arith, ◌⊎◌, inl, inr, length, Option-cases, Bool-cases, subst,
}
use my_streamer.Errors.{ErrorCode, out_of_memory, is_success}
use my_streamer.Images.{
  PixelFormat, is_jpeg, image_bytes_per_stride, Image, new_image, line_bits, Heap, allocate,
  data_size, mismatch, copy_data, clone, must_clone, checked, clone_or_error, copy_data_or_clone,
}
use my_streamer.Images.Sizes.{row_bytes}
use my_streamer.Images.Copies.{IsImage, Fits, HasPixels, copy_data-HasPixels, must_clone-Fits}

data_size-small : (h stride : ℕ) → h * stride < 2 ^ 31 → data_size h stride ≡ h * stride
unfolding data_size
data_size-small h stride small = ground arith

pub allocate-cases :
    (heap : Heap) (w h : ℕ) (f : PixelFormat)
    → ((n : ℕ) (m : List ℕ) → heap.malloc n ≡ some m → n ≤ length m)
    → let stride = image_bytes_per_stride (line_bits w f) in
      h * stride < 2 ^ 31
      → (allocate heap w h f false ≡ none)
        ⊎ ((m : List ℕ) × (allocate heap w h f false ≡ some (new_image (some m) w h stride f true))
            × (h * stride ≤ length m))
unfolding allocate
allocate-cases heap w h f law small =
    let stride = image_bytes_per_stride (line_bits w f) in
    elim (Option-cases (heap.malloc (data_size h stride))) [
      | inl n ↦ inl (rw (n, allocate) refl)
      | inr (m, e) ↦ elim (Bool-cases heap.room) [
        | inl r ↦ inr (
          m,
          rw (e, allocate) (rw r refl),
          subst (λ n. n ≤ length m) (data_size-small h stride small) (law (data_size h stride) m e),
        )
        | inr r ↦ inl (rw (e, allocate) (rw r refl))
      ]
    ]

clone_by :
    (heap : Heap) (i : Image) (src : List ℕ) (a : Option Image)
    → i.memory ≡ some src
    → allocate heap i.width i.height i.format false ≡ a
    → clone heap i ≡ (elim a [
      | none ↦ none
      | some to ↦ (let (c, code) = copy_data i (some to) in if is_success code then c else none)
    ])
unfolding clone
clone_by heap i src a p e = rw (p, e, clone) refl

-- the width that the copy has
abbrev pub width_in : Image → Option Image → ℕ
width_in i none = i.width
width_in i (some to) = if must_clone i to then i.width else to.width

module _ (heap : Heap) (law : (n : ℕ) (m : List ℕ) → heap.malloc n ≡ some m → n ≤ length m)
    (i : Image) (src : List ℕ) (v : IsImage i src) where
  abbrev given : List ℕ → Image
  given m =
      new_image (some m) i.width i.height (image_bytes_per_stride (line_bits i.width i.format))
        i.format true

  given-IsImage :
      (m : List ℕ)
      → i.height * image_bytes_per_stride (line_bits i.width i.format) ≤ length m
      → IsImage (given m) m
  given-IsImage m h = record {
    memory_at = refl;
    line_fits = (row_bytes (line_bits i.width i.format) v.countable).1;
    rows_fit = h;
    countable = v.countable;
    allocatable = v.allocatable;
    tight = λ e. omega arith;
  }

  given-matches : (m : List ℕ) → mismatch i (given m) ≡ false
  given-matches m = elim (Bool-cases (is_jpeg i.format)) [
    | inl e ↦
        let wide : i.stride ≤ image_bytes_per_stride (line_bits i.width i.format) = v.tight e in
        ground arith
    | inr e ↦ ground arith
  ]

  given-Fits : (m : List ℕ) → Fits i (given m)
  given-Fits m = record {
    matches = given-matches m;
    height_at = refl;
    format_at = refl;
    room = inl refl;
  }

  -- a copy, or a null pointer and an error
  abbrev pub Outcome : ℕ → Option Image × ErrorCode → Type 0
  Outcome w r = HasPixels i src w r ⊎ ((r.1 ≡ out_of_memory) × (r.0 ≡ none))

  clone-Outcome : Outcome i.width (clone_or_error heap i)
  clone-Outcome = elim (allocate-cases heap i.width i.height i.format law v.allocatable) [
    | inl n ↦
        let e : clone heap i ≡ none = clone_by heap i src none v.memory_at n in
        subst (λ t. Outcome i.width (checked t)) (sym e) (inr (refl, refl))
    | inr (m, e, room) ↦
        let c = copy_data-HasPixels i (given m) src m v (given-IsImage m room) (given-Fits m) in
        let whole : clone heap i ≡ some c.image =
          clone_by heap i src (some (given m)) v.memory_at e
          ∙ ap (λ x. if is_success x then (copy_data i (some (given m))).0 else none) c.succeeds
          ∙ c.image_at in
        subst (λ t. Outcome i.width (checked t)) (sym whole)
          (inl (record {
            succeeds = refl;
            image = c.image;
            bytes = c.bytes;
            image_at = refl;
            valid = c.valid;
            width_at = c.width_at;
            height_at = c.height_at;
            format_at = c.format_at;
            pixels = c.pixels;
          }))
  ]

  -- CopyDataOrClone of a whole image, of which a copy has less than 2^31 bytes, to a pointer that is null or to a whole image, succeeds and leaves
  -- a whole image of the same height and format that has every byte of every line, and the width of the
  -- image, or of the one that was there where that is kept; or it says that there is no memory and leaves
  -- a null pointer. Where memory is given it is as large as was asked for.
  pub copy_data_or_clone_lem :
      (copy_to : Option Image)
      → ((to : Image) → copy_to ≡ some to → (dst : List ℕ) × IsImage to dst)
      → Outcome (width_in i copy_to) (copy_data_or_clone heap i copy_to)
  unfolding copy_data_or_clone
  copy_data_or_clone_lem none w = clone-Outcome
  copy_data_or_clone_lem (some to) w = elim (Bool-cases (must_clone i to)) [
    | inl e ↦
        subst
          (λ b.
            Outcome (if b then i.width else to.width)
              (if b then clone_or_error heap i else copy_data i (some to)))
          (sym e) clone-Outcome
    | inr e ↦
        let (dst, valid) = w to refl in
        subst
          (λ b.
            Outcome (if b then i.width else to.width)
              (if b then clone_or_error heap i else copy_data i (some to)))
          (sym e) (inl (copy_data-HasPixels i to src dst v valid (must_clone-Fits i to e)))
  ]
