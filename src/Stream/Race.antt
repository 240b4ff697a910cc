-- ===== src/Stream/Race.antt =====
-- A request that tests the error before the camera's thread runs, and takes the picture behind it.
use my_streamer.Prelude.{
  ℕ, true, false, not, ◌||◌, List, [], ◌∷◌, none, some, if◌then◌else◌, ◌≡◌, refl, ap, ◌∙◌,
  Option-cases, inl, inr,
}
use my_streamer.Errors.{out_of_memory, is_success}
use my_streamer.Images.{
  Image, line_bits, image_bytes_per_stride, Heap, data_size, allocate, clone, checked,
  clone_or_error, must_clone, copy_data, copy_data_or_clone,
}
use my_streamer.Stream.{
  StreamData, Tools, brings, is_error, on_new_image, take_image, take_new, seen,
  encode_camera_image, encode_unless_error,
}

clone-none : (heap : Heap) (i : Image) → ((n : ℕ) → heap.malloc n ≡ none) → clone heap i ≡ none
unfolding clone allocate
clone-none heap i dry = elim (Option-cases i.memory) [
  | inl n ↦ rw (n, clone) refl
  | inr (m, e) ↦
      rw (e, clone)
        (rw (dry (data_size i.height (image_bytes_per_stride (line_bits i.width i.format)))) refl)
]

failed_copy :
    (heap : Heap) (i c : Image)
    → ((n : ℕ) → heap.malloc n ≡ none)
    → must_clone i c ≡ true
    → copy_data_or_clone heap i (some c) ≡ (none, out_of_memory)
unfolding copy_data_or_clone
failed_copy heap i c dry m =
    ap (λ b. if b then clone_or_error heap i else copy_data i (some c)) m
    ∙ ap checked (clone-none heap i dry)

-- A new image waits and there is no error when a request tests for one; then the camera's thread brings
-- an image that needs a copy of its own, and no memory is given. The request that goes on from its
-- test uses a null pointer, where one that tests later leaves the data as it is.
pub race_meets_null :
    (tools : Tools) (heap : Heap) (s : StreamData) (i c : Image) (b : List ℕ)
    → is_error s ≡ false
    → s.new_image_available ≡ true
    → s.jpeg_buffer ≡ some b
    → s.camera_image ≡ some c
    → must_clone i c ≡ true
    → ((n : ℕ) → heap.malloc n ≡ none)
    → let t = on_new_image heap i s in
      (encode_unless_error tools heap (brings i ∷ []) s ≡ none)
      × (encode_unless_error tools heap [] t ≡ some t)
unfolding on_new_image encode_camera_image is_error
race_meets_null tools heap s i c b fine n at o m dry =
    let t = on_new_image heap i s in
    let e : copy_data_or_clone heap i s.camera_image ≡ (none, out_of_memory) =
      ap (copy_data_or_clone heap i) o ∙ failed_copy heap i c dry m in
    let waits : t.new_image_available ≡ true =
      ap (λ r. if is_success r.1 then true else s.new_image_available) e ∙ n in
    (
      ap (λ f. if f then some t else encode_camera_image tools t) fine
          ∙ ap (λ f. if f then seen (take_new tools t.jpeg_buffer t) else some t) waits
          ∙ ap (λ x. seen (take_new tools x t)) at
          ∙ ap (λ r. seen (take_image tools r.0 b t)) e,
      ap (λ r. if not (is_success r.1) || false then some t else encode_camera_image tools t) e,
    )
