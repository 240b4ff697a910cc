-- ===== src/Images/Sizes.antt =====
-- The bytes of a line and of a row.
use Prim.Native.Nat.{bit_and}
use my_streamer.Prelude.{ℕ, ◌+◌, ◌*◌, ◌/◌, ◌%◌, ◌^◌, ◌≤◌, ◌<◌, ◌≡◌, ap, ◌∙◌, arith}
use my_streamer.Prelude.Word.{add32, bit_and_clear}
use my_streamer.Images.{image_bytes_per_stride, image_bytes_per_line}

add32-small : (a b : ℕ) → a + b < 2 ^ 32 → add32 a b ≡ a + b
add32-small a b h = omega arith

-- For a line whose bits are counted without a wrap, with 31 to spare, a row has the bytes of the line
-- rounded up to a multiple of four: no fewer than the line's, and fewer than four more.
pub row_bytes :
    (bits : ℕ)
    → bits + 31 < 2 ^ 32
    → (image_bytes_per_stride bits % 4 ≡ 0)
      × (image_bytes_per_line bits ≤ image_bytes_per_stride bits)
      × (image_bytes_per_stride bits < image_bytes_per_line bits + 4)
      × (bits ≤ image_bytes_per_line bits * 8)
      × (image_bytes_per_line bits * 8 < bits + 8)
unfolding image_bytes_per_stride image_bytes_per_line
row_bytes bits h =
    let sum : add32 bits 31 ≡ bits + 31 = add32-small bits 31 h in
    let line : add32 bits 7 ≡ bits + 7 = omega arith in
    let cleared : bit_and (add32 bits 31) 0xffff_ffe0 ≡ (bits + 31) / 32 * 32 =
      ap (λ t. bit_and t 0xffff_ffe0) sum ∙ bit_and_clear (bits + 31) h in
    (
      omega (arith, cleared),
      omega (arith, cleared, line),
      omega (arith, cleared, line),
      omega (arith, line),
      omega (arith, line),
    )
