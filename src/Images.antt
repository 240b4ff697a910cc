-- ===== src/Images.antt =====
-- imgproc/image.h, image.cpp and img_tools.cpp: images and their copies. A size that is `int32_t` in the
-- source is never negative here. The memory is the list of its bytes, `none` where the pointer is null.
pub mod Sizes
pub mod Rows
pub mod Copies
pub mod Clones
pub mod Stamps
pub mod Samples
mod Tests
use Prim.Native.Nat.{bit_and}
use my_streamer.Prelude.{
  ℕ, zero, suc, ◌+◌, ◌-◌, ◌*◌, ◌/◌, ◌%◌, ◌^◌, Bool, true, false, not, ◌&&◌, ◌||◌, List, Option,
  none, some, ◌==◌, ltb, leb, if◌then◌else◌,
}
use my_streamer.Prelude.Word.{add32}
use my_streamer.Prelude.Memory.{copy_in, copy_out}
use my_streamer.Errors.{
  ErrorCode, success, null_pointer, out_of_memory, image_parameters_mismatch, is_success,
}

pub data PixelFormat : Type 0 where
  unknown grayscale8 rgb24 rgba32 jpeg : PixelFormat

-- the comparison of formats
abbrev pub is_jpeg : PixelFormat → Bool
is_jpeg jpeg = true
is_jpeg _ = false

abbrev pub format_index : PixelFormat → ℕ
format_index unknown = 0
format_index grayscale8 = 1
format_index rgb24 = 2
format_index rgba32 = 3
format_index jpeg = 4

abbrev pub same_format : PixelFormat → PixelFormat → Bool
same_format a b = format_index a == format_index b

abbrev pub image_bits_per_pixel : PixelFormat → ℕ
image_bits_per_pixel unknown = 0
image_bits_per_pixel grayscale8 = 8
image_bits_per_pixel rgb24 = 24
image_bits_per_pixel rgba32 = 32
image_bits_per_pixel jpeg = 8

-- `((bits + 31) & ~31) >> 3` and `(bits + 7) >> 3` on `uint32_t`
unfoldable pub image_bytes_per_stride : ℕ → ℕ
image_bytes_per_stride bits = bit_and (add32 bits 31) 0xffff_ffe0 / 8

unfoldable pub image_bytes_per_line : ℕ → ℕ
image_bytes_per_line bits = add32 bits 7 / 8

pub record Image : Type 0 where
  pub width : ℕ
  pub height : ℕ
  pub stride : ℕ
  pub size : ℕ
  pub format : PixelFormat
  pub own_memory : Bool
  pub seconds : ℕ
  pub microseconds : ℕ
  pub memory : Option (List ℕ)

-- the constructor; the time stamp is 0, and `size` holds the bits of `mSize`
abbrev pub new_image : Option (List ℕ) → ℕ → ℕ → ℕ → PixelFormat → Bool → Image
new_image memory width height stride format own = record {
  width = width;
  height = height;
  stride = stride;
  size = height * stride % 2 ^ 32;
  format = format;
  own_memory = own;
  seconds = 0;
  microseconds = 0;
  memory = memory;
}

-- `Create` on memory that stands already; `new` without exceptions gives an image here.
abbrev pub create : Option (List ℕ) → ℕ → ℕ → ℕ → PixelFormat → Image
create memory width height stride format = new_image memory width height stride format false

-- the bits of a line, on `uint32_t`
abbrev pub line_bits : ℕ → PixelFormat → ℕ
line_bits width format = width * image_bits_per_pixel format % 2 ^ 32

-- What the memory of the process gives: bytes or null, and whether there is room for an image.
pub record Heap : Type 0 where
  pub malloc : ℕ → Option (List ℕ)
  pub calloc : ℕ → Option (List ℕ)
  pub room : Bool

-- `height * stride` on `int32_t`, as the `size_t` that `malloc` and `calloc` are given
unfoldable pub data_size : ℕ → ℕ → ℕ
data_size height stride =
    let n = height * stride % 2 ^ 32 in if ltb n (2 ^ 31) then n else n + (2 ^ 64 - 2 ^ 32)

unfoldable pub allocate : Heap → ℕ → ℕ → PixelFormat → Bool → Option Image
unfolding image_bytes_per_stride data_size
allocate heap width height format zero_initialize =
    let stride = image_bytes_per_stride (line_bits width format) in
    elim (if zero_initialize
      then heap.calloc (data_size height stride)
      else heap.malloc (data_size height stride)) [
        | none ↦ none
        | some m ↦
            if heap.room then some (new_image (some m) width height stride format true) else none
      ]

unfoldable pub update_time_stamp : ℕ → ℕ → Image → Image
update_time_stamp sec usec i =
    if ltb i.seconds sec || ltb i.microseconds usec
    then record i { seconds = sec; microseconds = usec }
    else i

-- The loop over the rows: the places of the two pointers, what each goes on by, and the rows left.
unfoldable pub copy_rows : ℕ → ℕ → List ℕ → ℕ → ℕ → ℕ → ℕ → List ℕ → List ℕ
copy_rows zero line src s src_stride d dst_stride dst = dst
copy_rows (suc n) line src s src_stride d dst_stride dst =
    copy_rows n line src (s + src_stride) src_stride (d + dst_stride) dst_stride
      (copy_in dst d (copy_out src s line))

-- what `CopyData` compares behind the null pointers
abbrev pub mismatch : Image → Image → Bool
mismatch i to =
    (not (i.height == to.height) || not (same_format i.format to.format))
    || (not (is_jpeg i.format) && not (i.width == to.width))
    || (is_jpeg i.format && ltb to.stride i.stride)

-- The image that is copied to is changed in place.
unfoldable pub copy_data : Image → Option Image → Option Image × ErrorCode
unfolding copy_rows image_bytes_per_line
copy_data i none = (none, null_pointer)
copy_data i (some to) = elim i.memory [
  | none ↦ (some to, null_pointer)
  | some src ↦ elim to.memory [
    | none ↦ (some to, null_pointer)
    | some dst ↦ if mismatch i to then (some to, image_parameters_mismatch) else (
      some (record to {
        memory = some (
            copy_rows i.height (image_bytes_per_line (line_bits i.width i.format)) src 0 i.stride 0
              to.stride dst);
      }),
      success,
    )
  ]
]

unfoldable pub clone : Heap → Image → Option Image
unfolding allocate copy_data
clone heap i = elim i.memory [
  | none ↦ none
  | some src ↦ elim (allocate heap i.width i.height i.format false) [
    | none ↦ none
    | some to ↦
        let (copied, code) = copy_data i (some to) in if is_success code then copied else none
  ]
]

-- the test of `CopyDataOrClone` for an image that is there
abbrev pub must_clone : Image → Image → Bool
must_clone i to =
    (not (to.height == i.height) || not (same_format to.format i.format))
    || (not (is_jpeg i.format) && not (to.width == i.width))
    || (is_jpeg i.format && ltb to.stride i.stride)

-- the new image, or a null pointer and an error
abbrev pub checked : Option Image → Option Image × ErrorCode
checked none = (none, out_of_memory)
checked (some c) = (some c, success)

abbrev pub clone_or_error : Heap → Image → Option Image × ErrorCode
clone_or_error heap i = checked (clone heap i)

unfoldable pub copy_data_or_clone : Heap → Image → Option Image → Option Image × ErrorCode
copy_data_or_clone heap i none = clone_or_error heap i
copy_data_or_clone heap i (some to) =
    if must_clone i to then clone_or_error heap i else copy_data i (some to)

-- A null pointer among the data is a fault, `none`.
unfoldable pub copy_data_strict : Image → Option Image → Option (Option Image × ErrorCode)
unfolding image_bytes_per_line
copy_data_strict i none = some (none, out_of_memory)
copy_data_strict i (some to) =
    if not (same_format to.format i.format)
      || not (to.width == i.width)
      || not (to.height == i.height)
    then some (some to, out_of_memory)
    else elim i.memory [
      | none ↦ none
      | some src ↦ elim to.memory [
        | none ↦ none
        | some dst ↦
            let total = i.height * image_bytes_per_line (line_bits i.width i.format) % 2 ^ 32 in
            some
              (some (record to { memory = some (copy_in dst 0 (copy_out src 0 total)) }), success)
      ]
    ]
