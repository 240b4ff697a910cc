-- ===== src/Stream/Samples.antt =====
-- What the tests of the stream run on.
use mathlib.Core.Option.{some-injective}
use my_streamer.Prelude.{
  ℕ, ◌≤◌, min, List, some, ◌≡◌, arith, length, replicate, length-replicate, subst,
}
use my_streamer.Prelude.Text.{Text, codes}
use my_streamer.Prelude.Memory.{copy_in, length-copy_in}
use my_streamer.Errors.{success}
use my_streamer.Images.Samples.{heap, photo, photo_bytes, photo-IsImage}
use my_streamer.Stream.{
  StreamData, Tools, new_stream_data, jpeg_buffer_bytes, on_new_image, on_error,
}
use my_streamer.Stream.Safe.{ToolsLaw}
use my_streamer.Stream.Reach.{Reached, arrives, fails, stays, goes}

abbrev pub tools : Tools
tools = record {
  realloc = λ b n. some (copy_in (replicate n 0) 0 b);
  encode_to_memory = λ i b n. (success, b, min n 3);
}

pub tools_law : ToolsLaw tools
tools_law = record {
  realloc_room = λ b n c e.
      subst (λ x. n ≤ length x) (some-injective _ _ e)
        (omega (arith, length-copy_in (replicate n 0) 0 b, length-replicate {A = ℕ} n 0));
  encode_room = λ i b n h. (h, omega arith);
}

abbrev pub show : ℕ → Text
show n = replicate n 1

unfoldable pub zeros : ℕ → List ℕ
zeros n = replicate n 0

pub zeros_room : (n : ℕ) (b : List ℕ) → some (zeros n) ≡ some b → n ≤ length b
unfolding zeros
zeros_room n b e =
    subst (λ x. n ≤ length x) (some-injective _ _ e) (omega (arith, length-replicate {A = ℕ} n 0))

abbrev pub buffer : List ℕ
buffer = zeros jpeg_buffer_bytes

-- A picture and an error of the camera have come.
abbrev pub failed : StreamData
failed = on_error (codes "gone") (on_new_image heap photo (new_stream_data (some buffer)))

pub failed-Reached : Reached tools heap failed
failed-Reached = record {
  buffer = some buffer;
  buffer_room = zeros_room jpeg_buffer_bytes;
  steps = goes (goes stays (arrives photo photo_bytes photo-IsImage)) (fails (codes "gone"));
}
