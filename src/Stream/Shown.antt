-- ===== src/Stream/Shown.antt =====
-- The data behind the arrival of a JPEG and a request.
use my_streamer.Prelude.{
  ℕ, zero, suc, ◌+◌, ◌/◌, ◌^◌, ◌≤◌, ◌<◌, true, false, not, ◌||◌, List, Option, none, some, ltb,
  if◌then◌else◌, ◌≡◌, refl, ap, ◌∙◌, arith, ◌⊎◌, inl, inr, length, get_or, ap₂, [], ◌∷◌,
  Option-cases, Bool-cases,
}
use my_streamer.Prelude.Memory.{copy_in, copy_out, length-copy_out, copy_in_inside, get_or-copy_out}
use my_streamer.Errors.{out_of_memory, is_success}
use my_streamer.Images.{Heap, Image, is_jpeg, jpeg, line_bits, image_bytes_per_line}
use my_streamer.Images.Copies.{SamePixels, line_of}
use my_streamer.Stream.{
  StreamData, Tools, is_error, enlarge, store, take_jpeg, take_encoded, take_image, take_new, seen,
  encode_camera_image, encode_unless_error, picture,
}
use my_streamer.Stream.Safe.{ToolsLaw, IsSafe, enlarge-HasRoom}

copy_out-eq :
    (a b : List ℕ) (i j n : ℕ)
    → ((k : ℕ) → k < n → get_or a (i + k) 0 ≡ get_or b (j + k) 0)
    → copy_out a i n ≡ copy_out b j n
copy_out-eq a b i j zero h = refl
copy_out-eq a b i j (suc n) h =
    ap₂ (λ x xs. x ∷ xs)
      (ap (λ p. get_or a p 0) (omega arith)
        ∙ h 0 (omega arith)
        ∙ ap (λ p. get_or b p 0) (omega arith))
      (copy_out-eq a b (suc i) (suc j) n (λ k l.
        ap (λ p. get_or a p 0) (omega arith)
        ∙ h (suc k) (omega arith)
        ∙ ap (λ p. get_or b p 0) (omega arith)))

-- what is stored is what is shown
copy_out-copy_in :
    (c m : List ℕ) (n : ℕ)
    → n ≤ length c
    → copy_out (copy_in c 0 (copy_out m 0 n)) 0 n ≡ copy_out m 0 n
copy_out-copy_in c m n fits = copy_out-eq (copy_in c 0 (copy_out m 0 n)) m 0 0 n (λ k l.
    copy_in_inside c 0 (copy_out m 0 n) k (omega (arith, length-copy_out m 0 n))
      (omega (arith, length-copy_out m 0 n))
    ∙ get_or-copy_out m 0 n k l)

line_of-jpeg : (i : Image) → i.format ≡ jpeg → i.width < 2 ^ 28 → line_of i ≡ i.width
unfolding image_bytes_per_line
line_of-jpeg i f small = ap (λ p. image_bytes_per_line (line_bits i.width p)) f ∙ omega arith

pub same_bytes :
    (i to : Image) (src dst : List ℕ)
    → i.format ≡ jpeg
    → i.height ≡ 1
    → i.width < 2 ^ 28
    → SamePixels i src to dst
    → (k : ℕ) → k < i.width
    → get_or dst k 0 ≡ get_or src k 0
same_bytes i to src dst f h small same k l =
    ap (λ x. get_or dst x 0) (omega arith)
    ∙ same 0 k (omega arith) (omega (arith, line_of-jpeg i f small))
    ∙ ap (λ x. get_or src x 0) (omega arith)

-- the data once a picture `m` of `w` bytes is taken into it: no memory, or no error and the picture
unfoldable pub Shown : ℕ → List ℕ → StreamData → Type 0
Shown w m t =
    (is_error t ≡ true) ⊎ ((is_error t ≡ false) × (t.jpeg_size ≡ w) × (picture t ≡ copy_out m 0 w))

pub oom_error : (t : StreamData) → t.internal_error ≡ out_of_memory → is_error t ≡ true
unfolding is_error
oom_error t e = ap (λ c. not (is_success c) || t.video_source_error) e

store-Shown :
    (w : ℕ) (m : List ℕ) (b : Option (List ℕ)) (t : StreamData)
    → ((c : List ℕ) → b ≡ some c → w ≤ length c)
    → (is_error t ≡ true) ⊎ ((is_error t ≡ false) × (c : List ℕ) × (b ≡ some c))
    → Shown w m (store w m b t)
unfolding Shown is_error
store-Shown w m none t h (inl e) = inl e
store-Shown w m none t h (inr (e, c, q)) = absurd (cc q)
store-Shown w m (some c) t h (inl e) = inl e
store-Shown w m (some c) t h (inr (e, _, _)) = inr (e, refl, copy_out-copy_in c m w (h c refl))

seen-Shown :
    (w : ℕ) (m : List ℕ) (t : StreamData)
    → Shown w m t
    → Shown w m (record t { new_image_available = false })
unfolding Shown is_error
seen-Shown w m t h = h

module _ (tools : Tools) (law : ToolsLaw tools) where
  enlarge-cases :
      (w : ℕ) (b : List ℕ) (s : StreamData)
      → is_error s ≡ false
      → s.jpeg_buffer ≡ some b
      → let t = enlarge tools w b s in
        (is_error t ≡ true) ⊎ ((is_error t ≡ false) × (c : List ℕ) × (t.jpeg_buffer ≡ some c))
  unfolding enlarge is_error
  enlarge-cases w b s fine at = elim (Bool-cases (ltb s.jpeg_buffer_size w)) [
    | inl small ↦ elim (Option-cases (tools.realloc b (w + w / 10))) [
      | inl n ↦ inl (rw (small, enlarge) (rw (n, enlarge) refl))
      | inr (c, q) ↦ inr (rw (small, enlarge) (rw (q, enlarge) (fine, c, refl)))
    ]
    | inr fits ↦ inr (rw (fits, enlarge) (fine, b, at))
  ]

  take_jpeg-Shown :
      (w : ℕ) (m b : List ℕ) (s : StreamData)
      → is_error s ≡ false
      → s.jpeg_buffer ≡ some b
      → IsSafe s
      → Shown w m (take_jpeg tools w m b s)
  unfolding take_jpeg
  take_jpeg-Shown w m b s fine at safe =
      let t = enlarge tools w b s in
      store-Shown w m t.jpeg_buffer t
        (λ c q.
          ((enlarge-HasRoom tools law w b s at
              (λ d p. (safe.buffer_room d p, safe.picture_fits d p))).1
            c q).1)
        (enlarge-cases w b s fine at)

  -- a request where a new JPEG waits
  pub picture_taken :
      (heap : Heap) (s : StreamData) (i : Image) (m : List ℕ)
      → is_error s ≡ false
      → s.new_image_available ≡ true
      → s.camera_image ≡ some i
      → is_jpeg i.format ≡ true
      → i.memory ≡ some m
      → IsSafe s
      → (t : StreamData) × (encode_unless_error tools heap [] s ≡ some t) × Shown i.width m t
  unfolding encode_camera_image Shown
  picture_taken heap s i m fine n c j at safe = elim (Option-cases s.jpeg_buffer) [
    | inl gone ↦ (
      record s { internal_error = out_of_memory; new_image_available = false },
      ap (λ f. if f then some s else encode_camera_image tools s) fine
          ∙ ap (λ f. if f then seen (take_new tools s.jpeg_buffer s) else some s) n
          ∙ ap (λ x. seen (take_new tools x s)) gone,
      inl (oom_error _ refl),
    )
    | inr (b, q) ↦ (
      record (take_jpeg tools i.width m b s) { new_image_available = false },
      ap (λ f. if f then some s else encode_camera_image tools s) fine
          ∙ ap (λ f. if f then seen (take_new tools s.jpeg_buffer s) else some s) n
          ∙ ap (λ x. seen (take_new tools x s)) q
          ∙ ap seen (
              ap (λ x. take_image tools x b s) c
              ∙ ap
                  (λ f.
                    if f
                    then (elim i.memory [
                      | none ↦ none
                      | some bytes ↦ some (take_jpeg tools i.width bytes b s)
                    ])
                    else some (take_encoded tools i b s))
                  j
              ∙ ap
                  (λ x. elim x [
                    | none ↦ none
                    | some bytes ↦ some (take_jpeg tools i.width bytes b s)
                  ])
                  at),
      seen-Shown i.width m (take_jpeg tools i.width m b s)
          (take_jpeg-Shown i.width m b s fine q safe),
    )
  ]
