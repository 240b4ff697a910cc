-- ===== src/Stream/Safe.antt =====
-- However pictures, errors and requests follow on one another, no request that is not interrupted meets
-- a null pointer.
use my_streamer.Prelude.{
  ℕ, ◌+◌, ◌/◌, ◌≤◌, Bool, true, false, not, ◌&&◌, ◌||◌, ◌==◌, List, [], ◌⊎◌, Option, none, some,
  ltb, if◌then◌else◌, ◌≡◌, refl, sym, ap, ◌∙◌, arith, inl, inr, length, Option-cases, Bool-cases,
  subst,
}
use mathlib.Core.Option.{some-injective}
use my_streamer.Prelude.Memory.{copy_in, copy_out, length-copy_in}
use my_streamer.Prelude.Text.{Text}
use my_streamer.Errors.{ErrorCode, success, out_of_memory, is_success}
use my_streamer.Images.{Image, is_jpeg, Heap}
use my_streamer.Images.Copies.{IsImage}
use my_streamer.Images.Clones.{copy_data_or_clone_lem}
use my_streamer.Stream.{
  StreamData, Tools, quiet, finished, is_null, uses_null, is_error, on_new_image, enlarge, store,
  take_jpeg, take_encoded, take_image, take_new, seen, encode_camera_image, encode_unless_error,
}

-- What memory that is given has: as many bytes as were asked for.
abbrev pub HeapLaw : Heap → Type 0
HeapLaw heap = (n : ℕ) (m : List ℕ) → heap.malloc n ≡ some m → n ≤ length m

-- `realloc` likewise. The encoder leaves a buffer with room for the size that it was told and for the
-- one that it reports.
pub record ToolsLaw (tools : Tools) : Type 0 where
  pub realloc_room : (b : List ℕ) (n : ℕ) (c : List ℕ) → tools.realloc b n ≡ some c → n ≤ length c
  pub encode_room :
      (i : Image) (b : List ℕ) (n : ℕ)
      → n ≤ length b
      → let (code, c, m) = tools.encode_to_memory i b n in (n ≤ length c) × (m ≤ length c)

pub record IsSafe (s : StreamData) : Type 0 where
  pub image_whole : (i : Image) → s.camera_image ≡ some i → (m : List ℕ) × IsImage i m
  pub image_there :
      s.new_image_available ≡ true
      → s.internal_error ≡ success
      → (i : Image) × (s.camera_image ≡ some i)
  pub buffer_room : (b : List ℕ) → s.jpeg_buffer ≡ some b → s.jpeg_buffer_size ≤ length b
  pub picture_there : uses_null s ≡ true → s.new_image_available ≡ true
  pub picture_fits : (b : List ℕ) → s.jpeg_buffer ≡ some b → s.jpeg_size ≤ length b

-- where there is an error, no picture is used
pub no_use :
    (b : Option (List ℕ)) (n : ℕ) {e : Bool}
    → e ≡ true
    → (is_null b && (not e && not (n == 0))) ≡ false
no_use b n {e} h = ground arith

unread : (a : Bool) {b : Bool} → b ≡ false → (a && b) ≡ false
unread a {b} h = ground arith

pub error_of : (s : StreamData) → s.internal_error ≡ out_of_memory → is_error s ≡ true
unfolding is_error
error_of s e = ap (λ c. not (is_success c) || s.video_source_error) e

still_there :
    (t : StreamData)
    → uses_null t ≡ false
    → uses_null (record t { new_image_available = false }) ≡ false
unfolding is_error
still_there t h = h

unused : (s : StreamData) → IsSafe s → s.new_image_available ≡ false → uses_null s ≡ false
unused s safe n = elim (Bool-cases (uses_null s)) [
  | inl u ↦ absurd (cc (safe.picture_there u, n))
  | inr u ↦ u
]

pub arrived :
    (heap : Heap) (i : Image) (src : List ℕ) (s : StreamData)
    → HeapLaw heap
    → IsImage i src
    → IsSafe s
    → IsSafe (on_new_image heap i s)
unfolding on_new_image
arrived heap i src s law v safe =
    elim (copy_data_or_clone_lem heap law i src v s.camera_image safe.image_whole) [
      | inl p ↦ record {
        image_whole = λ j e.
            subst (λ (x : Image). (m : List ℕ) × IsImage x m)
              (some-injective _ _ (sym p.image_at ∙ e)) (p.bytes, p.valid);
        image_there = λ _ _. (p.image, p.image_at);
        picture_there =
            λ _. ap (λ c. if is_success c then true else s.new_image_available) p.succeeds;
        buffer_room = safe.buffer_room;
        picture_fits = safe.picture_fits;
      }
      | inr (e, n) ↦ record {
        image_whole = λ j q. absurd (cc (sym n ∙ q));
        image_there = λ _ q. absurd (cc (sym e ∙ q));
        picture_there =
            λ u. absurd (cc (sym (no_use _ _ (error_of (on_new_image heap i s) e)) ∙ u));
        buffer_room = safe.buffer_room;
        picture_fits = safe.picture_fits;
      }
    ]

pub is_error-success : (s : StreamData) → is_error s ≡ false → s.internal_error ≡ success
unfolding is_error
is_error-success s h = by_code s.internal_error (ground arith)
  where
    by_code : (e : ErrorCode) → is_success e ≡ true → e ≡ success
    by_code success h = refl
    by_code _ h = absurd (cc h)

module _ (tools : Tools) (heap : Heap) (show : ℕ → Text) where
  -- an uninterrupted request that uses no null pointer
  pub finished-quiet :
      {A : Type 0} (reads : StreamData → Bool) (answer : StreamData → A) (s t : StreamData)
      → encode_unless_error tools heap [] s ≡ some t
      → uses_null t ≡ false
      → finished tools heap show reads answer quiet s ≡ some (t, answer t)
  finished-quiet {A} reads answer s t e u =
      let finish : Option StreamData → Option (StreamData × A) = λ o. elim o [
        | none ↦ none
        | some x ↦ if reads x && uses_null x then none else some (x, answer x)
      ] in
      ap finish e ∙ ap (λ b. if b then none else some (t, answer t)) (unread (reads t) u)

module _ (tools : Tools) (law : ToolsLaw tools) where
  -- only the buffer's fields and the error change
  abbrev pub HasRoom : StreamData → Type 0
  HasRoom s =
      (b : List ℕ)
      → s.jpeg_buffer ≡ some b
      → (s.jpeg_buffer_size ≤ length b) × (s.jpeg_size ≤ length b)

  pub enlarge-HasRoom :
      (width : ℕ) (buffer : List ℕ) (s : StreamData)
      → s.jpeg_buffer ≡ some buffer
      → HasRoom s
      → let t = enlarge tools width buffer s in
        (t.camera_image ≡ s.camera_image)
        × ((b : List ℕ)
            → t.jpeg_buffer ≡ some b
            → (t.jpeg_buffer_size ≤ length b) × (width ≤ length b))
  unfolding enlarge
  enlarge-HasRoom width buffer s e h = elim (Bool-cases (ltb s.jpeg_buffer_size width)) [
    | inl small ↦ elim (Option-cases (tools.realloc buffer (width + width / 10))) [
      | inl n ↦ rw (small, enlarge) (rw (n, enlarge) (refl, λ b q. absurd (cc q)))
      | inr (c, q) ↦
          rw (small, enlarge)
            (rw q (
              refl,
              λ b p.
                  let room : width + width / 10 ≤ length c =
                    law.realloc_room buffer (width + width / 10) c q in
                  let same : length c ≡ length b = ap length (some-injective _ _ p) in
                  (omega arith, omega arith),
            ))
    ]
    | inr fits ↦
        rw (fits, enlarge)
          (
            refl,
            λ b p.
                let (room, _) = h b p in
                let w : width ≤ s.jpeg_buffer_size = ground arith in (room, omega arith),
          )
  ]

  -- what a picture that is taken leaves
  abbrev Taken : StreamData → StreamData → Type 0
  Taken s t = (t.camera_image ≡ s.camera_image) × HasRoom t × (uses_null t ≡ false)

  store-Taken :
      (width : ℕ) (bytes : List ℕ) (m : Option (List ℕ)) (t : StreamData)
      → t.jpeg_buffer ≡ m
      → ((b : List ℕ)
          → t.jpeg_buffer ≡ some b
          → (t.jpeg_buffer_size ≤ length b) × (width ≤ length b))
      → uses_null t ≡ false
      → Taken t (store width bytes m t)
  store-Taken width bytes none t e h u = (refl, λ b q. absurd (cc (sym e ∙ q)), u)
  store-Taken width bytes (some c) t e h u =
      let (room, fits) = h c e in
      (
        refl,
        λ b q.
            let same : length (copy_in c 0 (copy_out bytes 0 width)) ≡ length b =
              ap length (some-injective _ _ q) in
            let kept : length (copy_in c 0 (copy_out bytes 0 width)) ≡ length c =
              length-copy_in c 0 (copy_out bytes 0 width) in
            (omega arith, omega arith),
        refl,
      )

  enlarge-there :
      (width : ℕ) (buffer : List ℕ) (s : StreamData)
      → s.jpeg_buffer ≡ some buffer
      → uses_null (enlarge tools width buffer s) ≡ false
  unfolding enlarge is_error
  enlarge-there width buffer s e = elim (Bool-cases (ltb s.jpeg_buffer_size width)) [
    | inl small ↦ elim (Option-cases (tools.realloc buffer (width + width / 10))) [
      | inl n ↦ rw (small, enlarge) (rw (n, enlarge) refl)
      | inr (c, q) ↦ rw (small, enlarge) (rw (q, enlarge) refl)
    ]
    | inr fits ↦
        rw (fits, enlarge) (ap (λ b. is_null b && (not (is_error s) && not (s.jpeg_size == 0))) e)
  ]

  take_jpeg-Taken :
      (width : ℕ) (bytes buffer : List ℕ) (s : StreamData)
      → s.jpeg_buffer ≡ some buffer
      → HasRoom s
      → Taken s (take_jpeg tools width bytes buffer s)
  unfolding take_jpeg
  take_jpeg-Taken width bytes buffer s e h =
      let t = enlarge tools width buffer s in
      let (same, room) = enlarge-HasRoom width buffer s e h in
      let (same', room', there) =
        store-Taken width bytes t.jpeg_buffer t refl room (enlarge-there width buffer s e) in
      (same' ∙ same, room', there)

  take_encoded-Taken :
      (i : Image) (buffer : List ℕ) (s : StreamData)
      → s.jpeg_buffer ≡ some buffer
      → HasRoom s
      → Taken s (take_encoded tools i buffer s)
  unfolding take_encoded
  take_encoded-Taken i buffer s e h =
      let (old, new) = law.encode_room i buffer s.jpeg_buffer_size (h buffer e).0 in
      (
        refl,
        λ b q.
            let same : length (tools.encode_to_memory i buffer s.jpeg_buffer_size).1 ≡ length b =
              ap length (some-injective _ _ q) in
            (ground arith, omega arith),
        refl,
      )

  room_of : (s : StreamData) → IsSafe s → HasRoom s
  room_of s safe b q = (safe.buffer_room b q, safe.picture_fits b q)

  take_image-Taken :
      (c : Option Image) (i : Image) (m : List ℕ) (buffer : List ℕ) (s : StreamData)
      → c ≡ some i
      → IsImage i m
      → s.jpeg_buffer ≡ some buffer
      → HasRoom s
      → (t : StreamData) × (take_image tools c buffer s ≡ some t) × Taken s t
  take_image-Taken c i m buffer s e v b h = elim (Bool-cases (is_jpeg i.format)) [
    | inl j ↦ (
      take_jpeg tools i.width m buffer s,
      rw (e, take_image) (rw j (rw v.memory_at refl)),
      take_jpeg-Taken i.width m buffer s b h,
    )
    | inr j ↦ (
      take_encoded tools i buffer s,
      rw (e, take_image) (rw j refl),
      take_encoded-Taken i buffer s b h,
    )
  ]

  -- a buffer, and no image to put into it
  take_new-cases :
      (m : Option (List ℕ)) (s : StreamData)
      → IsSafe s
      → s.jpeg_buffer ≡ m
      → ((take_new tools m s ≡ none) × (s.camera_image ≡ none))
        ⊎ ((t : StreamData) × (take_new tools m s ≡ some t) × Taken s t)
  take_new-cases none s safe e = inr (
    record s { internal_error = out_of_memory },
    refl,
    (
      refl,
      room_of s safe,
      no_use s.jpeg_buffer s.jpeg_size
          (error_of (record s { internal_error = out_of_memory }) refl),
    ),
  )
  take_new-cases (some buffer) s safe e = elim (Option-cases s.camera_image) [
    | inl n ↦ inl (ap (λ c. take_image tools c buffer s) n, n)
    | inr (i, c) ↦
        let (m, v) = safe.image_whole i c in
        inr (take_image-Taken s.camera_image i m buffer s c v e (room_of s safe))
  ]

  Taken-IsSafe :
      (s t : StreamData) → IsSafe s → Taken s t → IsSafe (record t { new_image_available = false })
  Taken-IsSafe s t safe (same, room, there) = record {
    image_whole = λ i e. safe.image_whole i (sym same ∙ e);
    image_there = λ e _. absurd (cc e);
    picture_there = λ u. absurd (cc (sym (still_there t there) ∙ u));
    buffer_room = λ b e. (room b e).0;
    picture_fits = λ b e. (room b e).1;
  }

  -- what a null pointer is met in: a new image is said to be there and is not
  pub encode_camera_image-cases :
      (s : StreamData)
      → IsSafe s
      → ((encode_camera_image tools s ≡ none)
          × (s.new_image_available ≡ true)
          × (s.camera_image ≡ none))
        ⊎ ((t : StreamData) × (encode_camera_image tools s ≡ some t)
            × IsSafe t
            × (uses_null t ≡ false))
  unfolding encode_camera_image
  encode_camera_image-cases s safe =
      let by : Bool → Option StreamData =
        λ b. if b then seen (take_new tools s.jpeg_buffer s) else some s in
      elim (Bool-cases s.new_image_available) [
        | inl n ↦ elim (take_new-cases s.jpeg_buffer s safe refl) [
          | inl (e, gone) ↦ inl (ap by n ∙ ap seen e, n, gone)
          | inr (t, e, taken) ↦ inr (
            record t { new_image_available = false },
            ap by n ∙ ap seen e,
            Taken-IsSafe s t safe taken,
            still_there t taken.2,
          )
        ]
        | inr n ↦ inr (s, ap by n, safe, unused s safe n)
      ]

  -- a request that the camera's thread does not interrupt
  pub encode_unless_error-IsSafe :
      (heap : Heap) (s : StreamData)
      → IsSafe s
      → (t : StreamData) × (encode_unless_error tools heap [] s ≡ some t)
        × IsSafe t
        × (uses_null t ≡ false)
  encode_unless_error-IsSafe heap s safe = elim (Bool-cases (is_error s)) [
    | inl e ↦ (s, ap (λ b. if b then some s else encode_camera_image tools s) e, safe, no_use _ _ e)
    | inr e ↦ elim (encode_camera_image-cases s safe) [
      | inl (_, n, gone) ↦
          let (i, there) = safe.image_there n (is_error-success s e) in absurd (cc (gone, there))
      | inr (t, q, v, u) ↦
          (t, ap (λ b. if b then some s else encode_camera_image tools s) e ∙ q, v, u)
    ]
  ]
