-- ===== src/Yuyv/Channels.antt =====
-- The channels of a pixel in plain arithmetic.
use my_streamer.Prelude.{ℕ, ◌+◌, ◌-◌, ◌*◌, ◌/◌, min, ◌≡◌, refl, ap, ◌∙◌, ◌⊎◌, inl, inr, arith}
use my_streamer.Prelude.Int.{ℤ, pos, negsuc, pos_part, neg_part, sub_ℕ, ◌-ℤ◌, -ℤ_parts}
use my_streamer.Yuyv.{clamp, shift8, scaled, red, green, blue}

-- A channel is the whole part of its value, cut off at 0 and at 255.
abbrev pub red_value : ℕ → ℕ → ℕ
red_value y v = min 255 ((256 * y + 360 * v - 46080) / 256)

abbrev pub green_value : ℕ → ℕ → ℕ → ℕ
green_value y u v = min 255 ((256 * y + 34816 - (88 * u + 184 * v)) / 256)

abbrev pub blue_value : ℕ → ℕ → ℕ
blue_value y u = min 255 ((256 * y + 455 * u - 58240) / 256)

pub red-value : (y v : ℕ) → red y v ≡ red_value y v
unfolding red
red-value y v = ground arith

pub blue-value : (y u : ℕ) → blue y u ≡ blue_value y u
unfolding blue
blue-value y u = ground arith

clamp-shift8 : (x : ℤ) → clamp (shift8 x) ≡ min 255 (pos_part x / 256)
clamp-shift8 (pos n) = ground arith
clamp-shift8 (negsuc n) = ground arith

parts_apart : (x : ℤ) → (pos_part x ≡ 0) ⊎ (neg_part x ≡ 0)
parts_apart (pos n) = inr refl
parts_apart (negsuc n) = inl refl

scaled_parts88 :
    (a : ℕ)
    → pos_part (scaled 88 (sub_ℕ a 128)) + 11264 ≡ neg_part (scaled 88 (sub_ℕ a 128)) + 88 * a
scaled_parts88 a = ground arith

scaled_parts184 :
    (a : ℕ)
    → pos_part (scaled 184 (sub_ℕ a 128)) + 23552 ≡ neg_part (scaled 184 (sub_ℕ a 128)) + 184 * a
scaled_parts184 a = ground arith

green_sum :
    (y u v : ℕ)
    → pos_part ((pos (y * 256) -ℤ scaled 88 (sub_ℕ u 128)) -ℤ scaled 184 (sub_ℕ v 128))
      ≡ 256 * y + 34816 - (88 * u + 184 * v)
green_sum y u v =
    let b = scaled 88 (sub_ℕ u 128) in
    let c = scaled 184 (sub_ℕ v 128) in
    let d = pos (y * 256) -ℤ b in
    let first = -ℤ_parts (pos (y * 256)) b in
    let second = -ℤ_parts d c in
    let us = scaled_parts88 u in
    let vs = scaled_parts184 v in
    elim (parts_apart (d -ℤ c)) [ inl p ↦ omega arith | inr p ↦ omega arith ]

pub green-value : (y u v : ℕ) → green y u v ≡ green_value y u v
unfolding green
green-value y u v =
    clamp-shift8 ((pos (y * 256) -ℤ scaled 88 (sub_ℕ u 128)) -ℤ scaled 184 (sub_ℕ v 128))
    ∙ ap (λ n. min 255 (n / 256)) (green_sum y u v)
