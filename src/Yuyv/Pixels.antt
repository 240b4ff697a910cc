-- ===== src/Yuyv/Pixels.antt =====
-- Where the pixels of the picture come from.
use my_streamer.Prelude.{
  ℕ, zero, suc, ◌+◌, ◌*◌, ◌/◌, ◌%◌, ◌≤◌, ◌<◌, Bool, List, ◌==◌, Bool-cases, if◌then◌else◌, ◌≡◌,
  refl, ap, ◌∙◌, subst, ◌⊎◌, inl, inr, arith, length, get_or, set, length-set, get_or-set_self,
  get_or-set_ne,
}
use my_streamer.Yuyv.{red, green, blue, Decoder, decode_pixel, decode_columns}
use my_streamer.Yuyv.Channels.{
  red_value, green_value, blue_value, red-value, green-value, blue-value,
}

-- the bytes of pixel `k`: two pixels share four bytes, a luminance each and the differences in common
abbrev pub luminance : List ℕ → ℕ → ℕ
luminance yuyv k = get_or yuyv (4 * (k / 2) + 2 * (k % 2)) 0

abbrev pub blue_difference : List ℕ → ℕ → ℕ
blue_difference yuyv k = get_or yuyv (4 * (k / 2) + 1) 0

abbrev pub red_difference : List ℕ → ℕ → ℕ
red_difference yuyv k = get_or yuyv (4 * (k / 2) + 3) 0

-- pixel `k` of the source stands at `p`
abbrev pub HasPixel : List ℕ → ℕ → List ℕ → ℕ → Type 0
HasPixel yuyv k rgb p =
    (get_or rgb p 0 ≡ red_value (luminance yuyv k) (red_difference yuyv k))
    × (get_or rgb (p + 1) 0
        ≡ green_value (luminance yuyv k) (blue_difference yuyv k) (red_difference yuyv k))
    × (get_or rgb (p + 2) 0 ≡ blue_value (luminance yuyv k) (blue_difference yuyv k))

-- the decoder is before pixel `k`
abbrev pub IsAt : ℕ → Decoder → Type 0
IsAt k d = (d.yuyv_ptr ≡ 4 * (k / 2)) × (d.z ≡ k % 2)

-- the memories have one length and the same bytes outside of `n` pixels from `p` on
abbrev pub Keeps : ℕ → ℕ → List ℕ → List ℕ → Type 0
Keeps p n a b =
    (length b ≡ length a) × ((j : ℕ) → (j < p) ⊎ (p + 3 * n ≤ j) → get_or b j 0 ≡ get_or a j 0)

decode_pixel-IsAt :
    (yuyv : List ℕ) (p k : ℕ) (d : Decoder) → IsAt k d → IsAt (suc k) (decode_pixel yuyv p d)
unfolding decode_pixel
decode_pixel-IsAt yuyv p k d (a, b) = (ground arith, ground arith)

pub three-Keeps :
    (m : List ℕ) (p x y z : ℕ) → Keeps p 1 m (set (set (set m (p + 0) x) (p + 1) y) (p + 2) z)
three-Keeps m p x y z =
    let m1 = set m (p + 0) x in
    let m2 = set m1 (p + 1) y in
    (
      length-set m2 (p + 2) z ∙ length-set m1 (p + 1) y ∙ length-set m (p + 0) x,
      λ j out.
          get_or-set_ne m2 z 0 (λ e. elim out [ inl l ↦ omega arith | inr l ↦ omega arith ])
          ∙ get_or-set_ne m1 y 0 (λ e. elim out [ inl l ↦ omega arith | inr l ↦ omega arith ])
          ∙ get_or-set_ne m x 0 (λ e. elim out [ inl l ↦ omega arith | inr l ↦ omega arith ]),
    )

decode_pixel-Keeps :
    (yuyv : List ℕ) (p : ℕ) (d : Decoder) → Keeps p 1 d.rgb (decode_pixel yuyv p d).rgb
unfolding decode_pixel
decode_pixel-Keeps yuyv p d = three-Keeps d.rgb p _ _ _

pub three-bytes :
    (m : List ℕ) (p x y z : ℕ)
    → p + 3 ≤ length m
    → let w = set (set (set m (p + 0) x) (p + 1) y) (p + 2) z in
      (get_or w p 0 ≡ x) × (get_or w (p + 1) 0 ≡ y) × (get_or w (p + 2) 0 ≡ z)
three-bytes m p x y z room =
    let m1 = set m (p + 0) x in
    let m2 = set m1 (p + 1) y in
    (
      get_or-set_ne m2 z 0 (λ e. omega arith)
          ∙ get_or-set_ne m1 y 0 (λ e. omega arith)
          ∙ ap (λ i. get_or m1 i 0) (omega arith)
          ∙ get_or-set_self m (p + 0) x 0 (omega arith),
      get_or-set_ne m2 z 0 (λ e. omega arith)
          ∙ get_or-set_self m1 (p + 1) y 0 (omega (arith, length-set m (p + 0) x)),
      get_or-set_self m2 (p + 2) z 0
          (omega (arith, length-set m1 (p + 1) y, length-set m (p + 0) x)),
    )

luminance_read :
    (yuyv : List ℕ) (k : ℕ) (d : Decoder)
    → IsAt k d
    → (if d.z == 0 then get_or yuyv d.yuyv_ptr 0 else get_or yuyv (d.yuyv_ptr + 2) 0)
      ≡ luminance yuyv k
luminance_read yuyv k d (a, b) =
    let by : Bool → ℕ =
      λ t. if t then get_or yuyv d.yuyv_ptr 0 else get_or yuyv (d.yuyv_ptr + 2) 0 in
    elim (Bool-cases (d.z == 0)) [
      | inl e ↦ ap by e ∙ ap (λ i. get_or yuyv i 0) (ground arith)
      | inr e ↦ ap by e ∙ ap (λ i. get_or yuyv i 0) (ground arith)
    ]

decode_pixel-HasPixel :
    (yuyv : List ℕ) (p k : ℕ) (d : Decoder)
    → IsAt k d
    → p + 3 ≤ length d.rgb
    → HasPixel yuyv k (decode_pixel yuyv p d).rgb p
unfolding decode_pixel
decode_pixel-HasPixel yuyv p k d at room =
    let l = luminance_read yuyv k d at in
    let (r, g, b) = three-bytes d.rgb p _ _ _ room in
    let u = ap (λ i. get_or yuyv (i + 1) 0) at.0 in
    let v = ap (λ i. get_or yuyv (i + 3) 0) at.0 in
    (
      r
          ∙ ap (λ y. red y (get_or yuyv (d.yuyv_ptr + 3) 0)) l
          ∙ ap (red (luminance yuyv k)) v
          ∙ red-value (luminance yuyv k) (red_difference yuyv k),
      g
          ∙ ap (λ y. green y (get_or yuyv (d.yuyv_ptr + 1) 0) (get_or yuyv (d.yuyv_ptr + 3) 0)) l
          ∙ ap (λ x. green (luminance yuyv k) x (get_or yuyv (d.yuyv_ptr + 3) 0)) u
          ∙ ap (green (luminance yuyv k) (blue_difference yuyv k)) v
          ∙ green-value (luminance yuyv k) (blue_difference yuyv k) (red_difference yuyv k),
      b
          ∙ ap (λ y. blue y (get_or yuyv (d.yuyv_ptr + 1) 0)) l
          ∙ ap (blue (luminance yuyv k)) u
          ∙ blue-value (luminance yuyv k) (blue_difference yuyv k),
    )

Keeps-refl : (p n : ℕ) (a : List ℕ) → Keeps p n a a
Keeps-refl p n a = (refl, λ j out. refl)

-- a pixel, and those behind it
Keeps-suc : (p n : ℕ) (a b c : List ℕ) → Keeps p 1 a b → Keeps (p + 3) n b c → Keeps p (suc n) a c
Keeps-suc p n a b c (l, f) (m, g) = (
  m ∙ l,
  λ j out. elim out [
    | inl h ↦ g j (inl (omega arith)) ∙ f j (inl (omega arith))
    | inr h ↦ g j (inr (omega arith)) ∙ f j (inr (omega arith))
  ],
)

pub HasPixel-moved :
    (yuyv : List ℕ) (k l : ℕ) (m : List ℕ) (p q : ℕ)
    → k ≡ l
    → p ≡ q
    → HasPixel yuyv k m p
    → HasPixel yuyv l m q
HasPixel-moved yuyv k l m p q e f h =
    subst (λ x. HasPixel yuyv x m q) e (subst (λ x. HasPixel yuyv k m x) f h)

pub HasPixel-same :
    (yuyv : List ℕ) (k q : ℕ) (a b : List ℕ)
    → ((j : ℕ) → q ≤ j → j < q + 3 → get_or b j 0 ≡ get_or a j 0)
    → HasPixel yuyv k a q
    → HasPixel yuyv k b q
HasPixel-same yuyv k q a b f (r, g, h) = (
  f q (omega arith) (omega arith) ∙ r,
  f (q + 1) (omega arith) (omega arith) ∙ g,
  f (q + 2) (omega arith) (omega arith) ∙ h,
)

HasPixel-kept :
    (yuyv : List ℕ) (k p n q : ℕ) (a b : List ℕ)
    → Keeps p n a b
    → (q + 3 ≤ p) ⊎ (p + 3 * n ≤ q)
    → HasPixel yuyv k a q
    → HasPixel yuyv k b q
HasPixel-kept yuyv k p n q a b (l, f) out h =
    HasPixel-same yuyv k q a b
      (λ j x y. f j (elim out [ inl o ↦ inl (omega arith) | inr o ↦ inr (omega arith) ])) h

pub decode_columns-Keeps :
    (yuyv : List ℕ) (n p : ℕ) (d : Decoder) → Keeps p n d.rgb (decode_columns yuyv n p d).rgb
unfolding decode_columns
decode_columns-Keeps yuyv zero p d = Keeps-refl p 0 d.rgb
decode_columns-Keeps yuyv (suc n) p d =
    let e = decode_pixel yuyv p d in
    Keeps-suc p n d.rgb e.rgb _ (decode_pixel-Keeps yuyv p d)
      (decode_columns-Keeps yuyv n (p + 3) e)

pub decode_columns-IsAt :
    (yuyv : List ℕ) (n p k : ℕ) (d : Decoder) → IsAt k d → IsAt (k + n) (decode_columns yuyv n p d)
unfolding decode_columns
decode_columns-IsAt yuyv zero p k d at = subst (λ i. IsAt i d) (omega arith) at
decode_columns-IsAt yuyv (suc n) p k d at =
    let e = decode_pixel yuyv p d in
    subst (λ i. IsAt i (decode_columns yuyv n (p + 3) e)) (omega arith)
      (decode_columns-IsAt yuyv n (p + 3) (suc k) e (decode_pixel-IsAt yuyv p k d at))

pub decode_columns-HasPixel :
    (yuyv : List ℕ) (n p k : ℕ) (d : Decoder)
    → IsAt k d
    → p + 3 * n ≤ length d.rgb
    → (i : ℕ) → i < n
    → HasPixel yuyv (k + i) (decode_columns yuyv n p d).rgb (p + 3 * i)
unfolding decode_columns
decode_columns-HasPixel yuyv zero p k d at room i l = absurd (omega arith)
decode_columns-HasPixel yuyv (suc n) p k d at room zero l =
    let e = decode_pixel yuyv p d in
    let here = decode_pixel-HasPixel yuyv p k d at (omega arith) in
    HasPixel-moved yuyv k (k + 0) _ p (p + 3 * 0) (omega arith) (omega arith) (
      HasPixel-kept yuyv k (p + 3) n p e.rgb _ (decode_columns-Keeps yuyv n (p + 3) e)
        (inl (omega arith)) here)
decode_columns-HasPixel yuyv (suc n) p k d at room (suc i) l =
    let e = decode_pixel yuyv p d in
    let same = (decode_pixel-Keeps yuyv p d).0 in
    HasPixel-moved yuyv (suc k + i) (k + suc i) _ (p + 3 + 3 * i) (p + 3 * suc i) (omega arith)
      (omega arith)
      (decode_columns-HasPixel yuyv n (p + 3) (suc k) e (decode_pixel-IsAt yuyv p k d at)
        (omega arith) i (omega arith))
