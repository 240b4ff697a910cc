-- ===== src/Drawing/Rectangles.antt =====
-- Rectangle.
use my_streamer.Prelude.{
  ℕ, ◌+◌, ◌*◌, ◌≤◌, ◌<◌, Bool, true, none, some, not, ◌&&◌, ◌||◌, List, ◌==◌, if◌then◌else◌, ◌≡◌,
  sym, ap, ap₂, ◌∙◌, subst, arith, length, get_or,
}
use my_streamer.Prelude.Int.{ℤ, pos, negsuc, ◌≤ℤ◌, ltb_ℤ, ◌+ℤ◌, ◌-ℤ◌}
use my_streamer.Images.{Image}
use my_streamer.Errors.{success, null_pointer, unsupported_pixel_format}
use my_streamer.Drawing.{
  Argb, hline_bytes, vline_bytes, row_below, row_above, rectangle_bytes, rectangle, drawn,
  is_drawable,
}
use my_streamer.Drawing.Runs.{channels, fill_of}
use my_streamer.Drawing.Tracks.{between, address, IsCanvas, Drawn}
use my_streamer.Drawing.Lines.{
  on_hline, on_vline, hline_bytes-Drawn, vline_bytes-Drawn, hline_bytes-length, vline_bytes-length,
}

-- the pixels of a rectangle's sides
abbrev pub on_outline : ℤ → ℤ → ℤ → ℤ → ℤ → ℤ → Bool
on_outline x1 y1 x2 y2 x y =
    (between x1 x2 x && (between y1 y1 y || between y2 y2 y))
    || (between y1 y2 y && (between x1 x1 x || between x2 x2 x))

-- what the columns have besides where no two rows are between the ends
unfoldable pub overdrawn : ℤ → ℤ → ℤ → ℤ → ℤ → ℤ → Bool
unfolding ◌+ℤ◌ ◌-ℤ◌
overdrawn x1 y1 x2 y2 x y =
    (ltb_ℤ (y2 -ℤ pos 1) (y1 +ℤ pos 1) && between (y2 -ℤ pos 1) (y1 +ℤ pos 1) y)
    && (between x1 x1 x || between x2 x2 x)

column_inside : (x1 x2 x : ℤ) → (not (between x1 x1 x) || between x1 x2 x) ≡ true
column_inside x1 x2 x = ground arith

column_within : (x1 x2 x : ℤ) → (not (between x2 x2 x) || between x1 x2 x) ≡ true
column_within x1 x2 x = ground arith

-- the rows of the columns that are drawn
module _ (y1 y2 y : ℤ) where
  abbrev inner : Bool
  inner = between (y1 +ℤ pos 1) (y2 -ℤ pos 1) y

  abbrev over : Bool
  over = ltb_ℤ (y2 -ℤ pos 1) (y1 +ℤ pos 1) && between (y2 -ℤ pos 1) (y1 +ℤ pos 1) y

  inner_somewhere : (not inner || (between y1 y2 y || over)) ≡ true
  unfolding ◌+ℤ◌ ◌-ℤ◌
  inner_somewhere = ground arith

  over-inner : (not over || inner) ≡ true
  unfolding ◌+ℤ◌ ◌-ℤ◌
  over-inner = ground arith

  row_somewhere : (not (between y1 y2 y) || (between y1 y1 y || (between y2 y2 y || inner))) ≡ true
  unfolding ◌+ℤ◌ ◌-ℤ◌
  row_somewhere = ground arith

sides_by :
    (c1 c2 r e1 e2 m q o : Bool)
    → (not c1 || r) ≡ true
    → (not c2 || r) ≡ true
    → (not m || (q || o)) ≡ true
    → (not o || m) ≡ true
    → (not q || (e1 || (e2 || m))) ≡ true
    → (c2 && m || (c1 && m || (e2 && r || e1 && r)))
      ≡ (((r && (e1 || e2)) || (q && (c1 || c2))) || (o && (c1 || c2)))
sides_by c1 c2 r e1 e2 m q o a b c d e = ground arith

four_sides :
    (x1 y1 x2 y2 x y : ℤ)
    → (between x2 x2 x && inner y1 y2 y
        || (between x1 x1 x && inner y1 y2 y
            || (between y2 y2 y && between x1 x2 x || between y1 y1 y && between x1 x2 x)))
      ≡ (on_outline x1 y1 x2 y2 x y || overdrawn x1 y1 x2 y2 x y)
unfolding overdrawn
four_sides x1 y1 x2 y2 x y =
    sides_by (between x1 x1 x) (between x2 x2 x) (between x1 x2 x) (between y1 y1 y)
      (between y2 y2 y) (inner y1 y2 y) (between y1 y2 y) (over y1 y2 y) (column_inside x1 x2 x)
      (column_within x1 x2 x) (inner_somewhere y1 y2 y) (over-inner y1 y2 y) (row_somewhere y1 y2 y)

row_below-small : (y : ℤ) → y +ℤ pos 1 ≤ℤ pos 0x7fff_ffff → row_below y ≡ y +ℤ pos 1
unfolding row_below ◌+ℤ◌
row_below-small y h = ground arith

row_above-small : (y : ℤ) → negsuc 0x7fff_ffff ≤ℤ y -ℤ pos 1 → row_above y ≡ y -ℤ pos 1
unfolding row_above ◌-ℤ◌
row_above-small y h = ground arith

-- four layers of one colour
layers :
    (a b c d : Bool) (f v w x y z : ℕ)
    → w ≡ (if a then f else v)
    → x ≡ (if b then f else w)
    → y ≡ (if c then f else x)
    → z ≡ (if d then f else y)
    → z ≡ (if d || (c || (b || a)) then f else v)
layers a b c d f v w x y z p q r s = ground arith

visible : (p q : Bool) (a : ℕ) → a ≡ 255 → (p && q && not (a == 0)) ≡ (p && q)
visible p q a e = ground arith

kept-IsCanvas : (i : Image) (m n : List ℕ) → length n ≡ length m → IsCanvas i m → IsCanvas i n
kept-IsCanvas i m n e v = record {
  line_fits = v.line_fits;
  rows_fit = subst (λ x. i.height * i.stride ≤ x) (sym e) v.rows_fit;
}

module _ (blend : ℕ → ℕ → ℕ → ℕ) (i : Image) (color : Argb) (opaque : color.a ≡ 255) where
  -- a colour that covers what is there
  covered :
      (on : ℕ → ℕ → Bool) (a b : List ℕ) (ix iy c : ℕ)
      → Drawn blend i color on a b ix iy c
      → get_or b (address i ix iy + c) 0
        ≡ (if on ix iy then fill_of i.format color c else get_or a (address i ix iy + c) 0)
  covered on a b ix iy c d =
      d
      ∙ ap
          (λ o.
            if on ix iy
            then (if o == 255
                then fill_of i.format color c
                else blend o (fill_of i.format color c) (get_or a (address i ix iy + c) 0))
            else get_or a (address i ix iy + c) 0)
          opaque

  covered_row :
      (a b : List ℕ) (x1 x2 y : ℤ) (ix iy c : ℕ)
      → Drawn blend i color (on_hline x1 x2 y color) a b ix iy c
      → get_or b (address i ix iy + c) 0 ≡ (
          if between y y (pos iy) && between x1 x2 (pos ix)
          then fill_of i.format color c
          else get_or a (address i ix iy + c) 0)
  covered_row a b x1 x2 y ix iy c d =
      covered (on_hline x1 x2 y color) a b ix iy c d
      ∙ ap (λ o. if o then fill_of i.format color c else get_or a (address i ix iy + c) 0)
          (visible (between y y (pos iy)) (between x1 x2 (pos ix)) color.a opaque)

  -- what is drawn, by the rows where the columns begin and end
  abbrev sides_bytes : ℤ → ℤ → ℤ → ℤ → ℤ → ℤ → List ℕ → List ℕ
  sides_bytes x1 y1 x2 y2 top bottom m = vline_bytes blend i top bottom x2 color (
      vline_bytes blend i top bottom x1 color
        (hline_bytes blend i x1 x2 y2 color (hline_bytes blend i x1 x2 y1 color m)))

  rectangle_bytes-sides :
      (x1 y1 x2 y2 : ℤ) (m : List ℕ)
      → y1 +ℤ pos 1 ≤ℤ pos 0x7fff_ffff
      → negsuc 0x7fff_ffff ≤ℤ y2 -ℤ pos 1
      → rectangle_bytes blend i x1 y1 x2 y2 color m
        ≡ sides_bytes x1 y1 x2 y2 (y1 +ℤ pos 1) (y2 -ℤ pos 1) m
  unfolding rectangle_bytes
  rectangle_bytes-sides x1 y1 x2 y2 m low high =
      ap₂ (λ t b. sides_bytes x1 y1 x2 y2 t b m) (row_below-small y1 low) (row_above-small y2 high)

  sides_bytes_lem :
      (m : List ℕ) (x1 y1 x2 y2 : ℤ) (ix iy c : ℕ)
      → IsCanvas i m
      → ix < i.width
      → iy < i.height
      → c < channels i.format
      → let n = sides_bytes x1 y1 x2 y2 (y1 +ℤ pos 1) (y2 -ℤ pos 1) m in
        (length n ≡ length m)
        × (get_or n (address i ix iy + c) 0 ≡ (
            if on_outline x1 y1 x2 y2 (pos ix) (pos iy) || overdrawn x1 y1 x2 y2 (pos ix) (pos iy)
            then fill_of i.format color c
            else get_or m (address i ix iy + c) 0))
  sides_bytes_lem m x1 y1 x2 y2 ix iy c v h k l =
      let top = y1 +ℤ pos 1 in
      let bottom = y2 -ℤ pos 1 in
      let m1 = hline_bytes blend i x1 x2 y1 color m in
      let e1 = hline_bytes-length blend i m v color x1 x2 y1 in
      let v1 = kept-IsCanvas i m m1 e1 v in
      let m2 = hline_bytes blend i x1 x2 y2 color m1 in
      let e2 = hline_bytes-length blend i m1 v1 color x1 x2 y2 in
      let v2 = kept-IsCanvas i m1 m2 e2 v1 in
      let m3 = vline_bytes blend i top bottom x1 color m2 in
      let e3 = vline_bytes-length blend i m2 v2 color top bottom x1 in
      let v3 = kept-IsCanvas i m2 m3 e3 v2 in
      let m4 = vline_bytes blend i top bottom x2 color m3 in
      let e4 = vline_bytes-length blend i m3 v3 color top bottom x2 in
      let f = fill_of i.format color c in
      let old = get_or m (address i ix iy + c) 0 in
      (
        e4 ∙ e3 ∙ e2 ∙ e1,
        layers (between y1 y1 (pos iy) && between x1 x2 (pos ix))
              (between y2 y2 (pos iy) && between x1 x2 (pos ix)) (on_vline top bottom x1 ix iy)
              (on_vline top bottom x2 ix iy) f old _ _ _ _
              (covered_row m m1 x1 x2 y1 ix iy c
                (hline_bytes-Drawn blend i m v color x1 x2 y1 ix iy c h k l))
              (covered_row m1 m2 x1 x2 y2 ix iy c
                (hline_bytes-Drawn blend i m1 v1 color x1 x2 y2 ix iy c h k l))
              (covered (on_vline top bottom x1) m2 m3 ix iy c
                (vline_bytes-Drawn blend i m2 v2 color top bottom x1 ix iy c h k l))
              (covered (on_vline top bottom x2) m3 m4 ix iy c
                (vline_bytes-Drawn blend i m3 v3 color top bottom x2 ix iy c h k l))
            ∙ ap (λ b. if b then f else old) (four_sides x1 y1 x2 y2 (pos ix) (pos iy)),
      )

  drawn_by :
      (draw : Image → List ℕ → List ℕ) (m : List ℕ)
      → i.memory ≡ some m
      → is_drawable i.format ≡ true
      → drawn blend draw (some i) ≡ (some (record i { memory = some (draw i m) }), success)
  drawn_by draw m at fits =
      ap
        (λ x. elim x [
          | none ↦ (some i, null_pointer)
          | some b ↦
              if is_drawable i.format
              then (some (record i { memory = some (draw i b) }), success)
              else (some i, unsupported_pixel_format)
        ])
        at
      ∙ ap
          (λ b.
            if b
            then (some (record i { memory = some (draw i m) }), success)
            else (some i, unsupported_pixel_format))
          fits

  -- A rectangle of an opaque colour, whose rows y1 + 1 and y2 - 1 are numbers of 32 bits, on an image of one
  -- of the three formats that can be drawn on, whose rows have room for their pixels and whose memory has
  -- room for its rows: the call succeeds, and the memory keeps its length. Each channel of each pixel of the
  -- image is the colour's where the pixel is on the rectangle's sides, or, where y2 < y1 + 2, which a y2
  -- above y1 always meets, in the column x1 or x2 from the row y2 - 1 to the row y1 + 1; elsewhere it
  -- stays.
  pub rectangle_lem :
      (m : List ℕ) (x1 y1 x2 y2 : ℤ) (ix iy c : ℕ)
      → i.memory ≡ some m
      → is_drawable i.format ≡ true
      → IsCanvas i m
      → ix < i.width
      → iy < i.height
      → c < channels i.format
      → y1 +ℤ pos 1 ≤ℤ pos 0x7fff_ffff
      → negsuc 0x7fff_ffff ≤ℤ y2 -ℤ pos 1
      → (n : List ℕ) × (rectangle blend (some i) x1 y1 x2 y2 color
          ≡ (some (record i { memory = some n }), success))
        × (length n ≡ length m)
        × (get_or n (address i ix iy + c) 0 ≡ (
            if on_outline x1 y1 x2 y2 (pos ix) (pos iy) || overdrawn x1 y1 x2 y2 (pos ix) (pos iy)
            then fill_of i.format color c
            else get_or m (address i ix iy + c) 0))
  rectangle_lem m x1 y1 x2 y2 ix iy c at fits v h k l low high =
      let (long, bytes) =
        subst
          (λ n.
            (length n ≡ length m)
            × (get_or n (address i ix iy + c) 0 ≡ (
                if on_outline x1 y1 x2 y2 (pos ix) (pos iy)
                  || overdrawn x1 y1 x2 y2 (pos ix) (pos iy)
                then fill_of i.format color c
                else get_or m (address i ix iy + c) 0)))
          (sym (rectangle_bytes-sides x1 y1 x2 y2 m low high))
          (sides_bytes_lem m x1 y1 x2 y2 ix iy c v h k l) in
      (
        rectangle_bytes blend i x1 y1 x2 y2 color m,
        drawn_by (λ j. rectangle_bytes blend j x1 y1 x2 y2 color) m at fits,
        long,
        bytes,
      )
