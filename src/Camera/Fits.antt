-- ===== src/Camera/Fits.antt =====
-- What the camera tells of its properties fits the buffer that it is printed into.
use my_streamer.Prelude.{
  ◌^◌, ◌≤◌, ◌<◌, Bool, true, false, not, ◌||◌, Bool-cases, List, [], ◌∷◌, Option, none, some,
  Option-cases, suc, ◌≡◌, ◌≢◌, inl, inr, refl, ap, sym, subst, ◌∙◌, arith, length, length-append,
  if◌then◌else◌, get_elem?,
}
use mathlib.Core.Option.{some-injective}
use my_streamer.Prelude.Int.{ℤ, pos, pos_part, neg_part}
use my_streamer.Prelude.Text.{Text, equal}
use my_streamer.Errors.{ErrorCode, success, configuration_not_supported}
use my_streamer.Camera.{
  VideoProperty, index, native_video_properties, NativeId, CameraData, is_out_of_range,
}
use my_streamer.Camera.Config.{
  ValueType, type_int, type_bool, PropertyInformation, supported_properties, find_in, find_property,
  Format,
}
use my_streamer.Camera.Ranges.{
  QueryControl, Queries, Range, range_of, range_answer, get_video_property_range, gate, gate-some,
}
use my_streamer.Camera.Info.{info_end, info_text, get_info, get_info-unknown}

-- a value of `int32_t`
abbrev pub IsInt32 : ℤ → Type 0
IsInt32 v = (pos_part v < 2 ^ 31) × (neg_part v ≤ 2 ^ 31)

abbrev pub IsRange32 : Range → Type 0
IsRange32 r = IsInt32 r.min × IsInt32 r.max × IsInt32 r.step × IsInt32 r.def

-- "%d" prints a sign and ten digits at most.
abbrev pub Prints32 : Format → Type 0
Prints32 format = (v : ℤ) → IsInt32 v → length (format.print_int v) ≤ 11

abbrev pub Answers32 : {D : Type 0} → Queries D → Type 0
Answers32 {D} queries =
    (n : Option NativeId) (d : D) (q : QueryControl)
    → queries.queryctrl n d ≡ some q
    → IsRange32 (range_of q)

abbrev IsShort : PropertyInformation → Type 0
IsShort i = (length i.name ≤ 23) × (i.order < 12)

abbrev AreShort : List (Text × PropertyInformation) → Type 0
AreShort [] = Unit
AreShort ((k, i) ∷ m) = IsShort i × AreShort m

find_in-IsShort :
    (k : Text) (m : List (Text × PropertyInformation)) (i : PropertyInformation)
    → AreShort m
    → find_in k m ≡ some i
    → IsShort i
unfolding find_in
find_in-IsShort k [] i a e = absurd (cc)
find_in-IsShort k ((j, x) ∷ m) i (h, a) e = elim (Bool-cases (equal k j)) as (λ _. IsShort i) [
  | inl t ↦
      subst IsShort (some-injective x i (sym (ap (λ b. if b then some x else find_in k m) t) ∙ e)) h
  | inr f ↦ find_in-IsShort k m i a (sym (ap (λ b. if b then some x else find_in k m) f) ∙ e)
]

find_property-IsShort : (k : Text) (i : PropertyInformation) → find_property k ≡ some i → IsShort i
unfolding find_property
find_property-IsShort k i e = find_in-IsShort k supported_properties i (ground arith) e

supported : Bool → Bool → QueryControl → ErrorCode × Option Range
supported b d q =
    if b
    then (configuration_not_supported, none)
    else if d
    then (success, some (range_of q))
    else (configuration_not_supported, none)

supported-range_of :
    (b d : Bool) (q : QueryControl) (r : Range) → (supported b d q).1 ≡ some r → range_of q ≡ r
unfolding supported
supported-range_of true d q r e = absurd (cc)
supported-range_of false true q r e = some-injective _ _ e
supported-range_of false false q r e = absurd (cc)

none-ne-some : {t : Text} → none ≢ some t
none-ne-some e = cc

module _ {D : Type 0} (queries : Queries D) (format : Format) where
  open format use {print_int}

  length-info_end :
      (i : PropertyInformation)
      → Prints32 format
      → IsShort i
      → length (info_end queries format i.order i.name) ≤ 54
  length-info_end i p (n, o) =
      grind (arith, length-append, p (pos i.order) (omega arith, omega arith))

  length-info_text :
      (t : ValueType) (r : Range) (i : PropertyInformation)
      → Prints32 format
      → IsRange32 r
      → IsShort i
      → suc (length (info_text queries format t r i.order i.name)) ≤ 128
  length-info_text type_int r i p (mn, mx, st, df) s =
      grind (arith, length-append, p r.min mn, p r.max mx, p r.def df, length-info_end i p s)
  length-info_text type_bool r i p (mn, mx, st, df) s =
      grind (arith, length-append, p r.def df, length-info_end i p s)

  range_answer-IsRange32 :
      (o : Option QueryControl) (r : Range)
      → ((q : QueryControl) → o ≡ some q → IsRange32 (range_of q))
      → (range_answer queries o).1 ≡ some r
      → IsRange32 r
  unfolding supported
  range_answer-IsRange32 none r a e = absurd (cc)
  range_answer-IsRange32 (some q) r a e = subst IsRange32 (supported-range_of _ _ q r e) (a q refl)

  get_video_property_range-IsRange32 :
      (p : VideoProperty) (c : CameraData D) (r : Range)
      → Answers32 queries
      → (get_video_property_range queries p c).1 ≡ some r
      → IsRange32 r
  unfolding get_video_property_range gate
  get_video_property_range-IsRange32 p c r a e =
      range_answer-IsRange32
        (queries.queryctrl (get_elem? native_video_properties (index p)) c.device) r (a _ c.device)
        (gate-some (is_out_of_range p) (not c.running || not c.video_open) _ r e)

  text_of : Option Range → PropertyInformation → Option Text
  text_of o i = elim o [
    | none ↦ none
    | some r ↦ some (info_text queries format i.value_type r i.order i.name)
  ]

  text_of_fits :
      (o : Option Range) (i : PropertyInformation) (t : Text)
      → Prints32 format
      → IsShort i
      → ((r : Range) → o ≡ some r → IsRange32 r)
      → text_of o i ≡ some t
      → suc (length t) ≤ 128
  unfolding text_of
  text_of_fits none i t p s a e = absurd (cc)
  text_of_fits (some r) i t p s a e =
      subst (λ u. suc (length u) ≤ 128) (some-injective _ _ e)
        (length-info_text i.value_type r i p (a r refl) s)

  get_info-text_of :
      (name : Text) (c : CameraData D) (i : PropertyInformation)
      → find_property name ≡ some i
      → (get_info queries format name c).1
        ≡ text_of (get_video_property_range queries i.video_property c).1 i
  unfolding get_info text_of
  get_info-text_of name c i f = rw (f, get_info) refl

  -- Whatever a device answers in 32-bit numbers, the text that `sprintf` makes of a property fits its
  -- buffer of 128 bytes with the null behind it, if a 32-bit number is printed in eleven characters at
  -- most.
  pub get_info_fits :
      (name : Text) (c : CameraData D) (t : Text)
      → Prints32 format
      → Answers32 queries
      → (get_info queries format name c).1 ≡ some t
      → suc (length t) ≤ 128
  get_info_fits name c t p a e =
      elim (Option-cases (find_property name)) as (λ _. suc (length t) ≤ 128) [
        | inl f ↦
            absurd
              (none-ne-some (sym (ap (λ x. x.1) (get_info-unknown queries format name c f)) ∙ e))
        | inr (i, f) ↦
            text_of_fits (get_video_property_range queries i.video_property c).1 i t p
              (find_property-IsShort name i f)
              (λ r h. get_video_property_range-IsRange32 i.video_property c r a h)
              (sym (get_info-text_of name c i f) ∙ e)
      ]
