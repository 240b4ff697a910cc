-- ===== src/Json/Fuel.antt =====
-- The parser ends: an extraction that succeeds leaves a shorter text, and the fuel that
-- `simple_json_parser` gives is enough.
use my_streamer.Prelude.{
  ℕ, zero, suc, ◌+◌, ◌*◌, ◌≤◌, ◌<◌, Bool, true, false, [], ◌∷◌, ◌++◌, Option, none, some, ◌≡◌, refl,
  arith, length, inl, inr, Bool-cases,
}
use my_streamer.Prelude.Text.{Text}
use my_streamer.Prelude.Assoc.{Map, insert}
use my_streamer.Json.{
  Scan, yields, refused, starved, Kind, quoted, object, array, word, broken, at, tail, c_str,
  skip_spaces, extract_string, extract_word, kind, add_quotes, close, comma, extract_value,
  extract_array, array_loop, extract_object, object_loop, member_loop, fuel_for, simple_json_parser,
}
use my_streamer.Json.Leaves.{
  Leaves, length-skip_spaces, Leaves-mono, Leaves-scan, Leaves-test, length-tail, tail-lt, tail-le,
  extract_string-Leaves, close-Leaves, extract_word-Leaves,
}

add_quotes-Leaves : (n : ℕ) (b : Bool) (r : Scan) → Leaves n r → Leaves n (add_quotes b r)
add_quotes-Leaves n true (yields s p) h = h
add_quotes-Leaves n true refused h = h
add_quotes-Leaves n true starved h = h
add_quotes-Leaves n false r h = h

-- What both loops do behind a value: the closing bracket, or a comma and the next round.
Leaves-next :
    (left right : ℕ) (s q : Text) (n : ℕ) (x : Scan)
    → length q ≤ n
    → (0 < length q → Leaves (length q) x)
    → Leaves n (elim (at right q) [
      | true ↦ close left right s q
      | false ↦ elim (at b',' q) [ true ↦ x | false ↦ refused ]
    ])
Leaves-next left right s q n x h hx =
    Leaves-test n (at right q) (close left right s q) _ (λ _. close-Leaves left right s q n h)
      (λ _.
        Leaves-test n (at b',' q) x refused
          (λ c. Leaves-mono (length q) n x h (hx (omega (arith, length-tail b',' q c)))) (λ _. tt))

-- `extract_value` by the kind of its first byte, from what the nested extractions leave.
value_cases :
    (f : ℕ) (b : Bool) (p : Text) (k : Kind)
    → kind (skip_spaces p) ≡ k
    → Leaves (length (skip_spaces p)) (extract_array f (skip_spaces p))
    → Leaves (length (skip_spaces p)) (extract_object f (skip_spaces p))
    → Leaves (length p) (elim k [
      | quoted ↦ add_quotes b (extract_string (skip_spaces p))
      | object ↦ extract_object f (skip_spaces p)
      | array ↦ extract_array f (skip_spaces p)
      | word ↦ extract_word (skip_spaces p)
      | broken ↦ refused
    ])
value_cases f b p quoted e ha ho =
    Leaves-mono _ _ (add_quotes b (extract_string (skip_spaces p))) (length-skip_spaces p)
      (add_quotes-Leaves _ b _ (extract_string-Leaves (skip_spaces p)))
value_cases f b p object e ha ho =
    Leaves-mono _ _ (extract_object f (skip_spaces p)) (length-skip_spaces p) ho
value_cases f b p array e ha ho =
    Leaves-mono _ _ (extract_array f (skip_spaces p)) (length-skip_spaces p) ha
value_cases f b p word e ha ho =
    Leaves-mono _ _ (extract_word (skip_spaces p)) (length-skip_spaces p)
      (extract_word-Leaves (skip_spaces p) e)
value_cases f b p broken e ha ho = tt

mutual
  unfolding extract_value

  extract_value-Leaves :
      (f : ℕ) (b : Bool) (p : Text) → 3 * length p + 3 ≤ f → Leaves (length p) (extract_value f b p)
  extract_value-Leaves zero b p h = absurd (omega arith)
  extract_value-Leaves (suc f) b p h =
      let q = skip_spaces p in
      let le = length-skip_spaces p in
      value_cases f b p (kind q) refl (extract_array-Leaves f q (omega arith))
        (extract_object-Leaves f q (omega arith))

  extract_array-Leaves :
      (f : ℕ) (p : Text) → 3 * length p + 2 ≤ f → Leaves (length p) (extract_array f p)
  extract_array-Leaves zero p h = absurd (omega arith)
  extract_array-Leaves (suc f) p h =
      let q = skip_spaces p in
      let le = length-skip_spaces p in
      Leaves-test _ _ (array_loop f [] q) refused
        (λ o.
          Leaves-mono _ _ (array_loop f [] q) le
            (array_loop-Leaves f [] q (omega (arith, length-tail b'[' q o)) (omega arith)))
        (λ _. tt)

  array_loop-Leaves :
      (f : ℕ) (s p : Text)
      → 0 < length p
      → 3 * length p + 1 ≤ f
      → Leaves (length p) (array_loop f s p)
  array_loop-Leaves zero s p l h = absurd (omega arith)
  array_loop-Leaves (suc f) s p l h =
      let le = tail-lt p l in
      Leaves-scan (length (tail p)) (length p) (extract_value f true (tail p)) _ _
        (extract_value-Leaves f true (tail p) (omega arith))
        (close-Leaves _ _ s (tail p) (length p) (omega arith))
        (λ v q lq.
          Leaves-next b'[' b']' (comma s ++ v) q (length p) (array_loop f (comma s ++ v) q)
            (omega arith)
            (λ some_left. array_loop-Leaves f (comma s ++ v) q some_left (omega arith)))

  extract_object-Leaves :
      (f : ℕ) (p : Text) → 3 * length p + 2 ≤ f → Leaves (length p) (extract_object f p)
  extract_object-Leaves zero p h = absurd (omega arith)
  extract_object-Leaves (suc f) p h =
      let q = skip_spaces p in
      let le = length-skip_spaces p in
      Leaves-test _ _ (object_loop f [] q) refused
        (λ o.
          Leaves-mono _ _ (object_loop f [] q) le
            (object_loop-Leaves f [] q (omega (arith, length-tail b'{' q o)) (omega arith)))
        (λ _. tt)

  object_loop-Leaves :
      (f : ℕ) (s p : Text)
      → 0 < length p
      → 3 * length p + 1 ≤ f
      → Leaves (length p) (object_loop f s p)
  object_loop-Leaves zero s p l h = absurd (omega arith)
  object_loop-Leaves (suc f) s p l h =
      let le = tail-lt p l in
      Leaves-scan (length (tail p)) (length p) (extract_string (tail p)) _ _
        (extract_string-Leaves (tail p)) (close-Leaves _ _ s (tail p) (length p) (omega arith))
        (λ name q lq.
          Leaves-test _ (at b':' q) _ _
            (λ _.
              Leaves-scan (length q) (length p) (extract_value f true (tail q)) _ _
                (Leaves-mono (length (tail q)) (length q) (extract_value f true (tail q))
                  (tail-le q) (extract_value-Leaves f true (tail q) (omega (arith, tail-le q))))
                tt
                (λ v r lr.
                  let s' = comma s ++ (name ++ b':' ∷ v) in
                  Leaves-next b'{' b'}' s' r (length p) (object_loop f s' r) (omega arith)
                    (λ some_left. object_loop-Leaves f s' r some_left (omega arith))))
            (λ _. tt))

abbrev Returns : Option (Bool × Map) → Type 0
Returns o = (r : Bool × Map) × (o ≡ some r)

Returns-scan :
    (n : ℕ) (r : Scan) (b : Option (Bool × Map)) (g : Text → Text → Option (Bool × Map))
    → Leaves n r
    → Returns b
    → ((v q : Text) → length q < n → Returns (g v q))
    → Returns (elim r [ starved ↦ none | refused ↦ b | yields v q ↦ g v q ])
Returns-scan n (yields v q) b g l hb hg = hg v q l
Returns-scan n refused b g l hb hg = hb
Returns-scan n starved b g l hb hg = absurd l

Returns-test :
    (t : Bool) (x y : Option (Bool × Map))
    → (t ≡ true → Returns x)
    → Returns y
    → Returns (elim t [ true ↦ x | false ↦ y ])
Returns-test true x y hx hy = hx refl
Returns-test false x y hx hy = hy

member_loop_total :
    (f : ℕ) (m : Map) (p : Text) → 0 < length p → 3 * length p + 1 ≤ f → Returns (member_loop f m p)
unfolding member_loop
member_loop_total zero m p l h = absurd (omega arith)
member_loop_total (suc f) m p l h =
    let le = tail-lt p l in
    Returns-scan (length (tail p)) (extract_string (tail p)) _ _ (extract_string-Leaves (tail p))
      (_, refl)
      (λ name q lq.
        Returns-test (at b':' q) _ _
          (λ _.
            Returns-scan (length q) (extract_value f false (tail q)) _ _
              (Leaves-mono (length (tail q)) (length q) (extract_value f false (tail q)) (tail-le q)
                (extract_value-Leaves f false (tail q) (omega (arith, tail-le q))))
              (_, refl)
              (λ v r lr.
                Returns-test (at b'}' r) _ _ (λ _. (_, refl))
                  (Returns-test (at b',' r) _ _
                    (λ c.
                      member_loop_total f (insert name v m) r (omega (arith, length-tail b',' r c))
                        (omega arith))
                    (_, refl))))
          (_, refl))

-- `SimpleJsonParser` returns on every text: the model's fuel, three steps for each byte, is enough.
pub simple_json_parser_total : (s : Text) → (r : Bool × Map) × (simple_json_parser s ≡ some r)
unfolding simple_json_parser
simple_json_parser_total s =
    let p = skip_spaces (c_str s) in
    elim (Bool-cases (at b'{' p)) [
      | inl o ↦
          rw o (
            member_loop_total (fuel_for p) [] p (omega (arith, length-tail b'{' p o)) (omega arith))
      | inr other ↦ rw other (_, refl)
    ]
