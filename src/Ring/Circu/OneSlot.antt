-- ===== src/Ring/Circu/OneSlot.antt =====
-- What `CircuBuffer` can hold. It tests for a full buffer by `(readIndex_ + 1) % size_ == writeIndex_`,
-- which is so as soon as one element is stored.
use my_streamer.Prelude.{
  ℕ, ◌+◌, ◌%◌, ◌≤◌, ◌<◌, Bool, true, false, List, [], ◌∷◌, Option, none, some, ◌≡◌, ◌≢◌, refl, ap,
  ap₂, arith, ◌==◌, length, length-set, get_elem?, get_elem?-set_self,
}
use my_streamer.Ring.Window.{wrap_cases}
use my_streamer.Ring.Circu.{CircuBuffer, u32_mod, step, new, push_an_element, get_an_element}

step_in : (size i : ℕ) → 1 < size → step size i < size
step_in size i h = omega arith

step-ne : (size i : ℕ) → 1 < size → size < u32_mod → i < size → step size i ≢ i
step-ne size i two fits h =
    let flat : (i + 1) % u32_mod ≡ i + 1 = omega arith in
    omega (arith, flat, ap (λ m. m % size) flat, wrap_cases size i 1 h)

-- A cell for one element at most.
module _ {ℓ} {A : Type ℓ} where
  abbrev pub put_cell : A → Option A → Option A × Bool
  put_cell x none = (some x, true)
  put_cell x (some y) = (some y, false)

  -- the element that a pointer into the array shows
  abbrev pub shown : CircuBuffer A → Option ℕ → Option A
  shown b none = none
  shown b (some i) = get_elem? b.buffer i

pub data Op {ℓ} (A : Type ℓ) : Type ℓ where
  put : A → Op A
  get : Op A

pub data Seen {ℓ} (A : Type ℓ) : Type ℓ where
  put_seen : Bool → Seen A
  get_seen : Option A → Seen A

module _ {ℓ} {A : Type ℓ} where
  -- The caller reads through the pointer at once.
  unfoldable pub run : CircuBuffer A → List (Op A) → List (Seen A)
  run b [] = []
  run b (put x ∷ ops) = put_seen (push_an_element x b).1 ∷ run (push_an_element x b).0 ops
  run b (get ∷ ops) =
      get_seen (shown (get_an_element b).0 (get_an_element b).1) ∷ run (get_an_element b).0 ops

  unfoldable pub run_cell : Option A → List (Op A) → List (Seen A)
  run_cell c [] = []
  run_cell c (put x ∷ ops) = put_seen (put_cell x c).1 ∷ run_cell (put_cell x c).0 ops
  run_cell c (get ∷ ops) = get_seen c ∷ run_cell none ops

  record IsRing (b : CircuBuffer A) : Type ℓ where
    storage : b.size ≤ length b.buffer
    two : 1 < b.size
    fits : b.size < u32_mod
    read_in : b.read_index < b.size

  -- The buffer holds what the cell holds.
  abbrev Matches : CircuBuffer A → Option A → Type ℓ
  Matches b none = IsRing b × (b.write_index ≡ b.read_index)
  Matches b (some x) =
      IsRing b
      × (b.write_index ≡ step b.size b.read_index)
      × (get_elem? b.buffer b.read_index ≡ some x)

  put_none :
      (b : CircuBuffer A) (x : A)
      → Matches b none
      → ((push_an_element x b).1 ≡ true) × Matches (push_an_element x b).0 (some x)
  unfolding push_an_element
  put_none b x (v, e) =
      let ne = step-ne b.size b.read_index v.two v.fits v.read_in in
      let free : (step b.size b.read_index == b.write_index) ≡ false = ground arith in
      rw (free, push_an_element)
        (
          refl,
          (
            record {
              storage = omega (arith, v.storage, length-set b.buffer b.write_index x);
              two = v.two;
              fits = v.fits;
              read_in = v.read_in;
            },
            ap (step b.size) e,
            rw (← e)
                (get_elem?-set_self b.buffer b.write_index x (omega (arith, v.read_in, v.storage))),
          ),
        )

  put_some : (b : CircuBuffer A) (x y : A) → Matches b (some y) → push_an_element x b ≡ (b, false)
  unfolding push_an_element
  put_some b x y (v, e, g) = ground arith

  get_none : (b : CircuBuffer A) → Matches b none → get_an_element b ≡ (b, none)
  unfolding get_an_element
  get_none b (v, e) = ground arith

  get_some :
      (b : CircuBuffer A) (y : A)
      → Matches b (some y)
      → (shown (get_an_element b).0 (get_an_element b).1 ≡ some y)
        × Matches (get_an_element b).0 none
  unfolding get_an_element
  get_some b y (v, e, g) =
      let ne = step-ne b.size b.read_index v.two v.fits v.read_in in
      let filled : (b.write_index == b.read_index) ≡ false = ground arith in
      rw (filled, get_an_element)
        (
          g,
          (
            record {
              storage = v.storage;
              two = v.two;
              fits = v.fits;
              read_in = step_in b.size b.read_index v.two;
            },
            e,
          ),
        )

  run-Matches :
      (ops : List (Op A)) (b : CircuBuffer A) (c : Option A)
      → Matches b c
      → run b ops ≡ run_cell c ops
  unfolding run run_cell
  run-Matches [] b c m = refl
  run-Matches (put x ∷ ops) b none m =
      let (done, m') = put_none b x m in
      ap₂ ◌∷◌ (ap put_seen done) (run-Matches ops (push_an_element x b).0 (some x) m')
  run-Matches (put x ∷ ops) b (some y) m =
      let same = put_some b x y m in rw same (ap₂ ◌∷◌ refl (run-Matches ops b (some y) m))
  run-Matches (get ∷ ops) b none m =
      let same = get_none b m in rw same (ap₂ ◌∷◌ refl (run-Matches ops b none m))
  run-Matches (get ∷ ops) b (some y) m =
      let (seen, m') = get_some b y m in
      ap₂ ◌∷◌ (ap get_seen seen) (run-Matches ops (get_an_element b).0 none m')

  -- A new `CircuBuffer` of any size from 2 up to the largest `unsigned` answers every sequence of calls
  -- as a cell for a single element does: while one element is stored, every push is refused.
  pub holds_one :
      (size : ℕ) (memory : List A) (ops : List (Op A))
      → 1 < size
      → size < u32_mod
      → size ≤ length memory
      → run (new size memory) ops ≡ run_cell none ops
  holds_one size memory ops two fits l =
      run-Matches ops (new size memory) none
        (record { storage = l; two = two; fits = fits; read_in = omega arith }, refl)
