-- ===== src/Ring/Simple/Refine.antt =====
-- The ring is a first-in first-out queue of at most `Size - 1` elements.
use native.Mathlib.Nat.{mod-eq_of_lt, mod-add-mod}
use my_streamer.Prelude.{
  ℕ, suc, ◌+◌, ◌-◌, ◌%◌, ◌≤◌, ◌<◌, Bool, true, false, not, List, [], ◌∷◌, ◌++◌, ◌≡◌, refl, sym, ap,
  ap₂, ◌∙◌, arith, ◌==◌, if◌then◌else◌, length, length-append, length-set, set, ltb, Bool-cases,
  inl, inr,
}
use my_streamer.Ring.Window.{Holds, Holds-concat, step-mod, wrap_cases}
use my_streamer.Ring.Simple.{Ring, next_index, empty_ring, push, pop}

-- A bounded queue, oldest element first.
module _ {ℓ} {A : Type ℓ} (cap : ℕ) where
  unfoldable pub enqueue : A → List A → List A × Bool
  enqueue x q = if ltb (length q) cap then (q ++ x ∷ [], true) else (q, false)

unfoldable pub dequeue {ℓ} : {A : Type ℓ} → A → List A → List A × A × Bool
dequeue v [] = ([], v, false)
dequeue v (x ∷ q) = (q, x, true)

-- The ring's indices and array hold the queue.
pub record IsQueue {ℓ} {A : Type ℓ} (size : ℕ) (r : Ring A) (q : List A) : Type ℓ where
  pub storage : size ≤ length r.ring
  pub tail_in : r.tail < size
  pub short : length q < size
  pub head_at : r.head ≡ (r.tail + length q) % size
  pub holds : Holds size r.ring r.tail q

-- The step behind the place `k` steps on is the start again exactly at the last place.
pub next-eq_iff_full :
    (size t k h : ℕ)
    → t < size
    → k < size
    → h ≡ (t + k) % size
    → (next_index size h == t) ≡ not (ltb k (size - 1))
next-eq_iff_full size t k h ht hk e = ground (arith, wrap_cases size t k ht, wrap_cases size h 1)

-- The two indices meet exactly where nothing is stored.
pub eq_iff_empty : (size t k h : ℕ) → t < size → k < size → h ≡ (t + k) % size → (t == h) ≡ (k == 0)
eq_iff_empty size t k h ht hk e = ground (arith, wrap_cases size t k ht)

pub next_at : (size t k h : ℕ) → h ≡ (t + k) % size → next_index size h ≡ (t + suc k) % size
next_at size t k h e = rw (e, mod-add-mod) (ap (λ m. m % size) (omega arith))

module _ {ℓ} {A : Type ℓ} (size : ℕ) where
  pub IsQueue-concat :
      (r : Ring A) (q : List A) (x : A)
      → length q + 1 < size
      → IsQueue size r q
      → IsQueue size
          (record r { ring = set r.ring r.head x; head = next_index size r.head })
          (q ++ x ∷ [])
  IsQueue-concat r q x l v = record {
    storage = omega (arith, v.storage, length-set r.ring r.head x);
    tail_in = v.tail_in;
    short = omega (arith, length-append q (x ∷ []));
    head_at =
        next_at size r.tail (length q) r.head v.head_at
        ∙ ap (λ k. (r.tail + k) % size) (omega (arith, length-append q (x ∷ [])));
    holds =
        Holds-concat size r.ring r.tail r.head x q v.storage v.tail_in v.short v.head_at v.holds;
  }

  pub IsQueue-tail :
      (r : Ring A) (q : List A) (x : A)
      → IsQueue size r (x ∷ q)
      → IsQueue size (record r { tail = next_index size r.tail }) q
  IsQueue-tail r q x v = record {
    storage = v.storage;
    tail_in = omega (arith, v.tail_in);
    short = omega (arith, v.short);
    head_at = v.head_at ∙ step-mod size r.tail (length q);
    holds = v.holds.1;
  }

  pub IsQueue-initial :
      (memory : List A) → 0 < size → size ≤ length memory → IsQueue size (empty_ring memory) []
  IsQueue-initial memory h l = record {
    storage = l;
    tail_in = h;
    short = h;
    head_at = sym (mod-eq_of_lt h);
    holds = tt;
  }

  -- `push` accepts an element exactly where the bounded queue of `Size - 1` places does, and the ring
  -- then holds that queue.
  pub push_refines :
      (r : Ring A) (q : List A) (x : A)
      → IsQueue size r q
      → ((push size x r).1 ≡ (enqueue (size - 1) x q).1)
        × IsQueue size (push size x r).0 (enqueue (size - 1) x q).0
  unfolding push enqueue
  push_refines r q x v =
      let test = next-eq_iff_full size r.tail (length q) r.head v.tail_in v.short v.head_at in
      elim (Bool-cases (ltb (length q) (size - 1))) [
        | inr full ↦ rw (test, full) (refl, v)
        | inl room ↦ rw (test, room) (refl, IsQueue-concat r q x (ground arith) v)
      ]

  -- `pop` takes the oldest element of the queue, or says that there is none and leaves the caller's
  -- variable, and the ring then holds the rest of the queue.
  pub pop_refines :
      (r : Ring A) (q : List A) (x : A)
      → IsQueue size r q
      → ((pop size x r).1 ≡ (dequeue x q).1)
        × ((pop size x r).2 ≡ (dequeue x q).2)
        × IsQueue size (pop size x r).0 (dequeue x q).0
  unfolding pop dequeue
  pop_refines r [] x v =
      let test = eq_iff_empty size r.tail 0 r.head v.tail_in v.short v.head_at in
      rw test (refl, refl, v)
  pop_refines r (y ∷ q) x v =
      let test = eq_iff_empty size r.tail (suc (length q)) r.head v.tail_in v.short v.head_at in
      let more : (suc (length q) == 0) ≡ false = ground arith in
      rw (test, more) (v.holds.0 x, refl, IsQueue-tail r q y v)

-- Calls by a client, and what it sees of each: what is returned, and the variable given to `pop`.
pub data Op {ℓ} (A : Type ℓ) : Type ℓ where
  put : A → Op A
  get : A → Op A

pub data Seen {ℓ} (A : Type ℓ) : Type ℓ where
  put_seen : Bool → Seen A
  get_seen : A → Bool → Seen A

module _ {ℓ} {A : Type ℓ} (size : ℕ) where
  unfoldable pub run : Ring A → List (Op A) → List (Seen A)
  run r [] = []
  run r (put x ∷ ops) = put_seen (push size x r).1 ∷ run (push size x r).0 ops
  run r (get x ∷ ops) = get_seen (pop size x r).1 (pop size x r).2 ∷ run (pop size x r).0 ops

  unfoldable pub run_queue : List A → List (Op A) → List (Seen A)
  run_queue q [] = []
  run_queue q (put x ∷ ops) =
      put_seen (enqueue (size - 1) x q).1 ∷ run_queue (enqueue (size - 1) x q).0 ops
  run_queue q (get x ∷ ops) =
      get_seen (dequeue x q).1 (dequeue x q).2 ∷ run_queue (dequeue x q).0 ops

  run-IsQueue :
      (ops : List (Op A)) (r : Ring A) (q : List A) → IsQueue size r q → run r ops ≡ run_queue q ops
  unfolding run run_queue
  run-IsQueue [] r q v = refl
  run-IsQueue (put x ∷ ops) r q v =
      let (same, v') = push_refines size r q x v in
      ap₂ ◌∷◌ (ap put_seen same) (run-IsQueue ops (push size x r).0 (enqueue (size - 1) x q).0 v')
  run-IsQueue (get x ∷ ops) r q v =
      let (same, done, v') = pop_refines size r q x v in
      ap₂ ◌∷◌ (ap₂ get_seen same done) (run-IsQueue ops (pop size x r).0 (dequeue x q).0 v')

  -- A new ring over at least `Size` places of memory, `Size` not 0, answers every sequence of calls of
  -- `push` and `pop` as an empty first-in first-out queue of `Size - 1` places does.
  pub run_refines :
      (memory : List A) (ops : List (Op A))
      → 0 < size
      → size ≤ length memory
      → run (empty_ring memory) ops ≡ run_queue [] ops
  run_refines memory ops h l =
      run-IsQueue ops (empty_ring memory) [] (IsQueue-initial size memory h l)
