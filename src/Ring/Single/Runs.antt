-- ===== src/Ring/Single/Runs.antt =====
-- Any sequence of calls is answered as by a queue of bytes that holds as many as the size.
use my_streamer.Prelude.{
  ℕ, ◌-◌, ◌^◌, ◌≤◌, ◌<◌, true, List, [], ◌∷◌, ◌++◌, Option, some, ◌≡◌, refl, sym, ap, ap₂, ◌∙◌,
  arith, min, length, take, drop, subst,
}
use mathlib.Core.Option.{some-injective}
use my_streamer.Ring.Single.{SingleData, base_read, base_write, move_out, initialize}
use my_streamer.Ring.Single.Sizes.{IsFresh, initialize_sized}
use my_streamer.Ring.Single.Fifo.{IsFifo, move_out_drops, base_read_takes, base_write_appends}

-- the calls of a user
pub data Call : Type 0 where
  write : List ℕ → Call
  read : ℕ → Call
  skip : ℕ → Call

-- A call leaves a buffer and answers with bytes and a number.
abbrev pub perform : Call → SingleData → SingleData × List ℕ × ℕ
perform (write bytes) b = let (c, n) = base_write bytes (length bytes) b in (c, [], n)
perform (read len) b = base_read len b
perform (skip len) b = let (c, n) = move_out len b in (c, [], n)

-- the queue that is promised, with room for `cap` bytes
abbrev pub promise : ℕ → Call → List ℕ → List ℕ × List ℕ × ℕ
promise cap (write bytes) q =
    let n = min (length bytes) (cap - length q) in (q ++ take n bytes, [], n)
promise cap (read len) q = let n = min len (length q) in (drop n q, take n q, n)
promise cap (skip len) q = let n = min len (length q) in (drop n q, [], n)

abbrev pub answers : List Call → SingleData → List (List ℕ × ℕ)
answers [] b = []
answers (c ∷ calls) b = let (d, bytes, n) = perform c b in (bytes, n) ∷ answers calls d

abbrev pub promised : ℕ → List Call → List ℕ → List (List ℕ × ℕ)
promised cap [] q = []
promised cap (c ∷ calls) q =
    let (r, bytes, n) = promise cap c q in (bytes, n) ∷ promised cap calls r

abbrev Agrees : ℕ → (SingleData × List ℕ × ℕ) → (List ℕ × List ℕ × ℕ) → Type 0
Agrees k x y = IsFifo k x.0 y.0 × (x.1 ≡ y.1) × (x.2 ≡ y.2)

perform-Agrees :
    (k : ℕ) (b : SingleData) (q : List ℕ) (c : Call)
    → IsFifo k b q
    → Agrees k (perform c b) (promise (2 ^ k) c q)
perform-Agrees k b q (write bytes) v =
    let (count, after) = base_write_appends v bytes (length bytes) (omega arith) in
    subst (λ cap. Agrees k (perform (write bytes) b) (promise cap (write bytes) q)) v.size_at
      (after, refl, count)
perform-Agrees k b q (read len) v =
    let (count, bytes, after) = base_read_takes v len in (after, bytes, count)
perform-Agrees k b q (skip len) v =
    let (count, after) = move_out_drops v len in (after, refl, count)

answers_refine :
    (k : ℕ) (calls : List Call) (b : SingleData) (q : List ℕ)
    → IsFifo k b q
    → answers calls b ≡ promised (2 ^ k) calls q
answers_refine k [] b q v = refl
answers_refine k (c ∷ calls) b q v =
    let (after, bytes, n) = perform-Agrees k b q c v in
    ap₂ ◌∷◌ (ap₂ (λ x y. (x, y)) bytes n)
      (answers_refine k calls (perform c b).0 (promise (2 ^ k) c q).0 after)

fresh-IsFifo : (a k : ℕ) (b : SingleData) → IsFresh a k b → 2 ^ k ≤ length b.memory → IsFifo k b []
fresh-IsFifo a k b f s = record {
  size_at = f.size_at;
  fits = f.fits;
  storage = omega (arith, f.size_at);
  short = omega arith;
  in_word = omega (arith, f.in_at);
  out_word = omega (arith, f.out_at);
  in_at = omega (arith, f.in_at, f.out_at);
  holds = tt;
}

-- A buffer that was asked for with a size from 1 to 2 ^ 31, and got its memory, answers every sequence
-- of calls of BaseWrite, BaseRead and MoveOut as a queue of bytes would that holds at most as many as
-- its size, which is a power of two not below the size asked for. The memory that `malloc` returns has
-- the size that it is asked for.
pub ring_refines :
    (malloc : ℕ → Option (List ℕ)) (a : ℕ) (b : SingleData) (calls : List Call)
    → ((n : ℕ) (m : List ℕ) → malloc n ≡ some m → n ≤ length m)
    → 0 < a
    → a ≤ 2 ^ 31
    → initialize malloc a ≡ some (b, true)
    → (a ≤ b.size) × (answers calls b ≡ promised b.size calls [])
ring_refines malloc a b calls memory p h e =
    let (k, c, done, e', f, allocated) = initialize_sized malloc a p h in
    let same : (c, done) ≡ (b, true) = some-injective _ _ (sym e' ∙ e) in
    let at_b : c ≡ b = ap (λ x. x.0) same in
    let got : malloc (2 ^ k) ≡ some c.memory = allocated.0 (ap (λ x. x.1) same) in
    let v : IsFifo k c [] = fresh-IsFifo a k c f (memory (2 ^ k) c.memory got) in
    subst (λ (x : SingleData). (a ≤ x.size) × (answers calls x ≡ promised x.size calls [])) at_b
      (
        omega (arith, f.size_at, f.enough),
        answers_refine k calls c [] v ∙ ap (λ cap. promised cap calls []) (sym f.size_at),
      )
