-- ===== src/Ring/Single/Fifo.antt =====
-- The ring of bytes is a first-in first-out queue of at most its size, also where the counters wrap.
use native.Mathlib.Nat.{mod-lt}
use Prim.Native.Nat.{bit_and}
use my_streamer.Prelude.{
  set, length-set, ℕ, ◌+◌, ◌-◌, ◌%◌, ◌^◌, ◌≤◌, ◌<◌, List, [], ◌∷◌, ◌++◌, ◌≡◌, refl, sym, ap, ◌∙◌,
  arith, min, length, take, drop, length-append, length-take, length-drop, subst,
}
use my_streamer.Prelude.Word.{add32, sub32, bit_and_mask, two_pow_mono, add32-mod}
use my_streamer.Prelude.Memory.{copy_in}
use my_streamer.Ring.Window.{Holds}
use my_streamer.Ring.Single.{SingleData, used, unused, place, move_out, base_read, base_write}
use my_streamer.Ring.Single.Wrap.{
  put_round, two_copies, two_reads, put_round-Holds, get_round-Holds, Holds-drop,
}

-- The counters and the memory hold the bytes of `q`; the size is 2 ^ `k`.
pub record IsFifo (k : ℕ) (b : SingleData) (q : List ℕ) : Type 0 where
  pub size_at : b.size ≡ 2 ^ k
  pub fits : k ≤ 31
  pub storage : b.size ≤ length b.memory
  pub short : length q ≤ b.size
  pub in_word : b.in_ptr < 2 ^ 32
  pub out_word : b.out_ptr < 2 ^ 32
  pub in_at : b.in_ptr ≡ add32 b.out_ptr (length q)
  pub holds : Holds b.size b.memory (b.out_ptr % b.size) q

module _ {k : ℕ} {b : SingleData} {q : List ℕ} (v : IsFifo k b q) where
  pub size-le : b.size ≤ 2 ^ 31
  size-le = omega (arith, v.size_at, two_pow_mono k 31 v.fits)

  pub size_pos : 0 < b.size
  size_pos = omega (arith, v.size_at, two_pow_mono 0 k (omega arith))

  pub used_lem : used b ≡ length q
  used_lem = omega (arith, size-le, v.in_at, v.short, v.out_word)

  pub unused_lem : unused b ≡ b.size - length q
  unused_lem = omega (arith, size-le, v.in_at, v.short, v.out_word)

  pub place_lem : (i : ℕ) → place b i ≡ i % b.size
  place_lem i =
      let mask : sub32 b.size 1 ≡ 2 ^ k - 1 = omega (arith, size-le, size_pos, v.size_at) in
      ap (bit_and i) mask ∙ bit_and_mask k i ∙ ap (λ (t : ℕ). i % t) (sym v.size_at)

  -- a counter moved on
  pub moved : (i n : ℕ) → add32 i n % b.size ≡ (i % b.size + n) % b.size
  moved i n =
      subst (λ (t : ℕ). add32 i n % t ≡ (i % t + n) % t) (sym v.size_at)
        (add32-mod k i n (omega (arith, v.fits)))

  pub in_place : b.in_ptr % b.size ≡ (b.out_ptr % b.size + length q) % b.size
  in_place = ap (λ (t : ℕ). t % b.size) v.in_at ∙ moved b.out_ptr (length q)

  length-put_round :
      (size : ℕ) (m : List ℕ) (i : ℕ) (xs : List ℕ) → length (put_round size m i xs) ≡ length m
  length-put_round size m i [] = refl
  length-put_round size m i (x ∷ xs) =
      length-put_round size (set m i x) ((i + 1) % size) xs ∙ length-set m i x

  -- The buffer without its first bytes.
  dropped : (n : ℕ) → n ≤ length q → IsFifo k (record b { out_ptr = add32 b.out_ptr n }) (drop n q)
  dropped n h = record {
    size_at = v.size_at;
    fits = v.fits;
    storage = v.storage;
    short = omega (arith, v.short, length-drop n q);
    in_word = v.in_word;
    out_word = omega arith;
    in_at = omega (arith, v.in_at, length-drop n q, v.short, size-le);
    holds =
        subst (λ t. Holds b.size b.memory t (drop n q)) (sym (moved b.out_ptr n))
          (Holds-drop b.size b.memory (b.out_ptr % b.size) n q (mod-lt b.out_ptr size_pos) h
            v.holds);
  }

  -- `MoveOut` drops as many bytes as it says, all that are there at most.
  pub move_out_drops :
      (len : ℕ)
      → ((move_out len b).1 ≡ min len (length q))
        × IsFifo k (move_out len b).0 (drop (min len (length q)) q)
  unfolding move_out
  move_out_drops len =
      let e : min len (used b) ≡ min len (length q) = ap (min len) used_lem in
      rw e (refl, dropped (min len (length q)) (omega arith))

  -- `BaseRead` gives the oldest bytes, as many as are asked for or all, and takes them out.
  pub base_read_takes :
      (len : ℕ)
      → let n = min len (length q) in
        let (after, bytes, count) = base_read len b in
        (count ≡ n) × (bytes ≡ take n q) × IsFifo k after (drop n q)
  unfolding base_read
  base_read_takes len =
      let n = min len (length q) in
      let e : min len (used b) ≡ n = ap (min len) used_lem in
      let i = b.out_ptr % b.size in
      let room : sub32 b.size i ≡ b.size - i = omega (arith, size-le, mod-lt b.out_ptr size_pos) in
      rw e (
        refl,
        (rw (place_lem b.out_ptr) (
            rw room (
              two_reads b.size b.memory i n (mod-lt b.out_ptr size_pos) (omega (arith, v.short))
              ∙ get_round-Holds b.size b.memory i n q (omega arith) v.holds))),
        dropped n (omega arith),
      )

  -- `BaseWrite` puts as many of the bytes as there is room for behind the others.
  pub base_write_appends :
      (bytes : List ℕ) (len : ℕ)
      → len ≤ length bytes
      → let n = min len (b.size - length q) in
        ((base_write bytes len b).1 ≡ n) × IsFifo k (base_write bytes len b).0 (q ++ take n bytes)
  unfolding base_write
  base_write_appends bytes len h =
      let n = min len (b.size - length q) in
      let e : min len (unused b) ≡ n = ap (min len) unused_lem in
      let i = b.in_ptr % b.size in
      let room : sub32 b.size i ≡ b.size - i = omega (arith, size-le, mod-lt b.in_ptr size_pos) in
      let taken : length (take n bytes) ≡ n = length-take n bytes (omega arith) in
      let copied : copy_in
            (copy_in b.memory (place b b.in_ptr)
              (take (min n (sub32 b.size (place b b.in_ptr))) bytes))
            0
            (take (n - min n (sub32 b.size (place b b.in_ptr)))
              (drop (min n (sub32 b.size (place b b.in_ptr))) bytes))
          ≡ put_round b.size b.memory i (take n bytes) =
        rw (place_lem b.in_ptr) (
          rw room (
            two_copies b.size b.memory i n bytes (mod-lt b.in_ptr size_pos) (omega arith)
              (omega arith))) in
      rw e (
        refl,
        rw copied (record {
          size_at = v.size_at;
          fits = v.fits;
          storage = omega (arith, v.storage, length-put_round b.size b.memory i (take n bytes));
          short = omega (arith, v.short, length-append q (take n bytes), taken);
          in_word = omega arith;
          out_word = v.out_word;
          in_at = omega (arith, v.in_at, length-append q (take n bytes), taken);
          holds =
              put_round-Holds b.size b.memory (b.out_ptr % b.size) i q (take n bytes) v.storage
                (mod-lt b.out_ptr size_pos) (omega (arith, v.short, taken)) in_place v.holds;
        }),
      )
