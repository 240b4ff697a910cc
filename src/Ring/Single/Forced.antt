-- ===== src/Ring/Single/Forced.antt =====
-- What ForceWrite does to a full buffer, and what GetDataLen says.
use my_streamer.Prelude.{
  ℕ, ◌+◌, ◌%◌, ◌^◌, ◌≤◌, ◌<◌, true, false, not, List, ◌≡◌, refl, arith, min, ltb, ◌==◌, length,
  drop, subst,
}
use my_streamer.Ring.Single.{SingleData, unused, move_out, base_write, force_write, get_data_len}
use my_streamer.Ring.Single.Fifo.{IsFifo, size-le, used_lem, unused_lem, move_out_drops}

module _ {k : ℕ} {b : SingleData} {q : List ℕ} (v : IsFifo k b q) where
  -- A call of ForceWrite on a full buffer, with a number of bytes from one to the size, takes that many
  -- of the oldest bytes out, writes none of the new ones and returns 0.
  pub force_write_loses :
      (bytes : List ℕ) (len : ℕ)
      → length q ≡ b.size
      → 0 < len
      → len ≤ b.size
      → ((force_write bytes len b).1 ≡ 0) × IsFifo k (force_write bytes len b).0 (drop len q)
  unfolding force_write
  force_write_loses bytes len full some_bytes fits =
      let small : ltb b.size len ≡ false = ground arith in
      let no_room : (min len (unused b) == 0) ≡ true = ground (arith, unused_lem v) in
      let all : min len (length q) ≡ len = omega arith in
      let (count, left) = move_out_drops v len in
      let lost : (not ((move_out len b).1 == 0)) ≡ true = ground (arith, count) in
      rw (small, force_write)
        (rw no_room (rw lost (refl, subst (λ t. IsFifo k (move_out len b).0 (drop t q)) all left)))

  -- Where there is room, ForceWrite writes as BaseWrite does: what fits.
  pub force_write_room :
      (bytes : List ℕ) (len : ℕ)
      → length q < b.size
      → 0 < len
      → len ≤ b.size
      → force_write bytes len b ≡ base_write bytes len b
  unfolding force_write
  force_write_room bytes len room some_bytes fits =
      let small : ltb b.size len ≡ false = ground arith in
      let some_room : (min len (unused b) == 0) ≡ false = ground (arith, unused_lem v) in
      rw (small, force_write) (rw some_room refl)

  -- GetDataLen says how many bytes there are exactly where the counter of the reader is below that of
  -- the writer. Elsewhere, as where nothing is stored, it says the size more.
  pub get_data_len_lem :
      (b.out_ptr < b.in_ptr → get_data_len b ≡ length q)
      × (b.in_ptr ≤ b.out_ptr → get_data_len b ≡ (b.size + length q) % 2 ^ 32)
  unfolding get_data_len
  get_data_len_lem = (
    (λ h. let below : ltb b.out_ptr b.in_ptr ≡ true = ground arith in rw below (used_lem v)),
    λ h.
        let above : ltb b.out_ptr b.in_ptr ≡ false = ground arith in
        rw above (omega (arith, v.in_at, v.out_word, v.short, size-le v)),
  )
