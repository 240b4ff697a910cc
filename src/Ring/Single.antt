-- ===== src/Ring/Single.antt =====
-- BaseSingleRingBufferData of base/base_ring_buffer.h and base_ring_buffer.cpp: a ring of bytes whose
-- two counters run through all of `uint32_t`. The memory is the list of its bytes; `malloc` is a
-- parameter.
pub mod Sizes
pub mod Wrap
pub mod Fifo
pub mod Runs
pub mod Forced
use Prim.Native.Nat.{bit_and}
use my_streamer.Prelude.{
  ℕ, zero, suc, ◌+◌, ◌-◌, ◌/◌, ◌^◌, Bool, true, false, not, ◌&&◌, List, [], ◌∷◌, ◌++◌, Option, none,
  some, ◌==◌, ltb, leb, min, if◌then◌else◌, length, get_or, set, take, drop, replicate,
}
use my_streamer.Prelude.Word.{add32, sub32}
use my_streamer.Prelude.Memory.{copy_in, copy_out}

unfoldable pub is_power_of_2 : ℕ → Bool
is_power_of_2 n = not (n == 0) && (bit_and n (sub32 n 1) == 0)

-- `i >>= 1` on the `int` of the loop: a negative number stays negative.
abbrev pub halve_int : ℕ → ℕ
halve_int i = if ltb i (2 ^ 31) then i / 2 else i / 2 + 2 ^ 31

-- The loop that counts the digits, with fuel; `none` says that the fuel ran out.
unfoldable pub count_digits : ℕ → ℕ → ℕ → Option ℕ
count_digits zero i position = none
count_digits (suc n) i position =
    let rest = count_digits n (halve_int i) (position + 1) in if i == 0 then some position else rest

-- A number below 2 ^ 31 has 31 digits at most, so the loop tests 32 times at most.
unfoldable pub roundup_power_of_2 : ℕ → Option ℕ
roundup_power_of_2 a =
    if a == 0
    then some 0
    else elim (count_digits 32 a 0) [ none ↦ none | some position ↦ some (2 ^ position) ]

pub record SingleData : Type 0 where
  pub in_ptr : ℕ
  pub out_ptr : ℕ
  pub memory : List ℕ
  pub size : ℕ

-- The constructor with `Initialize`. `malloc` gives the bytes that it finds, or null; `none` says that
-- the rounding does not end.
unfoldable pub initialize : (ℕ → Option (List ℕ)) → ℕ → Option (SingleData × Bool)
initialize malloc buffer_size =
    elim (if is_power_of_2 buffer_size then some buffer_size else roundup_power_of_2 buffer_size) [
      | none ↦ none
      | some size ↦ elim (malloc size) [
        | none ↦ some (record { in_ptr = 0; out_ptr = 0; memory = []; size = size }, false)
        | some memory ↦
            some (record { in_ptr = 0; out_ptr = 0; memory = memory; size = size }, true)
      ]
    ]

-- `Reset` and `Clean`
abbrev pub reset : SingleData → SingleData
reset b = record b { in_ptr = 0; out_ptr = 0 }

unfoldable pub clean : SingleData → SingleData
clean b = record (reset b) { memory = replicate b.size 0 }

unfoldable pub get_data_len : SingleData → ℕ
get_data_len b =
    if ltb b.out_ptr b.in_ptr
    then sub32 b.in_ptr b.out_ptr
    else add32 (sub32 b.size b.out_ptr) b.in_ptr

-- what stands between the counters, and what is left beside it
abbrev pub used : SingleData → ℕ
used b = sub32 b.in_ptr b.out_ptr

abbrev pub unused : SingleData → ℕ
unused b = add32 (sub32 b.size b.in_ptr) b.out_ptr

-- the place of a counter in the memory
abbrev pub place : SingleData → ℕ → ℕ
place b i = bit_and i (sub32 b.size 1)

unfoldable pub move_out : ℕ → SingleData → SingleData × ℕ
move_out len b = let n = min len (used b) in (record b { out_ptr = add32 b.out_ptr n }, n)

unfoldable pub move_in : ℕ → SingleData → SingleData × ℕ
move_in len b = let n = min len (unused b) in (record b { in_ptr = add32 b.in_ptr n }, n)

-- The bytes that are read are what the call writes to `read`.
unfoldable pub base_read : ℕ → SingleData → SingleData × List ℕ × ℕ
base_read len b =
    let n = min len (used b) in
    let l = min n (sub32 b.size (place b b.out_ptr)) in
    (
      record b { out_ptr = add32 b.out_ptr n },
      copy_out b.memory (place b b.out_ptr) l ++ copy_out b.memory 0 (n - l),
      n,
    )

unfoldable pub base_write : List ℕ → ℕ → SingleData → SingleData × ℕ
base_write new_data len b =
    let n = min len (unused b) in
    let l = min n (sub32 b.size (place b b.in_ptr)) in
    let right = copy_in b.memory (place b b.in_ptr) (take l new_data) in
    (
      record b {
        in_ptr = add32 b.in_ptr n;
        memory = copy_in right 0 (take (n - l) (drop l new_data));
      },
      n,
    )

unfoldable pub force_write : List ℕ → ℕ → SingleData → SingleData × ℕ
force_write new_data len b =
    if ltb b.size len
    then (b, 0)
    else if min len (unused b) == 0
    then (let (c, moved) = move_out len b in
        if not (moved == 0) then (c, 0) else base_write new_data len c)
    else base_write new_data len b
