-- ===== src/Ring/Tests.antt =====
-- Runs of the ring buffers, and their theorems at concrete inputs.
use mathlib.Core.Option.{some-injective}
use my_streamer.Ring.Single.{
  SingleData, base_read, force_write, get_data_len, is_power_of_2, count_digits, roundup_power_of_2,
  initialize,
}
use my_streamer.Ring.Single.Sizes.{rounding_endless, IsFresh, initialize_sized}
use my_streamer.Ring.Single.Fifo.{IsFifo}
use my_streamer.Ring.Single.Forced.{force_write_loses, get_data_len_lem}
use my_streamer.Ring.Single.Runs.{Call, write, read, skip, answers, promised, ring_refines}
use my_streamer.Prelude.{
  ℕ, ◌<◌, ◌≤◌, ◌+◌, ◌-◌, ◌^◌, ◌%◌, ◌↔◌, Bool, Option, drop, replicate, length-replicate, leb,
  if◌then◌else◌, ap, true, false, List, [], ◌∷◌, ◌++◌, none, some, ◌≡◌, refl, arith, length,
}
use my_streamer.Ring.Circu.{new, push_an_element, get_an_element}
use my_streamer.Ring.Circu.OneSlot
use my_streamer.Ring.Circu.OneSlot.{holds_one}
use my_streamer.Ring.Simple.{empty_ring, push, pop}
use my_streamer.Ring.Simple.Refine
use my_streamer.Ring.Simple.Refine.{run_refines}
use my_streamer.Ring.Simple.Threads.{
  Producer, Consumer, World, push_test, push_copy, push_store, pop_test, Reach, here, next, initial,
}
use my_streamer.Ring.Simple.Order.{threads_fifo, Disjoint, threads_race_free}

abbrev memory : List ℕ
memory = 9 ∷ 9 ∷ 9 ∷ []

abbrev calls : List (OneSlot.Op ℕ)
calls = OneSlot.put 4 ∷ OneSlot.put 5 ∷ OneSlot.get ∷ OneSlot.get ∷ OneSlot.put 6 ∷ OneSlot.get ∷ []

-- The second element is refused although two of the three places are free.
one_element :
    OneSlot.run (new 3 memory) calls
    ≡ OneSlot.put_seen true
      ∷ OneSlot.put_seen false
      ∷ OneSlot.get_seen (some 4)
      ∷ OneSlot.get_seen none
      ∷ OneSlot.put_seen true
      ∷ OneSlot.get_seen (some 6)
      ∷ []
unfolding OneSlot.run push_an_element get_an_element
one_element = refl

holds_one_example : OneSlot.run (new 3 memory) calls ≡ OneSlot.run_cell none calls
holds_one_example = holds_one 3 memory calls (omega arith) (omega arith) (omega arith)

abbrev ops : List (Refine.Op ℕ)
ops = Refine.put 4 ∷ Refine.put 5 ∷ Refine.put 6 ∷ Refine.get 0 ∷ Refine.get 0 ∷ Refine.get 7 ∷ []

two_elements :
    Refine.run 3 (empty_ring memory) ops
    ≡ Refine.put_seen true
      ∷ Refine.put_seen true
      ∷ Refine.put_seen false
      ∷ Refine.get_seen 4 true
      ∷ Refine.get_seen 5 true
      ∷ Refine.get_seen 7 false
      ∷ []
unfolding Refine.run push pop
two_elements = refl

run_refines_example : Refine.run 3 (empty_ring memory) ops ≡ Refine.run_queue 3 [] ops
run_refines_example = run_refines 3 memory ops (omega arith) (omega arith)

-- one element is sent, a second push and a pop have made their tests
abbrev busy : World ℕ
busy = record {
  ring = record { ring = 4 ∷ 9 ∷ 9 ∷ []; head = 1; tail = 0 };
  producer = Producer.tested 5;
  consumer = Consumer.tested;
  sent = 4 ∷ [];
  received = [];
}

busy-Reach : Reach 3 (initial 3 memory) busy
busy-Reach =
    next
      (next
        (next
          (next (next here (push_test (empty_ring memory) 4 Consumer.resting [] [] refl))
            (push_copy (empty_ring memory) 4 Consumer.resting [] []))
          (push_store (record { ring = 4 ∷ 9 ∷ 9 ∷ []; head = 0; tail = 0 }) 4 Consumer.resting []
            []))
        (push_test (record { ring = 4 ∷ 9 ∷ 9 ∷ []; head = 1; tail = 0 }) 5 Consumer.resting
          (4 ∷ []) [] refl))
      (pop_test (record { ring = 4 ∷ 9 ∷ 9 ∷ []; head = 1; tail = 0 }) (Producer.tested 5) (4 ∷ [])
        [] refl)

threads_fifo_example : (q : List ℕ) × (busy.sent ≡ busy.received ++ q) × (length q < 3)
threads_fifo_example = threads_fifo 3 memory (omega arith) (omega arith) busy-Reach

threads_race_free_example : Disjoint 3 busy.producer busy.consumer busy.ring
threads_race_free_example = threads_race_free 3 memory (omega arith) (omega arith) busy-Reach

-- A ring of four bytes whose counters have wrapped: it is full.
abbrev wrapped : SingleData
wrapped = record { in_ptr = 2; out_ptr = 2 ^ 32 - 2; memory = 12 ∷ 13 ∷ 10 ∷ 11 ∷ []; size = 4 }

abbrev four_bytes : List ℕ
four_bytes = 10 ∷ 11 ∷ 12 ∷ 13 ∷ []

wrapped-IsFifo : IsFifo 2 wrapped four_bytes
wrapped-IsFifo = record {
  size_at = refl;
  fits = omega arith;
  storage = omega arith;
  short = omega arith;
  in_word = omega arith;
  out_word = omega arith;
  in_at = refl;
  holds = ((λ d. refl), ((λ d. refl), ((λ d. refl), ((λ d. refl), tt))));
}

read_round : (base_read 3 wrapped).1 ≡ 10 ∷ 11 ∷ 12 ∷ []
unfolding base_read
read_round = refl

force_write_loses_example :
    ((force_write (1 ∷ 2 ∷ []) 2 wrapped).1 ≡ 0)
    × IsFifo 2 (force_write (1 ∷ 2 ∷ []) 2 wrapped).0 (drop 2 four_bytes)
force_write_loses_example =
    force_write_loses wrapped-IsFifo (1 ∷ 2 ∷ []) 2 refl (omega arith) (omega arith)

get_data_len_lem_case :
    (wrapped.out_ptr < wrapped.in_ptr → get_data_len wrapped ≡ length four_bytes)
    × (wrapped.in_ptr ≤ wrapped.out_ptr
        → get_data_len wrapped ≡ (wrapped.size + length four_bytes) % 2 ^ 32)
get_data_len_lem_case = get_data_len_lem wrapped-IsFifo

endless_size :
    (is_power_of_2 (2 ^ 31 + 5) ≡ false) × ((n : ℕ) → count_digits n (2 ^ 31 + 5) 0 ≡ none)
endless_size = rounding_endless (2 ^ 31 + 5) (omega arith) (omega arith)

-- memory of zeros, up to eight bytes
abbrev small_malloc : ℕ → Option (List ℕ)
small_malloc n = if leb n 8 then some (replicate n 0) else none

small_malloc_fits : (n : ℕ) (m : List ℕ) → small_malloc n ≡ some m → n ≤ length m
small_malloc_fits n m h = go (leb n 8) h
  where
    go : (t : Bool) → (if t then some (replicate n 0) else none) ≡ some m → n ≤ length m
    go true e = omega (arith, ap length (some-injective _ _ e), length-replicate {A = ℕ} n 0)
    go false e = absurd (cc e)

abbrev eight : SingleData
eight = record { in_ptr = 0; out_ptr = 0; memory = replicate 8 0; size = 8 }

eight_given : initialize small_malloc 5 ≡ some (eight, true)
unfolding initialize is_power_of_2 roundup_power_of_2 count_digits
eight_given = refl

abbrev byte_calls : List Call
byte_calls =
    write four_bytes ∷ read 3 ∷ write (1 ∷ 2 ∷ 3 ∷ 4 ∷ 5 ∷ 6 ∷ 7 ∷ 8 ∷ []) ∷ skip 1 ∷ read 9 ∷ []

ring_refines_example :
    (5 ≤ eight.size) × (answers byte_calls eight ≡ promised eight.size byte_calls [])
ring_refines_example =
    ring_refines small_malloc 5 eight byte_calls small_malloc_fits (omega arith) (omega arith)
      eight_given

initialize_sized_case :
    (k : ℕ) × (b : SingleData) × (done : Bool) × (initialize small_malloc 9 ≡ some (b, done))
    × IsFresh 9 k b
    × ((done ≡ true) ↔ (small_malloc (2 ^ k) ≡ some b.memory))
initialize_sized_case = initialize_sized small_malloc 9 (omega arith) (omega arith)
