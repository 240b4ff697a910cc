-- ===== src/Ring/Simple.antt =====
-- base/base_ring_buffer.h: `BaseSimpleRingBuffer`, with a call of `push` or `pop` run in one piece.
pub mod Refine
pub mod Threads
pub mod Order
use my_streamer.Prelude.{ℕ, ◌+◌, ◌%◌, Bool, true, false, List, ◌==◌, if◌then◌else◌, get_or, set}

pub record Ring {ℓ} (A : Type ℓ) : Type ℓ where
  pub ring : List A
  pub head : ℕ
  pub tail : ℕ

-- `next`, for the template parameter `Size`
abbrev pub next_index : ℕ → ℕ → ℕ
next_index size current = (current + 1) % size

-- The constructor; the array holds what memory holds.
abbrev pub empty_ring {ℓ} : {A : Type ℓ} → List A → Ring A
empty_ring memory = record { ring = memory; head = 0; tail = 0 }

module _ {ℓ} {A : Type ℓ} (size : ℕ) where
  unfoldable pub push : A → Ring A → Ring A × Bool
  push value r =
      if next_index size r.head == r.tail
      then (r, false)
      else (record r { ring = set r.ring r.head value; head = next_index size r.head }, true)

  -- `value` is the caller's variable, which an empty ring leaves alone.
  unfoldable pub pop : A → Ring A → Ring A × A × Bool
  pop value r =
      if r.tail == r.head
      then (r, value, false)
      else (record r { tail = next_index size r.tail }, get_or r.ring r.tail value, true)
