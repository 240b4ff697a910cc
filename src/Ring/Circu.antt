-- ===== src/Ring/Circu.antt =====
-- base/base_ring_buffer.h: `CircuBuffer`. Its array is as long as `size_`, and holds at first what
-- memory holds. `getAnElement` returns a place of the array, as its pointer does.
pub mod OneSlot
use my_streamer.Prelude.{
  ℕ, ◌+◌, ◌%◌, ◌^◌, Bool, true, false, not, List, Option, none, some, ◌==◌, if◌then◌else◌, set,
}

pub record CircuBuffer {ℓ} (A : Type ℓ) : Type ℓ where
  pub write_index : ℕ
  pub read_index : ℕ
  pub buffer : List A
  pub size : ℕ

-- `DEFAULT_SIZE`
abbrev pub default_size : ℕ
default_size = 30

abbrev pub u32_mod : ℕ
u32_mod = 2 ^ 32

-- `(index + 1) % size_` over `unsigned`
abbrev pub step : ℕ → ℕ → ℕ
step size index = ((index + 1) % u32_mod) % size

module _ {ℓ} {A : Type ℓ} where
  abbrev pub new : ℕ → List A → CircuBuffer A
  new size memory = record { write_index = 0; read_index = 0; buffer = memory; size = size }

  abbrev pub new_default : List A → CircuBuffer A
  new_default = new default_size

  unfoldable pub is_empty : CircuBuffer A → Bool
  is_empty b = b.write_index == b.read_index

  unfoldable pub is_full : CircuBuffer A → Bool
  is_full b = step b.size b.read_index == b.write_index

  unfoldable pub push_an_element : A → CircuBuffer A → CircuBuffer A × Bool
  unfolding is_full
  push_an_element element b =
      if not (is_full b)
      then (
        record b {
          buffer = set b.buffer b.write_index element;
          write_index = step b.size b.write_index;
        },
        true,
      )
      else (b, false)

  unfoldable pub get_an_element : CircuBuffer A → CircuBuffer A × Option ℕ
  unfolding is_empty
  get_an_element b =
      if not (is_empty b)
      then (record b { read_index = step b.size b.read_index }, some b.read_index)
      else (b, none)
