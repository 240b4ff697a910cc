-- ===== src/Serializer.antt =====
-- base/base_obj_configuration_serializer.cpp: the properties of an object written to a file and read from
-- it. The file system is a parameter, as what the file reads as, or `none` where it is not opened; so is
-- the object, behind the interface of base/base_obj_configurator.h.
pub mod Lines
pub mod Restored
mod Tests
use my_streamer.Prelude.{
  ℕ, zero, suc, Bool, true, false, ◌||◌, List, [], ◌∷◌, ◌++◌, Option, none, some, ◌==◌,
  if◌then◌else◌, length,
}
use my_streamer.Prelude.Text.{Text, codes}
use my_streamer.Prelude.Assoc.{Map}
use my_streamer.Errors.{ErrorCode, success, failed, io_error}
use my_streamer.Json.{c_str}

-- BaseObjectConfigurator
pub record Configurator : Type 1 where
  pub Object : Type 0
  pub set_property : Text → Text → Object → Object × ErrorCode
  pub get_all_properties : Object → Map

-- what `fprintf` writes of the properties, with `first`
unfoldable pub file_text : Bool → Map → Text
unfolding c_str
file_text first [] = []
file_text first ((name, value) ∷ m) =
    (if first then [] else b'\n' ∷ [])
    ++ (c_str name ++ (b'\n' ∷ (c_str value ++ (b'\n' ∷ file_text false m))))

-- `fgets` with room for `n` characters: up to a line's end, or as many as there is room for
unfoldable pub take_line : ℕ → Text → Text × Text
take_line zero t = ([], t)
take_line (suc n) [] = ([], [])
take_line (suc n) (c ∷ t) =
    let (line, rest) = take_line n t in if c == b'\n' then (c ∷ [], t) else (c ∷ line, rest)

-- `buffer` has 256 characters, and `fgets` is told of one fewer, of which one is the terminator.
abbrev pub room : ℕ
room = 254

abbrev pub is_blank : ℕ → Bool
is_blank c = (c == b' ' || c == b'\t') || (c == b'\n' || c == b'\r')

-- `pop_back` for as long as a blank stands at the end
unfoldable pub drop_last_blanks : Text → Text
drop_last_blanks [] = []
drop_last_blanks (c ∷ t) = elim (drop_last_blanks t) [
  | [] ↦ if is_blank c then [] else c ∷ []
  | d ∷ r ↦ c ∷ d ∷ r
]

-- `line`, from what `fgets` put into the buffer
unfoldable pub line_of : Text → Text
unfolding drop_last_blanks c_str
line_of buffer = drop_last_blanks (c_str buffer)

module _ (conf : Configurator) where
  open conf use {Object, set_property, get_all_properties}

  -- SaveConfiguration: the code, and what the file then holds where it is written
  unfoldable pub save_configuration : Text → Option Object → Bool → ErrorCode × Option Text
  unfolding file_text
  save_configuration [] object opens = (failed, none)
  save_configuration (c ∷ name) none opens = (failed, none)
  save_configuration (c ∷ name) (some o) opens =
      if opens then (success, some (file_text true (get_all_properties o))) else (io_error, none)

  -- the loop's variables, `gotName` with `name`, and the object
  pub record Progress : Type 0 where
    pub got_name : Option Text
    pub object : Object

  -- what a line does
  abbrev pub take_value : Option Text → Text → Object → Progress
  take_value (some name) line o = record { got_name = none; object = (set_property name line o).0 }
  take_value none [] o = record { got_name = none; object = o }
  take_value none (c ∷ line) o = record { got_name = some (c ∷ line); object = o }

  -- The loop, with fuel for its rounds.
  unfoldable pub load_loop : ℕ → Text → Progress → Option Progress
  unfolding take_line line_of
  load_loop fuel [] p = some p
  load_loop zero (c ∷ t) p = none
  load_loop (suc fuel) (c ∷ t) p =
      let (buffer, rest) = take_line room (c ∷ t) in
      load_loop fuel rest (take_value p.got_name (line_of buffer) p.object)

  -- LoadConfiguration. Each round reads a character at least.
  unfoldable pub load_configuration :
      Text → Option Object → Option Text → Option (ErrorCode × Option Object)
  unfolding load_loop
  load_configuration [] object file = some (failed, object)
  load_configuration (c ∷ name) none file = some (failed, none)
  load_configuration (c ∷ name) (some o) none = some (io_error, some o)
  load_configuration (c ∷ name) (some o) (some text) =
      elim (load_loop (length text) text (record { got_name = none; object = o })) [
        | none ↦ none
        | some p ↦ some (success, some p.object)
      ]
