-- ===== src/Serializer/Restored.antt =====
-- What is saved is loaded.
use my_streamer.Prelude.{
  ℕ, zero, suc, ◌≤◌, ◌<◌, Bool, true, false, [], ◌∷◌, ◌++◌, none, some, length, length-append, ◌≡◌,
  ◌≢◌, refl, sym, ap, ◌∙◌, arith,
}
use mathlib.Core.Option.{some-injective}
use my_streamer.Prelude.Text.{Text}
use my_streamer.Prelude.Assoc.{Map}
use my_streamer.Errors.{success}
use my_streamer.Json.{c_str}
use my_streamer.Serializer.{
  Configurator, file_text, take_line, room, line_of, save_configuration, Progress, take_value,
  load_loop, load_configuration,
}
use my_streamer.Serializer.Lines.{
  IsPlain, c_str-IsPlain, line_of-line, take_line-line, take_line-shorter,
}

-- names that are not empty, and names and values that fit a line
abbrev pub AreWritable : Map → Type 0
AreWritable [] = Unit
AreWritable ((name, value) ∷ m) =
    (((name ≢ []) × IsPlain name × (length name < room)) × IsPlain value × (length value < room))
    × AreWritable m

le_of : (a b n : ℕ) → a ≤ b → suc b ≤ suc n → a ≤ n
le_of a b n h k = omega arith

shrinks :
    (fuel c : ℕ) (t : Text) → length (c ∷ t) ≤ suc fuel → length (take_line room (c ∷ t)).1 ≤ fuel
shrinks fuel c t h =
    le_of (length (take_line room (c ∷ t)).1) (length t) fuel (take_line-shorter 253 c t) h

module _ (conf : Configurator) where
  open conf use {Object, set_property, get_all_properties}

  -- all the properties, set in order
  abbrev pub set_all : Map → Object → Object
  set_all [] o = o
  set_all ((name, value) ∷ m) o = set_all m (set_property name value o).0

  load_loop-line :
      (fuel : ℕ) (t rest : Text) (p : Progress conf)
      → IsPlain t
      → length t < room
      → load_loop conf (suc fuel) (t ++ (b'\n' ∷ rest)) p
        ≡ load_loop conf fuel rest (take_value conf p.got_name t p.object)
  unfolding load_loop
  load_loop-line fuel [] rest p h l = refl
  load_loop-line fuel (c ∷ t) rest p h l =
      ap
        (λ (x : Text × Text).
          load_loop conf fuel x.1 (take_value conf p.got_name (line_of x.0) p.object))
        (take_line-line room (c ∷ t) rest h l)
      ∙ ap (λ x. load_loop conf fuel rest (take_value conf p.got_name x p.object))
          (line_of-line (c ∷ t) h)

  -- a name and its value
  load_loop-entry :
      (fuel : ℕ) (name value rest : Text) (o : Object)
      → ((name ≢ []) × IsPlain name × (length name < room)) × IsPlain value × (length value < room)
      → load_loop conf
          (suc (suc fuel))
          (name ++ (b'\n' ∷ (value ++ (b'\n' ∷ rest))))
          (record { got_name = none; object = o })
        ≡ load_loop conf fuel rest
            (record { got_name = none; object = (set_property name value o).0 })
  load_loop-entry fuel [] value rest o ((some_name, _, _), _, _) = absurd (some_name refl)
  load_loop-entry fuel (c ∷ name) value rest o ((_, h, l), k, m) =
      load_loop-line (suc fuel) (c ∷ name) (value ++ (b'\n' ∷ rest))
        (record { got_name = none; object = o }) h l
      ∙ load_loop-line fuel value rest (record { got_name = some (c ∷ name); object = o }) k m

  entry-length :
      (a b rest : Text) → suc (suc (length rest)) ≤ length (a ++ (b'\n' ∷ (b ++ (b'\n' ∷ rest))))
  entry-length a b rest = omega (
    arith,
    length-append {0} a (b'\n' ∷ (b ++ (b'\n' ∷ rest))),
    length-append {0} b (b'\n' ∷ rest),
  )

  -- the text of the properties behind the first, and of all of them
  load_loop-entries :
      (fuel : ℕ) (first : Bool) (m : Map) (o : Object)
      → AreWritable m
      → length (file_text first m) ≤ fuel
      → load_loop conf fuel (file_text first m) (record { got_name = none; object = o })
        ≡ some (record { got_name = none; object = set_all m o })
  unfolding file_text load_loop
  load_loop-entries zero first [] o h l = refl
  load_loop-entries (suc fuel) first [] o h l = refl
  load_loop-entries zero true ((name, value) ∷ m) o h l =
      absurd (omega (arith, entry-length (c_str name) (c_str value) (file_text false m)))
  load_loop-entries (suc zero) true ((name, value) ∷ m) o h l =
      absurd (omega (arith, entry-length (c_str name) (c_str value) (file_text false m)))
  load_loop-entries (suc (suc fuel)) true ((name, value) ∷ m) o (h, k) l =
      let room_left : length (file_text false m) ≤ fuel =
        omega (arith, entry-length (c_str name) (c_str value) (file_text false m)) in
      ap
        (λ x.
          load_loop conf (suc (suc fuel))
            (x ++ (b'\n' ∷ (c_str value ++ (b'\n' ∷ file_text false m))))
            (record { got_name = none; object = o }))
        (c_str-IsPlain name h.0.1)
      ∙ ap
          (λ x.
            load_loop conf (suc (suc fuel)) (name ++ (b'\n' ∷ (x ++ (b'\n' ∷ file_text false m))))
              (record { got_name = none; object = o }))
          (c_str-IsPlain value h.1)
      ∙ load_loop-entry fuel name value (file_text false m) o h
      ∙ load_loop-entries fuel false m (set_property name value o).0 k room_left
  load_loop-entries (suc fuel) false ((name, value) ∷ m) o h l =
      load_loop-entries fuel true ((name, value) ∷ m) o h (omega arith)
  load_loop-entries zero false ((name, value) ∷ m) o h l = absurd (omega arith)

  -- What SaveConfiguration writes of an object is read back by LoadConfiguration: the object that is
  -- configured has all the properties of the saved one set, in their order and each with its value, and
  -- nothing else, whatever it answers. The names are not empty; names and values hold no end of a line
  -- and no terminator, end with no blank, and have fewer than 254 characters.
  pub load-save :
      (file : Text) (o o' : Object) (text : Text)
      → file ≢ []
      → AreWritable (get_all_properties o)
      → save_configuration conf file (some o) true ≡ (success, some text)
      → load_configuration conf file (some o') (some text)
        ≡ some (success, some (set_all (get_all_properties o) o'))
  unfolding save_configuration load_configuration
  load-save [] o o' text some_name w e = absurd (some_name refl)
  load-save (c ∷ file) o o' text some_name w e =
      let same : file_text true (get_all_properties o) ≡ text =
        some-injective _ _ (ap (λ x. x.1) e) in
      ap (λ x. load_configuration conf (c ∷ file) (some o') (some x)) (sym same)
      ∙ ap (λ x. elim x [ none ↦ none | some p ↦ some (success, some p.object) ])
          (load_loop-entries (length (file_text true (get_all_properties o))) true
            (get_all_properties o) o' w (omega arith))

  load_loop-total :
      (fuel : ℕ) (t : Text) (p : Progress conf)
      → length t ≤ fuel
      → (q : Progress conf) × (load_loop conf fuel t p ≡ some q)
  unfolding load_loop
  load_loop-total zero [] p h = (p, refl)
  load_loop-total (suc fuel) [] p h = (p, refl)
  load_loop-total zero (c ∷ t) p h = absurd (omega arith)
  load_loop-total (suc fuel) (c ∷ t) p h =
      let (buffer, rest) = take_line room (c ∷ t) in
      load_loop-total fuel rest (take_value conf p.got_name (line_of buffer) p.object)
        (shrinks fuel c t h)

  -- LoadConfiguration returns on every file, and says that it succeeded whatever was in it.
  pub load_configuration_total :
      (file : Text) (o : Object) (text : Text)
      → file ≢ []
      → (o' : Object) × (load_configuration conf file (some o) (some text)
          ≡ some (success, some o'))
  unfolding load_configuration
  load_configuration_total [] o text h = absurd (h refl)
  load_configuration_total (c ∷ file) o text h =
      let (q, e) =
        load_loop-total (length text) text (record { got_name = none; object = o }) (omega arith) in
      (q.object, ap (λ x. elim x [ none ↦ none | some p ↦ some (success, some p.object) ]) e)
