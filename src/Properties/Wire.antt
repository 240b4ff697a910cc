-- ===== src/Properties/Wire.antt =====
-- What the page posts is what the server reads: the body of a request, parsed by the server's
-- `SimpleJsonParser`, gives the name and the value of the control. And what the page says of an answer.
use my_streamer.Prelude.{
  ℕ, Bool, true, false, [], ◌∷◌, ◌++◌, Option, none, some, Bool-cases, inl, inr, ◌≡◌, ◌≢◌, ◌↔◌,
  refl, ap, ◌∙◌, if◌then◌else◌,
}
use mathlib.Core.Option.{some-injective}
use my_streamer.Prelude.Text.{Text, codes, equal, equal_iff}
use my_streamer.Prelude.Assoc.{insert}
use my_streamer.Json.{simple_json_parser}
use my_streamer.Json.Strings.{IsPrintable, IsDigits, Escaping}
use my_streamer.Json.RoundTrip.{
  Member, string, digits, Members, AllWritable, stored_in, body, parser-body,
}
use my_streamer.Properties.{
  shown, property_line, Value, number, text, Vars, Reply, CheckBox, Input, is_not_ok, success,
  set_camera_properties, handle_bool_property, handle_range_property, handle_selection_property,
}

-- a property of `variablesMap` as a member, given how numbers are printed
abbrev pub member_of : (ℕ → Text) → Text × Value → Text × Member
member_of show (k, number n) = (k, digits (show n))
member_of show (k, text t) = (k, string t)

abbrev pub members_of : (ℕ → Text) → Vars → Members
members_of show [] = []
members_of show (x ∷ r) = member_of show x ∷ members_of show r

-- `JSON.stringify`, as ECMAScript describes it for an object whose values are strings and whole
-- numbers, called with one argument: no space is written.
pub record Stringify : Type 0 where
  pub stringify : Vars → Text
  pub show : ℕ → Text
  pub escaping : Escaping
  pub show-IsDigits : (n : ℕ) → IsDigits (show n)
  pub show-ne-nil : (n : ℕ) → show n ≢ []
  pub show_zero : show 0 ≡ codes "0"
  pub show_one : show 1 ≡ codes "1"
  pub stringify_object :
      (vars : Vars) → stringify vars ≡ b'{' ∷ body escaping (members_of show vars)

-- no control character in the names and in the strings
abbrev pub Printable : Vars → Type 0
Printable [] = Unit
Printable ((k, number n) ∷ r) = IsPrintable k × Printable r
Printable ((k, text t) ∷ r) = IsPrintable k × IsPrintable t × Printable r

module _ (j : Stringify) where
  open j use {stringify, show, show-IsDigits, show-ne-nil, show_zero, show_one, stringify_object}

  members_of-AllWritable : (vars : Vars) → Printable vars → AllWritable (members_of show vars)
  members_of-AllWritable [] h = tt
  members_of-AllWritable ((k, number n) ∷ r) h =
      (h.0, (show-IsDigits n, show-ne-nil n), members_of-AllWritable r h.1)
  members_of-AllWritable ((k, text t) ∷ r) h = (h.0, h.1, members_of-AllWritable r h.2)

  -- The server accepts the body of the request that posts any properties without control characters,
  -- and stores them: a number as its digits, a string as it is, the first of two with one name.
  pub set_camera_properties_parsed :
      (vars : Vars)
      → Printable vars
      → simple_json_parser (set_camera_properties stringify vars).body
        ≡ some (true, stored_in [] (members_of show vars))
  unfolding set_camera_properties
  set_camera_properties_parsed vars h =
      ap simple_json_parser (stringify_object vars)
      ∙ parser-body j.escaping (members_of show vars) (members_of-AllWritable vars h)

  -- Each control that is changed posts one property, which the server reads as the control's id with
  -- "1" or "0" for a check box, and with the control's value for a slider or a selection, if the id and
  -- the value hold no control character.
  pub controls_parsed :
      (cb : CheckBox) (i : Input)
      → IsPrintable cb.id
      → IsPrintable i.id
      → IsPrintable i.value
      → (simple_json_parser (handle_bool_property stringify cb).body
          ≡ some (true, (cb.id, (if cb.checked then codes "1" else codes "0")) ∷ []))
        × (simple_json_parser (handle_range_property stringify i).body
            ≡ some (true, (i.id, i.value) ∷ []))
        × (simple_json_parser (handle_selection_property stringify i).body
            ≡ some (true, (i.id, i.value) ∷ []))
  unfolding handle_bool_property handle_range_property handle_selection_property insert
  controls_parsed cb i hc hi hv = (
    set_camera_properties_parsed ((cb.id, number (if cb.checked then 1 else 0)) ∷ []) (hc, tt)
        ∙ ap (λ t. some (true, (cb.id, t) ∷ [])) (bit cb.checked),
    set_camera_properties_parsed ((i.id, text i.value) ∷ []) (hi, hv, tt),
    set_camera_properties_parsed ((i.id, text i.value) ∷ []) (hi, hv, tt),
  )
    where
      bit : (b : Bool) → show (if b then 1 else 0) ≡ (if b then codes "1" else codes "0")
      bit true = show_one
      bit false = show_zero

-- The page writes nothing to the console exactly when the answer's status is "OK".
pub success-nil_iff : (r : Reply) → (success r ≡ []) ↔ (r.status ≡ some (codes "OK"))
unfolding success
success-nil_iff r = cases r.status
  where
    cases :
        (s : Option Text)
        → ((if is_not_ok s
              then (codes "Failed setting camera property: " ++ shown s) ∷ property_line r.property
              else [])
            ≡ [])
          ↔ (s ≡ some (codes "OK"))
    cases none = (λ e. cc, λ e. cc)
    cases (some t) = elim (Bool-cases (equal t (codes "OK"))) [
      | inl e ↦ rw e (λ _. ap some ((equal_iff t (codes "OK")).0 e), λ _. refl)
      | inr e ↦ rw e (λ x. cc, λ x. cc ((equal_iff t (codes "OK")).1 (some-injective _ _ x)))
    ]
