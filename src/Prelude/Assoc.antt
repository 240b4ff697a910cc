-- ===== src/Prelude/Assoc.antt =====
-- `std::map<std::string, std::string>`: a list of pairs in the order of the keys, which is the order of
-- iteration. Keys are compared byte by byte.
use my_streamer.Prelude.Tests.{ltb, ◌==◌, if◌then◌else◌}
use my_streamer.Prelude.Text.{Text, equal}
use mathlib.Core.Bool.{Bool, true, false}
use mathlib.Core.List.{List, [], ◌∷◌}
use mathlib.Core.Option.{Option, none, some}

abbrev pub Map : Type 0
Map = List (Text × Text)

unfoldable pub before : Text → Text → Bool
before [] [] = false
before [] (y ∷ ys) = true
before (x ∷ xs) [] = false
before (x ∷ xs) (y ∷ ys) = if x == y then before xs ys else ltb x y

-- `insert` does nothing where the key is there.
unfoldable pub insert : Text → Text → Map → Map
unfolding before equal
insert k v [] = (k, v) ∷ []
insert k v ((j, w) ∷ m) =
    if equal k j
    then (j, w) ∷ m
    else if before k j
    then (k, v) ∷ (j, w) ∷ m
    else (j, w) ∷ insert k v m

unfoldable pub lookup : Text → Map → Option Text
unfolding equal
lookup k [] = none
lookup k ((j, w) ∷ m) = if equal k j then some w else lookup k m

-- `m[k] = v`
unfoldable pub put : Text → Text → Map → Map
unfolding before equal
put k v [] = (k, v) ∷ []
put k v ((j, w) ∷ m) =
    if equal k j then (k, v) ∷ m else if before k j then (k, v) ∷ (j, w) ∷ m else (j, w) ∷ put k v m
