-- ===== src/Service/Get/Names.antt =====
-- The list of names in the query of a GET.
use my_streamer.Prelude.{
  false, List, [], ◌∷◌, ◌++◌, ◌==◌, if◌then◌else◌, ◌≡◌, ◌≢◌, refl, sym, ap, ◌∙◌, append-nil,
  append_assoc,
}
use my_streamer.Prelude.Text.{Text}
use my_streamer.Camera.{Device, CameraData}
use my_streamer.Camera.Config.{Format}
use my_streamer.Http.Response.{HttpResponse}
use my_streamer.Service.{answer}
use my_streamer.Service.Get.{
  named, names_from, collect, config_text, values_for, handle_get_request,
}

-- no comma and no NUL
abbrev pub IsPlain : Text → Type 0
IsPlain [] = Unit
IsPlain (c ∷ t) = ((c == 0) ≡ false) × ((c == b',') ≡ false) × IsPlain t

abbrev pub AreNames : List Text → Type 0
AreNames [] = Unit
AreNames (n ∷ ns) = ((n ≢ []) × IsPlain n) × AreNames ns

-- the names with commas between them
abbrev pub joined : Text → List Text → Text
joined n [] = n
joined n (m ∷ ns) = n ++ (b',' ∷ joined m ns)

names_from-plain :
    (name n rest : Text) → IsPlain n → names_from name (n ++ rest) ≡ names_from (name ++ n) rest
unfolding names_from
names_from-plain name [] rest h = ap (λ x. names_from x rest) (sym (append-nil name))
names_from-plain name (c ∷ n) rest (z, k, h) =
    ap
      (λ b.
        if b
        then named name []
        else if c == b','
        then named name (names_from [] (n ++ rest))
        else names_from (name ++ (c ∷ [])) (n ++ rest))
      z
    ∙ ap
        (λ b.
          if b
          then named name (names_from [] (n ++ rest))
          else names_from (name ++ (c ∷ [])) (n ++ rest))
        k
    ∙ names_from-plain (name ++ (c ∷ [])) n rest h
    ∙ ap (λ x. names_from x rest) (append_assoc name (c ∷ []) n)

named-some : (n : Text) (ns : List Text) → n ≢ [] → named n ns ≡ n ∷ ns
named-some [] ns h = absurd (h refl)
named-some (c ∷ n) ns h = refl

names_from-joined :
    (n : Text) (ns : List Text)
    → (n ≢ []) × IsPlain n
    → AreNames ns
    → names_from [] (joined n ns) ≡ n ∷ ns
unfolding names_from
names_from-joined n [] (some_name, h) k =
    ap (names_from []) (sym (append-nil n)) ∙ names_from-plain [] n [] h ∙ named-some n [] some_name
names_from-joined n (m ∷ ns) (some_name, h) (k, ks) =
    names_from-plain [] n (b',' ∷ joined m ns) h
    ∙ ap (named n) (names_from-joined m ns k ks)
    ∙ named-some n (m ∷ ns) some_name

joined-some : (n : Text) (ns : List Text) → n ≢ [] → joined n ns ≢ []
joined-some [] ns h e = absurd (h refl)
joined-some (c ∷ n) [] h e = absurd (cc e)
joined-some (c ∷ n) (m ∷ ns) h e = absurd (cc e)

values_for-some :
    (dev : Device) (format : Format) (c : CameraData dev.Dev) (vars : Text)
    → vars ≢ []
    → values_for dev format vars c ≡ collect dev format (names_from [] vars) c []
values_for-some dev format c [] h = absurd (h refl)
values_for-some dev format c (x ∷ vars) h = refl

-- A GET with names that are not empty and hold no comma and no NUL, written with commas between them, is
-- answered with the values of those of them that are read, under their names.
pub handle_get_request-joined :
    (dev : Device) (format : Format) (c : CameraData dev.Dev) (n : Text) (ns : List Text)
    (r : HttpResponse)
    → AreNames (n ∷ ns)
    → handle_get_request dev format c (joined n ns) r
      ≡ answer (config_text (collect dev format (n ∷ ns) c [])) r
unfolding handle_get_request
handle_get_request-joined dev format c n ns r (h, k) =
    ap (λ m. answer (config_text m) r)
      (values_for-some dev format c (joined n ns) (joined-some n ns h.0)
        ∙ ap (λ x. collect dev format x c []) (names_from-joined n ns h k))
