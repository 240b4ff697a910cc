-- ===== src/Web/Dispatch.antt =====
-- Which answer a request gets.
use my_streamer.Prelude.{
  ℕ, Bool, true, false, not, ◌&&◌, List, [], ◌∷◌, ◌++◌, Option, none, some, if◌then◌else◌, ◌≡◌, ◌≢◌,
  refl, sym, ap, ap₂, ◌∙◌, ◌⊎◌, inl, inr, Option-cases, Bool-cases, subst,
}
use my_streamer.Prelude.Text.{Text, equal, equal_iff}
use my_streamer.Http.Request.{HttpRequest}
use my_streamer.Http.Response.{HttpResponse, ok, not_found, add_header, set_content_type, send_fast}
use my_streamer.Web.{
  Files, file_exiting, type_of, not_found_file, file_response, handle_file, Handler,
  WebCameraServer, assign, find_handler, add_handler, service_response, handle_request,
}

kept :
    {A : Type 0} (x y : Bool) (a b c : A)
    → x ≡ y
    → (if y then a else c) ≡ (if x then a else if y then b else c)
kept true y a b c e = ap (λ z. if z then a else c) (sym e)
kept false y a b c e = ap (λ z. if z then a else c) (sym e) ∙ ap (λ z. if z then b else c) e

moved :
    {A : Type 0} (x y : Bool) (a b c d : A)
    → (x ≡ true → y ≡ false)
    → d ≡ (if x then a else c)
    → (if y then b else d) ≡ (if x then a else if y then b else c)
moved true y a b c d h e = ap (λ z. if z then b else d) (h refl) ∙ e
moved false y a b c d h e = ap (λ z. if y then b else z) e

find_handler-assign :
    (name path : Text) (h : Handler) (m : List (Text × Handler))
    → find_handler path (assign name h m)
      ≡ (if equal path name then some h else find_handler path m)
unfolding find_handler assign
find_handler-assign name path h [] = refl
find_handler-assign name path h ((n, k) ∷ m) = elim (Bool-cases (equal name n)) [
  | inl e ↦
      ap (λ b. find_handler path (if b then (n, h) ∷ m else (n, k) ∷ assign name h m)) e
      ∙ kept (equal path name) (equal path n) (some h) (some k) (find_handler path m)
          (ap (equal path) ((equal_iff name n).0 e))
  | inr e ↦
      ap (λ b. find_handler path (if b then (n, h) ∷ m else (n, k) ∷ assign name h m)) e
      ∙ moved (equal path name) (equal path n) (some h) (some k) (find_handler path m)
          (find_handler path (assign name h m))
          (λ l. ap (λ x. equal x n) ((equal_iff path name).0 l) ∙ e)
          (find_handler-assign name path h m)
]

-- A handler that is added answers the requests for its name where no file has that name, in place of
-- the one that was there, and no other request is answered otherwise than before.
pub handle_request-add_handler :
    (show : ℕ → Text) (files : Files) (w : WebCameraServer) (name : Text) (h : Handler)
    (q : HttpRequest) (r : HttpResponse)
    → handle_request show files (add_handler name h w) q r ≡ (
        if not (file_exiting files (w.root_path ++ q.path)) && equal q.path name
        then h q r
        else handle_request show files w q r)
unfolding handle_request add_handler
handle_request-add_handler show files w name h q r =
    let file = handle_file show files w.file_root_path q r in
    let old = find_handler q.path w.function_map in
    let exists = file_exiting files (w.root_path ++ q.path) in
    ap (λ m. if exists then file else service_response show files m q r)
      (find_handler-assign name q.path h w.function_map)
    ∙ chosen exists (equal q.path name)
  where
    chosen :
        (b x : Bool)
        → (if b
            then handle_file show files w.file_root_path q r
            else service_response show files
                (if x then some h else find_handler q.path w.function_map)
                q
                r)
          ≡ (if not b && x
              then h q r
              else if b
              then handle_file show files w.file_root_path q r
              else service_response show files (find_handler q.path w.function_map) q r)
    chosen true x = refl
    chosen false true = refl
    chosen false false = refl

-- the four ways in which a request is answered
pub data Answered (files : Files) (w : WebCameraServer) (q : HttpRequest) (r a : HttpResponse)
    : Type 0 where
  file_served :
      (content type : Text)
      → files (w.root_path ++ q.path) ≡ some content
      → content ≢ []
      → type_of q.path ≡ type
      → type ≢ []
      → a.status_code ≡ ok
      → a.body ≡ content
      → a.close_connection ≡ r.close_connection
      → Answered files w q r a
  file_refused :
      (content : Text)
      → files (w.root_path ++ q.path) ≡ some content
      → (content ≡ []) ⊎ (type_of q.path ≡ [])
      → a.status_code ≡ not_found
      → a.close_connection ≡ r.close_connection
      → Answered files w q r a
  handled :
      (h : Handler)
      → files (w.root_path ++ q.path) ≡ none
      → find_handler q.path w.function_map ≡ some h
      → a ≡ h q r
      → Answered files w q r a
  nothing_found :
      files (w.root_path ++ q.path) ≡ none
      → find_handler q.path w.function_map ≡ none
      → a.status_code ≡ not_found
      → a.close_connection ≡ true
      → Answered files w q r a

file_Answered :
    (show : ℕ → Text) (files : Files) (w : WebCameraServer) (q : HttpRequest) (r : HttpResponse)
    (type content : Text)
    → files (w.root_path ++ q.path) ≡ some content
    → type_of q.path ≡ type
    → Answered files w q r (file_response show files q.path type content r)
unfolding not_found_file send_fast add_header set_content_type
file_Answered show files w q r [] content f t = file_refused content f (inr t) refl refl
file_Answered show files w q r (x ∷ xs) [] f t = file_refused [] f (inl refl) refl refl
file_Answered show files w q r (x ∷ xs) (c ∷ cs) f t =
    file_served (c ∷ cs) (x ∷ xs) f (λ e. absurd (cc e)) t (λ e. absurd (cc e)) refl refl refl

service_Answered :
    (show : ℕ → Text) (files : Files) (w : WebCameraServer) (q : HttpRequest) (r : HttpResponse)
    (h : Option Handler)
    → files (w.root_path ++ q.path) ≡ none
    → find_handler q.path w.function_map ≡ h
    → Answered files w q r (service_response show files h q r)
unfolding send_fast add_header
service_Answered show files w q r none f e = nothing_found f e refl refl
service_Answered show files w q r (some h) f e = handled h f e refl

-- Where the two roots are the same, every request is answered in one of four ways. A file of its name
-- with a type of the table and something in it is served whole with status 200. A file without is
-- refused with 404, and the connection is kept. Where there is no file, the handler of the name answers,
-- and where there is no handler either, the answer is 404 and the connection is to be closed.
pub handle_request-Answered :
    (show : ℕ → Text) (files : Files) (w : WebCameraServer) (q : HttpRequest) (r : HttpResponse)
    → w.file_root_path ≡ w.root_path
    → Answered files w q r (handle_request show files w q r)
unfolding handle_request handle_file
handle_request-Answered show files w q r roots =
    let by : Option Text → Option Text → HttpResponse = λ x y.
      if elim x [ none ↦ false | some _ ↦ true ]
      then (if elim y [ none ↦ false | some _ ↦ true ]
          then file_response show files q.path (type_of q.path) (elim y [ none ↦ [] | some c ↦ c ])
              r
          else not_found_file show files q.path r)
      else service_response show files (find_handler q.path w.function_map) q r in
    let same : files (w.file_root_path ++ q.path) ≡ files (w.root_path ++ q.path) =
      ap (λ x. files (x ++ q.path)) roots in
    elim (Option-cases (files (w.root_path ++ q.path))) [
      | inl n ↦
          subst (Answered files w q r) (sym (ap₂ by n (same ∙ n)))
            (service_Answered show files w q r (find_handler q.path w.function_map) n refl)
      | inr (c, e) ↦
          subst (Answered files w q r) (sym (ap₂ by e (same ∙ e)))
            (file_Answered show files w q r (type_of q.path) c e refl)
    ]
