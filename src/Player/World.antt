-- ===== src/Player/World.antt =====
-- The script with the browser around it: one image request is under way at most, since a write to
-- `src` replaces it, and the browser chooses what happens next.
use my_streamer.Prelude.{
  true, List, [], ◌∷◌, ◌++◌, Option, none, some, ◌≡◌, ◌≢◌, refl, ◌∙◌, arith, if◌then◌else◌,
}
use my_streamer.Prelude.Text.{Text}
use my_streamer.Player.{
  Numbers, Page, Value, mjpeg_url, jpeg_at, fresh, refresh_image, on_image_error, on_image_loaded,
  start,
}

module _ (n : Numbers) where
  open n use {Num}

  pub record World : Type 0 where
    pub page : Page Num
    pub loading : Option Text

  -- `refreshImage` and `start` write `src`, which starts a request.
  abbrev pub request : Page Num → World
  request p = record { page = p; loading = some p.src }

  -- What the browser may do. A complete load and an error end the request. A stream of parts
  -- fires `load` for a part and goes on. A timer leaves the list when it fires.
  pub data Step : World → World → Type 0 where
    load :
        (p : Page Num) (u : Text) (now : Num)
        → Step
            (record { page = p; loading = some u })
            (record { page = on_image_loaded n now p; loading = none })
    part :
        (p : Page Num) (u : Text) (now : Num)
        → u ≡ mjpeg_url
        → Step
            (record { page = p; loading = some u })
            (record { page = on_image_loaded n now p; loading = some u })
    fail :
        (p : Page Num) (u : Text)
        → Step
            (record { page = p; loading = some u })
            (record { page = on_image_error n p; loading = none })
    fire :
        (p : Page Num) (before after : List Num) (delay now : Num) (l : Option Text)
        → p.timers ≡ before ++ delay ∷ after
        → Step
            (record { page = p; loading = l })
            (request (refresh_image n now (record p { timers = before ++ after })))

  pub data Reach (w : World) : World → Type 0 where
    here : Reach w w
    next : {v u : World} → Reach w v → Step v u → Reach w u

  abbrev pub started : Value Num → Num → World
  started fps now = request (start n fps now (fresh n))

  pub jpeg_at-ne-mjpeg_url : (t : Num) → jpeg_at n t ≢ mjpeg_url
  jpeg_at-ne-mjpeg_url t e = cc

  -- the address that a page in its mode asks for
  abbrev address : Page Num → Text
  address p = if p.mjpeg_mode then mjpeg_url else jpeg_at n p.time_start

  -- A request for the element's address is under way and no call is scheduled; or the next call is
  -- scheduled and no request is under way; or neither, and that only behind a stream.
  abbrev pub Alive : Option Text → List Num → Page Num → Type 0
  Alive (some u) [] p = (u ≡ p.src) × (p.src ≡ address p)
  Alive none (d ∷ []) p = Unit {0}
  Alive none [] p = (p.mjpeg_mode ≡ true) × (p.src ≡ mjpeg_url)
  Alive _ _ p = ⊥

  abbrev pub IsAlive : World → Type 0
  IsAlive w = Alive w.loading w.page.timers w.page × (w.page.wired ≡ true)

  Alive-load :
      (ts : List Num) (p : Page Num) (u : Text) (now : Num)
      → p.timers ≡ ts
      → Alive (some u) ts p
      → Alive none (on_image_loaded n now p).timers (on_image_loaded n now p)
  unfolding on_image_loaded
  Alive-load [] p u now e h = ground arith
  Alive-load (t ∷ ts) p u now e h = absurd h

  Alive-part :
      (ts : List Num) (p : Page Num) (u : Text) (now : Num)
      → p.timers ≡ ts
      → u ≡ mjpeg_url
      → Alive (some u) ts p
      → Alive (some u) (on_image_loaded n now p).timers (on_image_loaded n now p)
  unfolding on_image_loaded
  Alive-part [] p u now e m h = ground (arith, jpeg_at-ne-mjpeg_url p.time_start)
  Alive-part (t ∷ ts) p u now e m h = absurd h

  Alive-fail :
      (ts : List Num) (p : Page Num) (u : Text)
      → p.timers ≡ ts
      → Alive (some u) ts p
      → Alive none (on_image_error n p).timers (on_image_error n p)
  unfolding on_image_error
  Alive-fail [] p u e h = ground arith
  Alive-fail (t ∷ ts) p u e h = absurd h

  -- A timer fires in the second phase only, and the list is then empty.
  Alive-fire :
      (l : Option Text) (ts before after : List Num) (p : Page Num) (delay now : Num)
      → ts ≡ before ++ delay ∷ after
      → Alive l ts p
      → let q = refresh_image n now (record p { timers = before ++ after }) in
        Alive (some q.src) q.timers q
  unfolding refresh_image
  Alive-fire (some u) [] [] after p delay now e h = cc
  Alive-fire (some u) [] (b ∷ bs) after p delay now e h = cc
  Alive-fire (some u) (t ∷ ts) before after p delay now e h = absurd h
  Alive-fire none [] [] after p delay now e h = cc
  Alive-fire none [] (b ∷ bs) after p delay now e h = cc
  Alive-fire none (t ∷ []) [] after p delay now e h = ground arith
  Alive-fire none (t ∷ []) (b ∷ []) after p delay now e h = cc
  Alive-fire none (t ∷ []) (b ∷ c ∷ bs) after p delay now e h = cc
  Alive-fire none (t ∷ s ∷ ts) before after p delay now e h = absurd h

  -- The handlers and `refreshImage` leave the element's handlers set.
  wired_kept :
      (p : Page Num) (now : Num)
      → ((on_image_loaded n now p).wired ≡ p.wired)
        × ((on_image_error n p).wired ≡ p.wired)
        × ((refresh_image n now p).wired ≡ p.wired)
  unfolding on_image_loaded on_image_error refresh_image
  wired_kept p now = ground arith

  pub Step-IsAlive : {w v : World} → Step w v → IsAlive w → IsAlive v
  Step-IsAlive (load p u now) (a, k) =
      (Alive-load p.timers p u now refl a, (wired_kept p now).0 ∙ k)
  Step-IsAlive (part p u now m) (a, k) =
      (Alive-part p.timers p u now refl m a, (wired_kept p now).0 ∙ k)
  Step-IsAlive (fail p u) (a, k) =
      (Alive-fail p.timers p u refl a, (wired_kept p n.undefined_num).1 ∙ k)
  Step-IsAlive (fire p before after delay now l e) (a, k) =
      let q = record p { timers = before ++ after } in
      (Alive-fire l p.timers before after p delay now e a, (wired_kept q now).2 ∙ k)

  -- From `Camera.Start` on, whatever the browser does: either the request that the element shows is
  -- under way and no call of `refreshImage` is scheduled, or one call is scheduled and no request is
  -- under way, or neither, and then the page is in stream mode. The handlers stay set.
  pub Reach-IsAlive :
      (fps : Value Num) (now : Num) {w : World} → Reach (started fps now) w → IsAlive w
  unfolding start refresh_image
  Reach-IsAlive fps now here = ground arith
  Reach-IsAlive fps now (next r s) = Step-IsAlive s (Reach-IsAlive fps now r)
