-- ===== src/Player/Urls.antt =====
-- Which addresses the element asks for: the change of mode after an error, and the time in the address
-- of a single picture.
use my_streamer.Prelude.{
  ℕ, zero, suc, Bool, false, not, List, [], ◌∷◌, none, length, ◌≡◌, ◌≢◌, refl, ap, ◌∙◌, arith,
  if◌then◌else◌,
}
use my_streamer.Player.{Numbers, Page, mjpeg_url, jpeg_at, refresh_image, on_image_error}
use my_streamer.Player.World.{World, request, Reach, here, next, fail, fire, jpeg_at-ne-mjpeg_url}

-- the mode after a number of errors
abbrev pub flips : ℕ → Bool → Bool
flips zero b = b
flips (suc k) b = flips k (not b)

module _ (n : Numbers) where
  open n use {Num, show}

  -- Each request in turn fails, and the scheduled call is made at the next of the given times.
  abbrev pub retries : List Num → Page Num → Page Num
  retries [] p = p
  retries (t ∷ ts) p = retries ts (refresh_image n t (record (on_image_error n p) { timers = [] }))

  Reach-trans : {a b c : World n} → Reach n a b → Reach n b c → Reach n a c
  Reach-trans r here = r
  Reach-trans r (next s st) = next (Reach-trans r s) st

  retry_fields :
      (t : Num) (p : Page Num)
      → let q = refresh_image n t (record (on_image_error n p) { timers = [] }) in
        (q.mjpeg_mode ≡ not p.mjpeg_mode)
        × (q.timers ≡ [])
        × (q.src ≡ (if not p.mjpeg_mode then mjpeg_url else jpeg_at n t))
  unfolding refresh_image on_image_error
  retry_fields t p = ground arith

  retry-Reach :
      (t : Num) (p : Page Num)
      → p.timers ≡ []
      → Reach n
          (request n p)
          (request n (refresh_image n t (record (on_image_error n p) { timers = [] })))
  unfolding on_image_error
  retry-Reach t p e =
      next (next here (fail p p.src)) (fire (on_image_error n p) [] [] (n.of_ℕ 1000) t none (rw e))

  -- A page with no call scheduled whose requests keep failing goes on asking, each time in the
  -- other mode than before, and has again no call scheduled.
  pub errors_rotate :
      (ts : List Num) (p : Page Num)
      → p.timers ≡ []
      → Reach n (request n p) (request n (retries ts p))
        × ((retries ts p).mjpeg_mode ≡ flips (length ts) p.mjpeg_mode)
        × ((retries ts p).timers ≡ [])
  errors_rotate [] p e = (here, refl, e)
  errors_rotate (t ∷ ts) p e =
      let q = refresh_image n t (record (on_image_error n p) { timers = [] }) in
      let (mode, empty, src) = retry_fields t p in
      let (r, m, e') = errors_rotate ts q empty in
      (Reach-trans (retry-Reach t p e) r, m ∙ ap (flips (length ts)) mode, e')

  -- In picture mode, if times are printed differently whenever they differ, two pictures asked for
  -- at different times have different addresses, and neither is the stream's.
  pub refresh_addresses :
      (p q : Page Num) (a b : Num)
      → ((s t : Num) → show s ≡ show t → s ≡ t)
      → p.mjpeg_mode ≡ false
      → q.mjpeg_mode ≡ false
      → a ≢ b
      → ((refresh_image n a p).src ≢ (refresh_image n b q).src)
        × ((refresh_image n a p).src ≢ mjpeg_url)
        × ((refresh_image n b q).src ≢ mjpeg_url)
  unfolding refresh_image
  refresh_addresses p q a b inj hp hq ne =
      rw (hp, hq) (λ e. ne (inj a b (same e)), jpeg_at-ne-mjpeg_url n a, jpeg_at-ne-mjpeg_url n b)
    where
      same : jpeg_at n a ≡ jpeg_at n b → show a ≡ show b
      same e = cc
