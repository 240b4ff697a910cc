-- ===== src/Capture/Ready.antt =====
-- The steps of Init up to the mapping of the buffers: each leaves a camera of which only the device may be
-- open.
use my_streamer.Prelude.{
  length, ltb, ℕ, ◌+◌, Bool, true, false, ◌∷◌, ◌++◌, Option, none, some, if◌then◌else◌, ◌≡◌, sym,
  ap, ◌∙◌, arith, append-nil, subst, Bool-cases, inl, inr,
}
use my_streamer.Prelude.Text.{Text, codes}
use my_streamer.Capture.{
  Driver, opens, Capture, fails, check_name, open_video, check_capabilities, choose_format,
  ask_buffers, buffer_count,
}
use my_streamer.Capture.Balance.{
  closed, stopped, unmapped, AllNull, one, Holds, IsIdle, one_by, live-null,
}

-- before the buffers are mapped
pub record IsReady (c : Capture) : Type 0 where
  pub holds : Holds c
  pub nulls : AllNull c.slots
  pub still : c.video_streaming_active ≡ false

fails-IsReady : (message : Text) (c : Capture) → IsReady c → IsReady (fails message c).0
fails-IsReady message c r = record {
  holds = record {
    opens_at = r.holds.opens_at;
    starts_at = r.holds.starts_at;
    maps_at = r.holds.maps_at;
  };
  nulls = r.nulls;
  still = r.still;
}

pub open_video-IsReady :
    (d : Driver) (c : Capture) → IsReady c → c.video_open ≡ false → IsReady (open_video d c).0
open_video-IsReady d c r closed_yet =
    let opened_at : Bool → Capture = λ b.
      (if b
        then (record c { video_open = true; log = opens ∷ c.log }, true)
        else fails (codes "Failed opening video device") c).0 in
    elim (Bool-cases d.open_device) [
      | inl e ↦
          let o = one_by _ (closed c.log) _ false r.holds.opens_at closed_yet in
          subst (λ b. IsReady (opened_at b)) (sym e)
            (record {
              holds = record {
                opens_at = omega arith;
                starts_at = r.holds.starts_at;
                maps_at = r.holds.maps_at;
              };
              nulls = r.nulls;
              still = r.still;
            })
      | inr e ↦ subst (λ b. IsReady (opened_at b)) (sym e) (fails-IsReady _ c r)
    ]

pub check_capabilities-IsReady :
    (d : Driver) (c : Capture) → IsReady c → IsReady (check_capabilities d c).0
check_capabilities-IsReady d c r = by_answer d.query_capabilities
  where
    by_answer :
        (x : Option (Bool × Bool))
        → IsReady
            (elim x as (λ _. Capture × Bool) [
              | none ↦ fails (codes "Failed getting video capabilities of the device") c
              | some (capture, streaming) ↦
                  if capture
                  then (if streaming
                      then (c, true)
                      else fails (codes "Device does not support streaming") c)
                  else fails (codes "Device does not support video capture") c
            ]).0
    by_answer none = fails-IsReady _ c r
    by_answer (some (true, true)) = r
    by_answer (some (true, false)) = fails-IsReady _ c r
    by_answer (some (false, _)) = fails-IsReady _ c r

pub ask_buffers-IsReady : (d : Driver) (c : Capture) → IsReady c → IsReady (ask_buffers d c).0
ask_buffers-IsReady d c r = by_answer d.request_buffers
  where
    by_answer :
        (x : Option ℕ)
        → IsReady
            (elim x as (λ _. Capture × Bool) [
              | none ↦ fails (codes "Unable to allocate capture buffers") c
              | some n ↦
                  if ltb n buffer_count
                  then fails (codes "Not enough memory to allocate capture buffers") c
                  else (c, true)
            ]).0
    by_answer none = fails-IsReady _ c r
    by_answer (some n) = by_test (ltb n buffer_count)
      where
        by_test :
            (b : Bool)
            → IsReady
                (if b
                  then fails (codes "Not enough memory to allocate capture buffers") c
                  else (c, true)).0
        by_test true = fails-IsReady _ c r
        by_test false = r

resized-IsReady :
    (w h : ℕ) (c : Capture) → IsReady c → IsReady (record c { frame_width = w; frame_height = h })
resized-IsReady w h c r = record {
  holds = record {
    opens_at = r.holds.opens_at;
    starts_at = r.holds.starts_at;
    maps_at = r.holds.maps_at;
  };
  nulls = r.nulls;
  still = r.still;
}

pub choose_format-IsReady :
    (d : Driver) (formats : Text) (c : Capture) → IsReady c → IsReady (choose_format d formats c).0
choose_format-IsReady d formats c r = by_tests d.set_format.done d.set_format.as_asked
  where
    by_tests :
        (a b : Bool)
        → let s = record c {
          frame_width = d.set_format.width;
          frame_height = d.set_format.height;
        } in
          IsReady
            (if a
              then (if b then (s, true) else fails formats s)
              else fails (codes "Failed setting video format") s).0
    by_tests true true = resized-IsReady _ _ c r
    by_tests true false = fails-IsReady _ _ (resized-IsReady _ _ c r)
    by_tests false b = fails-IsReady _ _ (resized-IsReady _ _ c r)

IsIdle-IsReady : (c : Capture) → IsIdle c → IsReady c
IsIdle-IsReady c v = record {
  holds = record {
    opens_at = v.closed_all ∙ sym (ap (λ b. closed c.log + one b) v.not_open ∙ omega arith);
    starts_at = v.stopped_all ∙ sym (ap (λ b. stopped c.log + one b) v.not_streaming ∙ omega arith);
    maps_at =
        v.unmapped_all
        ∙ sym (append-nil _)
        ∙ ap (λ x. unmapped c.log ++ x) (sym (live-null c.slots v.no_buffers));
  };
  nulls = v.no_buffers;
  still = v.not_streaming;
}

pub check_name-cases :
    (d : Driver) (name : Text) (c : Capture)
    → IsIdle c
    → IsReady (check_name d name c).0 × ((check_name d name c).0.video_open ≡ false)
check_name-cases d name c v = by_test (ltb 64 (length name))
  where
    by_test :
        (b : Bool)
        → let x = (if b then fails (codes "Failed opening video device") c else (c, true)).0 in
          IsReady x × (x.video_open ≡ false)
    by_test true = (fails-IsReady _ c (IsIdle-IsReady c v), v.not_open)
    by_test false = (IsIdle-IsReady c v, v.not_open)
