-- ===== src/Capture/Release.antt =====
-- What the control thread takes of the system it gives back.
use my_streamer.Prelude.{
  ℕ, zero, suc, ◌+◌, Bool, true, false, List, ◌∷◌, ◌++◌, if◌then◌else◌, ◌≡◌, sym, ap, ◌∙◌, arith,
  append-nil, subst, Bool-cases, inl, inr,
}
use my_streamer.Prelude.Text.{Text, codes}
use my_streamer.Capture.{
  Driver, SystemEvent, streams_on, notifies, Capture, fails, and_then, check_name, open_video,
  check_capabilities, choose_format, ask_buffers, map_slots, map_buffers, enqueue_from,
  enqueue_buffers, start_streaming, init, control_thread, buffer_count,
}
use my_streamer.Capture.Balance.{
  stopped, mapped, unmapped, live, one, Holds, IsIdle, map_slots-Maps, cleanup-IsIdle, one_by,
  live-null,
}
use my_streamer.Capture.Ready.{
  IsReady, open_video-IsReady, check_capabilities-IsReady, ask_buffers-IsReady,
  choose_format-IsReady, check_name-cases,
}

-- before the stream is started
abbrev IsBound : Capture → Type 0
IsBound c = Holds c × (c.video_streaming_active ≡ false)

staged :
    {P Q : Capture → Type 0} (r : Capture × Bool) (f : Capture → Capture × Bool)
    → P r.0
    → ((c : Capture) → P c → Q c)
    → ((c : Capture) → P c → Q (f c).0)
    → Q (and_then r f).0
staged (c, true) f p weak step = step c p
staged (c, false) f p weak step = weak c p

map_buffers-IsBound : (d : Driver) (c : Capture) → IsReady c → IsBound (map_buffers d c).0
map_buffers-IsBound d c r =
    let m = map_slots-Maps d 0 c.slots c.log r.nulls in
    let ts = (map_slots d 0 c.slots c.log).0 in
    let all_given : mapped c.log ≡ unmapped c.log =
      r.holds.maps_at ∙ ap (λ x. unmapped c.log ++ x) (live-null c.slots r.nulls) ∙ append-nil _ in
    (
      record {
        opens_at =
            m.opened_same ∙ r.holds.opens_at ∙ ap (λ x. x + one c.video_open) (sym m.closed_same);
        starts_at =
            m.started_same
            ∙ r.holds.starts_at
            ∙ ap (λ x. x + one c.video_streaming_active) (sym m.stopped_same);
        maps_at = m.mapped_more ∙ ap (λ x. x ++ live ts) (all_given ∙ sym m.unmapped_same);
      },
      r.still,
    )

enqueue_from-same :
    (d : Driver) (n i : ℕ) (b : Bool) (c : Capture)
    → IsBound c
    → IsBound (record c { log = (enqueue_from d n i b c.log).0 })
unfolding enqueue_from
enqueue_from-same d zero i b c h = h
enqueue_from-same d (suc n) i b c (h, s) =
    let message = notifies (codes "Unable to enqueue capture buffer") true in
    let told_at = record c { log = message ∷ c.log } in
    let next : Bool → List SystemEvent = λ x.
      (if x
        then enqueue_from d n (suc i) b c.log
        else enqueue_from d n (suc i) false (message ∷ c.log)).0 in
    elim (Bool-cases (d.enqueue_buffer i)) [
      | inl e ↦
          subst (λ x. IsBound (record c { log = next x })) (sym e)
            (enqueue_from-same d n (suc i) b c (h, s))
      | inr e ↦
          subst (λ x. IsBound (record c { log = next x })) (sym e)
            (enqueue_from-same d n (suc i) false told_at
              (record { opens_at = h.opens_at; starts_at = h.starts_at; maps_at = h.maps_at }, s))
    ]

start_streaming-Holds : (d : Driver) (c : Capture) → IsBound c → Holds (start_streaming d c).0
start_streaming-Holds d c (h, s) = by_test d.stream_on
  where
    by_test :
        (b : Bool)
        → Holds
            (if b
              then (record c { video_streaming_active = true; log = streams_on ∷ c.log }, true)
              else fails (codes "Failed starting video streaming") c).0
    by_test true =
        let q = one_by _ (stopped c.log) _ false h.starts_at s in
        record { opens_at = h.opens_at; starts_at = omega arith; maps_at = h.maps_at }
    by_test false = record { opens_at = h.opens_at; starts_at = h.starts_at; maps_at = h.maps_at }

init-Holds :
    (d : Driver) (name formats : Text) (c : Capture) → IsIdle c → Holds (init d name formats c).0
unfolding init
init-Holds d name formats c v =
    let same = λ (x : Capture) (r : IsReady x). r in
    let r0 = check_name d name c in
    let r1 = and_then r0 (open_video d) in
    let r2 = and_then r1 (check_capabilities d) in
    let r3 = and_then r2 (choose_format d formats) in
    let r4 = and_then r3 (ask_buffers d) in
    let r5 = and_then r4 (map_buffers d) in
    let r6 = and_then r5 (enqueue_buffers d) in
    let p1 =
      staged {P = λ x. IsReady x × (x.video_open ≡ false)} {Q = IsReady} r0 (open_video d)
        (check_name-cases d name c v) (λ x h. h.0) (λ x h. open_video-IsReady d x h.0 h.1) in
    let p2 =
      staged {P = IsReady} {Q = IsReady} r1 (check_capabilities d) p1 same
        (check_capabilities-IsReady d) in
    let p3 =
      staged {P = IsReady} {Q = IsReady} r2 (choose_format d formats) p2 same
        (choose_format-IsReady d formats) in
    let p4 =
      staged {P = IsReady} {Q = IsReady} r3 (ask_buffers d) p3 same (ask_buffers-IsReady d) in
    let p5 =
      staged {P = IsReady} {Q = IsBound} r4 (map_buffers d) p4 (λ x h. (h.holds, h.still))
        (map_buffers-IsBound d) in
    let p6 =
      staged {P = IsBound} {Q = IsBound} r5 (enqueue_buffers d) p5 (λ x h. h)
        (λ x h. enqueue_from-same d buffer_count 0 true x h) in
    staged {P = IsBound} {Q = Holds} r6 (start_streaming d) p6 (λ x h. h.0)
      (start_streaming-Holds d)

-- Whatever the system's calls answer, so wherever Init stops: where the control thread begins with all
-- given back, it ends so. The device is closed as often as it was opened, the stream stopped as often
-- as it was started, every buffer that was mapped is unmapped with the length it was mapped with and in
-- the order in which it was, and no pointer stays in the data.
pub control_thread-IsIdle :
    (d : Driver) (name formats : Text) (c : Capture)
    → IsIdle c
    → IsIdle (control_thread d name formats c)
unfolding control_thread
control_thread-IsIdle d name formats c v =
    cleanup-IsIdle (init d name formats c).0 (init-Holds d name formats c v)
