-- ===== src/Capture/Tests.antt =====
-- Runs of the control thread.
use my_streamer.Prelude.{
  ℕ, ◌+◌, ◌-◌, ◌^◌, true, [], ◌∷◌, none, some, ◌≡◌, refl, replicate, ltb, if◌then◌else◌,
}
use my_streamer.Prelude.Text.{codes}
use my_streamer.Capture.{
  Driver, SystemEvent, opens, closes, streams_on, streams_off, maps, unmaps, notifies, Capture,
  new_capture, init, cleanup, control_thread,
}
use my_streamer.Capture.Release.{control_thread-IsIdle}
use my_streamer.Capture.Balance.{IsIdle}

-- All calls succeed, but that the third buffer cannot be queried.
abbrev driver : Driver
driver = record {
  open_device = true;
  query_capabilities = some (true, true);
  set_format = record { done = true; as_asked = true; width = 320; height = 240 };
  request_buffers = some 4;
  query_buffer = λ i. if ltb i 2 then some 100 else none;
  mmap = λ i n. some (1000 + i);
  enqueue_buffer = λ i. true;
  stream_on = true;
}

two_buffers :
    (control_thread driver [] [] new_capture).log
    ≡ closes
      ∷ unmaps 1001 100
      ∷ unmaps 1000 100
      ∷ notifies (codes "Unable to query capture buffer") true
      ∷ maps 1001 100
      ∷ maps 1000 100
      ∷ opens
      ∷ []
unfolding control_thread my_streamer.Capture.map_slots
two_buffers = refl

-- MAP_FAILED is not null, so a camera none of whose buffers is mapped starts.
abbrev map_failed : ℕ
map_failed = 2 ^ 64 - 1

unmapped_start :
    let (c, ok) =
      init
        (record driver { query_buffer = λ i. some 100; mmap = λ i n. some map_failed })
        []
        []
        new_capture in
    (ok ≡ true) × (c.slots ≡ replicate 4 (some map_failed, 100))
unfolding init my_streamer.Capture.map_slots my_streamer.Capture.enqueue_from
unmapped_start = (refl, refl)

new_capture-IsIdle : IsIdle new_capture
new_capture-IsIdle = record {
  not_open = refl;
  not_streaming = refl;
  no_buffers = (refl, (refl, (refl, (refl, tt))));
  closed_all = refl;
  stopped_all = refl;
  unmapped_all = refl;
}

control_thread-IsIdle_example : IsIdle (control_thread driver [] [] new_capture)
control_thread-IsIdle_example = control_thread-IsIdle driver [] [] new_capture new_capture-IsIdle
