-- ===== src/Control/Stops.antt =====
-- WaitForStop returns.
use my_streamer.Prelude.{
  ℕ, ◌-◌, ◌≤◌, Bool, true, false, not, List, [], ◌∷◌, none, some, if◌then◌else◌, ◌≡◌, refl, ap, ◌∙◌,
  Option-cases, inl, inr, arith, length, ◌||◌, ◌==◌,
}
use my_streamer.Control.{
  Stage, beginning, pausing, waiting, capturing, leaving, marking, ended, Camera, Initialised,
  has_ended, join_stage, join, run_stage, run_thread,
}
use my_streamer.Control.Moves.{free, signalled, joining, World, new_world, joins, runs, Steps, goes}
use my_streamer.Control.Calls.{IsConsistent}
use my_streamer.Control.Sound.{IsTold, OwnerKnows, IsSound, Steps-IsSound, run_thread-IsSound}

-- the steps that a thread that is told to stop has left at most
abbrev steps_left : Stage → ℕ
steps_left beginning = 5
steps_left capturing = 5
steps_left pausing = 4
steps_left (waiting last) = 3
steps_left leaving = 2
steps_left marking = 1
steps_left ended = 0

-- steps of the thread alone
abbrev pub run_steps : List Initialised → Camera → Camera
run_steps [] c = c
run_steps (i ∷ is) c = run_steps is (run_thread i c)

-- the thread, one step nearer to its end
Nearer : Camera → Stage → Type 0
Nearer d s = (t : Stage) × (d.control_thread ≡ some t) × (steps_left t ≤ steps_left s - 1)

run_stage-Nearer :
    (i : Initialised) (s : Stage) (c : Camera)
    → c.control_thread ≡ some s
    → IsConsistent c
    → IsTold c
    → Nearer (run_stage i s c) s
unfolding Nearer IsConsistent IsTold
run_stage-Nearer i beginning c e v told = begun i.captures
  where
    begun :
        (b : Bool)
        → (t : Stage) × (some (if b then pausing else leaving) ≡ some t) × (steps_left t ≤ 5 - 1)
    begun true = (pausing, refl, omega arith)
    begun false = (leaving, refl, omega arith)
run_stage-Nearer i capturing c e v told = (pausing, refl, omega arith)
run_stage-Nearer i pausing c e v told = (waiting c.need_to_stop.counter, refl, omega arith)
run_stage-Nearer i (waiting last) c e v told =
    let runs : c.running ≡ true =
      v ∙ ap (λ x. elim x [ none ↦ false | some s ↦ not (has_ended s) ]) e in
    (
      leaving,
      ap (λ b. some (if b || not (c.need_to_stop.counter == last) then leaving else capturing))
          (told runs),
      omega arith,
    )
run_stage-Nearer i leaving c e v told = (marking, refl, omega arith)
run_stage-Nearer i marking c e v told = (ended, refl, omega arith)
run_stage-Nearer i ended c e v told = (ended, e, omega arith)

few : (s : Stage) {n : ℕ} → 5 ≤ n → steps_left s ≤ n
few beginning h = omega arith
few capturing h = omega arith
few pausing h = omega arith
few (waiting last) h = omega arith
few leaving h = omega arith
few marking h = omega arith
few ended h = omega arith

none_left : (s : Stage) → steps_left s ≤ 0 → s ≡ ended
none_left beginning h = absurd (omega arith)
none_left capturing h = absurd (omega arith)
none_left pausing h = absurd (omega arith)
none_left (waiting last) h = absurd (omega arith)
none_left leaving h = absurd (omega arith)
none_left marking h = absurd (omega arith)
none_left ended h = refl

-- what a step of the thread keeps
run_thread-IsTold :
    (i : Initialised) (c : Camera)
    → IsConsistent c
    → IsTold c
    → IsConsistent (run_thread i c) × IsTold (run_thread i c)
unfolding IsSound OwnerKnows
run_thread-IsTold i c v told = run_thread-IsSound i c signalled (v, told)

run_steps-ended :
    (is : List Initialised) (c : Camera) (s : Stage)
    → c.control_thread ≡ some s
    → IsConsistent c
    → IsTold c
    → steps_left s ≤ length is
    → ((run_steps is c).control_thread ≡ some ended) × IsConsistent (run_steps is c)
unfolding Nearer
run_steps-ended [] c s e v told h = (e ∙ ap some (none_left s h), v)
run_steps-ended (i ∷ is) c s e v told h =
    let step : run_thread i c ≡ run_stage i s c =
      ap (λ t. elim t [ none ↦ c | some s ↦ run_stage i s c ]) e in
    let (t, f, l) = run_stage-Nearer i s c e v told in
    let (w, k) = run_thread-IsTold i c v told in
    run_steps-ended is (run_thread i c) t (ap (λ d. d.control_thread) step ∙ f) w k (omega arith)

run_steps-Steps :
    (is : List Initialised) (c : Camera) (w : World)
    → Steps w (record { camera = c; owner = joining })
    → Steps w (record { camera = run_steps is c; owner = joining })
run_steps-Steps [] c w s = s
run_steps-Steps (i ∷ is) c w s = run_steps-Steps is (run_thread i c) w (goes s (runs i))

-- WaitForStop behind its signal, before the `join`, however the calls and the thread's steps came there:
-- there is a thread to join; five more steps of it, or more, whatever Init comes to, end it; and then the
-- `join` returns and leaves a camera that does not run and has no thread, as at first.
pub wait_for_stop_ends :
    (c : Camera)
    → Steps new_world (record { camera = c; owner = joining })
    → (is : List Initialised) → 5 ≤ length is
    → (d : Camera) × (join (run_steps is c) ≡ some d)
      × Steps new_world (record { camera = d; owner = free })
      × (d.control_thread ≡ none)
      × (d.running ≡ false)
unfolding IsSound OwnerKnows IsConsistent
wait_for_stop_ends c steps is many =
    let (v, (told, there)) = Steps-IsSound _ steps in
    elim (Option-cases c.control_thread) [
      | inl n ↦ absurd (cc (there, ap (λ x. elim x [ none ↦ false | some _ ↦ true ]) n))
      | inr (s, e) ↦
          let (over, w) = run_steps-ended is c s e v told (few s many) in
          let end : join (run_steps is c)
              ≡ some (record (run_steps is c) { control_thread = none }) =
            ap (join_stage (run_steps is c)) over in
          (
            record (run_steps is c) { control_thread = none },
            end,
            goes (run_steps-Steps is c new_world steps) (joins end),
            refl,
            w ∙ ap (λ x. elim x [ none ↦ false | some t ↦ not (has_ended t) ]) over,
          )
    ]
