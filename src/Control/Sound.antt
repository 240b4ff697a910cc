-- ===== src/Control/Sound.antt =====
-- No call waits for ever or loses a thread.
use mathlib.Core.Option.{some-injective}
use my_streamer.Prelude.{
  Bool, true, false, not, ◌||◌, Option, none, some, if◌then◌else◌, ◌≡◌, refl, sym, ap, ◌∙◌, subst,
  inl, inr, Option-cases, Bool-cases,
}
use my_streamer.Control.{
  Config, Stage, beginning, pausing, waiting, capturing, leaving, marking, ended, Camera,
  Initialised, wait_result, has_ended, joinable, join_stage, join, is_running, start,
  signal_to_stop, set_config, run_stage, run_thread,
}
use my_streamer.Control.Moves.{
  Owner, free, signalled, joining, World, new_world, Step, starts, signals, asks, sets, waits,
  looks, joins, runs, Steps, stays, goes,
}
use my_streamer.Control.Calls.{
  IsConsistent, idle, start-Gives, signal_to_stop-Gives, set_config-Gives, is_running-Gives,
}

-- a thread that goes on behind WaitForStop's signal has been told to stop
unfoldable pub IsTold : Camera → Type 0
IsTold c = c.running ≡ true → c.need_to_stop.triggered ≡ true

unfoldable pub OwnerKnows : Owner → Camera → Type 0
OwnerKnows free c = Unit
OwnerKnows signalled c = IsTold c
OwnerKnows joining c = IsTold c × (joinable c ≡ true)

unfoldable pub IsSound : World → Type 0
unfolding IsConsistent IsTold OwnerKnows
IsSound w = IsConsistent w.camera × OwnerKnows w.owner w.camera

on_either :
    (b : Bool) (s t : Stage)
    → has_ended s ≡ false
    → has_ended t ≡ false
    → true ≡ not (has_ended (if b then s else t))
on_either true s t h k = sym (ap not h)
on_either false s t h k = sym (ap not k)

run_stage-IsConsistent :
    (i : Initialised) (s : Stage) (c : Camera)
    → IsConsistent c
    → c.control_thread ≡ some s
    → IsConsistent (run_stage i s c)
unfolding IsConsistent
run_stage-IsConsistent i s c v e =
    by_stage s e (v ∙ ap (λ x. elim x [ none ↦ false | some s ↦ not (has_ended s) ]) e)
  where
    by_stage :
        (s : Stage)
        → c.control_thread ≡ some s
        → c.running ≡ not (has_ended s)
        → IsConsistent (run_stage i s c)
    by_stage beginning e h = h ∙ on_either i.captures pausing leaving refl refl
    by_stage pausing e h = h
    by_stage (waiting last) e h =
        h ∙ on_either (wait_result last c.need_to_stop) leaving capturing refl refl
    by_stage capturing e h = h
    by_stage leaving e h = h
    by_stage marking e h = refl
    by_stage ended e h = v

-- A step of the thread does not take the signal back, nor the thread.
run_stage-kept :
    (i : Initialised) (s : Stage) (c : Camera)
    → c.control_thread ≡ some s
    → ((run_stage i s c).running ≡ true → c.running ≡ true)
      × ((run_stage i s c).need_to_stop ≡ c.need_to_stop)
      × (joinable (run_stage i s c) ≡ true)
run_stage-kept i beginning c e = (λ h. h, refl, refl)
run_stage-kept i pausing c e = (λ h. h, refl, refl)
run_stage-kept i (waiting last) c e = (λ h. h, refl, refl)
run_stage-kept i capturing c e = (λ h. h, refl, refl)
run_stage-kept i leaving c e = (λ h. h, refl, refl)
run_stage-kept i marking c e = (λ h. absurd (cc h), refl, refl)
run_stage-kept i ended c e = (λ h. h, refl, ap (λ x. elim x [ none ↦ false | some _ ↦ true ]) e)

run_stage-OwnerKnows :
    (i : Initialised) (s : Stage) (c : Camera) (o : Owner)
    → c.control_thread ≡ some s
    → OwnerKnows o c
    → OwnerKnows o (run_stage i s c)
unfolding OwnerKnows IsTold
run_stage-OwnerKnows i s c free e h = tt
run_stage-OwnerKnows i s c signalled e h =
    let (was, same, there) = run_stage-kept i s c e in λ r. ap (λ x. x.triggered) same ∙ h (was r)
run_stage-OwnerKnows i s c joining e (h, j) =
    let (was, same, there) = run_stage-kept i s c e in
    (λ r. ap (λ x. x.triggered) same ∙ h (was r), there)

pub run_thread-IsSound :
    (i : Initialised) (c : Camera) (o : Owner)
    → IsSound (record { camera = c; owner = o })
    → IsSound (record { camera = run_thread i c; owner = o })
unfolding IsSound
run_thread-IsSound i c o (v, k) = elim (Option-cases c.control_thread) [
  | inl n ↦
      subst (λ d. IsSound (record { camera = d; owner = o }))
        (sym (ap (λ t. elim t [ none ↦ c | some s ↦ run_stage i s c ]) n)) (v, k)
  | inr (s, e) ↦
      subst (λ d. IsSound (record { camera = d; owner = o }))
        (sym (ap (λ t. elim t [ none ↦ c | some s ↦ run_stage i s c ]) e))
        (run_stage-IsConsistent i s c v e, run_stage-OwnerKnows i s c o e k)
]

-- an answer is the answer
answered :
    (P : Camera → Type 0) (o : Option Camera) (d : Camera)
    → ((e : Camera) × (o ≡ some e) × P e)
    → o ≡ some d
    → P d
answered P o d (e, h, p) k = subst P (some-injective _ _ (sym h ∙ k)) p

join-IsConsistent : (c d : Camera) → IsConsistent c → join c ≡ some d → IsConsistent d
unfolding IsConsistent
join-IsConsistent c d v h =
    let going : Option Stage → Bool = λ t. elim t [ none ↦ false | some s ↦ not (has_ended s) ] in
    elim (Option-cases c.control_thread) [
      | inl n ↦ absurd (cc (sym (ap (join_stage c) n) ∙ h))
      | inr (s, e) ↦
          let chosen : Bool → Option Camera = λ b. if b then some (idle c) else none in
          elim (Bool-cases (has_ended s)) [
            | inl over ↦
                subst IsConsistent
                  (some-injective _ _ (sym (ap (join_stage c) e ∙ ap chosen over) ∙ h))
                  (v ∙ ap going e ∙ ap not over)
            | inr on ↦ absurd (cc (sym (ap (join_stage c) e ∙ ap chosen on) ∙ h))
          ]
    ]

is_running-answered :
    (c d : Camera) (r : Bool)
    → IsConsistent c
    → is_running c ≡ some (d, r)
    → IsConsistent d
      × (joinable d ≡ r)
      × (d.running ≡ c.running)
      × (d.need_to_stop ≡ c.need_to_stop)
is_running-answered c d r v e =
    let (f, h, k, j, m, n) = is_running-Gives c v in
    subst
      (λ ((x, y) : Camera × Bool).
        IsConsistent x
        × (joinable x ≡ y)
        × (x.running ≡ c.running)
        × (x.need_to_stop ≡ c.need_to_stop))
      (some-injective _ _ (sym h ∙ e)) (k, j, m, n)

or_same : (a b : Bool) → b ≡ a → (a || b) ≡ true → b ≡ true
or_same true b e h = e
or_same false b e h = h

-- WaitForStop looks whether there is a thread to join.
looks-OwnerKnows :
    (c d : Camera) (r : Bool)
    → IsConsistent c
    → is_running c ≡ some (d, r)
    → IsTold c
    → OwnerKnows (if r || joinable d then joining else free) d
unfolding OwnerKnows IsTold
looks-OwnerKnows c d r v e told =
    let (_, j, m, n) = is_running-answered c d r v e in
    elim (Bool-cases (r || joinable d)) [
      | inl t ↦
          subst (λ b. OwnerKnows (if b then joining else free) d) (sym t)
            (λ h. ap (λ x. x.triggered) n ∙ told (sym m ∙ h), or_same r (joinable d) j t)
      | inr t ↦ subst (λ b. OwnerKnows (if b then joining else free) d) (sym t) tt
    ]

Step-IsSound : (v w : World) → Step v w → IsSound v → IsSound w
unfolding IsSound OwnerKnows
Step-IsSound v w (starts e) (h, k) =
    (answered IsConsistent _ _ (let (d, p, q, _) = start-Gives _ h in (d, p, q)) e, tt)
Step-IsSound v w (signals e) (h, k) =
    (answered IsConsistent _ _ (let (d, p, q, _) = signal_to_stop-Gives _ h in (d, p, q)) e, tt)
Step-IsSound v w (asks e) (h, k) = ((is_running-answered _ _ _ h e).0, tt)
Step-IsSound v w (sets f e) (h, k) =
    (answered IsConsistent _ _ (let (d, p, q, _) = set_config-Gives f _ h in (d, p, q)) e, tt)
Step-IsSound v w (waits e) (h, k) =
    answered (λ d. IsConsistent d × IsTold d) _ _
      (let (d, p, q, t) = signal_to_stop-Gives _ h in (d, p, (q, t))) e
Step-IsSound v w (looks e) (h, k) =
    ((is_running-answered _ _ _ h e).0, looks-OwnerKnows _ _ _ h e k)
Step-IsSound v w (joins e) (h, k) = (join-IsConsistent _ _ h e, tt)
Step-IsSound v w (runs i) h = run_thread-IsSound i _ _ h

new_world-IsSound : IsSound new_world
unfolding IsSound IsConsistent OwnerKnows
new_world-IsSound = (refl, tt)

pub Steps-IsSound : (w : World) → Steps new_world w → IsSound w
Steps-IsSound w stays = new_world-IsSound
Steps-IsSound w (goes {v = v} s t) = Step-IsSound v w t (Steps-IsSound v s)

or_told : (a b : Bool) → (a ≡ true → b ≡ true) → (not a || b) ≡ true
or_told true b h = h refl
or_told false b h = refl

-- However the owner's calls, one after the other, and the steps of the control thread follow: each of the
-- calls that hold the lock returns. None of them joins a thread that goes on, which may wait for the lock,
-- and Start overwrites no thread. Behind Start the camera runs;
-- behind SignalToStop a camera that runs is signalled; a setter changes the settings exactly
-- where it does not run; and IsRunning says whether the thread goes on.
pub calls_return :
    (w : World)
    → Steps new_world w
    → (f : Config → Config)
    → ((d : Camera) × (start w.camera ≡ some d) × (d.running ≡ true))
      × ((d : Camera) × (signal_to_stop w.camera ≡ some d)
          × ((not d.running || d.need_to_stop.triggered) ≡ true))
      × ((d : Camera) × (is_running w.camera ≡ some (d, w.camera.running)))
      × (w.camera.running
          ≡ (elim w.camera.control_thread [ none ↦ false | some s ↦ not (has_ended s) ]))
      × ((d : Camera) × (set_config f w.camera ≡ some d)
          × (d.config ≡ (if w.camera.running then w.camera.config else f w.camera.config)))
unfolding IsSound IsConsistent
calls_return w steps f =
    let v = (Steps-IsSound w steps).0 in
    (
      (let (d, e, _, r) = start-Gives w.camera v in (d, e, r)),
      (let (d, e, _, t) = signal_to_stop-Gives w.camera v in
          (d, e, or_told d.running d.need_to_stop.triggered t)),
      (let (d, e, _, _, _, _) = is_running-Gives w.camera v in (d, e)),
      v,
      (let (d, e, _, k) = set_config-Gives f w.camera v in (d, e, k)),
    )
