-- ===== src/Control/Calls.antt =====
-- The calls that hold the lock.
use mathlib.Core.Option
use mathlib.Core.Option.{some-injective}
use my_streamer.Prelude.{
  Bool, true, false, not, ◌&&◌, Option, none, some, if◌then◌else◌, ◌≡◌, refl, sym, ap, ◌∙◌, ◌⊎◌,
  inl, inr, Option-cases, Bool-cases,
}
use my_streamer.Control.{
  Config, Stage, Camera, has_ended, joinable, join_stage, is_running, launch, start, signal_to_stop,
  signal_if, unless_running, configured, set_config,
}
use my_streamer.Control.Moves.{}

-- `Running` says whether the thread goes on.
unfoldable pub IsConsistent : Camera → Type 0
IsConsistent c = c.running ≡ (elim c.control_thread [ none ↦ false | some s ↦ not (has_ended s) ])

abbrev pub idle : Camera → Camera
idle c = record c { control_thread = none }

-- the two answers of IsRunning
Rests : Camera → Type 0
Rests c = (is_running c ≡ some (idle c, false)) × (c.running ≡ false)

Works : Camera → Type 0
Works c =
    (is_running c ≡ some (c, true))
    × (c.running ≡ true)
    × (s : Stage) × (c.control_thread ≡ some s)
    × (has_ended s ≡ false)

is_running-cases : (c : Camera) → IsConsistent c → Rests c ⊎ Works c
unfolding IsConsistent Rests Works is_running
is_running-cases c v =
    let going : Option Stage → Bool = λ t. elim t [ none ↦ false | some s ↦ not (has_ended s) ] in
    let by : Bool → Option Stage → Option (Camera × Bool) = λ r t.
      if not r && (elim t [ none ↦ false | some _ ↦ true ])
      then Option.map (λ d. (d, d.running)) (join_stage c t)
      else some (c, r) in
    elim (Option-cases c.control_thread) [
      | inl n ↦
          let r : c.running ≡ false = v ∙ ap going n in
          inl (
            ap (λ x. by x c.control_thread) r
                ∙ ap (by false) n
                ∙ ap (λ t. some (record c { control_thread = t }, false)) n,
            r,
          )
      | inr (s, e) ↦ elim (Bool-cases (has_ended s)) [
        | inl over ↦
            let r : c.running ≡ false = v ∙ ap going e ∙ ap not over in
            inl (
              ap (λ x. by x c.control_thread) r
                  ∙ ap (by false) e
                  ∙ ap (λ x. Option.map (λ d. (d, d.running)) (if x then some (idle c) else none))
                      over
                  ∙ ap (λ x. some (idle c, x)) r,
              r,
            )
        | inr on ↦
            let r : c.running ≡ true = v ∙ ap going e ∙ ap not on in
            inr (ap (λ x. by x c.control_thread) r, r, s, e, on)
      ]
    ]

pub start-Gives :
    (c : Camera)
    → IsConsistent c
    → (d : Camera) × (start c ≡ some d) × IsConsistent d × (d.running ≡ true)
unfolding IsConsistent Rests Works start
start-Gives c v = elim (is_running-cases c v) [
  | inl (e, r) ↦ (_, ap (unless_running launch) e, refl, refl)
  | inr (e, r, s, t, on) ↦ (c, ap (unless_running launch) e, v, r)
]

pub signal_to_stop-Gives :
    (c : Camera)
    → IsConsistent c
    → (d : Camera) × (signal_to_stop c ≡ some d)
      × IsConsistent d
      × (d.running ≡ true → d.need_to_stop.triggered ≡ true)
unfolding IsConsistent Rests Works signal_to_stop
signal_to_stop-Gives c v = elim (is_running-cases c v) [
  | inl (e, r) ↦ (idle c, ap signal_if e, r, λ h. absurd (cc (r, h)))
  | inr (e, r, s, t, on) ↦ (_, ap signal_if e, v, λ _. refl)
]

pub set_config-Gives :
    (f : Config → Config) (c : Camera)
    → IsConsistent c
    → (d : Camera) × (set_config f c ≡ some d)
      × IsConsistent d
      × (d.config ≡ (if c.running then c.config else f c.config))
unfolding IsConsistent Rests Works set_config
set_config-Gives f c v = elim (is_running-cases c v) [
  | inl (e, r) ↦ (
    _,
    ap (unless_running (configured f)) e,
    r,
    ap (λ b. if b then c.config else f c.config) (sym r),
  )
  | inr (e, r, s, t, on) ↦ (
    c,
    ap (unless_running (configured f)) e,
    v,
    ap (λ b. if b then c.config else f c.config) (sym r),
  )
]

-- The answer says whether the thread goes on; a thread that has ended is joined.
pub is_running-Gives :
    (c : Camera)
    → IsConsistent c
    → (d : Camera) × (is_running c ≡ some (d, c.running))
      × IsConsistent d
      × (joinable d ≡ c.running)
      × (d.running ≡ c.running)
      × (d.need_to_stop ≡ c.need_to_stop)
unfolding IsConsistent Rests Works
is_running-Gives c v = elim (is_running-cases c v) [
  | inl (e, r) ↦ (idle c, e ∙ ap (λ b. some (idle c, b)) (sym r), r, sym r, refl, refl)
  | inr (e, r, s, t, on) ↦ (
    c,
    e ∙ ap (λ b. some (c, b)) (sym r),
    v,
    ap (λ x. elim x [ none ↦ false | some _ ↦ true ]) t ∙ sym r,
    refl,
    refl,
  )
]
