-- ===== src/Capture/Balance.antt =====
-- What is taken of the system and what is given back, in the list of what is called.
use my_streamer.Prelude.{
  ℕ, suc, ◌+◌, Bool, true, false, List, [], ◌∷◌, ◌++◌, Option, none, some, if◌then◌else◌, ◌≡◌, refl,
  sym, ap, ◌∙◌, arith, append-nil, append_assoc, subst, Bool-cases, Option-cases, inl, inr,
}
use my_streamer.Prelude.Text.{Text, codes}
use my_streamer.Capture.{
  Driver, SystemEvent, opens, closes, streams_on, streams_off, maps, unmaps, notifies, Slot,
  Capture, map_slots, unmap_slots, stop_streaming, unmap_buffers, cleanup,
}

-- how often the device was opened and closed, and the stream started and stopped
abbrev pub opened : List SystemEvent → ℕ
opened [] = 0
opened (opens ∷ l) = suc (opened l)
opened (_ ∷ l) = opened l

abbrev pub closed : List SystemEvent → ℕ
closed [] = 0
closed (closes ∷ l) = suc (closed l)
closed (_ ∷ l) = closed l

abbrev pub started : List SystemEvent → ℕ
started [] = 0
started (streams_on ∷ l) = suc (started l)
started (_ ∷ l) = started l

abbrev pub stopped : List SystemEvent → ℕ
stopped [] = 0
stopped (streams_off ∷ l) = suc (stopped l)
stopped (_ ∷ l) = stopped l

-- what was mapped and unmapped, the first first
abbrev pub mapped : List SystemEvent → List (ℕ × ℕ)
mapped [] = []
mapped (maps a n ∷ l) = mapped l ++ ((a, n) ∷ [])
mapped (_ ∷ l) = mapped l

abbrev pub unmapped : List SystemEvent → List (ℕ × ℕ)
unmapped [] = []
unmapped (unmaps a n ∷ l) = unmapped l ++ ((a, n) ∷ [])
unmapped (_ ∷ l) = unmapped l

abbrev pub AllNull : List Slot → Type 0
AllNull [] = Unit
AllNull ((p, _) ∷ ss) = (p ≡ none) × AllNull ss

abbrev pub live : List Slot → List (ℕ × ℕ)
live [] = []
live ((none, _) ∷ ss) = live ss
live ((some a, n) ∷ ss) = (a, n) ∷ live ss

abbrev pub one : Bool → ℕ
one b = if b then 1 else 0

-- What stands in the data is what was taken and not given back.
pub record Holds (c : Capture) : Type 0 where
  pub opens_at : opened c.log ≡ closed c.log + one c.video_open
  pub starts_at : started c.log ≡ stopped c.log + one c.video_streaming_active
  pub maps_at : mapped c.log ≡ unmapped c.log ++ live c.slots

-- nothing is taken: all of it was given back
pub record IsIdle (c : Capture) : Type 0 where
  pub not_open : c.video_open ≡ false
  pub not_streaming : c.video_streaming_active ≡ false
  pub no_buffers : AllNull c.slots
  pub closed_all : opened c.log ≡ closed c.log
  pub stopped_all : started c.log ≡ stopped c.log
  pub unmapped_all : mapped c.log ≡ unmapped c.log

-- a log with the same balance of the device and the stream, which only maps
pub record Maps (before after : List SystemEvent) (held : List (ℕ × ℕ)) : Type 0 where
  pub opened_same : opened after ≡ opened before
  pub closed_same : closed after ≡ closed before
  pub started_same : started after ≡ started before
  pub stopped_same : stopped after ≡ stopped before
  pub unmapped_same : unmapped after ≡ unmapped before
  pub mapped_more : mapped after ≡ mapped before ++ held

pub live-null : (ss : List Slot) → AllNull ss → live ss ≡ []
live-null [] h = refl
live-null ((none, l) ∷ ss) (_, h) = live-null ss h
live-null ((some a, l) ∷ ss) (e, h) = absurd (cc e)

-- nothing happened but a report
told :
    (message : Text) (log : List SystemEvent) (ss : List Slot)
    → AllNull ss
    → Maps log (notifies message true ∷ log) (live ss)
told message log ss h = record {
  opened_same = refl;
  closed_same = refl;
  started_same = refl;
  stopped_same = refl;
  unmapped_same = refl;
  mapped_more = sym (append-nil (mapped log)) ∙ ap (λ x. mapped log ++ x) (sym (live-null ss h));
}

pub map_slots-Maps :
    (d : Driver) (i : ℕ) (ss : List Slot) (log : List SystemEvent)
    → AllNull ss
    → let (ts, next, _) = map_slots d i ss log in Maps log next (live ts)
unfolding map_slots
map_slots-Maps d i [] log h = record {
  opened_same = refl;
  closed_same = refl;
  started_same = refl;
  stopped_same = refl;
  unmapped_same = refl;
  mapped_more = sym (append-nil (mapped log));
}
map_slots-Maps d i ((p, l) ∷ ss) log (e, h) =
    let Good : List Slot × List SystemEvent × Bool → Type 0 = λ r. Maps log r.1 (live r.0) in
    let mapped_at : ℕ → Option ℕ → List Slot × List SystemEvent × Bool = λ n y. elim y [
      | none ↦ ((none, n) ∷ ss, notifies (codes "Unable to map capture buffer") true ∷ log, false)
      | some a ↦
          let (ts, next, ok) = map_slots d (suc i) ss (maps a n ∷ log) in
          ((some a, n) ∷ ts, next, ok)
    ] in
    let queried : Option ℕ → List Slot × List SystemEvent × Bool = λ x. elim x [
      | none ↦ ((p, l) ∷ ss, notifies (codes "Unable to query capture buffer") true ∷ log, false)
      | some n ↦ mapped_at n (d.mmap i n)
    ] in
    elim (Option-cases (d.query_buffer i)) [
      | inl q ↦ subst Good (sym (ap queried q)) (told _ log ((p, l) ∷ ss) (e, h))
      | inr (n, q) ↦ elim (Option-cases (d.mmap i n)) [
        | inl m ↦
            subst Good (sym (ap queried q ∙ ap (mapped_at n) m))
              (told _ log ((none, n) ∷ ss) (refl, h))
        | inr (a, m) ↦
            let r = map_slots-Maps d (suc i) ss (maps a n ∷ log) h in
            subst Good (sym (ap queried q ∙ ap (mapped_at n) m)) (record {
              opened_same = r.opened_same;
              closed_same = r.closed_same;
              started_same = r.started_same;
              stopped_same = r.stopped_same;
              unmapped_same = r.unmapped_same;
              mapped_more = r.mapped_more ∙ append_assoc (mapped log) ((a, n) ∷ []) _;
            })
      ]
    ]

unmap_slots-live :
    (ss : List Slot) (log : List SystemEvent)
    → let (ts, next) = unmap_slots ss log in
      AllNull ts
      × (opened next ≡ opened log)
      × (closed next ≡ closed log)
      × (started next ≡ started log)
      × (stopped next ≡ stopped log)
      × (mapped next ≡ mapped log)
      × (unmapped next ≡ unmapped log ++ live ss)
unfolding unmap_slots
unmap_slots-live [] log = (tt, refl, refl, refl, refl, refl, sym (append-nil (unmapped log)))
unmap_slots-live ((none, l) ∷ ss) log =
    let (a, o, c, s, t, m, u) = unmap_slots-live ss log in ((refl, a), o, c, s, t, m, u)
unmap_slots-live ((some p, n) ∷ ss) log =
    let (a, o, c, s, t, m, u) = unmap_slots-live ss (unmaps p n ∷ log) in
    ((refl, a), o, c, s, t, m, u ∙ append_assoc (unmapped log) ((p, n) ∷ []) (live ss))

pub one_by : (n m : ℕ) (b x : Bool) → n ≡ m + one b → b ≡ x → n ≡ m + one x
one_by n m b x h e = h ∙ ap (λ y. m + one y) e

stop_streaming-Holds :
    (c : Capture)
    → Holds c
    → Holds (stop_streaming c) × ((stop_streaming c).video_streaming_active ≡ false)
stop_streaming-Holds c h =
    let stopped_at : Bool → Capture = λ b.
      if b then record c { video_streaming_active = false; log = streams_off ∷ c.log } else c in
    let Good : Capture → Type 0 = λ x. Holds x × (x.video_streaming_active ≡ false) in
    elim (Bool-cases c.video_streaming_active) [
      | inl e ↦
          let s = one_by _ (stopped c.log) _ true h.starts_at e in
          subst (λ b. Good (stopped_at b)) (sym e)
            (record { opens_at = h.opens_at; starts_at = omega arith; maps_at = h.maps_at }, refl)
      | inr e ↦ subst (λ b. Good (stopped_at b)) (sym e) (h, e)
    ]

unmap_buffers-Holds :
    (c : Capture)
    → Holds c
    → Holds (unmap_buffers c)
      × AllNull (unmap_buffers c).slots
      × (mapped (unmap_buffers c).log ≡ unmapped (unmap_buffers c).log)
unmap_buffers-Holds c h =
    let (a, o, k, s, t, m, u) = unmap_slots-live c.slots c.log in
    let same = m ∙ h.maps_at ∙ sym u in
    (
      record {
        opens_at = o ∙ h.opens_at ∙ ap (λ x. x + one c.video_open) (sym k);
        starts_at = s ∙ h.starts_at ∙ ap (λ x. x + one c.video_streaming_active) (sym t);
        maps_at =
            same
            ∙ sym (append-nil _)
            ∙ ap (λ x. unmapped (unmap_buffers c).log ++ x) (sym (live-null _ a));
      },
      a,
      same,
    )

pub cleanup-IsIdle : (c : Capture) → Holds c → IsIdle (cleanup c)
unfolding cleanup
cleanup-IsIdle c h =
    let (h1, still) = stop_streaming-Holds c h in
    let s = stop_streaming c in
    let (h2, null, same) = unmap_buffers-Holds s h1 in
    let u = unmap_buffers s in
    let closed_at : Bool → Capture =
      λ b. if b then record u { video_open = false; log = closes ∷ u.log } else u in
    let stops = one_by _ (stopped u.log) _ false h2.starts_at still in
    elim (Bool-cases u.video_open) [
      | inl e ↦
          let o = one_by _ (closed u.log) _ true h2.opens_at e in
          subst (λ b. IsIdle (closed_at b)) (sym e)
            (record {
              not_open = refl;
              not_streaming = still;
              no_buffers = null;
              closed_all = omega arith;
              stopped_all = omega arith;
              unmapped_all = same;
            })
      | inr e ↦
          let o = one_by _ (closed u.log) _ false h2.opens_at e in
          subst (λ b. IsIdle (closed_at b)) (sym e)
            (record {
              not_open = e;
              not_streaming = still;
              no_buffers = null;
              closed_all = omega arith;
              stopped_all = omega arith;
              unmapped_all = same;
            })
    ]
