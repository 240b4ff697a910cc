-- ===== src/Stream/Pace.antt =====
-- The timer of the stream of pictures.
use my_streamer.Prelude.{
  ℕ, ◌+◌, ◌-◌, ◌*◌, ◌%◌, ◌^◌, ◌≤◌, ◌<◌, Bool, true, ◌||◌, List, [], ◌∷◌, ◌++◌, some, ◌==◌, ltb, leb,
  if◌then◌else◌, ◌≡◌, sym, ap, arith, ◌⊎◌, inl, inr, Bool-cases, subst,
}
use my_streamer.Prelude.Text.{Text}
use my_streamer.Images.{Heap}
use my_streamer.Stream.Safe.{HeapLaw, ToolsLaw, finished-quiet, encode_unless_error-IsSafe}
use my_streamer.Stream.Reach.{Reached, Reached-IsSafe}
use my_streamer.Stream.{
  StreamData, Tools, quiet, is_error, Action, sends, sets_timer, shuts_down, part, next_timespace,
  timer_actions, handle_timer,
}

-- the time between the end of a call and the next
next_timespace_lem :
    (interval start end now : ℕ)
    → start ≤ end
    → end ≤ now
    → end < start + 2 ^ 32
    → 0 < interval
    → interval * 1000 < 2 ^ 32
    → let p = next_timespace interval ((end + 2 ^ 32 - start % 2 ^ 32) % 2 ^ 32) in
      (start + interval * 1000 ≤ now + p) × (0 < p) × (p ≤ interval * 1000 + 1000)
unfolding next_timespace
next_timespace_lem interval start end now a b c d e =
    let handling : (end + 2 ^ 32 - start % 2 ^ 32) % 2 ^ 32 ≡ end - start = omega arith in
    let pause : interval * 1000 % 2 ^ 32 ≡ interval * 1000 = omega arith in
    subst
      (λ h.
        let p = next_timespace interval h in
        (start + interval * 1000 ≤ now + p) × (0 < p) × (p ≤ interval * 1000 + 1000))
      (sym handling)
      (elim (Bool-cases (leb (interval * 1000 % 2 ^ 32) (end - start))) [
        | inl l ↦
            let q : next_timespace interval (end - start) ≡ 1000 =
              ap (λ b. if b then 1000 else interval * 1000 % 2 ^ 32 - (end - start)) l in
            let late : interval * 1000 % 2 ^ 32 ≤ end - start = ground arith in
            (omega arith, omega arith, omega arith)
        | inr l ↦
            let q : next_timespace interval (end - start)
                ≡ interval * 1000 % 2 ^ 32 - (end - start) =
              ap (λ b. if b then 1000 else interval * 1000 % 2 ^ 32 - (end - start)) l in
            let early : end - start < interval * 1000 % 2 ^ 32 = ground arith in
            (omega arith, omega arith, omega arith)
      ])

-- what the stream's timer does while the connection is up: it gives up, where there is an error or no
-- picture, or it goes on at `next`, with the picture sent where less than two of them wait
abbrev pub GoesOn : (ℕ → Text) → ℕ → ℕ → ℕ → ℕ → StreamData → List Action → Type 0
GoesOn show interval start now waiting t acts =
    (next : ℕ) × (sent : List Action) × (acts ≡ sent ++ (sets_timer next ∷ []))
    × ((sent ≡ []) ⊎ ((sent ≡ sends (part show t) ∷ []) × (waiting < 2 * t.jpeg_size)))
    × (start + interval * 1000 ≤ next)
    × (now < next)
    × (next ≤ now + interval * 1000 + 1000)

sent_below :
    (show : ℕ → Text) (waiting : ℕ) (t : StreamData)
    → let sent = if ltb waiting (2 * t.jpeg_size % 2 ^ 32) then sends (part show t) ∷ [] else [] in
      (sent ≡ []) ⊎ ((sent ≡ sends (part show t) ∷ []) × (waiting < 2 * t.jpeg_size))
sent_below show waiting t = elim (Bool-cases (ltb waiting (2 * t.jpeg_size % 2 ^ 32))) [
  | inl l ↦
      let less : waiting < 2 * t.jpeg_size % 2 ^ 32 = ground arith in
      inr (ap (λ b. if b then sends (part show t) ∷ [] else []) l, omega arith)
  | inr l ↦ inl (ap (λ b. if b then sends (part show t) ∷ [] else []) l)
]

timer_actions_lem :
    (show : ℕ → Text) (interval start end now waiting : ℕ) (t : StreamData)
    → start ≤ end
    → end ≤ now
    → end < start + 2 ^ 32
    → 0 < interval
    → interval * 1000 < 2 ^ 32
    → let acts =
        timer_actions show interval ((end + 2 ^ 32 - start % 2 ^ 32) % 2 ^ 32) now true waiting t in
      (((is_error t || (t.jpeg_size == 0)) ≡ true) × (acts ≡ shuts_down ∷ shuts_down ∷ []))
      ⊎ GoesOn show interval start now waiting t acts
timer_actions_lem show interval start end now waiting t a b c d e =
    let pause = next_timespace interval ((end + 2 ^ 32 - start % 2 ^ 32) % 2 ^ 32) in
    let sent = if ltb waiting (2 * t.jpeg_size % 2 ^ 32) then sends (part show t) ∷ [] else [] in
    let go : Bool → List Action =
      λ f. if f then shuts_down ∷ shuts_down ∷ [] else (sent ++ (sets_timer (now + pause) ∷ [])) in
    elim (Bool-cases (is_error t || (t.jpeg_size == 0))) [
      | inl f ↦ inl (f, ap go f)
      | inr f ↦
          let (early, later, bound) = next_timespace_lem interval start end now a b c d e in
          inr
            (now + pause, sent, ap go f, sent_below show waiting t, early, omega arith, omega arith)
    ]

module _ (tools : Tools) (heap : Heap) (tools_law : ToolsLaw tools) (heap_law : HeapLaw heap) where
  -- The timer's call, where the camera's thread does not interrupt it, returns on all data that the program
  -- reaches, and where the connection is up it
  -- either shuts the connection down, for an error or a picture of no bytes, or it sets the timer again:
  -- not before the frame interval is over since its start, so that the stream is never faster than
  -- that, later than now, and at most the interval and a millisecond later; and it sends at most one part,
  -- only where fewer bytes wait than two pictures have. The interval is not 0 and its microseconds
  -- fit 32 bits, and the call takes less than 2^32 microseconds.
  pub timer_keeps_pace :
      (show : ℕ → Text) (interval start end now waiting : ℕ) (s : StreamData)
      → Reached tools heap s
      → start ≤ end
      → end ≤ now
      → end < start + 2 ^ 32
      → 0 < interval
      → interval * 1000 < 2 ^ 32
      → (t : StreamData) × (acts : List Action) × (handle_timer tools heap show interval start end
            now true waiting quiet s
          ≡ some (t, acts))
        × ((((is_error t || (t.jpeg_size == 0)) ≡ true) × (acts ≡ shuts_down ∷ shuts_down ∷ []))
            ⊎ GoesOn show interval start now waiting t acts)
  unfolding handle_timer
  timer_keeps_pace show interval start end now waiting s reached a b c d e =
      let handling = (end + 2 ^ 32 - start % 2 ^ 32) % 2 ^ 32 in
      let (t, q, _, there) =
        encode_unless_error-IsSafe tools tools_law heap s
          (Reached-IsSafe tools heap tools_law heap_law reached) in
      (
        t,
        timer_actions show interval handling now true waiting t,
        finished-quiet tools heap show (λ u. ltb waiting (2 * u.jpeg_size % 2 ^ 32))
            (λ u. timer_actions show interval handling now true waiting u) s t q there,
        timer_actions_lem show interval start end now waiting t a b c d e,
      )
