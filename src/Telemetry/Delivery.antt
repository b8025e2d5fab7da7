-- ===== src/Telemetry/Delivery.antt =====
-- What becomes of the records that are emitted.
use meshlite.Base.{
  ℕ, ◌+◌, ◌≤◌, ◌<◌, ◌≡◌, refl, sym, ap, ◌∙◌, ◌⊎◌, inl, inr, Option, none, some, List, [], ◌∷◌, ◌++◌,
  append_assoc, arith, length, length-append, Option-cases,
}
use mathlib.Core.List.{append-nil}
use meshlite.Telemetry.{
  TelemetryRecord, Mpsc, IsMpsc, Event, emitted, turn, Telemetry, start, emit, handed, post_next,
  handle, run,
}

-- The first list comes from the second by leaving items out.
pub data IsSublist : List TelemetryRecord → List TelemetryRecord → Type 0 where
  empty : IsSublist [] []
  keep :
      {xs ys : List TelemetryRecord} (r : TelemetryRecord)
      → IsSublist xs ys
      → IsSublist (r ∷ xs) (r ∷ ys)
  leave_out :
      {xs ys : List TelemetryRecord} (r : TelemetryRecord) → IsSublist xs ys → IsSublist xs (r ∷ ys)

abbrev pub all_emitted : List Event → List TelemetryRecord
all_emitted [] = []
all_emitted (emitted r ∷ events) = r ∷ all_emitted events
all_emitted (turn ∷ events) = all_emitted events

module _ (mpsc : Mpsc) (laws : IsMpsc mpsc) where
  open mpsc use {contents, capacity}

  -- What was posted and what is waiting, in order.
  abbrev pub kept : Telemetry mpsc → List TelemetryRecord
  kept t = t.posted ++ contents t.channel

  -- The records that one emission adds to what is kept.
  abbrev Adds : TelemetryRecord → Telemetry mpsc → Telemetry mpsc → Type 0
  Adds r t u =
      ((kept u ≡ kept t ++ r ∷ []) × (length (contents t.channel) < capacity t.channel))
      ⊎ ((kept u ≡ kept t) × (capacity t.channel ≤ length (contents t.channel)))

  emit-Adds : (r : TelemetryRecord) (t : Telemetry mpsc) → Adds r t (handle mpsc t (emitted r))
  unfolding emit
  emit-Adds r t = elim (Option-cases (mpsc.try_send r t.channel)) [
    | inl absent ↦ inr (rw (absent, emit) refl, laws.full r t.channel absent)
    | inr (d, there) ↦
        let (c, k, room) = laws.sent r t.channel d there in
        inl (
          rw (there, emit)
              (ap (λ xs. t.posted ++ xs) c
                ∙ sym (append_assoc t.posted (contents t.channel) (r ∷ []))),
          room,
        )
  ]

  emit-capacity : (r : TelemetryRecord) (c : mpsc.Channel) → capacity (emit mpsc r c) ≡ capacity c
  unfolding emit
  emit-capacity r c = elim (Option-cases (mpsc.try_send r c)) [
    | inl absent ↦ rw (absent, emit) refl
    | inr (d, there) ↦ rw (there, emit) (laws.sent r c d there).1
  ]

  -- A channel holds what it has room for.
  abbrev IsWithin : Telemetry mpsc → Type 0
  IsWithin t = length (contents t.channel) ≤ capacity t.channel

  emit-length :
      (r : TelemetryRecord) (c : mpsc.Channel)
      → length (contents c) ≤ capacity c
      → (length (contents (emit mpsc r c)) ≤ capacity c)
        × (length (contents (emit mpsc r c)) ≤ length (contents c) + 1)
  unfolding emit
  emit-length r c h = elim (Option-cases (mpsc.try_send r c)) [
    | inl absent ↦ rw (absent, emit) (h, omega arith)
    | inr (d, there) ↦
        let (same, k, room) = laws.sent r c d there in
        let one = length-append (contents c) (r ∷ []) in
        rw (there, emit, same, one) (omega arith, omega arith)
  ]

  -- A turn moves the oldest record from the channel to what was posted.
  record Turned (t u : Telemetry mpsc) : Type 0 where
    same_kept : kept u ≡ kept t
    same_capacity : capacity u.channel ≡ capacity t.channel
    shorter : length (contents u.channel) ≤ length (contents t.channel)

  turn-Turned : (t : Telemetry mpsc) → Turned t (handle mpsc t turn)
  unfolding post_next
  turn-Turned t = go (mpsc.recv t.channel) refl
    where
      go :
          (got : Option (TelemetryRecord × mpsc.Channel))
          → mpsc.recv t.channel ≡ got
          → Turned t (handed mpsc t got)
      go none h = record { same_kept = refl; same_capacity = refl; shorter = omega arith }
      go (some (r, d)) h =
          let (front, k) = laws.received r t.channel d h in
          record {
            same_kept =
                append_assoc t.posted (r ∷ []) (contents d) ∙ ap (λ xs. t.posted ++ xs) (sym front);
            same_capacity = k;
            shorter = rw front (omega arith);
          }

  handle-IsWithin :
      (t : Telemetry mpsc) (event : Event) → IsWithin t → IsWithin (handle mpsc t event)
  handle-IsWithin t (emitted r) h = rw (emit-capacity r t.channel) (emit-length r t.channel h).0
  handle-IsWithin t turn h = let x = turn-Turned t in omega (arith, x.same_capacity, x.shorter)

  -- What a run adds to what is kept.
  record Delivers (t u : Telemetry mpsc) (emitted_ : List TelemetryRecord) : Type 0 where
    added : List TelemetryRecord
    in_order : IsSublist added emitted_
    kept_too : kept u ≡ kept t ++ added
    within : IsWithin u
    same_room : capacity u.channel ≡ capacity t.channel

  run-Delivers :
      (t : Telemetry mpsc) (events : List Event)
      → IsWithin t
      → Delivers t (run mpsc t events) (all_emitted events)
  unfolding run
  run-Delivers t [] h = record {
    added = [];
    in_order = empty;
    kept_too = sym (append-nil (kept t));
    within = h;
    same_room = refl;
  }
  run-Delivers t (turn ∷ events) h =
      let x = turn-Turned t in
      let rest = run-Delivers (handle mpsc t turn) events (handle-IsWithin t turn h) in
      record {
        added = rest.added;
        in_order = rest.in_order;
        kept_too = rest.kept_too ∙ ap (λ xs. xs ++ rest.added) x.same_kept;
        within = rest.within;
        same_room = rest.same_room ∙ x.same_capacity;
      }
  run-Delivers t (emitted r ∷ events) h =
      let rest =
        run-Delivers (handle mpsc t (emitted r)) events (handle-IsWithin t (emitted r) h) in
      elim (emit-Adds r t) [
        | inl (more, room) ↦ record {
          added = r ∷ rest.added;
          in_order = keep r rest.in_order;
          kept_too =
              rest.kept_too
              ∙ ap (λ xs. xs ++ rest.added) more
              ∙ append_assoc (kept t) (r ∷ []) rest.added;
          within = rest.within;
          same_room = rest.same_room ∙ emit-capacity r t.channel;
        }
        | inr (same, full) ↦ record {
          added = rest.added;
          in_order = leave_out r rest.in_order;
          kept_too = rest.kept_too ∙ ap (λ xs. xs ++ rest.added) same;
          within = rest.within;
          same_room = rest.same_room ∙ emit-capacity r t.channel;
        }
      ]

  start-IsWithin : (n : ℕ) → IsWithin (start mpsc n)
  start-IsWithin n = rw (laws.contents-new n) (omega arith)

  kept-start : (n : ℕ) → kept (start mpsc n) ≡ []
  kept-start n = laws.contents-new n

  -- However emissions and turns of the posting task follow each other, the records posted and those
  -- still in the channel are, in order and without repetition, some of those emitted; and the channel
  -- never holds more than it was made for.
  pub run_delivers :
      (n : ℕ) (events : List Event)
      → IsSublist (kept (run mpsc (start mpsc n) events)) (all_emitted events)
        × (length (contents (run mpsc (start mpsc n) events).channel) ≤ n)
  run_delivers n events =
      let d = run-Delivers (start mpsc n) events (start-IsWithin n) in
      let all = d.kept_too ∙ ap (λ xs. xs ++ d.added) (kept-start n) in
      let room = d.same_room ∙ laws.capacity-new n in
      (rw all d.in_order, omega (arith, d.within, room))

  run_keeps_all :
      (t : Telemetry mpsc) (events : List Event)
      → IsWithin t
      → length (contents t.channel) + length (all_emitted events) ≤ capacity t.channel
      → kept (run mpsc t events) ≡ kept t ++ all_emitted events
  unfolding run
  run_keeps_all t [] w h = sym (append-nil (kept t))
  run_keeps_all t (turn ∷ events) w h =
      let x = turn-Turned t in
      run_keeps_all (handle mpsc t turn) events (handle-IsWithin t turn w)
        (omega (arith, x.same_capacity, x.shorter))
      ∙ ap (λ xs. xs ++ all_emitted events) x.same_kept
  run_keeps_all t (emitted r ∷ events) w h = elim (emit-Adds r t) [
    | inl (more, room) ↦
        run_keeps_all (handle mpsc t (emitted r)) events (handle-IsWithin t (emitted r) w)
          (omega (arith, emit-capacity r t.channel, emit-length r t.channel w))
        ∙ ap (λ xs. xs ++ all_emitted events) more
        ∙ append_assoc (kept t) (r ∷ []) (all_emitted events)
    | inr (same, full) ↦ absurd (omega arith)
  ]

  -- No record is lost as long as no more are emitted than the channel has room for.
  pub run_loses_none :
      (n : ℕ) (events : List Event)
      → length (all_emitted events) ≤ n
      → kept (run mpsc (start mpsc n) events) ≡ all_emitted events
  run_loses_none n events h =
      run_keeps_all (start mpsc n) events (start-IsWithin n)
        (rw (laws.contents-new n, laws.capacity-new n) (omega arith))
      ∙ ap (λ xs. xs ++ all_emitted events) (kept-start n)
