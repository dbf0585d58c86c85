-- ===== src/Backend/Lane/Leases.antt =====
-- server/exec_backends.py: a lane holds at most one worker and gives each back.
use kimina_lean_server.Base.{
  ℕ, ◌≡◌, refl, sym, ap, ◌∙◌, Option, none, some, Option-cases, Bool-cases, List, [], ◌∷◌, ite,
  arith, ℕ_discrete, inl, inr,
}
use kimina_lean_server.Lifecycle.{should_cancel}
use kimina_lean_server.StateStore.{Store, Result, ok, err}
use kimina_lean_server.Schemas.{StepResult, ExecDiagnostics}
use kimina_lean_server.Backend.Timeout.{timeout_seconds}
use kimina_lean_server.Backend.Lane.{
  Acquired, Disposal, return_worker, ResolvedStepItem, Moment, Lane, LaneEvent, leases, uses,
  returns, Health, worker, no_available_worker, failed, returned, raised, answered, promoted,
  use_worker, acquire_worker, step_item, run_items, close_lane, run_lane,
}

-- Which worker is held after an event, if the event was allowed.
abbrev advance : LaneEvent → Option ℕ → Option (Option ℕ)
advance (leases n) none = some (some n)
advance (leases n) (some m) = none
advance (uses n t) none = none
advance (uses n t) (some m) = ite (ℕ_discrete m n) (some (some m)) none
advance (returns n d) none = none
advance (returns n d) (some m) = ite (ℕ_discrete m n) (some none) none

-- Which worker is held after some events, the last first, if all of them were allowed.
abbrev pub held : List LaneEvent → Option (Option ℕ)
held [] = some none
held (e ∷ es) = elim (held es) [ none ↦ none | some h ↦ advance e h ]

abbrev IsHeld : Lane → Type 0
IsHeld lane = held lane.events ≡ some lane.lease

promoted-events :
    (x : ResolvedStepItem) (m : Moment) (a : ℕ) (d : ExecDiagnostics)
    (p : Store × Result (List StepResult)) (lane : Lane)
    → ((promoted x m a d p lane).events ≡ lane.events)
      × ((promoted x m a d p lane).lease ≡ lane.lease)
promoted-events x m a d (s, ok r) lane = (refl, refl)
promoted-events x m a d (s, err e) lane = (refl, refl)

answered-events :
    (x : ResolvedStepItem) (m : Moment) (a : ℕ) (lane : Lane)
    → ((answered x m a lane).events ≡ lane.events) × ((answered x m a lane).lease ≡ lane.lease)
unfolding answered
answered-events x m a lane = go m.stepped refl
  where
    go :
        (z : _)
        → m.stepped ≡ z
        → ((answered x m a lane).events ≡ lane.events) × ((answered x m a lane).lease ≡ lane.lease)
    go (raised t) e = rw (e, answered) (refl, refl)
    go (returned rs) e =
        rw (e, answered)
          (elim (Bool-cases (should_cancel x.state.item_id m.after_step)) [
            | inl f ↦ rw f (refl, refl)
            | inr f ↦ rw f (promoted-events x m a _ _ lane)
          ])

held-uses :
    (n t : ℕ) (es : List LaneEvent) → held es ≡ some (some n) → held (uses n t ∷ es) ≡ some (some n)
held-uses n t es h = rw h (ground arith)

held-returns :
    (n : ℕ) (d : Disposal) (es : List LaneEvent)
    → held es ≡ some (some n)
    → held (returns n d ∷ es) ≡ some none
held-returns n d es h = rw h (ground arith)

held-leases :
    (n : ℕ) (es : List LaneEvent) → held es ≡ some none → held (leases n ∷ es) ≡ some (some n)
held-leases n es h = rw h refl

use_worker-IsHeld :
    (x : ResolvedStepItem) (m : Moment) (a n : ℕ) (lane : Lane)
    → lane.lease ≡ some n
    → IsHeld lane
    → IsHeld (use_worker x m a n lane)
unfolding use_worker
use_worker-IsHeld x m a n lane l h =
    let used = record lane {
      events = uses n (timeout_seconds x.item.step_timeout_ms) ∷ lane.events;
    } in
    let (events, lease) = answered-events x m a used in
    let still : held (answered x m a used).events ≡ some (some n) =
      ap held events
      ∙ held-uses n (timeout_seconds x.item.step_timeout_ms) lane.events (h ∙ ap some l) in
    elim (Bool-cases m.health.alive) [
      | inl e ↦ rw e (still ∙ ap some (sym (lease ∙ l)))
      | inr e ↦ rw e (held-returns n (return_worker m.health) (answered x m a used).events still)
    ]

acquire_worker-IsHeld :
    (x : ResolvedStepItem) (m : Moment) (lane : Lane)
    → lane.lease ≡ none
    → IsHeld lane
    → IsHeld (acquire_worker x m lane).0
unfolding acquire_worker
acquire_worker-IsHeld x m lane l h = go m.acquired refl
  where
    go : (z : Acquired) → m.acquired ≡ z → IsHeld (acquire_worker x m lane).0
    go (failed t) e = rw (e, acquire_worker) h
    go (no_available_worker t) e = rw (e, acquire_worker) h
    go (worker n) e =
        let leased = held-leases n lane.events (h ∙ ap some l) in
        rw (e, acquire_worker)
          (elim (Bool-cases (should_cancel x.state.item_id m.after_acquire)) [
            | inl f ↦ rw f leased
            | inr f ↦ rw f (
                use_worker-IsHeld x m m.acquire_ms n
                  (record lane { lease = some n; events = leases n ∷ lane.events }) refl leased)
          ])

step_item-IsHeld :
    (x : ResolvedStepItem) (m : Moment) (lane : Lane) → IsHeld lane → IsHeld (step_item x m lane).0
unfolding step_item
step_item-IsHeld x m lane h = elim (Bool-cases (should_cancel x.state.item_id m.at_start)) [
  | inl e ↦ rw e h
  | inr e ↦ rw e (elim (Option-cases lane.lease) [
    | inl f ↦ rw (f, step_item) (acquire_worker-IsHeld x m lane f h)
    | inr (n, f) ↦ rw (f, step_item) (use_worker-IsHeld x m 0 n lane f h)
  ])
]

run_items-IsHeld :
    (items : List (ResolvedStepItem × Moment)) (lane : Lane)
    → IsHeld lane
    → IsHeld (run_items items lane).0
unfolding run_items
run_items-IsHeld [] lane h = h
run_items-IsHeld ((x, m) ∷ items) lane h = elim (Option-cases (step_item x m lane).1) [
  | inl e ↦
      rw (e, run_items)
        (run_items-IsHeld items (step_item x m lane).0 (step_item-IsHeld x m lane h))
  | inr (t, e) ↦ rw (e, run_items) (step_item-IsHeld x m lane h)
]

-- Whatever the registry says, the workers answer and the pool refuses, a lane that begins with no
-- worker leases at most one at a time, uses it only while it holds it, and has given back each
-- when it ends, an exception included.
pub run_lane-held :
    (items : List (ResolvedStepItem × Moment)) (h : Health) (lane : Lane)
    → held lane.events ≡ some none
    → lane.lease ≡ none
    → (held (run_lane items h lane).0.events ≡ some none) × ((run_lane items h lane).0.lease ≡ none)
unfolding run_lane close_lane
run_lane-held items h lane start free =
    let done = (run_items items lane).0 in
    let ends = run_items-IsHeld items lane (start ∙ ap some (sym free)) in
    elim (Option-cases done.lease) [
      | inl e ↦ rw (e, close_lane) (ends ∙ ap some e, e)
      | inr (n, e) ↦
          rw (e, close_lane) (held-returns n (return_worker h) done.events (ends ∙ ap some e), refl)
    ]
