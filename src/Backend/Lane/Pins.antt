-- ===== src/Backend/Lane/Pins.antt =====
-- server/exec_backends.py: a lane takes no pin and gives none back.
use kimina_lean_server.Base.{
  ℕ, ◌+◌, ◌≡◌, refl, ap, ◌∙◌, String, Option, none, some, Option-cases, Bool-cases, List, [], ◌∷◌,
  All, inl, inr, string_key,
}
use kimina_lean_server.Base.Dict
use kimina_lean_server.Lifecycle.{should_cancel}
use kimina_lean_server.StateStore.{Result-cases, Store, Result, ok, err, create_child}
use kimina_lean_server.StateStore.Pins.{pins, create_child-pinned}
use kimina_lean_server.Schemas.{StepResult, PantographStepResult, ExecDiagnostics, diagnostics_of}
use kimina_lean_server.Backend.Results.{
  debug_from_worker_results, Supply, promote_results, discard_unpromoted_state_paths, promoted_path,
  prepend, step_result,
}
use kimina_lean_server.Backend.Lane.{
  Acquired, Stepped, worker, no_available_worker, failed, returned, raised, ResolvedStepItem,
  Moment, Lane, Health, answered, promoted, paths_of, use_worker, acquire_worker, step_item,
  run_items, close_lane, run_lane,
}
use kimina_lean_server.Backend.Lane.Filling.{run_items-next, run_items-raised}

prepend-store : (r : StepResult) (p : Store × Result (List StepResult)) → (prepend r p).0 ≡ p.0
prepend-store r (s, ok rs) = refl
prepend-store r (s, err e) = refl

promote_results-pinned :
    (parent : String) (supply : ℕ → Supply) (k : ℕ) (rs : List PantographStepResult) (s : Store)
    → (promote_results parent supply k rs s).0.pinned ≡ s.pinned
unfolding promote_results
promote_results-pinned parent supply k [] s = refl
promote_results-pinned parent supply k (r ∷ rs) s = elim (Option-cases (promoted_path r)) [
  | inl e ↦
      rw (e, promote_results)
        (ap (λ (x : Store). x.pinned)
            (prepend-store (step_result r none) (promote_results parent supply (k + 1) rs s))
          ∙ promote_results-pinned parent supply (k + 1) rs s)
  | inr (child, e) ↦
      let made =
        create_child parent child (supply k).candidates (supply k).now (supply k).later s in
      let same =
        create_child-pinned parent child (supply k).candidates (supply k).now (supply k).later s in
      rw (e, promote_results)
        (elim (Result-cases made.1) [
          | inl (token, f) ↦ rw f (
              ap (λ (x : Store). x.pinned)
                (prepend-store (step_result r (some token))
                  (promote_results parent supply (k + 1) rs made.0))
              ∙ promote_results-pinned parent supply (k + 1) rs made.0
              ∙ same)
          | inr (x, f) ↦ rw f same
        ])
]

discard-pinned :
    (ps : List (Option String)) (s : Store)
    → (discard_unpromoted_state_paths ps s).pinned ≡ s.pinned
unfolding discard_unpromoted_state_paths
discard-pinned [] s = refl
discard-pinned (none ∷ ps) s = discard-pinned ps s
discard-pinned (some p ∷ ps) s = discard-pinned ps (record s { bins = Dict.pop p s.bins })

promoted-pins :
    (u : String) (x : ResolvedStepItem) (m : Moment) (a : ℕ) (d : ExecDiagnostics)
    (p : Store × Result (List StepResult)) (lane : Lane)
    → pins u (promoted x m a d p lane).store ≡ pins u p.0
promoted-pins u x m a d (s, ok r) lane = refl
promoted-pins u x m a d (s, err e) lane = refl

-- The other tasks leave the pins of a token as they are.
abbrev pub Leaves : String → Moment → Type 0
Leaves u m = (s : Store) → pins u (m.others s) ≡ pins u s

same_pins : (u : String) (a b : Store) → a.pinned ≡ b.pinned → pins u a ≡ pins u b
same_pins u a b e = rw e refl

answered-pins :
    (u : String) (x : ResolvedStepItem) (m : Moment) (a : ℕ) (lane : Lane)
    → Leaves u m
    → pins u (answered x m a lane).store ≡ pins u lane.store
unfolding answered
answered-pins u x m a lane h = go m.stepped refl
  where
    go : (z : Stepped) → m.stepped ≡ z → pins u (answered x m a lane).store ≡ pins u lane.store
    go (raised t) e = rw (e, answered) refl
    go (returned rs) e =
        let s = m.others lane.store in
        rw (e, answered)
          (elim (Bool-cases (should_cancel x.state.item_id m.after_step)) [
            | inl f ↦ rw f (
                same_pins u (discard_unpromoted_state_paths (paths_of rs) s) s
                  (discard-pinned (paths_of rs) s)
                ∙ h lane.store)
            | inr f ↦
                let made = promote_results x.item.state_token m.supply 0 rs s in
                rw f (
                  promoted-pins u x m a (diagnostics_of a m.lean_ms (debug_from_worker_results rs))
                    made lane
                  ∙ same_pins u made.0 s (promote_results-pinned x.item.state_token m.supply 0 rs s)
                  ∙ h lane.store)
          ])

use_worker-pins :
    (u : String) (x : ResolvedStepItem) (m : Moment) (a n : ℕ) (lane : Lane)
    → Leaves u m
    → pins u (use_worker x m a n lane).store ≡ pins u lane.store
unfolding use_worker
use_worker-pins u x m a n lane h = elim (Bool-cases m.health.alive) [
  | inl e ↦ rw (e, use_worker) (answered-pins u x m a _ h)
  | inr e ↦ rw (e, use_worker) (answered-pins u x m a _ h)
]

acquire_worker-pins :
    (u : String) (x : ResolvedStepItem) (m : Moment) (lane : Lane)
    → Leaves u m
    → pins u (acquire_worker x m lane).0.store ≡ pins u lane.store
unfolding acquire_worker
acquire_worker-pins u x m lane h = go m.acquired refl
  where
    go :
        (z : Acquired)
        → m.acquired ≡ z
        → pins u (acquire_worker x m lane).0.store ≡ pins u lane.store
    go (failed t) e = rw (e, acquire_worker) refl
    go (no_available_worker t) e = rw (e, acquire_worker) refl
    go (worker n) e =
        rw (e, acquire_worker)
          (elim (Bool-cases (should_cancel x.state.item_id m.after_acquire)) [
            | inl f ↦ rw f refl
            | inr f ↦ rw f (use_worker-pins u x m m.acquire_ms n _ h)
          ])

pub step_item-pins :
    (u : String) (x : ResolvedStepItem) (m : Moment) (lane : Lane)
    → Leaves u m
    → pins u (step_item x m lane).0.store ≡ pins u lane.store
unfolding step_item
step_item-pins u x m lane h = elim (Bool-cases (should_cancel x.state.item_id m.at_start)) [
  | inl e ↦ rw e refl
  | inr e ↦ rw e (elim (Option-cases lane.lease) [
    | inl f ↦ rw (f, step_item) (acquire_worker-pins u x m lane h)
    | inr (n, f) ↦ rw (f, step_item) (use_worker-pins u x m 0 n lane h)
  ])
]

run_items-pins :
    (u : String) (items : List (ResolvedStepItem × Moment)) (lane : Lane)
    → All (λ (e : ResolvedStepItem × Moment). Leaves u e.1) items
    → pins u (run_items items lane).0.store ≡ pins u lane.store
unfolding run_items
run_items-pins u [] lane h = refl
run_items-pins u ((x, m) ∷ items) lane h = elim (Option-cases (step_item x m lane).1) [
  | inl e ↦
      ap (λ (p : Lane × Option String). pins u p.0.store) (run_items-next x m items lane e)
      ∙ run_items-pins u items (step_item x m lane).0 h.1
      ∙ step_item-pins u x m lane h.0
  | inr (t, e) ↦
      ap (λ (p : Lane × Option String). pins u p.0.store) (run_items-raised x m items lane t e)
      ∙ step_item-pins u x m lane h.0
]

pub close_lane-pins :
    (u : String) (h : Health) (lane : Lane) → pins u (close_lane h lane).store ≡ pins u lane.store
unfolding close_lane
close_lane-pins u h lane = elim (Option-cases lane.lease) [
  | inl e ↦ rw (e, close_lane) refl
  | inr (n, e) ↦ rw (e, close_lane) refl
]

-- A lane leaves the pins of a token as they are, whether it ends by an exception or not, if the
-- other tasks do meanwhile.
pub pins-run_lane :
    (u : String) (items : List (ResolvedStepItem × Moment)) (h : Health) (lane : Lane)
    → All (λ (e : ResolvedStepItem × Moment). Leaves u e.1) items
    → pins u (run_lane items h lane).0.store ≡ pins u lane.store
unfolding run_lane close_lane
pins-run_lane u items h lane l = elim (Option-cases (run_items items lane).0.lease) [
  | inl e ↦ rw (e, close_lane) (run_items-pins u items lane l)
  | inr (n, e) ↦ rw (e, close_lane) (run_items-pins u items lane l)
]
