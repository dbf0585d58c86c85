-- ===== src/Backend/Lane/Filling.antt =====
-- server/exec_backends.py: what a whole lane leaves in the slots.
use kimina_lean_server.Base.{
  ◌≡◌, refl, sym, String, Option, none, some, Option-cases, List, [], ◌∷◌, All, inl, inr,
}
use mathlib.Core.Path.{subst}
use kimina_lean_server.Schemas.{StepBatchItem}
use kimina_lean_server.Backend.Lane.{
  ResolvedStepItem, Moment, Lane, Health, step_item, run_items, close_lane, run_lane,
}
use kimina_lean_server.Backend.Lane.Slots.{
  Slots, IsFilled, Answers, Kept, Kept-refl, Kept-trans, InRequest, Serves, Writes, Fills-Kept,
  step_item-Writes, room_kept,
}

Serves-raised :
    (request : List StepBatchItem) (x : ResolvedStepItem) (items : List (ResolvedStepItem × Moment))
    (t : String) (before after : Slots)
    → Answers request before
    → Writes x before after (some t)
    → Serves request items before after (some t)
Serves-raised request x items t before after h e =
    (subst (Kept request before) (sym e) (Kept-refl request before h), λ p. cc)

Serves-next :
    (request : List StepBatchItem) (x : ResolvedStepItem) (m : Moment)
    (items : List (ResolvedStepItem × Moment)) (a b c : Slots) (f : Option String)
    → Kept request a b
    → IsFilled b x.index
    → Serves request items b c f
    → Serves request ((x, m) ∷ items) a c f
Serves-next request x m items a b c f k filled (l, all) =
    (Kept-trans request a b c k l, λ e. (l.stays x.index filled, all e))

pub run_items-next :
    (x : ResolvedStepItem) (m : Moment) (items : List (ResolvedStepItem × Moment)) (lane : Lane)
    → (step_item x m lane).1 ≡ none
    → run_items ((x, m) ∷ items) lane ≡ run_items items (step_item x m lane).0
unfolding run_items
run_items-next x m items lane e = rw (e, run_items) refl

pub run_items-raised :
    (x : ResolvedStepItem) (m : Moment) (items : List (ResolvedStepItem × Moment)) (lane : Lane)
    (t : String)
    → (step_item x m lane).1 ≡ some t
    → run_items ((x, m) ∷ items) lane ≡ ((step_item x m lane).0, some t)
unfolding run_items
run_items-raised x m items lane t e = rw (e, run_items) refl

run_items-Serves :
    (request : List StepBatchItem) (items : List (ResolvedStepItem × Moment)) (lane : Lane)
    → All (λ (e : ResolvedStepItem × Moment). InRequest request lane.slots e.0) items
    → Answers request lane.slots
    → Serves request items lane.slots (run_items items lane).0.slots (run_items items lane).1
unfolding run_items
run_items-Serves request [] lane room h = (Kept-refl request lane.slots h, λ e. tt)
run_items-Serves request ((x, m) ∷ items) lane room h =
    let done = step_item x m lane in
    let writes = step_item-Writes x m lane in
    elim (Option-cases done.1) [
      | inr (t, e) ↦
          subst
            (λ (p : Lane × Option String). Serves request ((x, m) ∷ items) lane.slots p.0.slots p.1)
            (sym (run_items-raised x m items lane t e))
            (Serves-raised request x ((x, m) ∷ items) t lane.slots done.0.slots h
              (subst (Writes x lane.slots done.0.slots) e writes))
      | inl e ↦
          let (kept, filled) =
            Fills-Kept request x lane.slots done.0.slots room.0 h
              (subst (Writes x lane.slots done.0.slots) e writes) in
          subst
            (λ (p : Lane × Option String). Serves request ((x, m) ∷ items) lane.slots p.0.slots p.1)
            (sym (run_items-next x m items lane e))
            (Serves-next request x m items lane.slots done.0.slots (run_items items done.0).0.slots
              (run_items items done.0).1 kept filled
              (run_items-Serves request items done.0
                (room_kept request items lane.slots done.0.slots kept.same_length room.1)
                kept.answers))
    ]

pub close_lane-slots : (h : Health) (lane : Lane) → (close_lane h lane).slots ≡ lane.slots
unfolding close_lane
close_lane-slots h lane = elim (Option-cases lane.lease) [
  | inl e ↦ rw (e, close_lane) refl
  | inr (n, e) ↦ rw (e, close_lane) refl
]

-- A lane keeps the number of slots and every filled slot filled, and each filled slot holds a
-- result of the item that stands at its place in the request; if no exception leaves the lane, it
-- fills the slot of each of its items.
pub run_lane-Serves :
    (request : List StepBatchItem) (items : List (ResolvedStepItem × Moment)) (h : Health)
    (lane : Lane)
    → All (λ (e : ResolvedStepItem × Moment). InRequest request lane.slots e.0) items
    → Answers request lane.slots
    → Serves request items lane.slots (run_lane items h lane).0.slots (run_lane items h lane).1
unfolding run_lane
run_lane-Serves request items h lane room answers =
    subst (λ s. Serves request items lane.slots s (run_items items lane).1)
      (sym (close_lane-slots h (run_items items lane).0))
      (run_items-Serves request items lane room answers)
