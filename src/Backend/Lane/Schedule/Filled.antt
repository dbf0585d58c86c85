-- ===== src/Backend/Lane/Schedule/Filled.antt =====
-- server/exec_backends.py: what the lanes of a batch leave in the slots, in whatever order they run.
use kimina_lean_server.Base.{
  ℕ, ◌<◌, ◌≡◌, sym, ◌∙◌, Option-cases, List, [], ◌∷◌, All, length, get_elem?, inl, inr, arith,
}
use mathlib.Core.Path.{subst}
use kimina_lean_server.StateStore.{Store}
use kimina_lean_server.Schemas.{StepBatchItem}
use kimina_lean_server.Backend.Lane.{ResolvedStepItem, Moment, Lane, Health, step_item, run_lane}
use kimina_lean_server.Backend.Lane.Slots.{
  Slots, Answers, Kept, Kept-refl, Kept-trans, InRequest, Writes, Fills-Kept, step_item-Writes,
  Belongs,
}
use kimina_lean_server.Backend.Lane.Filling.{run_lane-Serves, close_lane-slots}
use kimina_lean_server.Backend.Lane.Schedule.{
  LaneTask, lane_of, turn, after_turn, gather_rest, gather,
}
use kimina_lean_server.Backend.Lane.Schedule.Turns.{All-get, Remain, after_turn-Remain}

-- The item of the request stands at its index.
abbrev pub Stands : List StepBatchItem → ResolvedStepItem → Type 0
Stands request x = Belongs request x × (x.index < length request)

abbrev pub AreOf : List StepBatchItem → ResolvedStepItem × Moment → Type 0
AreOf request e = Stands request e.0

module _ (request : List StepBatchItem) where
  in_request :
      (slots : Slots) (items : List (ResolvedStepItem × Moment))
      → length slots ≡ length request
      → All (AreOf request) items
      → All (λ (e : ResolvedStepItem × Moment). InRequest request slots e.0) items
  in_request slots [] e a = tt
  in_request slots ((x, m) ∷ items) e a =
      ((a.0.0, omega (arith, e, a.0.1)), in_request slots items e a.1)

  turn-Kept :
      (items : List (ResolvedStepItem × Moment)) (h : Health) (lane : Lane)
      → length lane.slots ≡ length request
      → All (AreOf request) items
      → Answers request lane.slots
      → Kept request lane.slots (turn items h lane).1.slots
  unfolding turn
  turn-Kept [] h lane same a answers =
      subst (Kept request lane.slots) (sym (close_lane-slots h lane))
        (Kept-refl request lane.slots answers)
  turn-Kept ((x, m) ∷ items) h lane same a answers =
      let done = step_item x m lane in
      let writes = step_item-Writes x m lane in
      elim (Option-cases done.1) [
        | inl e ↦
            rw (e, turn)
              (Fills-Kept request x lane.slots done.0.slots (a.0.0, omega (arith, same, a.0.1))
                answers (subst (Writes x lane.slots done.0.slots) e writes)).0
        | inr (text, e) ↦
            let untouched : done.0.slots ≡ lane.slots =
              subst (Writes x lane.slots done.0.slots) e writes in
            rw (e, turn)
              (subst (Kept request lane.slots) (sym (close_lane-slots h done.0 ∙ untouched))
                (Kept-refl request lane.slots answers))
      ]

  gather_rest-Kept :
      (tasks : List LaneTask) (slots : Slots) (s : Store)
      → length slots ≡ length request
      → Remain (AreOf request) tasks
      → Answers request slots
      → Kept request slots (gather_rest tasks slots s).slots
  unfolding gather_rest
  gather_rest-Kept [] slots s same a answers = Kept-refl request slots answers
  gather_rest-Kept (t ∷ tasks) slots s same a answers =
      let done = run_lane t.items t.health (lane_of t slots s) in
      let kept =
        (run_lane-Serves request t.items t.health (lane_of t slots s)
          (in_request slots t.items same a.0) answers).0 in
      elim (Option-cases done.1) [
        | inr (text, e) ↦ rw (e, gather_rest) kept
        | inl e ↦
            rw (e, gather_rest)
              (Kept-trans request slots done.0.slots
                (gather_rest tasks done.0.slots done.0.store).slots kept
                (gather_rest-Kept tasks done.0.slots done.0.store (kept.same_length ∙ same) a.1
                  kept.answers))
      ]

  -- The lanes keep the number of slots and every filled slot filled, and each filled slot holds a
  -- result of the item that stands at its place in the request.
  pub gather-Kept :
      (order : List ℕ) (tasks : List LaneTask) (slots : Slots) (s : Store)
      → length slots ≡ length request
      → Remain (AreOf request) tasks
      → Answers request slots
      → Kept request slots (gather order tasks slots s).slots
  unfolding gather
  gather-Kept [] tasks slots s same a answers = gather_rest-Kept tasks slots s same a answers
  gather-Kept (k ∷ order) tasks slots s same a answers = elim (Option-cases (get_elem? tasks k)) [
    | inl e ↦ rw (e, gather) (gather-Kept order tasks slots s same a answers)
    | inr (t, e) ↦
        let done = turn t.items t.health (lane_of t slots s) in
        let items = All-get (λ (t : LaneTask). All (AreOf request) t.items) tasks k t e a in
        let kept = turn-Kept t.items t.health (lane_of t slots s) same items answers in
        let rest = after_turn k t tasks done in
        rw (e, gather)
          (elim (Option-cases done.2) [
            | inr (text, f) ↦ rw f kept
            | inl f ↦ rw f (
                Kept-trans request slots done.1.slots
                  (gather order rest done.1.slots done.1.store).slots kept
                  (gather-Kept order rest done.1.slots done.1.store (kept.same_length ∙ same)
                    (after_turn-Remain (AreOf request) k t tasks slots s e a) kept.answers))
          ])
  ]
