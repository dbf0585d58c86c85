-- ===== src/Backend/Lane/Schedule/Pins.antt =====
-- server/exec_backends.py: the lanes of a batch take no pin and give none back, in whatever order
-- they run, also those that go on after an exception.
use kimina_lean_server.Base.{
  ℕ, ◌≡◌, refl, ◌∙◌, String, Option-cases, List, [], ◌∷◌, All, get_elem?, inl, inr,
}
use kimina_lean_server.StateStore.{Store}
use kimina_lean_server.StateStore.Pins.{pins}
use kimina_lean_server.Backend.Lane.{ResolvedStepItem, Moment, Lane, Health, step_item, run_lane}
use kimina_lean_server.Backend.Lane.Slots.{Slots}
use kimina_lean_server.Backend.Lane.Pins.{Leaves, step_item-pins, close_lane-pins, pins-run_lane}
use kimina_lean_server.Backend.Lane.Schedule.{
  LaneTask, lane_of, turn, after_turn, gather_rest, gather, go_on_rest, go_on,
}
use kimina_lean_server.Backend.Lane.Schedule.Turns.{All-get, Remain, after_turn-Remain}

abbrev pub AllLeave : String → ResolvedStepItem × Moment → Type 0
AllLeave u e = Leaves u e.1

module _ (u : String) where
  turn-pins :
      (items : List (ResolvedStepItem × Moment)) (h : Health) (lane : Lane)
      → All (AllLeave u) items
      → pins u (turn items h lane).1.store ≡ pins u lane.store
  unfolding turn
  turn-pins [] h lane a = close_lane-pins u h lane
  turn-pins ((x, m) ∷ items) h lane a =
      let done = step_item x m lane in
      elim (Option-cases done.1) [
        | inl e ↦ rw (e, turn) (step_item-pins u x m lane a.0)
        | inr (text, e) ↦ rw (e, turn) (close_lane-pins u h done.0 ∙ step_item-pins u x m lane a.0)
      ]

  gather_rest-pins :
      (tasks : List LaneTask) (slots : Slots) (s : Store)
      → Remain (AllLeave u) tasks
      → pins u (gather_rest tasks slots s).store ≡ pins u s
  unfolding gather_rest
  gather_rest-pins [] slots s a = refl
  gather_rest-pins (t ∷ tasks) slots s a =
      let done = run_lane t.items t.health (lane_of t slots s) in
      let same = pins-run_lane u t.items t.health (lane_of t slots s) a.0 in
      elim (Option-cases done.1) [
        | inr (text, e) ↦ rw (e, gather_rest) same
        | inl e ↦ rw (e, gather_rest) (gather_rest-pins tasks done.0.slots done.0.store a.1 ∙ same)
      ]

  pub gather-pins :
      (order : List ℕ) (tasks : List LaneTask) (slots : Slots) (s : Store)
      → Remain (AllLeave u) tasks
      → pins u (gather order tasks slots s).store ≡ pins u s
  unfolding gather
  gather-pins [] tasks slots s a = gather_rest-pins tasks slots s a
  gather-pins (k ∷ order) tasks slots s a = elim (Option-cases (get_elem? tasks k)) [
    | inl e ↦ rw (e, gather) (gather-pins order tasks slots s a)
    | inr (t, e) ↦
        let done = turn t.items t.health (lane_of t slots s) in
        let items = All-get (λ (t : LaneTask). All (AllLeave u) t.items) tasks k t e a in
        let same = turn-pins t.items t.health (lane_of t slots s) items in
        let rest = after_turn-Remain (AllLeave u) k t tasks slots s e a in
        rw (e, gather)
          (elim (Option-cases done.2) [
            | inr (text, f) ↦ rw f same
            | inl f ↦ rw f (
                gather-pins order (after_turn k t tasks done) done.1.slots done.1.store rest ∙ same)
          ])
  ]

  go_on_rest-pins :
      (tasks : List LaneTask) (slots : Slots) (s : Store)
      → Remain (AllLeave u) tasks
      → pins u (go_on_rest tasks slots s) ≡ pins u s
  unfolding go_on_rest
  go_on_rest-pins [] slots s a = refl
  go_on_rest-pins (t ∷ tasks) slots s a =
      let done = run_lane t.items t.health (lane_of t slots s) in
      go_on_rest-pins tasks done.0.slots done.0.store a.1
      ∙ pins-run_lane u t.items t.health (lane_of t slots s) a.0

  pub go_on-pins :
      (order : List ℕ) (tasks : List LaneTask) (slots : Slots) (s : Store)
      → Remain (AllLeave u) tasks
      → pins u (go_on order tasks slots s) ≡ pins u s
  unfolding go_on
  go_on-pins [] tasks slots s a = go_on_rest-pins tasks slots s a
  go_on-pins (k ∷ order) tasks slots s a = elim (Option-cases (get_elem? tasks k)) [
    | inl e ↦ rw (e, go_on) (go_on-pins order tasks slots s a)
    | inr (t, e) ↦
        let done = turn t.items t.health (lane_of t slots s) in
        let items = All-get (λ (t : LaneTask). All (AllLeave u) t.items) tasks k t e a in
        rw (e, go_on)
          (go_on-pins order (after_turn k t tasks done) done.1.slots done.1.store
              (after_turn-Remain (AllLeave u) k t tasks slots s e a)
            ∙ turn-pins t.items t.health (lane_of t slots s) items)
  ]
