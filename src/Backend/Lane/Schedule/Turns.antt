-- ===== src/Backend/Lane/Schedule/Turns.antt =====
-- server/exec_backends.py: what the lanes of a batch have still to do is a part of what they had.
use kimina_lean_server.Base.{
  ℕ, zero, suc, ◌≡◌, Option, none, some, Option-cases, List, [], ◌∷◌, All, set, get_elem?, inl, inr,
}
use mathlib.Core.Path.{subst}
use kimina_lean_server.StateStore.{Store}
use kimina_lean_server.Backend.Lane.{ResolvedStepItem, Moment, Lane, Health, step_item, run_lane}
use kimina_lean_server.Backend.Lane.Slots.{Slots}
use kimina_lean_server.Backend.Lane.Schedule.{
  LaneTask, lane_of, turn, after_turn, gather_rest, gather,
}

pub All-get :
    {A : Type 0} (P : A → Type 0) (xs : List A) (k : ℕ) (x : A)
    → get_elem? xs k ≡ some x
    → All P xs
    → P x
All-get P [] k x e h = cc
All-get P (y ∷ ys) zero x e h = subst (P_or P) e h.0
  where
    P_or : {A : Type 0} → (A → Type 0) → Option A → Type 0
    P_or P none = Unit
    P_or P (some x) = P x
All-get P (y ∷ ys) (suc k) x e h = All-get P ys k x e h.1

All-set :
    {A : Type 0} (P : A → Type 0) (xs : List A) (k : ℕ) (x : A)
    → P x
    → All P xs
    → All P (set xs k x)
All-set P [] k x p h = tt
All-set P (y ∷ ys) zero x p h = (p, h.1)
All-set P (y ∷ ys) (suc k) x p h = (h.0, All-set P ys k x p h.1)

module _ (P : ResolvedStepItem × Moment → Type 0) where
  abbrev pub Remain : List LaneTask → Type 0
  Remain tasks = All (λ (t : LaneTask). All P t.items) tasks

  turn-All :
      (items : List (ResolvedStepItem × Moment)) (h : Health) (lane : Lane)
      → All P items
      → All P (turn items h lane).0
  unfolding turn
  turn-All [] h lane a = tt
  turn-All ((x, m) ∷ items) h lane a = elim (Option-cases (step_item x m lane).1) [
    | inl e ↦ rw (e, turn) a.1
    | inr (t, e) ↦ rw (e, turn) tt
  ]

  pub after_turn-Remain :
      (k : ℕ) (t : LaneTask) (tasks : List LaneTask) (slots : Slots) (s : Store)
      → get_elem? tasks k ≡ some t
      → Remain tasks
      → Remain (after_turn k t tasks (turn t.items t.health (lane_of t slots s)))
  after_turn-Remain k t tasks slots s e a =
      All-set (λ (t : LaneTask). All P t.items) tasks k _
        (turn-All t.items t.health (lane_of t slots s)
          (All-get (λ (t : LaneTask). All P t.items) tasks k t e a))
        a

  gather_rest-Remain :
      (tasks : List LaneTask) (slots : Slots) (s : Store)
      → Remain tasks
      → Remain (gather_rest tasks slots s).left
  unfolding gather_rest
  gather_rest-Remain [] slots s a = tt
  gather_rest-Remain (t ∷ tasks) slots s a =
      let done = run_lane t.items t.health (lane_of t slots s) in
      elim (Option-cases done.1) [
        | inl e ↦ rw (e, gather_rest) (gather_rest-Remain tasks done.0.slots done.0.store a.1)
        | inr (text, e) ↦ rw (e, gather_rest) a.1
      ]

  pub gather-Remain :
      (order : List ℕ) (tasks : List LaneTask) (slots : Slots) (s : Store)
      → Remain tasks
      → Remain (gather order tasks slots s).left
  unfolding gather
  gather-Remain [] tasks slots s a = gather_rest-Remain tasks slots s a
  gather-Remain (k ∷ order) tasks slots s a = elim (Option-cases (get_elem? tasks k)) [
    | inl e ↦ rw (e, gather) (gather-Remain order tasks slots s a)
    | inr (t, e) ↦
        let done = turn t.items t.health (lane_of t slots s) in
        let rest = after_turn-Remain k t tasks slots s e a in
        rw (e, gather)
          (elim (Option-cases done.2) [
            | inl f ↦
                rw f
                  (gather-Remain order (after_turn k t tasks done) done.1.slots done.1.store rest)
            | inr (text, f) ↦ rw f rest
          ])
  ]
