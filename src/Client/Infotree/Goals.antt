-- ===== src/Client/Infotree/Goals.antt =====
-- infotree.py: the goals between the tactics that `merge_intervals` gives.
use Prim.Native.String.{String}
use kimina_lean_server.Base.{◌≡◌, refl, ap, sym, ◌∙◌, List, [], ◌∷◌}
use kimina_lean_server.Client.Infotree.{TacticStep}
use kimina_lean_server.Client.Infotree.Merge.{
  merge_unfinished, transfer_by, or_goals, next_goals, set_goals_before, set_goals_after,
  merge_intervals,
}

-- The goals after a tactic are the goals before the next one.
abbrev pub AreChained : List TacticStep → Type 0
AreChained [] = Unit
AreChained (step ∷ []) = Unit
AreChained (step ∷ next ∷ steps) =
    (step.goals_after ≡ next.goals_before) × AreChained (next ∷ steps)

-- The goals before the first tactic.
abbrev first_goals : List TacticStep → List String
first_goals [] = []
first_goals (step ∷ steps) = step.goals_before

or_goals_empty : (goals : List String) → or_goals goals [] ≡ goals
unfolding or_goals
or_goals_empty [] = refl
or_goals_empty (goal ∷ goals) = refl

or_goals_idem :
    (goals others : List String) → or_goals (or_goals goals others) others ≡ or_goals goals others
unfolding or_goals
or_goals_idem [] [] = refl
or_goals_idem [] (goal ∷ goals) = refl
or_goals_idem (goal ∷ goals) others = refl

next_goals-set_goals_before :
    (steps : List TacticStep) → next_goals (set_goals_before steps) ≡ next_goals steps
unfolding set_goals_before next_goals
next_goals-set_goals_before [] = refl
next_goals-set_goals_before (step ∷ []) = refl
next_goals-set_goals_before (step ∷ next ∷ steps) =
    let rest = next_goals (next ∷ steps) in
    ap (or_goals (or_goals step.goals_before rest)) (next_goals-set_goals_before (next ∷ steps))
    ∙ or_goals_idem step.goals_before rest

first_goals-set_goals_before :
    (step : TacticStep) (steps : List TacticStep)
    → first_goals (set_goals_before (step ∷ steps)) ≡ next_goals (step ∷ steps)
unfolding set_goals_before next_goals
first_goals-set_goals_before step [] = sym (or_goals_empty step.goals_before)
first_goals-set_goals_before step (next ∷ steps) = refl

-- After each tactic, the first goals that are not empty are those before the next one.
abbrev AreFilled : List TacticStep → Type 0
AreFilled [] = Unit
AreFilled (step ∷ steps) = (next_goals steps ≡ first_goals steps) × AreFilled steps

set_goals_before-AreFilled : (steps : List TacticStep) → AreFilled (set_goals_before steps)
unfolding set_goals_before next_goals
set_goals_before-AreFilled [] = tt
set_goals_before-AreFilled (step ∷ []) = (refl, tt)
set_goals_before-AreFilled (step ∷ next ∷ steps) = (
  next_goals-set_goals_before (next ∷ steps) ∙ sym (first_goals-set_goals_before next steps),
  set_goals_before-AreFilled (next ∷ steps),
)

set_goals_after-AreChained :
    (steps : List TacticStep) → AreFilled steps → AreChained (set_goals_after steps)
unfolding set_goals_after
set_goals_after-AreChained [] f = tt
set_goals_after-AreChained (step ∷ []) f = tt
set_goals_after-AreChained (step ∷ next ∷ []) (e, f) = (e, tt)
set_goals_after-AreChained (step ∷ next ∷ third ∷ steps) (e, f) =
    (e, set_goals_after-AreChained (next ∷ third ∷ steps) f)

-- Of the tactics that `merge_intervals` gives, the goals after each are the goals before the next one.
pub merge_intervals-AreChained : (steps : List TacticStep) → AreChained (merge_intervals steps)
unfolding merge_intervals
merge_intervals-AreChained steps =
    set_goals_after-AreChained (set_goals_before (transfer_by String.[] (merge_unfinished steps)))
      (set_goals_before-AreFilled (transfer_by String.[] (merge_unfinished steps)))
