-- ===== src/Client/Infotree/Merge.antt =====
-- infotree.py: `merge_intervals`.
use kimina_lean_server.Base.{
  ℕ, ◌+◌, String, Bool, true, false, ◌||◌, not, none, some, List, [], ◌∷◌,
}
use kimina_lean_server.Base.Text.{append}
use kimina_lean_server.Base.Text.Pieces.{take_text, drop_text, rfind}
use kimina_lean_server.Client.Infotree.{TacticStep}
use kimina_lean_server.Client.Infotree.Comments.{
  is_balanced, is_by, is_calc, is_wrapper, ends_with_by,
}

-- Whether a tactic is merged with the next one.
unfoldable pub is_unfinished : String → Bool
unfolding is_balanced is_by is_calc is_wrapper
is_unfinished s = not (is_balanced s) || is_by s || is_calc s || is_wrapper s

-- The two loops, of which the inner one has come to `current`.
unfoldable pub gather : TacticStep → List TacticStep → List TacticStep
unfolding is_unfinished
gather current [] = current ∷ []
gather current (next ∷ steps) = elim (is_unfinished current.tactic) [
  | true ↦
      gather
        (record {
          goals_before = current.goals_before;
          goals_after = next.goals_after;
          tactic = append current.tactic next.tactic;
        })
        steps
  | false ↦ current ∷ gather next steps
]

unfoldable pub merge_unfinished : List TacticStep → List TacticStep
unfolding gather
merge_unfinished [] = []
merge_unfinished (step ∷ steps) = gather step steps

-- `txt.rfind(":=") + 2`, where -1 says that there is none
abbrev pub cut_of : String → ℕ
unfolding rfind
cut_of s = elim (rfind s ":=") [ none ↦ 1 | some n ↦ n + 2 ]

-- The loop that moves a `by` at the end of a tactic to the next one, with what the one before has left
-- to the first.
unfoldable pub transfer_by : String → List TacticStep → List TacticStep
unfolding cut_of ends_with_by take_text drop_text
transfer_by carried [] = []
transfer_by carried (step ∷ []) = record step { tactic = append carried step.tactic } ∷ []
transfer_by carried (step ∷ next ∷ steps) =
    let text = append carried step.tactic in
    elim (ends_with_by text) [
      | true ↦
          record step { tactic = take_text (cut_of text) text }
          ∷ transfer_by (drop_text (cut_of text) text) (next ∷ steps)
      | false ↦ record step { tactic = text } ∷ transfer_by String.[] (next ∷ steps)
    ]

-- The goals, or the others if there are none.
unfoldable pub or_goals : List String → List String → List String
or_goals [] others = others
or_goals (goal ∷ goals) others = goal ∷ goals

-- The first `goalsBefore` that is not empty.
unfoldable pub next_goals : List TacticStep → List String
unfolding or_goals
next_goals [] = []
next_goals (step ∷ steps) = or_goals step.goals_before (next_goals steps)

unfoldable pub set_goals_before : List TacticStep → List TacticStep
unfolding next_goals
set_goals_before [] = []
set_goals_before (step ∷ []) = step ∷ []
set_goals_before (step ∷ next ∷ steps) =
    record step { goals_before = next_goals (step ∷ next ∷ steps) }
    ∷ set_goals_before (next ∷ steps)

unfoldable pub set_goals_after : List TacticStep → List TacticStep
unfolding next_goals
set_goals_after [] = []
set_goals_after (step ∷ []) = step ∷ []
set_goals_after (step ∷ next ∷ steps) =
    record step { goals_after = next_goals (next ∷ steps) } ∷ set_goals_after (next ∷ steps)

-- merge_intervals
unfoldable pub merge_intervals : List TacticStep → List TacticStep
unfolding merge_unfinished transfer_by set_goals_before set_goals_after
merge_intervals steps =
    set_goals_after (set_goals_before (transfer_by String.[] (merge_unfinished steps)))
