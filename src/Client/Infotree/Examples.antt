-- ===== src/Client/Infotree/Examples.antt =====
-- Runs of infotree.py on a proof in three tactics.
use kimina_lean_server.Base.{ℕ, String, true, same_text, ◌≡◌, refl, All, some, List, [], ◌∷◌}
use kimina_lean_server.Client.Infotree.{TacticStep, text_of}
use kimina_lean_server.Client.Infotree.Comments.{is_wrapper}
use kimina_lean_server.Client.Infotree.Trailing.{transfer, transfer_trailing}
use kimina_lean_server.Client.Infotree.Merge.{transfer_by, merge_intervals}
use kimina_lean_server.Client.Infotree.Texts.{merge_intervals-text_of}
use kimina_lean_server.Client.Infotree.Goals.{AreChained, merge_intervals-AreChained}
use kimina_lean_server.Client.Infotree.Intervals.{Place, Interval, adjust_intervals}
use kimina_lean_server.Client.Infotree.Snippets.{extract_snippet, extract_tactics}
use kimina_lean_server.Client.Infotree.Snippets.Retrieved.{extract_tactics-text_of}
use kimina_lean_server.Client.Infotree.Intervals.Partition.{IsUpTo}

abbrev step : String → List String → TacticStep
step tactic goals = record { goals_before = goals; goals_after = []; tactic = tactic }

abbrev steps : List TacticStep
steps =
    step "have h : p := by\n  -- first\n" ("a" ∷ [])
    ∷ step "simp\n" []
    ∷ step "done" ("b" ∷ [])
    ∷ []

merge_intervals-text_of_example :
    text_of (merge_intervals (transfer_trailing steps)) ≡ text_of steps
merge_intervals-text_of_example = merge_intervals-text_of steps

merge_intervals-AreChained_example : AreChained (merge_intervals steps)
merge_intervals-AreChained_example = merge_intervals-AreChained steps

-- The space and the comment after a tactic go to the next one.
transferred :
    transfer "" (step "have h : p := by\n  -- first\n" [] ∷ step "simp" [] ∷ [])
    ≡ step "have h : p := by" [] ∷ step "\n  -- first\nsimp" [] ∷ []
unfolding transfer
transferred = refl

by_moved :
    transfer_by "" (step "have h : p := by" [] ∷ step " simp" [] ∷ [])
    ≡ step "have h : p :=" [] ∷ step " by simp" [] ∷ []
unfolding transfer_by same_text
by_moved = refl

-- A mark in a comment after the `by` is taken for that of the term, and the end of the comment becomes
-- code of the next tactic.
cut_in_comment :
    transfer_by "" (step "have h : p := by -- with x := 3" [] ∷ step "\n simp" [] ∷ [])
    ≡ step "have h : p := by -- with x :=" [] ∷ step " 3\n simp" [] ∷ []
unfolding transfer_by same_text
cut_in_comment = refl

wrapped : is_wrapper "by  all_goals -- here" ≡ true
unfolding is_wrapper same_text
wrapped = refl

abbrev at : ℕ → ℕ → Place
at line col = record { line = line; col = col }

abbrev interval : Place → Place → Interval
interval p q = record { start = p; finish = q; goals_before = []; goals_after = [] }

abbrev intervals : List Interval
intervals =
    interval (at 2 4) (at 3 0) ∷ interval (at 1 2) (at 4 1) ∷ interval (at 2 4) (at 2 9) ∷ []

adjusted : adjust_intervals intervals ≡ interval (at 1 2) (at 2 4) ∷ interval (at 2 4) (at 4 1) ∷ []
unfolding adjust_intervals
adjusted = refl

abbrev two : List Interval
two = interval (at 1 0) (at 1 4) ∷ interval (at 2 0) (at 2 4) ∷ []

abbrev source : List String
source = "simp\n" ∷ "done" ∷ []

abbrev extracted : List TacticStep
extracted = step "simp" [] ∷ step "\ndone" [] ∷ []

extract_tactics-text_of_example :
    (p : Place) × (q : Place) × All (λ (j : Interval). IsUpTo p j.start) two
    × All (λ (j : Interval). IsUpTo j.finish q) two
    × (extract_snippet source p q ≡ some (text_of extracted))
unfolding adjust_intervals extract_tactics same_text
extract_tactics-text_of_example =
    extract_tactics-text_of two source extracted (λ e. cc) (refl, (refl, tt)) refl
