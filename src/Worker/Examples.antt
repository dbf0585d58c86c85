-- ===== src/Worker/Examples.antt =====
-- Runs of a worker at concrete answers of its process.
use mathlib.Core.Path.{subst}
use kimina_lean_server.Base.{
  ℕ, zero, suc, String, String_discrete, mem, discard, has_duplicates, Bool, true, false, ◌≡◌, ◌↔◌,
  refl, none, some, List, [], ◌∷◌, map, All, mem, length, keep,
}
use kimina_lean_server.Base.Int.{pos}
use kimina_lean_server.Base.Text.{starts_with, strip, contains}
use kimina_lean_server.Base.Text.Words.{remove_prefix, split_at}
use kimina_lean_server.Schemas.{ExecMessage, message, error_severity, info_severity}
use kimina_lean_server.Worker.{Try, returned, View, Saving, allocate_state_path, unlink_paths}
use kimina_lean_server.Worker.Files.{Adds}
use kimina_lean_server.Worker.Focus.{
  GoalGroupError, validate_goal_group, at, resume_goal_group, parse_continued,
}
use kimina_lean_server.Worker.Focus.Valid.{resume_goal_group-Focuses}
use kimina_lean_server.Worker.Create.{create_states_from_code}
use kimina_lean_server.Worker.Step.{Answers, Focus, step_state_with_tactics}
use kimina_lean_server.Worker.Step.Tidy.{
  tactics_of, state_paths, IsSettled, step_state_with_tactics-Adds,
}
use kimina_lean_server.Worker.Axioms.{extract_axioms}
use kimina_lean_server.Worker.Verify.{
  accepted, RawMessage, verify_complete_proof, compiled_text, all_messages,
}
use kimina_lean_server.Worker.Verify.Accepted.{
  IsSingle, IsAcceptable, verify_complete_proof-accepted,
}

-- A process whose states are numbers: the number of their goals.
abbrev counting : View ℕ
counting = record {
  goals = λ n. [];
  goal_ids = λ n. "a" ∷ "b" ∷ [];
  messages = λ n. [];
  is_solved = λ n. is_zero n;
}
  where
    is_zero : ℕ → Bool
    is_zero zero = true
    is_zero (suc n) = false

abbrev failure : List ExecMessage
failure = message error_severity "failed" ∷ []

-- The second save fails.
abbrev saving : ℕ → Saving
saving (suc zero) = record {
  candidates = "pg_2" ∷ [];
  no_name = failure;
  save_error = some failure;
}
saving n = record { candidates = "pg_1" ∷ "pg_3" ∷ []; no_name = failure; save_error = none }

failed_creation_leaves_nothing :
    (create_states_from_code counting (returned (1 ∷ 2 ∷ [])) saving ("st_0" ∷ [])).0 ≡ "st_0" ∷ []
unfolding create_states_from_code allocate_state_path unlink_paths mem discard String_discrete
failed_creation_leaves_nothing = refl

abbrev describe : GoalGroupError → List ExecMessage
describe e = failure

-- The tactic number 1 solves its goals, and the state of the tactic number 0 is saved.
abbrev answers : Answers ℕ
answers = record {
  loaded = returned 2;
  continued = λ ids. record { value_at = λ key. none; parsed = returned (length ids) };
  applied = λ k parent tactic site. applied k;
  saving = saving;
}
  where
    applied : ℕ → Try ℕ
    applied (suc zero) = returned 0
    applied n = returned 1

abbrev on_second_goal : Focus
on_second_goal = record { goal_id = none; auto_resume = none; goal_group = some (pos 1 ∷ []) }

step_state_with_tactics-Adds_example :
    let done =
      step_state_with_tactics counting describe answers on_second_goal ("simp" ∷ "rfl" ∷ []) [] in
    (tactics_of done.1 ≡ "simp" ∷ "rfl" ∷ [])
    × All IsSettled done.1
    × Adds [] (state_paths done.1) done.0
step_state_with_tactics-Adds_example =
    step_state_with_tactics-Adds counting describe answers on_second_goal ("simp" ∷ "rfl" ∷ []) []

passes : validate_goal_group (pos 1 ∷ []) 2 ≡ none
unfolding validate_goal_group has_duplicates mem
passes = refl

resume_goal_group-Focuses_example :
    (ids : List String) × (map (at (counting.goal_ids 2)) (pos 1 ∷ []) ≡ map some ids)
    × (resume_goal_group counting describe answers.continued 2 (pos 1 ∷ [])
        ≡ parse_continued counting describe (answers.continued ids))
resume_goal_group-Focuses_example =
    resume_goal_group-Focuses counting describe answers.continued 2 (pos 1 ∷ []) passes

abbrev said : String → RawMessage
said text = record { execs = message info_severity text ∷ []; kind = none }

abbrev compile : String → Try (List (List RawMessage))
compile text = returned ((said "'t' depends on axioms: [propext, Quot.sound]" ∷ []) ∷ [])

compile-IsSingle :
    (text : String) (units : List (List RawMessage))
    → compile text ≡ returned units
    → All IsSingle (all_messages units)
unfolding all_messages
compile-IsSingle text units e =
    let q : ((said "'t' depends on axioms: [propext, Quot.sound]" ∷ []) ∷ []) ≡ units = cc in
    subst (λ us. All IsSingle (all_messages us)) q ((_, refl), tt)

verify_complete_proof-accepted_example :
    ((verify_complete_proof compile "theorem t" "t" ("propext" ∷ [])).status ≡ accepted) ↔ (
      (units : List (List RawMessage)) × (compile (compiled_text "theorem t" "t") ≡ returned units)
      × IsAcceptable (all_messages units) ("propext" ∷ []))
verify_complete_proof-accepted_example =
    verify_complete_proof-accepted compile "theorem t" "t" ("propext" ∷ []) compile-IsSingle

reads_names :
    extract_axioms (message info_severity "'t' depends on axioms: [propext, Quot.sound]" ∷ [])
    ≡ "propext" ∷ "Quot.sound" ∷ []
unfolding extract_axioms starts_with remove_prefix strip split_at keep
reads_names = refl

-- A list of names that is printed on two lines is not read.
misses_broken_list :
    extract_axioms (message info_severity "'t' depends on axioms: [propext,\n sorryAx]" ∷ []) ≡ []
unfolding extract_axioms starts_with remove_prefix strip split_at keep contains
misses_broken_list = refl

-- The first message that mentions a list decides, whichever command has printed it.
reads_first_list :
    extract_axioms (
      message info_severity "depends on axioms: []"
      ∷ message info_severity "'t' depends on axioms: [bad]"
      ∷ [])
    ≡ []
unfolding extract_axioms starts_with remove_prefix strip split_at keep
reads_first_list = refl
