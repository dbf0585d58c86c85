-- ===== src/Worker/Step.antt =====
-- server/pantograph_worker.py: `step_state_with_tactics`.
pub mod Tidy
use kimina_lean_server.Base.{
  ℕ, ◌+◌, String, String_discrete, Bool, true, false, Option, none, some, List, [], ◌∷◌, map,
  length, discard, if◌then◌else◌,
}
use kimina_lean_server.Base.Int.{ℤ}
use kimina_lean_server.Schemas.{
  ExecStatus, open_goals, complete, error, ExecMessage, PantographGoal, PantographStepResult,
}
use kimina_lean_server.Worker.{Try, returned, raised, View, Saving, allocate_state_path}
use kimina_lean_server.Worker.Focus.{
  GoalGroupError, validate_goal_group, Continued, resume_goal_group,
}

-- `Site` of pantograph: the goal that a tactic is applied to.
pub record Site : Type 0 where
  pub goal_id : Option ℕ
  pub auto_resume : Option Bool

-- What the process answers during one call: to `goal_load_async`, to `goal.continue` for a list of
-- ids, and to the tactic number `k` at a state and a site; and what happens when its state is saved.
pub record Answers (G : Type 0) : Type 0 where
  pub loaded : Try G
  pub continued : List String → Continued G
  pub applied : ℕ → G → String → Site → Try G
  pub saving : ℕ → Saving

-- The focus that a request asks for.
pub record Focus : Type 0 where
  pub goal_id : Option ℕ
  pub auto_resume : Option Bool
  pub goal_group : Option (List ℤ)

abbrev step_result :
    String
    → ExecStatus
    → Option String
    → List PantographGoal
    → List ExecMessage
    → PantographStepResult
step_result tactic status state_path goals messages = record {
  tactic = tactic;
  status = status;
  state_path = state_path;
  goals = goals;
  messages = messages;
  debug = none;
}

abbrev failed_step : List ExecMessage → String → PantographStepResult
failed_step messages tactic = step_result tactic error none [] messages

module _ {G : Type 0} (view : View G) where
  -- The part of `_step_one_tactic` that follows the tactic.
  unfoldable pub save_child : String → G → Saving → List String → List String × PantographStepResult
  save_child tactic child io files =
      if view.is_solved child
      then (files, step_result tactic complete none [] (view.messages child))
      else elim (allocate_state_path io.candidates files) [
        | none ↦ (files, failed_step io.no_name tactic)
        | some path ↦ elim io.save_error [
          | some messages ↦
              (discard String_discrete path (path ∷ files), failed_step messages tactic)
          | none ↦ (
            path ∷ files,
            step_result tactic open_goals (some path) (view.goals child) (view.messages child),
          )
        ]
      ]

  -- _step_one_tactic, with the answer to the tactic
  unfoldable pub step_one_tactic :
      String → Try G → Saving → List String → List String × PantographStepResult
  unfolding save_child
  step_one_tactic tactic (raised messages) io files = (files, failed_step messages tactic)
  step_one_tactic tactic (returned child) io files = save_child tactic child io files

  -- The loop over the tactics, from the tactic number `k`.
  unfoldable pub step_tactics :
      Answers G → G → Site → ℕ → List String → List String → List String × List PantographStepResult
  unfolding step_one_tactic
  step_tactics a parent site k [] files = (files, [])
  step_tactics a parent site k (tactic ∷ tactics) files =
      let done = step_one_tactic tactic (a.applied k parent tactic site) (a.saving k) files in
      let rest = step_tactics a parent site (k + 1) tactics done.0 in (rest.0, done.1 ∷ rest.1)

  module _ (describe : GoalGroupError → List ExecMessage) where
    -- The state and the site that the tactics are applied to.
    unfoldable pub focused : Answers G → Focus → G → Try (G × Site)
    unfolding resume_goal_group validate_goal_group
    focused a f parent = elim f.goal_group [
      | none ↦ returned (parent, record { goal_id = f.goal_id; auto_resume = f.auto_resume })
      | some group ↦ elim (validate_goal_group group (length (view.goal_ids parent))) [
        | some e ↦ raised (describe e)
        | none ↦ elim (resume_goal_group view describe a.continued parent group) [
          | raised messages ↦ raised messages
          | returned state ↦ returned (state, record { goal_id = none; auto_resume = none })
        ]
      ]
    ]

    unfoldable pub load_and_focus : Answers G → Focus → Try (G × Site)
    unfolding focused
    load_and_focus a f = elim a.loaded [
      | raised messages ↦ raised messages
      | returned parent ↦ focused a f parent
    ]

    -- _step_state_with_tactics
    unfoldable pub step_state_with_tactics :
        Answers G → Focus → List String → List String → List String × List PantographStepResult
    unfolding load_and_focus step_tactics
    step_state_with_tactics a f tactics files = elim (load_and_focus a f) [
      | raised messages ↦ (files, map (failed_step messages) tactics)
      | returned (parent, site) ↦ step_tactics a parent site 0 tactics files
    ]
