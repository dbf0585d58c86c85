-- ===== src/Worker/Step/Tidy.antt =====
-- What `step_state_with_tactics` answers for each tactic, and the files that it leaves.
use mathlib.Core.List.{append-nil, append_assoc}
use kimina_lean_server.Base.{
  ℕ, ◌+◌, String, Bool, true, false, ◌≡◌, refl, ap, inl, inr, Option, none, some, Option-cases,
  List, [], ◌∷◌, ◌++◌, map, All, Bool-cases,
}
use kimina_lean_server.Schemas.{ExecMessage, PantographStepResult, is_open}
use kimina_lean_server.Worker.{Try, returned, raised, View, Saving, allocate_state_path}
use kimina_lean_server.Worker.Files.{Adds, allocate-fresh, nothing-Adds, write-Adds, undo-Adds}
use kimina_lean_server.Worker.Focus.{GoalGroupError}
use kimina_lean_server.Worker.Step.{
  Site, Answers, Focus, failed_step, save_child, step_one_tactic, step_tactics, load_and_focus,
  step_state_with_tactics,
}

abbrev with_path : Option String → List String → List String
with_path none paths = paths
with_path (some path) paths = path ∷ paths

-- The files of the states that the results report.
pub state_paths : List PantographStepResult → List String
state_paths [] = []
state_paths (r ∷ rs) = with_path r.state_path (state_paths rs)

abbrev is_some {ℓ} : {A : Type ℓ} → Option A → Bool
is_some none = false
is_some (some a) = true

-- A result has a state exactly if it is open.
abbrev pub IsSettled : PantographStepResult → Type 0
IsSettled r = is_open r.status ≡ is_some r.state_path

abbrev pub tactics_of : List PantographStepResult → List String
tactics_of results = map (λ (r : PantographStepResult). r.tactic) results

-- One result: for its tactic, settled, and with the file of its state as the only new one.
abbrev Steps : List String → List String → String → List String × PantographStepResult → Type 0
Steps before written tactic done =
    (done.1.tactic ≡ tactic)
    × IsSettled done.1
    × Adds before (written ++ with_path done.1.state_path []) done.0

module _ {G : Type 0} (view : View G) where
  save_child-Steps :
      (tactic : String) (child : G) (io : Saving) (before written files : List String)
      → Adds before written files
      → Steps before written tactic (save_child view tactic child io files)
  unfolding save_child
  save_child-Steps tactic child io before written files h =
      elim (Bool-cases (view.is_solved child)) [
        | inl s ↦ rw (s, append-nil written) (refl, refl, h)
        | inr s ↦ elim (Option-cases (allocate_state_path io.candidates files)) [
          | inl n ↦ rw (s, n, append-nil written) (refl, refl, h)
          | inr (path, n) ↦
              let fresh = allocate-fresh io.candidates files path n in
              elim (Option-cases io.save_error) [
                | inl r ↦ rw (s, n, r) (refl, refl, write-Adds before written files path h fresh)
                | inr (messages, r) ↦
                    rw (s, n, r, append-nil written)
                      (refl, refl, undo-Adds before written files path h fresh)
              ]
        ]
      ]

  step_one_tactic-Steps :
      (tactic : String) (answer : Try G) (io : Saving) (before written files : List String)
      → Adds before written files
      → Steps before written tactic (step_one_tactic view tactic answer io files)
  unfolding step_one_tactic
  step_one_tactic-Steps tactic (raised messages) io before written files h =
      rw (append-nil written) (refl, refl, h)
  step_one_tactic-Steps tactic (returned child) io before written files h =
      save_child-Steps tactic child io before written files h

  abbrev Answered :
      List String → List String → List String → List String × List PantographStepResult → Type 0
  Answered before written tactics done =
      (tactics_of done.1 ≡ tactics)
      × All IsSettled done.1
      × Adds before (written ++ state_paths done.1) done.0

  with_path-append :
      (written : List String) (path : Option String) (paths : List String)
      → (written ++ with_path path []) ++ paths ≡ written ++ with_path path paths
  with_path-append written none paths = ap (λ l. l ++ paths) (append-nil written)
  with_path-append written (some path) paths = append_assoc written (path ∷ []) paths

  step_tactics-Answered :
      (a : Answers G) (parent : G) (site : Site) (k : ℕ)
      (tactics before written files : List String)
      → Adds before written files
      → Answered before written tactics (step_tactics view a parent site k tactics files)
  unfolding step_tactics state_paths
  step_tactics-Answered a parent site k [] before written files h =
      rw (append-nil written) (refl, tt, h)
  step_tactics-Answered a parent site k (tactic ∷ tactics) before written files h =
      let answer = a.applied k parent tactic site in
      let done = step_one_tactic view tactic answer (a.saving k) files in
      let one = step_one_tactic-Steps tactic answer (a.saving k) before written files h in
      let rest =
        step_tactics-Answered a parent site (k + 1) tactics before
          (written ++ with_path done.1.state_path []) done.0 one.2 in
      let paths = state_paths (step_tactics view a parent site (k + 1) tactics done.0).1 in
      (
        cc (one.0, rest.0),
        (one.1, rest.1),
        rw (with_path-append written done.1.state_path paths) at rest.2,
      )

  failed-Answered :
      (messages : List ExecMessage) (tactics files : List String)
      → Answered files [] tactics (files, map (failed_step messages) tactics)
  unfolding state_paths
  failed-Answered messages [] files = (refl, tt, nothing-Adds files)
  failed-Answered messages (tactic ∷ tactics) files =
      let rest = failed-Answered messages tactics files in (cc (rest.0), (refl, rest.1), rest.2)

-- Whatever the process answers, a step has one result for each tactic, in their order; a result has
-- a state exactly if it is open; and the directory gains exactly the files of these states, each new
-- and each once, so that no failed tactic leaves a file behind.
pub step_state_with_tactics-Adds :
    {G : Type 0} (view : View G) (describe : GoalGroupError → List ExecMessage) (a : Answers G)
    (f : Focus) (tactics files : List String)
    → let done = step_state_with_tactics view describe a f tactics files in
      (tactics_of done.1 ≡ tactics) × All IsSettled done.1 × Adds files (state_paths done.1) done.0
unfolding step_state_with_tactics
step_state_with_tactics-Adds view describe a f tactics files =
    go (load_and_focus view describe a f) refl
  where
    go :
        (r : Try _)
        → load_and_focus view describe a f ≡ r
        → Answered view files [] tactics (step_state_with_tactics view describe a f tactics files)
    go (raised messages) e =
        rw (e, step_state_with_tactics) (failed-Answered view messages tactics files)
    go (returned (parent, site)) e =
        rw (e, step_state_with_tactics)
          (step_tactics-Answered view a parent site 0 tactics files [] files (nothing-Adds files))
