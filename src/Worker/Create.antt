-- ===== src/Worker/Create.antt =====
-- server/pantograph_worker.py: `create_states_from_code`.
pub mod Tidy
use kimina_lean_server.Base.{
  ℕ, suc, ◌+◌, String, Bool, true, false, Option, none, some, List, [], ◌∷◌, ◌++◌,
}
use kimina_lean_server.Schemas.{
  ExecStatus, open_goals, complete, error, ExecMessage, DebugInfo, SavedState, CreateAnswer,
}
use kimina_lean_server.Worker.{
  Try, returned, raised, View, Saving, allocate_state_path, unlink_paths,
}

-- What the loop has done: the files, `written_paths`, and `states` or the exception.
pub record Progress : Type 0 where
  pub files : List String
  pub written_paths : List String
  pub outcome : Try (List SavedState)

module _ {G : Type 0} (view : View G) where
  abbrev saved_state : String → G → SavedState
  saved_state path target = record { path = path; goals = view.goals target }

  -- The loop over the targets, from the target number `k`.
  pub save_targets :
      (ℕ → Saving) → ℕ → List G → List String → List String → List SavedState → Progress
  save_targets io k [] files written states = record {
    files = files;
    written_paths = written;
    outcome = returned states;
  }
  save_targets io k (target ∷ targets) files written states =
      elim (allocate_state_path (io k).candidates files) [
        | none ↦ record { files = files; written_paths = written; outcome = raised (io k).no_name }
        | some path ↦ elim (io k).save_error [
          | some messages ↦ record {
            files = path ∷ files;
            written_paths = written ++ path ∷ [];
            outcome = raised messages;
          }
          | none ↦
              save_targets io (k + 1) targets (path ∷ files) (written ++ path ∷ [])
                (states ++ saved_state path target ∷ [])
        ]
      ]

abbrev create_answer : ExecStatus → List SavedState → List ExecMessage → CreateAnswer
create_answer status states messages = record {
  status = status;
  states = states;
  messages = messages;
  debug = none;
}

-- How `_create_states_from_code` ends.
unfoldable pub close_create : Progress → List String × CreateAnswer
unfolding unlink_paths
close_create p = elim p.outcome [
  | returned states ↦ (p.files, create_answer open_goals states [])
  | raised messages ↦ (unlink_paths p.written_paths p.files, create_answer error [] messages)
]

-- _create_states_from_code, with what `load_sorry_async` answers
unfoldable pub create_states_from_code :
    {G : Type 0} → View G → Try (List G) → (ℕ → Saving) → List String → List String × CreateAnswer
unfolding save_targets close_create
create_states_from_code view (raised messages) io files = (files, create_answer error [] messages)
create_states_from_code view (returned []) io files = (files, create_answer complete [] [])
create_states_from_code view (returned (target ∷ targets)) io files =
    close_create (save_targets view io 0 (target ∷ targets) files [] [])
