-- ===== src/Worker.antt =====
-- server/pantograph_worker.py: `PantographWorker`, the operations of a worker on the Pantograph
-- process that it drives. The process is a parameter: what it answers to a call enters as a value,
-- and an exception enters as the messages that `exception_to_exec_messages` makes of it. The files
-- of the directory of states are a list of names, as in StateStore.
pub mod Focus
pub mod Create
pub mod Step
pub mod Axioms
pub mod Verify
pub mod Files
mod Examples
use kimina_lean_server.Base.{
  ℕ, String, String_discrete, Bool, true, false, Option, none, some, List, [], ◌∷◌, mem, discard,
  if◌then◌else◌,
}
use kimina_lean_server.Schemas.{ExecMessage, PantographGoal, DebugInfo}

-- What a call returns, or the messages of the exception that it raises.
pub data Try {ℓ} (A : Type ℓ) : Type ℓ where
  returned : A → Try A
  raised : List ExecMessage → Try A

-- What the worker reads off a goal state of the process, with `goal_state_to_goals` and
-- `messages_to_exec_messages` applied, and the ids of its goals.
pub record View (G : Type 0) : Type 0 where
  pub goals : G → List PantographGoal
  pub goal_ids : G → List String
  pub messages : G → List ExecMessage
  pub is_solved : G → Bool

-- What the system gives while one state is saved: the names that `tempfile` tries in turn, with the
-- messages of its exception if all of them are taken, and what `goal_save_async` does.
pub record Saving : Type 0 where
  pub candidates : List String
  pub no_name : List ExecMessage
  pub save_error : Option (List ExecMessage)  -- if `goal_save_async` raises

-- _allocate_state_path: the name of the file that is created.
unfoldable pub allocate_state_path : List String → List String → Option String
allocate_state_path [] files = none
allocate_state_path (name ∷ names) files =
    let rest = allocate_state_path names files in
    if mem String_discrete name files then rest else some name

-- _unlink_paths
unfoldable pub unlink_paths : List String → List String → List String
unlink_paths [] files = files
unlink_paths (path ∷ paths) files = unlink_paths paths (discard String_discrete path files)
