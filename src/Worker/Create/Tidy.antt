-- ===== src/Worker/Create/Tidy.antt =====
-- No file is left behind by `create_states_from_code` but those of the states that it reports.
use kimina_lean_server.Base.{String, ◌≡◌, List, map}
use kimina_lean_server.Schemas.{SavedState, PantographGoal}
use kimina_lean_server.Worker.{Try, returned, raised, View}

abbrev pub paths : List SavedState → List String
paths states = map (λ (s : SavedState). s.path) states

abbrev pub goals_of : List SavedState → List (List PantographGoal)
goals_of states = map (λ (s : SavedState). s.goals) states

module _ {G : Type 0} (view : View G) where
  -- The loop adds the files that it has written, and if it ends without an exception its states
  -- are one for each target, in their order, with the files as their paths.
  abbrev Reports : List (List PantographGoal) → List String → Try (List SavedState) → Type 0
  Reports goals written (raised messages) = Unit
  Reports goals written (returned states) = (paths states ≡ written) × (goals_of states ≡ goals)
