-- ===== src/Backend/Results.antt =====
-- server/exec_backends.py: the results of an item, and what the promotion of the worker's states
-- does to the store. The text of a store error is an argument.
use Prim.Native.String as Text
use kimina_lean_server.Base.{
  ℕ, ◌+◌, max, String, Option, none, some, List, [], ◌∷◌, map, if◌then◌else◌, string_key,
}
use kimina_lean_server.Base.Dict
use kimina_lean_server.Base.Text.Repr.{repr}
use kimina_lean_server.StateStore.{Store, Result, ok, err, create_child}
use kimina_lean_server.Schemas.{
  ExecStatus, error, invalid_state_token, error_severity, DebugInfo, ExecDiagnostics, StepBatchItem,
  StepResult, StepBatchResult, PantographStepResult, is_open, message, diagnostics_of,
  goal_infos_from_worker,
}

abbrev failed_tactic : ExecStatus → String → String → StepResult
failed_tactic status text tactic = record {
  tactic = tactic;
  status = status;
  state_token = none;
  goals = [];
  messages = message error_severity text ∷ [];
}

-- _item_status_result
abbrev pub item_status_result :
    StepBatchItem → ExecStatus → String → ExecDiagnostics → StepBatchResult
item_status_result item status text diagnostics = record {
  node_id = item.node_id;
  results = map (failed_tactic status text) item.tactics;
  diagnostics = diagnostics;
}

abbrev pub no_diagnostics : ExecDiagnostics
no_diagnostics = diagnostics_of 0 0 none

-- _item_error_result
abbrev pub item_error_result : StepBatchItem → String → ExecDiagnostics → StepBatchResult
item_error_result item text diagnostics = item_status_result item error text diagnostics

-- _invalid_token_result, with the text of StateTokenNotFound
abbrev pub invalid_token_result : StepBatchItem → StepBatchResult
invalid_token_result item =
    item_status_result item invalid_state_token
      (Text.◌++◌ "state token not found: " item.state_token) no_diagnostics

-- `f"item {item_id!r} is cancelled"`
abbrev pub cancelled_text : String → String
cancelled_text item_id = Text.◌++◌ "item " (Text.◌++◌ (repr item_id) " is cancelled")

-- _debug_from_worker_results
abbrev max_debug : DebugInfo → Option DebugInfo → Option DebugInfo
max_debug d none = some d
max_debug d (some e) =
    some (record { cpu_max = max d.cpu_max e.cpu_max; memory_max = max d.memory_max e.memory_max })

unfoldable pub debug_from_worker_results : List PantographStepResult → Option DebugInfo
debug_from_worker_results [] = none
debug_from_worker_results (r ∷ rs) =
    let rest = debug_from_worker_results rs in
    elim r.debug [ none ↦ rest | some d ↦ max_debug d rest ]

abbrev pub step_result : PantographStepResult → Option String → StepResult
step_result r state_token = record {
  tactic = r.tactic;
  status = r.status;
  state_token = state_token;
  goals = goal_infos_from_worker r.goals;
  messages = r.messages;
}

-- `result.state_path` of a result that is open.
abbrev pub promoted_path : PantographStepResult → Option String
promoted_path r = if is_open r.status then r.state_path else none

-- What the token factory and the clocks give to one call of `create_child`.
pub record Supply : Type 0 where
  pub candidates : List String
  pub now : ℕ
  pub later : ℕ

abbrev pub prepend :
    StepResult → Store × Result (List StepResult) → Store × Result (List StepResult)
prepend r (s, ok rs) = (s, ok (r ∷ rs))
prepend r (s, err e) = (s, err e)

-- The loop of `_step_batch_result_from_worker_results`, from the result number `k`.
unfoldable pub promote_results :
    String → (ℕ → Supply) → ℕ → List PantographStepResult → Store → Store × Result (List StepResult)
unfolding create_child
promote_results parent supply k [] s = (s, ok [])
promote_results parent supply k (r ∷ rs) s = elim (promoted_path r) [
  | none ↦ prepend (step_result r none) (promote_results parent supply (k + 1) rs s)
  | some child ↦
      let made =
        create_child parent child (supply k).candidates (supply k).now (supply k).later s in
      elim made.1 [
        | err e ↦ (made.0, err e)
        | ok token ↦
            prepend (step_result r (some token)) (promote_results parent supply (k + 1) rs made.0)
      ]
]

-- discard_unpromoted_state_paths
unfoldable pub discard_unpromoted_state_paths : List (Option String) → Store → Store
discard_unpromoted_state_paths [] s = s
discard_unpromoted_state_paths (none ∷ ps) s = discard_unpromoted_state_paths ps s
discard_unpromoted_state_paths (some p ∷ ps) s =
    discard_unpromoted_state_paths ps (record s { bins = Dict.pop p s.bins })
