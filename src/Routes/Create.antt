-- ===== src/Routes/Create.antt =====
-- server/routers/exec.py: `create_one` of the handler `create_states`. A `Visit` holds what the task
-- reads and is answered while it handles the item, the hash of headers among it.
pub mod Work
pub mod Answers
pub mod Stored
use kimina_lean_server.Base.{
  ℕ, ◌+◌, String, Bool, true, false, Option, none, some, List, [], ◌∷◌, map, if◌then◌else◌,
}
use kimina_lean_server.Lifecycle.{Registry, begin, finish, should_cancel}
use kimina_lean_server.StateStore.{Store, Origin, Result, ok, err, Error, put}
use kimina_lean_server.Schemas.{
  SavedState, CreateAnswer, ExecStatus, error, overloaded, cancelled, ExecMessage, Severity,
  error_severity, message, DebugInfo, ExecDiagnostics, diagnostics_of, GoalInfo, PantographGoal,
  goal_infos_from_worker,
}
use kimina_lean_server.Backend.Results.{
  Supply, cancelled_text, no_diagnostics, discard_unpromoted_state_paths,
}
use kimina_lean_server.Backend.Lane.{
  Acquired, worker, no_available_worker, failed, Health, Disposal, return_worker,
}
use kimina_lean_server.Split.{split_snippet}
use kimina_lean_server.Routes.Checks.{CreateStatesItem}
use kimina_lean_server.Routes.Positions.{offset_messages}

pub data Created : Type 0 where
  answered : CreateAnswer → Created
  raised : String → Created

-- ExecStateInfo and ExecCreateStatesResult
pub record StateInfo : Type 0 where
  pub state_token : String
  pub goals : List GoalInfo

pub record CreateStatesResult : Type 0 where
  pub item_id : String
  pub status : ExecStatus
  pub states : List StateInfo
  pub messages : List ExecMessage
  pub diagnostics : ExecDiagnostics

pub record Visit : Type 0 where
  pub env_profile : String
  pub header_hash : String → String  -- of a header
  pub begin_at : ℕ
  pub acquired : Acquired
  pub acquire_ms : ℕ
  pub after_acquire : Registry
  pub created : String → Created  -- what the worker answers to a body
  pub lean_ms : ℕ
  pub after_step : Registry
  pub others : Store → Store
  pub supply : ℕ → Supply
  pub store_error : Error → String
  pub registry : Registry → Registry
  pub finish_at : ℕ
  pub health : Health

abbrev pub origin_of_item : CreateStatesItem → Visit → Origin
origin_of_item item v = record {
  item_id = item.item_id;
  env_profile = v.env_profile;
  header = (split_snippet item.code).header;
  header_hash = v.header_hash (split_snippet item.code).header;
}

abbrev pub prepend_info :
    StateInfo → Store × Result (List StateInfo) → Store × Result (List StateInfo)
prepend_info i (s, ok is) = (s, ok (i ∷ is))
prepend_info i (s, err e) = (s, err e)

-- The list of `StateInfo`, from the state number `k`.
unfoldable pub put_states :
    Origin → (ℕ → Supply) → ℕ → List SavedState → Store → Store × Result (List StateInfo)
unfolding put
put_states o supply k [] s = (s, ok [])
put_states o supply k (state ∷ states) s =
    let done = put state.path o (supply k).candidates (supply k).now s in
    elim done.1 [
      | err e ↦ (done.0, err e)
      | ok token ↦
          prepend_info (record { state_token = token; goals = goal_infos_from_worker state.goals })
            (put_states o supply (k + 1) states done.0)
    ]

abbrev failed_result : CreateStatesItem → ExecStatus → String → ExecDiagnostics → CreateStatesResult
failed_result item status text diagnostics = record {
  item_id = item.item_id;
  status = status;
  states = [];
  messages = message error_severity text ∷ [];
  diagnostics = diagnostics;
}

abbrev cancelled_create : CreateStatesItem → ExecDiagnostics → CreateStatesResult
cancelled_create item diagnostics =
    failed_result item cancelled (cancelled_text item.item_id) diagnostics

-- The result once the states were stored, or the storing raised.
abbrev pub stored :
    CreateStatesItem
    → Visit
    → CreateAnswer
    → ExecDiagnostics
    → Store × Result (List StateInfo)
    → Store × CreateStatesResult
stored item v a diagnostics (s, err e) =
    (s, failed_result item error (v.store_error e) no_diagnostics)
stored item v a diagnostics (s, ok infos) = (
  s,
  record {
    item_id = item.item_id;
    status = a.status;
    states = infos;
    messages = offset_messages a.messages (split_snippet item.code).header_line_count;
    diagnostics = diagnostics;
  },
)

abbrev pub paths_of : List SavedState → List (Option String)
paths_of states = map (λ (x : SavedState). some x.path) states

-- The part of `create_one` that has a worker.
pub create_with_worker : CreateStatesItem → Visit → Store → Store × CreateStatesResult
unfolding put_states should_cancel discard_unpromoted_state_paths offset_messages
create_with_worker item v s = elim (v.created (split_snippet item.code).body) [
  | raised text ↦ (s, failed_result item error text no_diagnostics)
  | answered a ↦
      let diagnostics = diagnostics_of v.acquire_ms v.lean_ms a.debug in
      let s' = v.others s in
      if should_cancel item.item_id v.after_step
      then (
        discard_unpromoted_state_paths (paths_of a.states) s',
        cancelled_create item diagnostics,
      )
      else stored item v a diagnostics (put_states (origin_of_item item v) v.supply 0 a.states s')
]

-- The body of `try`, with the worker that was leased.
pub create_started : CreateStatesItem → Visit → Store → Store × CreateStatesResult × Option ℕ
unfolding create_with_worker should_cancel
create_started item v s = elim v.acquired [
  | failed text ↦ (s, failed_result item error text no_diagnostics, none)
  | no_available_worker text ↦
      (s, failed_result item overloaded text (diagnostics_of v.acquire_ms 0 none), none)
  | worker n ↦
      if should_cancel item.item_id v.after_acquire
      then (s, cancelled_create item (diagnostics_of v.acquire_ms 0 none), some n)
      else (let done = create_with_worker item v s in (done.0, done.1, some n))
]

-- create_one, with what became of the worker that was leased
unfoldable pub create_one :
    CreateStatesItem
    → Visit
    → Store
    → Registry
    → Store × Registry × CreateStatesResult × Option (ℕ × Disposal)
unfolding create_started begin finish return_worker
create_one item v s g =
    let begun = begin item.item_id v.begin_at g in
    let done = create_started item v s in
    if begun.1.started
    then (
      done.0,
      (finish item.item_id v.finish_at (v.registry begun.0)).0,
      done.1,
      elim done.2 [ none ↦ none | some n ↦ some (n, return_worker v.health) ],
    )
    else (s, begun.0, cancelled_create item no_diagnostics, none)
