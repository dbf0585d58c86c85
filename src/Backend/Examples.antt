-- ===== src/Backend/Examples.antt =====
-- Runs of the batches of server/exec_backends.py.
use kimina_lean_server.Base.Text.Repr.{repr}
use kimina_lean_server.Backend.Results.{cancelled_text}
use kimina_lean_server.Base.{
  false, zero, suc, ◌≤◌, ◌≡◌, ◌↔◌, refl, String, none, some, List, [], ◌∷◌, true, arith, All,
  length,
}
use kimina_lean_server.Base.Int.{pos}
use kimina_lean_server.Lifecycle.{Registry}
use kimina_lean_server.StateStore.{readable, Store, StateRecord}
use kimina_lean_server.StateStore.Pins.{pins}
use kimina_lean_server.Schemas.{StepBatchItem, PantographStepResult, open_goals}
use kimina_lean_server.Backend.Caps.{
  StepBatchBackendConfig, ItemWithin, attempts_of, validate_step_batch_caps,
  validate_step_batch_caps-none,
}
use kimina_lean_server.Backend.Lane.{
  ResolvedStepItem, Moment, Health, Lane, worker, returned, run_lane,
}
use kimina_lean_server.Backend.Lane.Slots.{Answers, Serves}
use kimina_lean_server.Backend.Lane.Filling.{run_lane-Serves}
use kimina_lean_server.Backend.Lane.Leases.{held, run_lane-held}
use kimina_lean_server.Backend.Request.{Clock, Run, lane_start, execute_step_batch_process_pool}
use kimina_lean_server.Backend.Request.Answer.{AnswersEach, execute-AnswersEach, pins-execute}

abbrev state : StateRecord
state = record {
  state_token = "st_old";
  item_id = "item";
  env_profile = "default";
  header = "import Mathlib";
  header_hash = "h";
  created_at = 10;
  last_accessed_at = 20;
  size_bytes = 60;
}

-- One state, and a file that the worker wrote.
abbrev store : Store
store = record {
  ttl = 3600;
  max_bytes = pos 1000;
  records = ("st_old", state) ∷ [];
  tokens_by_item_id = ("item", "st_old" ∷ []) ∷ [];
  pinned = [];
  bins =
      ("st_old", record { size = 60; mtime = 20 })
      ∷ ("pg_1", record { size = 50; mtime = 30 })
      ∷ [];
  sidecars = ("st_old", record { content = readable state; mtime = 20 }) ∷ [];
}

abbrev registry : Registry
registry = record { retention = 660; records = [] }

abbrev item_of : String → String → StepBatchItem
item_of node_id state_token = record {
  node_id = node_id;
  state_token = state_token;
  tactics = "simp" ∷ "ring" ∷ [];
  acquire_timeout_ms = 5000;
  step_timeout_ms = 1500;
  debug = false;
  goal_id = none;
  auto_resume = none;
  goal_group = none;
}

-- The token of the second item is not known.
abbrev items : List StepBatchItem
items = item_of "first" "st_old" ∷ item_of "second" "st_gone" ∷ []

abbrev stepped : PantographStepResult
stepped = record {
  tactic = "simp";
  status = open_goals;
  state_path = some "pg_1";
  goals = [];
  messages = [];
  debug = none;
}

abbrev healthy : Health
healthy = record { alive = true; agc_returned = true; alive_after = true }

abbrev moment : Moment
moment = record {
  at_start = registry;
  acquired = worker 7;
  acquire_ms = 3;
  after_acquire = registry;
  stepped = returned (stepped ∷ []);
  lean_ms = 20;
  after_step = registry;
  others = λ s. s;
  supply = λ k. record { candidates = "st_new" ∷ []; now = 50; later = 51 };
  store_error = λ e. "store error";
  health = healthy;
}

abbrev run : Run
run = record { moment = λ x. moment; health = λ k. healthy; registry = λ g. g; order = 0 ∷ [] }

abbrev clock : Clock
clock = record { store_now = λ i. 40; lifecycle_now = λ i. 41; finish_at = 60 }

execute-AnswersEach_example :
    AnswersEach items (execute_step_batch_process_pool clock run (pos 2) items store registry).2
execute-AnswersEach_example = execute-AnswersEach clock run (pos 2) items store registry

pins-execute_example :
    pins "st_old" (execute_step_batch_process_pool clock run (pos 2) items store registry).0
    ≡ pins "st_old" store
pins-execute_example = pins-execute "st_old" clock run (pos 2) items store registry (λ x s. refl)

abbrev resolved : ResolvedStepItem
resolved = record { index = 0; item = item_of "first" "st_old"; state = state }

abbrev lane : Lane
lane = lane_start (none ∷ none ∷ []) store

run_lane-held_example :
    (held (run_lane ((resolved, moment) ∷ []) healthy lane).0.events ≡ some none)
    × ((run_lane ((resolved, moment) ∷ []) healthy lane).0.lease ≡ none)
run_lane-held_example = run_lane-held ((resolved, moment) ∷ []) healthy lane refl refl

nothing_answered : Answers items (none ∷ none ∷ [])
nothing_answered zero r e = cc
nothing_answered (suc zero) r e = cc
nothing_answered (suc (suc i)) r e = cc

run_lane-Serves_example :
    Serves items
      ((resolved, moment) ∷ [])
      (none ∷ none ∷ [])
      (run_lane ((resolved, moment) ∷ []) healthy lane).0.slots
      (run_lane ((resolved, moment) ∷ []) healthy lane).1
run_lane-Serves_example =
    run_lane-Serves items ((resolved, moment) ∷ []) healthy lane ((refl, omega arith), tt)
      nothing_answered

abbrev config : StepBatchBackendConfig
config = record {
  max_items_per_step_batch = 2;
  max_tactics_per_step_item = 2;
  max_attempts_per_step_batch = 3;
  max_lean_processes_per_env_profile = 2;
  max_acquire_timeout_ms = 5000;
  max_step_timeout_ms = 5000;
}

validate_step_batch_caps-none_example :
    validate_step_batch_caps config items ≡ none
    ↔ ((length items ≤ 2) × All (ItemWithin config) items × (attempts_of items ≤ 3))
validate_step_batch_caps-none_example = validate_step_batch_caps-none config items

quoted_name :
    (cancelled_text "a" ≡ "item 'a' is cancelled")
    × (cancelled_text "it's" ≡ "item \"it's\" is cancelled")
    × (cancelled_text "'\"\n\\" ≡ "item '\\'\"\\n\\\\' is cancelled")
unfolding repr
quoted_name = (refl, refl, refl)
