-- ===== src/Backend/Lane.antt =====
-- server/exec_backends.py: `_run_process_pool_lane` and `return_worker`. A lane is a task; between two
-- of its suspensions it runs alone. An item's `Moment` holds what the lane reads and is answered
-- while it works on the item: the registry at each `should_cancel`, the worker or the refusal of
-- `get_worker`, the worker's results, and what the other tasks did to the store meanwhile.
pub mod Leases
pub mod Slots
pub mod Filling
pub mod Pins
pub mod Schedule
use kimina_lean_server.Base.{
  ℕ, ◌+◌, String, Bool, true, false, Option, none, some, List, [], ◌∷◌, map, if◌then◌else◌, set,
}
use kimina_lean_server.Lifecycle.{Registry, should_cancel}
use kimina_lean_server.StateStore.{Store, StateRecord, Result, ok, err, Error}
use kimina_lean_server.Schemas.{
  overloaded, cancelled, StepBatchItem, StepResult, StepBatchResult, PantographStepResult,
  diagnostics_of, ExecDiagnostics,
}
use kimina_lean_server.Backend.Timeout.{timeout_seconds}
use kimina_lean_server.Backend.Results.{
  item_status_result, item_error_result, cancelled_text, debug_from_worker_results, Supply,
  promote_results, discard_unpromoted_state_paths,
}

-- ResolvedStepItem
pub record ResolvedStepItem : Type 0 where
  pub index : ℕ
  pub item : StepBatchItem
  pub state : StateRecord

-- What `return_worker` finds: `is_alive`, whether `agc` returned, `is_alive` after it.
pub record Health : Type 0 where
  pub alive : Bool
  pub agc_returned : Bool
  pub alive_after : Bool

pub data Disposal : Type 0 where
  released destroyed : Disposal

-- return_worker
unfoldable pub return_worker : Health → Disposal
return_worker h =
    if h.alive
    then (if h.agc_returned then (if h.alive_after then released else destroyed) else destroyed)
    else destroyed

pub data Acquired : Type 0 where
  worker : ℕ → Acquired
  no_available_worker : String → Acquired  -- NoAvailablePantographWorkerError
  failed : String → Acquired  -- any other exception

pub data Stepped : Type 0 where
  returned : List PantographStepResult → Stepped
  raised : String → Stepped

pub record Moment : Type 0 where
  pub at_start : Registry
  pub acquired : Acquired
  pub acquire_ms : ℕ
  pub after_acquire : Registry
  pub stepped : Stepped
  pub lean_ms : ℕ
  pub after_step : Registry
  pub others : Store → Store
  pub supply : ℕ → Supply
  pub store_error : Error → String
  pub health : Health

-- What a lane does with workers; a worker is used with a timeout in seconds.
pub data LaneEvent : Type 0 where
  leases : ℕ → LaneEvent
  uses : ℕ → ℕ → LaneEvent
  returns : ℕ → Disposal → LaneEvent

-- The slots and the store are shared by the lanes; the events stand with the last first.
pub record Lane : Type 0 where
  pub slots : List (Option StepBatchResult)
  pub store : Store
  pub lease : Option ℕ
  pub events : List LaneEvent

abbrev fill : ResolvedStepItem → StepBatchResult → Lane → Lane
fill x r lane = record lane { slots = set lane.slots x.index (some r) }

abbrev pub paths_of : List PantographStepResult → List (Option String)
paths_of rs = map (λ r. r.state_path) rs

abbrev cancelled_result : ResolvedStepItem → ExecDiagnostics → StepBatchResult
cancelled_result x diagnostics =
    item_status_result x.item cancelled (cancelled_text x.state.item_id) diagnostics

-- The slot of an item whose results were promoted, or whose promotion raised.
abbrev pub promoted :
    ResolvedStepItem → Moment → ℕ → ExecDiagnostics → Store × Result (List StepResult) → Lane → Lane
promoted x m acquire_ms diagnostics (s, ok results) lane =
    fill x (record { node_id = x.item.node_id; results = results; diagnostics = diagnostics })
      (record lane { store = s })
promoted x m acquire_ms diagnostics (s, err e) lane =
    fill x (item_error_result x.item (m.store_error e) (diagnostics_of acquire_ms 0 none))
      (record lane { store = s })

-- What the worker's answer does to the slot and the store.
pub answered : ResolvedStepItem → Moment → ℕ → Lane → Lane
unfolding promote_results discard_unpromoted_state_paths
answered x m acquire_ms lane = elim m.stepped [
  | raised text ↦ fill x (item_error_result x.item text (diagnostics_of acquire_ms 0 none)) lane
  | returned rs ↦
      let diagnostics = diagnostics_of acquire_ms m.lean_ms (debug_from_worker_results rs) in
      let s = m.others lane.store in
      if should_cancel x.state.item_id m.after_step
      then fill x (cancelled_result x diagnostics)
          (record lane { store = discard_unpromoted_state_paths (paths_of rs) s })
      else promoted x m acquire_ms diagnostics (promote_results x.item.state_token m.supply 0 rs s)
          lane
]

-- The part of the loop that has a lease.
pub use_worker : ResolvedStepItem → Moment → ℕ → ℕ → Lane → Lane
unfolding answered
use_worker x m acquire_ms n lane =
    let used = record lane {
      events = uses n (timeout_seconds x.item.step_timeout_ms) ∷ lane.events;
    } in
    let done = answered x m acquire_ms used in
    if m.health.alive
    then done
    else record done { lease = none; events = returns n (return_worker m.health) ∷ done.events }

-- The part of the loop that acquires a worker first.
pub acquire_worker : ResolvedStepItem → Moment → Lane → Lane × Option String
unfolding use_worker
acquire_worker x m lane = elim m.acquired [
  | failed text ↦ (lane, some text)
  | no_available_worker text ↦ (
    fill x (item_status_result x.item overloaded text (diagnostics_of m.acquire_ms 0 none)) lane,
    none,
  )
  | worker n ↦
      let leased = record lane { lease = some n; events = leases n ∷ lane.events } in
      if should_cancel x.state.item_id m.after_acquire
      then (fill x (cancelled_result x (diagnostics_of m.acquire_ms 0 none)) leased, none)
      else (use_worker x m m.acquire_ms n leased, none)
]

-- One round of the loop, with the text of an exception that leaves it.
pub step_item : ResolvedStepItem → Moment → Lane → Lane × Option String
unfolding use_worker acquire_worker
step_item x m lane =
    if should_cancel x.state.item_id m.at_start
    then (fill x (cancelled_result x (diagnostics_of 0 0 none)) lane, none)
    else elim lane.lease [
      | some n ↦ (use_worker x m 0 n lane, none)
      | none ↦ acquire_worker x m lane
    ]

pub run_items : List (ResolvedStepItem × Moment) → Lane → Lane × Option String
unfolding step_item
run_items [] lane = (lane, none)
run_items ((x, m) ∷ items) lane =
    let done = step_item x m lane in
    elim done.1 [ some text ↦ (done.0, some text) | none ↦ run_items items done.0 ]

-- `finally`
pub close_lane : Health → Lane → Lane
close_lane h lane = elim lane.lease [
  | none ↦ lane
  | some n ↦ record lane { lease = none; events = returns n (return_worker h) ∷ lane.events }
]

-- _run_process_pool_lane
unfoldable pub run_lane : List (ResolvedStepItem × Moment) → Health → Lane → Lane × Option String
unfolding run_items close_lane
run_lane items h lane = let done = run_items items lane in (close_lane h done.0, done.1)
