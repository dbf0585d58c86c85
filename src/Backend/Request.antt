-- ===== src/Backend/Request.antt =====
-- server/exec_backends.py: `execute_step_batch_request` and `execute_step_batch_process_pool`. The
-- lanes of a batch take turns; what comes between while a lane waits within an item stands in the
-- `Moment` of the item. The first exception of a lane ends the batch, and the other lanes go on.
pub mod Opening
pub mod Members
pub mod Answer
use kimina_lean_server.Base.{
  ℕ, zero, suc, ◌+◌, String, String_discrete, Bool, true, false, Option, none, some, List, [], ◌∷◌,
  ◌++◌, map, if◌then◌else◌, set, length, replicate, Key,
}
use kimina_lean_server.Base.Int.{ℤ, pos}
use kimina_lean_server.Lifecycle.{Registry, BeginResult, begin, finish, sweep}
use kimina_lean_server.StateStore.{
  Store, StateRecord, Result, ok, err, resolve_and_pin, unpin, unpin_many,
}
use kimina_lean_server.Lanes.{
  compatibility_key, CompatibilityKey, CompatibilityGroup, compatibility_key_test,
  group_items_by_compatibility, distribute_items_across_lanes,
}
use kimina_lean_server.Schemas.{cancelled, StepBatchItem, StepBatchResult}
use kimina_lean_server.Backend.Caps.{
  StepBatchBackendConfig, StepBatchCapError, validate_step_batch_caps,
}
use kimina_lean_server.Backend.Results.{
  item_status_result, item_error_result, invalid_token_result, cancelled_text, no_diagnostics,
}
use kimina_lean_server.Backend.Lane.{ResolvedStepItem, Moment, Health, Lane}
use kimina_lean_server.Backend.Lane.Schedule.{LaneTask, Gathered, gather, go_on}

-- The readings of the clocks while the item with an index is opened.
pub record Clock : Type 0 where
  pub store_now : ℕ → ℕ
  pub lifecycle_now : ℕ → ℕ
  pub finish_at : ℕ

-- The variables of the first loop.
pub record Batch : Type 0 where
  pub slots : List (Option StepBatchResult)
  pub resolved : List ResolvedStepItem
  pub pinned_tokens : List String
  pub active_item_ids : List String
  pub store : Store
  pub lifecycle : Registry

abbrev pub cancelled_item : StepBatchItem → StateRecord → StepBatchResult
cancelled_item item r = item_status_result item cancelled (cancelled_text r.item_id) no_diagnostics

-- The round of the first loop once the token is resolved and pinned.
open_resolved : Clock → ℕ → StepBatchItem → StateRecord → Store → Batch → Batch
unfolding begin
open_resolved clock index item r s b =
    let begun = begin r.item_id (clock.lifecycle_now index) b.lifecycle in
    if begun.1.started
    then record b {
      resolved = b.resolved ++ record { index = index; item = item; state = r } ∷ [];
      pinned_tokens = b.pinned_tokens ++ item.state_token ∷ [];
      active_item_ids = b.active_item_ids ++ r.item_id ∷ [];
      store = s;
      lifecycle = begun.0;
    }
    else record b {
      slots = set b.slots index (some (cancelled_item item r));
      store = unpin item.state_token s;
      lifecycle = begun.0;
    }

pub open_item : Clock → ℕ → StepBatchItem → Batch → Batch
unfolding open_resolved resolve_and_pin unpin
open_item clock index item b =
    let found = resolve_and_pin item.state_token (clock.store_now index) b.store in
    elim found.1 [
      | err e ↦ record b {
        slots = set b.slots index (some (invalid_token_result item));
        store = found.0;
      }
      | ok r ↦ open_resolved clock index item r found.0 b
    ]

-- The first loop, from the index that stands first.
pub open_items : Clock → ℕ → List StepBatchItem → Batch → Batch
unfolding open_item
open_items clock index [] b = b
open_items clock index (item ∷ items) b =
    open_items clock (index + 1) items (open_item clock index item b)

abbrev pub new_batch : ℕ → Store → Registry → Batch
new_batch n s g = record {
  slots = replicate n none;
  resolved = [];
  pinned_tokens = [];
  active_item_ids = [];
  store = s;
  lifecycle = g;
}

-- The groups of a batch, each divided in lanes.
abbrev pub lanes_of_groups :
    ℤ → List (CompatibilityGroup CompatibilityKey ResolvedStepItem) → List (List ResolvedStepItem)
lanes_of_groups max_lanes [] = []
lanes_of_groups max_lanes (g ∷ gs) =
    distribute_items_across_lanes g.items max_lanes ++ lanes_of_groups max_lanes gs

abbrev pub key_of_item : ResolvedStepItem → CompatibilityKey
key_of_item x = compatibility_key x.state.env_profile x.state.header_hash

unfoldable pub lanes_of : ℤ → List ResolvedStepItem → List (List ResolvedStepItem)
unfolding group_items_by_compatibility distribute_items_across_lanes
lanes_of max_lanes resolved =
    lanes_of_groups max_lanes (group_items_by_compatibility resolved key_of_item)

-- What the tasks find while the lanes run: an item's moments, the health of the worker that a lane
-- holds at its end, and what the registry became meanwhile.
pub record Run : Type 0 where
  pub moment : ResolvedStepItem → Moment
  pub health : ℕ → Health
  pub order : List ℕ  -- the lanes in the order of their turns
  pub registry : Registry → Registry

abbrev pub with_moments : Run → List ResolvedStepItem → List (ResolvedStepItem × Moment)
with_moments run xs = map (λ x. (x, run.moment x)) xs

abbrev pub lane_start : List (Option StepBatchResult) → Store → Lane
lane_start slots s = record { slots = slots; store = s; lease = none; events = [] }

abbrev pub tasks_of : Run → ℕ → List (List ResolvedStepItem) → List LaneTask
tasks_of run k [] = []
tasks_of run k (xs ∷ lanes) =
    record { items = with_moments run xs; health = run.health k; lease = none }
    ∷ tasks_of run (k + 1) lanes

-- _run_process_pool_group for all groups
unfoldable pub run_lanes :
    Run → List (List ResolvedStepItem) → List (Option StepBatchResult) → Store → Gathered
unfolding gather
run_lanes run lanes slots s = gather run.order (tasks_of run 0 lanes) slots s

pub finish_all : ℕ → List String → Registry → Registry
unfolding finish
finish_all later [] g = g
finish_all later (item ∷ items) g = finish_all later items (finish item later g).0

abbrev pub result_or_error : StepBatchItem → Option StepBatchResult → StepBatchResult
result_or_error item none = item_error_result item "step_batch item was not executed" no_diagnostics
result_or_error item (some r) = r

-- The list that is returned.
abbrev pub respond : List StepBatchItem → List (Option StepBatchResult) → List StepBatchResult
respond [] slots = []
respond (item ∷ items) [] = []
respond (item ∷ items) (slot ∷ slots) = result_or_error item slot ∷ respond items slots

pub data Outcome : Type 0 where
  responds : List StepBatchResult → Outcome
  raises : String → Outcome
  refuses : StepBatchCapError → Outcome

abbrev pub outcome_of : List StepBatchItem → List (Option StepBatchResult) → Option String → Outcome
outcome_of items slots none = responds (respond items slots)
outcome_of items slots (some text) = raises text

abbrev pub opened_batch : Clock → List StepBatchItem → Store → Registry → Batch
opened_batch clock items s g = open_items clock 0 items (new_batch (length items) s g)

-- execute_step_batch_process_pool, and the lanes that an exception left running
unfoldable pub execute_step_batch_process_pool :
    Clock → Run → ℤ → List StepBatchItem → Store → Registry → Store × Registry × Outcome
unfolding open_items run_lanes lanes_of unpin_many finish_all go_on
execute_step_batch_process_pool clock run max_lanes items s g =
    let b = opened_batch clock items s g in
    let done = run_lanes run (lanes_of max_lanes b.resolved) b.slots b.store in
    (
      go_on done.order done.left done.slots (unpin_many b.pinned_tokens done.store),
      finish_all clock.finish_at b.active_item_ids (run.registry b.lifecycle),
      outcome_of items done.slots done.failure,
    )

-- execute_step_batch_request
execute_step_batch_request :
    Clock
    → Run
    → StepBatchBackendConfig
    → List StepBatchItem
    → Store
    → Registry
    → Store × Registry × Outcome
unfolding validate_step_batch_caps execute_step_batch_process_pool
execute_step_batch_request clock run config items s g =
    elim (validate_step_batch_caps config items) [
      | some e ↦ (s, g, refuses e)
      | none ↦
          execute_step_batch_process_pool clock run (pos config.max_lean_processes_per_env_profile)
            items s g
    ]
