-- ===== src/Backend/Lane/Schedule.antt =====
-- server/exec_backends.py: the lanes of a batch under `asyncio.gather`. A lane is a task; between two
-- items of one lane any other may have its turn. `order` names the lanes in the order of their
-- turns; where it ends, the lanes that remain run one after another. What comes between while a
-- lane waits within an item stands in the `Moment` of the item.
pub mod Turns
pub mod Filled
pub mod Pins
use kimina_lean_server.Base.{ℕ, String, Option, none, some, List, [], ◌∷◌, set, get_elem?}
use kimina_lean_server.StateStore.{Store}
use kimina_lean_server.Schemas.{StepBatchResult}
use kimina_lean_server.Backend.Lane.{
  ResolvedStepItem, Moment, Lane, Health, step_item, close_lane, run_lane,
}

-- What a lane has still to do: its items, the worker that it holds, and how that is at the end. A
-- lane with no items and no worker is over.
pub record LaneTask : Type 0 where
  pub items : List (ResolvedStepItem × Moment)
  pub health : Health
  pub lease : Option ℕ

abbrev pub lane_of : LaneTask → List (Option StepBatchResult) → Store → Lane
lane_of t slots s = record { slots = slots; store = s; lease = t.lease; events = [] }

-- A turn of a lane: the next item, and the `finally` if that raises; or the `finally`.
pub turn :
    List (ResolvedStepItem × Moment)
    → Health
    → Lane
    → List (ResolvedStepItem × Moment) × Lane × Option String
unfolding step_item close_lane
turn [] h lane = ([], close_lane h lane, none)
turn ((x, m) ∷ items) h lane =
    let done = step_item x m lane in
    elim done.1 [ some text ↦ ([], close_lane h done.0, some text) | none ↦ (items, done.0, none) ]

-- How `gather` ends: with the first exception, and then the lanes that go on and their turns.
pub record Gathered : Type 0 where
  pub slots : List (Option StepBatchResult)
  pub store : Store
  pub failure : Option String
  pub left : List LaneTask
  pub order : List ℕ

pub gather_rest : List LaneTask → List (Option StepBatchResult) → Store → Gathered
unfolding run_lane
gather_rest [] slots s = record { slots = slots; store = s; failure = none; left = []; order = [] }
gather_rest (t ∷ tasks) slots s =
    let done = run_lane t.items t.health (lane_of t slots s) in
    elim done.1 [
      | some text ↦ record {
        slots = done.0.slots;
        store = done.0.store;
        failure = some text;
        left = tasks;
        order = [];
      }
      | none ↦ gather_rest tasks done.0.slots done.0.store
    ]

abbrev pub after_turn :
    ℕ
    → LaneTask
    → List LaneTask
    → List (ResolvedStepItem × Moment) × Lane × Option String
    → List LaneTask
after_turn k t tasks done = set tasks k (record t { items = done.0; lease = done.1.lease })

-- `asyncio.gather` of the lanes
unfoldable pub gather : List ℕ → List LaneTask → List (Option StepBatchResult) → Store → Gathered
unfolding turn gather_rest
gather [] tasks slots s = gather_rest tasks slots s
gather (k ∷ order) tasks slots s = elim (get_elem? tasks k) [
  | none ↦ gather order tasks slots s
  | some t ↦
      let done = turn t.items t.health (lane_of t slots s) in
      elim done.2 [
        | some text ↦ record {
          slots = done.1.slots;
          store = done.1.store;
          failure = some text;
          left = after_turn k t tasks done;
          order = order;
        }
        | none ↦ gather order (after_turn k t tasks done) done.1.slots done.1.store
      ]
]

pub go_on_rest : List LaneTask → List (Option StepBatchResult) → Store → Store
unfolding run_lane
go_on_rest [] slots s = s
go_on_rest (t ∷ tasks) slots s =
    let done = run_lane t.items t.health (lane_of t slots s) in
    go_on_rest tasks done.0.slots done.0.store

-- What the lanes do to the store that still run when `gather` has raised; nothing reads their
-- exceptions.
unfoldable pub go_on : List ℕ → List LaneTask → List (Option StepBatchResult) → Store → Store
unfolding turn go_on_rest
go_on [] tasks slots s = go_on_rest tasks slots s
go_on (k ∷ order) tasks slots s = elim (get_elem? tasks k) [
  | none ↦ go_on order tasks slots s
  | some t ↦
      let done = turn t.items t.health (lane_of t slots s) in
      go_on order (after_turn k t tasks done) done.1.slots done.1.store
]
