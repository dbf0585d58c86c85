-- ===== src/Backend/Request/Answer.antt =====
-- server/exec_backends.py: what a whole batch answers, and that it gives its pins back.
use kimina_lean_server.Base.{
  ℕ, suc, ◌+◌, ◌≡◌, refl, sym, ap, ◌∙◌, String, Option, none, some, List, [], ◌∷◌, map, length, All,
  arith, total,
}
use kimina_lean_server.Base.Int.{ℤ}
use kimina_lean_server.Lifecycle.{Registry}
use kimina_lean_server.StateStore.{Store, unpin_many}
use kimina_lean_server.StateStore.Pins.{pins, pins-unpin_many}
use kimina_lean_server.Schemas.{StepBatchItem, StepBatchResult}
use kimina_lean_server.Backend.Lane.{ResolvedStepItem, Moment}
use kimina_lean_server.Backend.Lane.Schedule.{gather}
use kimina_lean_server.Backend.Lane.Schedule.Turns.{Remain, gather-Remain}
use kimina_lean_server.Backend.Lane.Schedule.Filled.{Stands, AreOf, gather-Kept}
use kimina_lean_server.Backend.Lane.Schedule.Pins.{AllLeave, gather-pins, go_on-pins}
use kimina_lean_server.Backend.Lane.Slots.{Slots, Answers}
use kimina_lean_server.Backend.Lane.Pins.{Leaves}
use kimina_lean_server.Backend.Request.{
  new_batch, Clock, Run, with_moments, run_lanes, tasks_of, lanes_of, opened_batch, respond,
  result_or_error, Outcome, responds, raises, refuses, outcome_of, execute_step_batch_process_pool,
}
use kimina_lean_server.Backend.Request.Opening.{open_items-new_batch-IsOpened, open_items-Balanced}
use kimina_lean_server.Backend.Request.Members.{All-lanes_of}

of_tasks :
    (P : ResolvedStepItem × Moment → Type 0) (run : Run) (k : ℕ)
    (lanes : List (List ResolvedStepItem))
    → All (All (λ x. P (x, run.moment x))) lanes
    → Remain P (tasks_of run k lanes)
of_tasks P run k [] h = tt
of_tasks P run k (xs ∷ lanes) h = (with_their_moments xs h.0, of_tasks P run (k + 1) lanes h.1)
  where
    with_their_moments :
        (xs : List ResolvedStepItem)
        → All (λ x. P (x, run.moment x)) xs
        → All P (with_moments run xs)
    with_their_moments [] h = tt
    with_their_moments (x ∷ xs) h = (h.0, with_their_moments xs h.1)

respond-node_ids :
    (items : List StepBatchItem) (slots : Slots)
    → length slots ≡ length items
    → Answers items slots
    → map (λ (r : StepBatchResult). r.node_id) (respond items slots)
      ≡ map (λ (i : StepBatchItem). i.node_id) items
respond-node_ids [] slots e a = refl
respond-node_ids (item ∷ items) [] e a = absurd (omega (arith, e))
respond-node_ids (item ∷ items) (slot ∷ slots) e a =
    rw
      (
        head slot (λ r f. a 0 r (ap some f)),
        respond-node_ids items slots (omega (arith, e)) (λ i r f. a (suc i) r f),
      )
      refl
  where
    head :
        (slot : Option StepBatchResult)
        → ((r : StepBatchResult)
            → slot ≡ some r
            → (i : StepBatchItem) × (some item ≡ some i) × (r.node_id ≡ i.node_id))
        → (result_or_error item slot).node_id ≡ item.node_id
    head none h = refl
    head (some r) h = let (i, same, name) = h r refl in name ∙ sym (ap (id_of r) same)
      where
        id_of : StepBatchResult → Option StepBatchItem → String
        id_of r none = r.node_id
        id_of r (some i) = i.node_id

-- What an outcome says to the items of the request.
abbrev pub AnswersEach : List StepBatchItem → Outcome → Type 0
AnswersEach items (responds rs) =
    map (λ (r : StepBatchResult). r.node_id) rs ≡ map (λ (i : StepBatchItem). i.node_id) items
AnswersEach items (raises text) = Unit
AnswersEach items (refuses e) = ⊥

outcome_of-AnswersEach :
    (items : List StepBatchItem) (slots : Slots) (failure : Option String)
    → length slots ≡ length items
    → Answers items slots
    → AnswersEach items (outcome_of items slots failure)
outcome_of-AnswersEach items slots none e a = respond-node_ids items slots e a
outcome_of-AnswersEach items slots (some t) e a = tt

-- Unless an exception left a lane, a batch is answered with one result for each item, in the order
-- of the request and under the node of the item, whatever was cancelled, refused or failed, and in
-- whatever groups and lanes, and whatever order of their turns, the items were executed.
pub execute-AnswersEach :
    (clock : Clock) (run : Run) (max_lanes : ℤ) (items : List StepBatchItem) (s : Store)
    (g : Registry)
    → AnswersEach items (execute_step_batch_process_pool clock run max_lanes items s g).2
unfolding execute_step_batch_process_pool run_lanes
execute-AnswersEach clock run max_lanes items s g =
    let b = opened_batch clock items s g in
    let v = open_items-new_batch-IsOpened items clock s g in
    let lanes = lanes_of max_lanes b.resolved in
    let kept =
      gather-Kept items run.order (tasks_of run 0 lanes) b.slots b.store v.slot_each
        (of_tasks (AreOf items) run 0 lanes
          (All-lanes_of (Stands items) max_lanes b.resolved v.members))
        v.answers in
    let done = gather run.order (tasks_of run 0 lanes) b.slots b.store in
    outcome_of-AnswersEach items done.slots done.failure (kept.same_length ∙ v.slot_each)
      kept.answers

-- No other request pins or unpins the token while the batch is executed.
abbrev Undisturbed : String → Run → Type 0
Undisturbed u run = (x : ResolvedStepItem) → Leaves u (run.moment x)

all_hold : {A : Type 0} {P : A → Type 0} → ((x : A) → P x) → (xs : List A) → All P xs
all_hold h [] = tt
all_hold h (x ∷ xs) = (h x, all_hold h xs)

-- When a batch is over, by its answer or by an exception, and the lanes that an exception left
-- running have ended, every token is pinned as often as it was before, if no other request pinned or
-- unpinned it meanwhile.
pub pins-execute :
    (u : String) (clock : Clock) (run : Run) (max_lanes : ℤ) (items : List StepBatchItem)
    (s : Store) (g : Registry)
    → Undisturbed u run
    → pins u (execute_step_batch_process_pool clock run max_lanes items s g).0 ≡ pins u s
unfolding execute_step_batch_process_pool run_lanes total
pins-execute u clock run max_lanes items s g h =
    let b = opened_batch clock items s g in
    let lanes = lanes_of max_lanes b.resolved in
    let tasks = tasks_of run 0 lanes in
    let leave =
      of_tasks (AllLeave u) run 0 lanes
        (all_hold (all_hold {P = λ x. Leaves u (run.moment x)} h) lanes) in
    let done = gather run.order tasks b.slots b.store in
    let left = gather-Remain (AllLeave u) run.order tasks b.slots b.store leave in
    omega (
      arith,
      go_on-pins u done.order done.left done.slots (unpin_many b.pinned_tokens done.store) left,
      pins-unpin_many b.pinned_tokens u done.store,
      gather-pins u run.order tasks b.slots b.store leave,
      open_items-Balanced u clock 0 items (new_batch (length items) s g),
    )
