-- ===== src/Client/Batcher.antt =====
-- packages/lean-client/lean_client/exec_env.py: how `AsyncLeanExecBatcher` sends a batch,
-- `_send_batch_with_overload_retries`. A future is a number, and the futures that are done are a
-- dictionary; a caller that gives up cancels its future while the batch waits for an answer.
pub mod Settled
pub mod Own
pub mod Queue
use kimina_lean_server.Base.{
  ℕ, zero, suc, ◌+◌, String, Bool, true, false, ◌&&◌, not, Option, none, some, List, [], ◌∷◌, map,
  every, leb, string_key, nat_key, if◌then◌else◌,
}
use kimina_lean_server.Base.Dict
use kimina_lean_server.Base.Dict.{Dict}
use kimina_lean_server.Schemas.{
  StepBatchItem, StepResult, StepBatchResult, ExecStatus, is_overloaded,
}

-- _QueuedStep
pub record QueuedStep : Type 0 where
  pub item : StepBatchItem
  pub future : ℕ

pub data Failure : Type 0 where
  overloaded_error backend_error : Failure
  missing_node_id : String → Failure

pub data Settlement : Type 0 where
  result : StepBatchResult → Settlement
  failure : Failure → Settlement
  cancelled : Settlement

abbrev pub Futures : Type 0
Futures = Dict ℕ Settlement

-- future.done()
abbrev pub done : ℕ → Futures → Bool
done = Dict.has

-- Sets what a future is done with, if it is not done.
unfoldable pub settle : ℕ → Settlement → Futures → Futures
settle n o futures = if done n futures then futures else Dict.put n o futures

unfoldable pub settle_all : List ℕ → Settlement → Futures → Futures
unfolding settle
settle_all [] o futures = futures
settle_all (n ∷ ns) o futures = settle_all ns o (settle n o futures)

-- `queued.future.set_exception(exc)` for each that is not done
abbrev pub fail_pending : Failure → List QueuedStep → Futures → Futures
unfolding settle_all
fail_pending e pending futures =
    settle_all (map (λ (q : QueuedStep). q.future) pending) (failure e) futures

-- `[queued for queued in pending if not queued.future.done()]`
unfoldable pub still_pending : Futures → List QueuedStep → List QueuedStep
still_pending futures [] = []
still_pending futures (q ∷ qs) =
    let rest = still_pending futures qs in if done q.future futures then rest else q ∷ rest

-- `{item.node_id: item for item in response.items}`, on what is there already
unfoldable pub results_by_node_id :
    List StepBatchResult → Dict String StepBatchResult → Dict String StepBatchResult
results_by_node_id [] results = results
results_by_node_id (r ∷ rs) results = results_by_node_id rs (Dict.put r.node_id r results)

-- _is_overloaded_result
unfoldable pub is_overloaded_result : StepBatchResult → Bool
is_overloaded_result r =
    is_some_result r.results && every (λ (s : StepResult). is_overloaded s.status) r.results
  where
    is_some_result : List StepResult → Bool
    is_some_result [] = false
    is_some_result (s ∷ ss) = true

-- What becomes of one queued step when the response has come: it is overloaded and there are
-- attempts left, or its future is done.
unfoldable pub settle_one : Bool → QueuedStep → Option StepBatchResult → Futures → Futures × Bool
unfolding is_overloaded_result settle
settle_one more q found futures = if done q.future futures then (futures, false) else elim found [
  | none ↦ (settle q.future (failure (missing_node_id q.item.node_id)) futures, false)
  | some r ↦
      if is_overloaded_result r && more
      then (futures, true)
      else (settle q.future (result r) futures, false)
]

-- The loop over the queued steps, with those that are overloaded.
unfoldable pub settle_results :
    Bool → List QueuedStep → Dict String StepBatchResult → Futures → Futures × List QueuedStep
unfolding settle_one
settle_results more [] results futures = (futures, [])
settle_results more (q ∷ qs) results futures =
    let one = settle_one more q (Dict.get q.item.node_id results) futures in
    let rest = settle_results more qs results one.0 in
    (rest.0, if one.1 then q ∷ rest.1 else rest.1)

pub data Response : Type 0 where
  responded : List StepBatchResult → Response
  overloaded failed : Response

abbrev is_positive : ℕ → Bool
is_positive zero = false
is_positive (suc n) = true

-- Nothing more happens if no step is pending.
abbrev unless_empty : List QueuedStep → Futures → (List QueuedStep → Futures → Futures) → Futures
unless_empty [] futures next = futures
unless_empty (q ∷ qs) futures next = next (q ∷ qs) futures

-- One attempt, once it is answered: the futures, and the steps that go on to the next attempt.
unfoldable pub attempt : Bool → Response → List QueuedStep → Futures → Futures × List QueuedStep
unfolding settle_all settle_results results_by_node_id still_pending
attempt more overloaded pending futures =
    if more
    then (futures, still_pending futures pending)
    else (fail_pending overloaded_error pending futures, [])
attempt more failed pending futures = (fail_pending backend_error pending futures, [])
attempt more (responded items) pending futures =
    settle_results more pending (results_by_node_id items []) futures

-- The attempt number `n` and those after it; `left` is how many there may be. `cancels n` are the
-- futures that are cancelled while the attempt waits for its answer.
unfoldable pub attempts :
    (ℕ → List QueuedStep → Response) → (ℕ → List ℕ) → ℕ → ℕ → List QueuedStep → Futures → Futures
unfolding settle_all attempt
attempts backend cancels zero n pending futures = futures
attempts backend cancels (suc left) n pending futures =
    let waited = settle_all (cancels n) cancelled futures in
    let one = attempt (is_positive left) (backend n pending) pending waited in
    unless_empty one.1 one.0 (attempts backend cancels left (n + 1))

-- _send_batch_with_overload_retries
unfoldable pub send_batch :
    (ℕ → List QueuedStep → Response) → (ℕ → List ℕ) → ℕ → List QueuedStep → Futures → Futures
unfolding attempts
send_batch backend cancels max_overloaded_retries pending futures =
    attempts backend cancels (max_overloaded_retries + 1) 0 pending futures
