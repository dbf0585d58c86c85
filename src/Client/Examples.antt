-- ===== src/Client/Examples.antt =====
-- Runs of the journal and of the batcher at concrete answers.
use kimina_lean_server.Base.{
  ℕ, zero, suc, String, true, false, ◌≡◌, refl, none, List, [], ◌∷◌, Distinct, String_discrete,
  ℕ_discrete, string_key, nat_key,
}
use kimina_lean_server.Base.Dict
use kimina_lean_server.Schemas.{StepBatchItem, StepBatchResult, diagnostics_of}
use kimina_lean_server.Client.Journal.{absent}
use kimina_lean_server.Client.Microbatches.{microbatches}
use kimina_lean_server.Client.Resume.{Reply, responded, failed, step_batch_resumable, stopped}
use kimina_lean_server.Client.Resume.Once.{sent_by, sent_by-Distinct}
use kimina_lean_server.Client.Resume.Replay.{echo, step_batch_resumable-Replays}
use kimina_lean_server.Client.Batcher
use kimina_lean_server.Client.Batcher.{
  QueuedStep, Futures, Response, result, send_batch, settle, settle_all, still_pending, attempt,
  settle_results, settle_one, results_by_node_id, is_overloaded_result,
}
use kimina_lean_server.Client.Batcher.Settled.{Ends, send_batch-Ends}
use kimina_lean_server.Client.Batcher.Own.{IsOwn, send_batch-IsOwn}
use kimina_lean_server.Client.Batcher.Queue.{
  submit_step, Batcher, init, Reach, here, next, submits, IsValid, batcher_reachable-IsValid,
}

abbrev three : List ℕ
three = 1 ∷ 2 ∷ 3 ∷ []

in_twos : microbatches 2 three ≡ (1 ∷ 2 ∷ []) ∷ (3 ∷ []) ∷ []
unfolding microbatches
in_twos = refl

-- Items that are numbers, each a node of its own.
abbrev node : ℕ → String
node zero = "a"
node (suc zero) = "b"
node (suc (suc n)) = "c"

numbers_discrete : Discrete (List ℕ)
numbers_discrete [] [] = yes refl
numbers_discrete [] (y ∷ ys) = no (λ e. cc)
numbers_discrete (x ∷ xs) [] = no (λ e. cc)
numbers_discrete (x ∷ xs) (y ∷ ys) =
    let rest = numbers_discrete xs ys in
    elim (ℕ_discrete x y) [
      | no n ↦ no (λ e. n (cc))
      | yes p ↦ elim rest [ no n ↦ no (λ e. n (cc)) | yes q ↦ yes (cc) ]
    ]

-- The second microbatch fails.
abbrev backend : ℕ → List ℕ → Reply ℕ
backend (suc zero) items = failed
backend n items = responded items

sent_by-Distinct_example : Distinct ℕ_discrete (
    sent_by numbers_discrete node "call"
      ((backend, 1, 0 ∷ 1 ∷ []) ∷ (backend, 2, 0 ∷ 1 ∷ []) ∷ [])
      absent)
sent_by-Distinct_example =
    sent_by-Distinct numbers_discrete node "call"
      ((backend, 1, 0 ∷ 1 ∷ []) ∷ (backend, 2, 0 ∷ 1 ∷ []) ∷ []) absent

step_batch_resumable-Replays_example :
    let run = step_batch_resumable numbers_discrete node backend "call" 1 (0 ∷ 1 ∷ []) absent in
    step_batch_resumable numbers_discrete node backend "call" 1 (0 ∷ 1 ∷ []) run.file
    ≡ stopped run.file [] (echo run.outcome)
step_batch_resumable-Replays_example =
    step_batch_resumable-Replays numbers_discrete node backend backend "call" 1 (0 ∷ 1 ∷ []) absent

abbrev item : StepBatchItem
item = record {
  node_id = "a";
  state_token = "st_a";
  tactics = "simp" ∷ [];
  acquire_timeout_ms = 5000;
  step_timeout_ms = 5000;
  debug = false;
  goal_id = none;
  auto_resume = none;
  goal_group = none;
}

abbrev queued : QueuedStep
queued = record { item = item; future = 7 }

abbrev answer : StepBatchResult
answer = record { node_id = "a"; results = []; diagnostics = diagnostics_of 0 0 none }

-- The first attempt is refused as overloaded.
abbrev busy : ℕ → List QueuedStep → Response
busy zero pending = Batcher.overloaded
busy (suc n) pending = Batcher.responded (answer ∷ [])

abbrev nobody : ℕ → List ℕ
nobody n = []

send_batch-Ends_example : Ends (queued ∷ []) [] (send_batch busy nobody 1 (queued ∷ []) [])
send_batch-Ends_example = send_batch-Ends busy nobody 1 (queued ∷ []) []

send_batch-IsOwn_example : IsOwn (λ n. "a") (send_batch busy nobody 1 (queued ∷ []) [])
send_batch-IsOwn_example =
    send_batch-IsOwn (λ n. "a") busy nobody 1 (queued ∷ []) [] (refl, tt)
      (λ n r h. unfold Dict.get in cc)

send_batch_retries : send_batch busy nobody 1 (queued ∷ []) [] ≡ (7, result answer) ∷ []
unfolding send_batch settle_all settle still_pending attempt settle_results settle_one
    results_by_node_id is_overloaded_result Dict.get Dict.put String_discrete
send_batch_retries = refl

abbrev new_batcher : Batcher
new_batcher = record {
  max_items = 2;
  max_wait_ms = 5;
  queue = [];
  timer = false;
  flushes = 0;
  closed = false;
  batches = [];
}

abbrev one_queued : Batcher
one_queued = record new_batcher { queue = queued ∷ []; timer = true }

one_queued-Reach : Reach new_batcher (queued ∷ []) one_queued
one_queued-Reach = next here (submits queued one_queued (unfold submit_step in refl))

batcher_reachable-IsValid_example : IsValid (queued ∷ []) one_queued
batcher_reachable-IsValid_example =
    batcher_reachable-IsValid 2 5 new_batcher (unfold init in refl) (queued ∷ []) one_queued
      one_queued-Reach
