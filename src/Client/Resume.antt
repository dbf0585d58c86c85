-- ===== src/Client/Resume.antt =====
-- packages/lean-client/lean_client/exec_env.py: `step_batch_resumable` of `AsyncLeanExecEnv`. The
-- backend is a parameter: what it answers to a microbatch, if the process does not die before the
-- answer is written down. Payloads are compared as the items that they are dumped from.
pub mod Once
mod Rounds
pub mod Replay
use kimina_lean_server.Base.{
  ℕ, ◌+◌, String, String_discrete, Bool, true, false, ite, Option, none, some, List, [], ◌∷◌, ◌++◌,
  map, leb, has_duplicates, if◌then◌else◌,
}
use kimina_lean_server.Client.Journal.{
  MicrobatchStatus, running, complete, unknown, MicrobatchRecord, File, get, put,
}
use kimina_lean_server.Client.Microbatches.{microbatches}

-- The answer of `step_batch`: a response, an exception, or none because the process has died.
pub data Reply (Result : Type 0) : Type 0 where
  responded : List Result → Reply Result
  failed died : Reply Result

pub data Outcome (Result : Type 0) : Type 0 where
  merged : List Result → Outcome Result
  refused_size refused_request mismatch : Outcome Result
  uncertain : ℕ → MicrobatchStatus → Outcome Result
  interrupted : ℕ → Outcome Result  -- by the exception of the backend
  crashed : ℕ → Outcome Result

-- The journal in the end, the microbatches that were sent, and how the call ended.
pub record Run (Item Result : Type 0) : Type 0 where
  pub file : File Item Result
  pub sent : List ℕ
  pub outcome : Outcome Result

abbrev pub prepend_results : {Result : Type 0} → List Result → Outcome Result → Outcome Result
prepend_results rs (merged results) = merged (rs ++ results)
prepend_results rs refused_size = refused_size
prepend_results rs refused_request = refused_request
prepend_results rs mismatch = mismatch
prepend_results rs (uncertain n status) = uncertain n status
prepend_results rs (interrupted n) = interrupted n
prepend_results rs (crashed n) = crashed n

unfoldable pub recorded_status :
    {Result : Type 0} → ℕ → MicrobatchStatus → Option (List Result) → Outcome Result
recorded_status n complete (some results) = merged results
recorded_status n status response = uncertain n status

module _ {Item Result : Type 0} where
  abbrev pub entry :
      MicrobatchStatus → List Item → Option (List Result) → MicrobatchRecord Item Result
  entry status items response = record {
    status = status;
    request_payload = items;
    response_payload = response;
  }

  abbrev pub stopped : File Item Result → List ℕ → Outcome Result → Run Item Result
  stopped file sent outcome = record { file = file; sent = sent; outcome = outcome }

  abbrev after_record : File Item Result → Outcome Result → Run Item Result → Run Item Result
  after_record file (merged rs) rest = record {
    file = rest.file;
    sent = rest.sent;
    outcome = prepend_results rs rest.outcome;
  }
  after_record file outcome rest = stopped file [] outcome

  -- What follows the answer to a microbatch, whose sending is in the journal; `go_on` is the rest of
  -- the loop.
  unfoldable pub after_reply :
      String
      → ℕ
      → List Item
      → Reply Result
      → File Item Result
      → (File Item Result → Run Item Result)
      → Run Item Result
  after_reply call_id n items died sending go_on = stopped sending (n ∷ []) (crashed n)
  after_reply call_id n items failed sending go_on =
      stopped (put call_id n (entry unknown items none) sending) (n ∷ []) (interrupted n)
  after_reply call_id n items (responded results) sending go_on =
      let rest = go_on (put call_id n (entry complete items (some results)) sending) in
      record {
        file = rest.file;
        sent = n ∷ rest.sent;
        outcome = prepend_results results rest.outcome;
      }

module _ {Item Result : Type 0} (dec : Discrete (List Item)) (node_id : Item → String) where
  -- What a record says about a microbatch: its results, or the exception.
  unfoldable pub recorded : ℕ → List Item → MicrobatchRecord Item Result → Outcome Result
  unfolding recorded_status
  recorded n items r =
      ite (dec r.request_payload items) (recorded_status n r.status r.response_payload) mismatch

  -- The loop, from the microbatch number `n`.
  unfoldable pub resume :
      (ℕ → List Item → Reply Result)
      → String
      → ℕ
      → List (List Item)
      → File Item Result
      → Run Item Result
  unfolding recorded after_reply
  resume backend call_id n [] file = stopped file [] (merged [])
  resume backend call_id n (items ∷ batches) file =
      if has_duplicates String_discrete (map node_id items)
      then stopped file [] refused_request
      else elim (get call_id n file) [
        | some r ↦
            after_record file (recorded n items r) (resume backend call_id (n + 1) batches file)
        | none ↦
            after_reply call_id n items (backend n items)
              (put call_id n (entry running items none) file)
              (λ next. resume backend call_id (n + 1) batches next)
      ]

  -- step_batch_resumable
  unfoldable pub step_batch_resumable :
      (ℕ → List Item → Reply Result) → String → ℕ → List Item → File Item Result → Run Item Result
  unfolding resume microbatches
  step_batch_resumable backend call_id size items file =
      if leb size 0
      then stopped file [] refused_size
      else resume backend call_id 0 (microbatches size items) file
