-- ===== src/Client/Resume/Replay.antt =====
-- Running a call again with the same request: what is in the journal is answered from it.
use kimina_lean_server.Base.{
  ℕ, ◌+◌, String, String_discrete, true, false, ◌≡◌, refl, ◌∙◌, inl, inr, Option, none, some,
  Option-cases, List, [], ◌∷◌, map, has_duplicates, Bool-cases, arith, leb,
}
use mathlib.Core.Logic.{if_pos, if_neg}
use kimina_lean_server.Client.Journal.{
  MicrobatchStatus, pending, running, complete, unknown, MicrobatchRecord, File, get, put,
}
use kimina_lean_server.Client.Journal
use kimina_lean_server.Client.Journal.Records.{get-put}
use kimina_lean_server.Client.Microbatches.{microbatches}
use kimina_lean_server.Client.Resume.{
  recorded_status, Reply, responded, died, Outcome, merged, refused_size, refused_request, mismatch,
  uncertain, interrupted, crashed, Run, entry, stopped, recorded, after_record, after_reply, resume,
  step_batch_resumable, prepend_results,
}
use kimina_lean_server.Client.Resume.Rounds.{resume_refused, resume_known, resume_new, resume-get}

-- How a call ends that is made again, by how it has ended before.
unfoldable pub echo : {Result : Type 0} → Outcome Result → Outcome Result
echo (merged results) = merged results
echo refused_size = refused_size
echo refused_request = refused_request
echo mismatch = mismatch
echo (uncertain n status) = uncertain n status
echo (interrupted n) = uncertain n unknown
echo (crashed n) = uncertain n running

echo-prepend :
    {Result : Type 0} (rs : List Result) (o : Outcome Result)
    → echo (prepend_results rs o) ≡ prepend_results rs (echo o)
unfolding echo
echo-prepend rs (merged results) = refl
echo-prepend rs refused_size = refl
echo-prepend rs refused_request = refl
echo-prepend rs mismatch = refl
echo-prepend rs (uncertain n status) = refl
echo-prepend rs (interrupted n) = refl
echo-prepend rs (crashed n) = refl

echo-status :
    {Result : Type 0} (n : ℕ) (status : MicrobatchStatus) (response : Option (List Result))
    → echo (recorded_status n status response) ≡ recorded_status n status response
unfolding echo recorded_status
echo-status n complete (some results) = refl
echo-status n complete none = refl
echo-status n pending response = refl
echo-status n running response = refl
echo-status n Journal.failed response = refl
echo-status n unknown response = refl

module _ {Item Result : Type 0} (dec : Discrete (List Item)) (node_id : Item → String) where
  recorded_same :
      (n : ℕ) (items : List Item) (status : MicrobatchStatus) (response : Option (List Result))
      → recorded dec node_id n items (entry status items response)
        ≡ recorded_status n status response
  unfolding recorded
  recorded_same n items status response = rw (if_pos (dec items items) refl)

  echo-recorded :
      (n : ℕ) (items : List Item) (r : MicrobatchRecord Item Result)
      → echo (recorded dec node_id n items r) ≡ recorded dec node_id n items r
  unfolding recorded echo
  echo-recorded n items r = elim (dec r.request_payload items) [
    | yes p ↦
        rw (if_pos (dec r.request_payload items) p) (echo-status n r.status r.response_payload)
    | no q ↦ rw (if_neg (dec r.request_payload items) q) refl
  ]

  -- What a run leaves behind, for the microbatches from number `n`.
  Replays : String → ℕ → List (List Item) → Run Item Result → Type 0
  Replays call_id n batches run =
      (backend : ℕ → List Item → Reply Result)
      → resume dec node_id backend call_id n batches run.file
        ≡ stopped run.file [] (echo run.outcome)

  stopped-Replays :
      (call_id : String) (n : ℕ) (items : List Item) (batches : List (List Item))
      (file : File Item Result)
      → has_duplicates String_discrete (map node_id items) ≡ true
      → Replays call_id n (items ∷ batches) (stopped file [] refused_request)
  unfolding Replays echo
  stopped-Replays call_id n items batches file b again =
      resume_refused dec node_id again call_id n items batches file b

  ended-Replays :
      (call_id : String) (n : ℕ) (file : File Item Result)
      → Replays call_id n [] (stopped file [] (merged []))
  unfolding Replays resume echo
  ended-Replays call_id n file again = refl

  -- A microbatch whose results are in the journal is passed over.
  passes_over :
      (backend : ℕ → List Item → Reply Result) (call_id : String) (n : ℕ) (items : List Item)
      (batches : List (List Item)) (file : File Item Result) (r : MicrobatchRecord Item Result)
      (results : List Result) (o : Outcome Result)
      → has_duplicates String_discrete (map node_id items) ≡ false
      → get call_id n file ≡ some r
      → recorded dec node_id n items r ≡ merged results
      → resume dec node_id backend call_id (n + 1) batches file ≡ stopped file [] o
      → resume dec node_id backend call_id n (items ∷ batches) file
        ≡ stopped file [] (prepend_results results o)
  passes_over backend call_id n items batches file r results o b g m h =
      rw (resume_known dec node_id backend call_id n items batches file r b g, m, h) refl

  -- A microbatch whose record stops the loop stops it again.
  stops_again :
      (backend : ℕ → List Item → Reply Result) (call_id : String) (n : ℕ) (items : List Item)
      (batches : List (List Item)) (file : File Item Result) (r : MicrobatchRecord Item Result)
      (o : Outcome Result)
      → has_duplicates String_discrete (map node_id items) ≡ false
      → get call_id n file ≡ some r
      → recorded dec node_id n items r ≡ o
      → ((rest : Run Item Result) → after_record file o rest ≡ stopped file [] o)
      → resume dec node_id backend call_id n (items ∷ batches) file ≡ stopped file [] o
  stops_again backend call_id n items batches file r o b g m h =
      rw (resume_known dec node_id backend call_id n items batches file r b g, m) (h _)

  after_record-Replays :
      (call_id : String) (n : ℕ) (items : List Item) (batches : List (List Item))
      (file : File Item Result) (r : MicrobatchRecord Item Result) (rest : Run Item Result)
      → has_duplicates String_discrete (map node_id items) ≡ false
      → get call_id n file ≡ some r
      → get call_id n rest.file ≡ some r
      → Replays call_id (n + 1) batches rest
      → Replays call_id n
          (items ∷ batches)
          (after_record file (recorded dec node_id n items r) rest)
  unfolding Replays
  after_record-Replays call_id n items batches file r rest b g g' h again =
      go (recorded dec node_id n items r) refl (echo-recorded n items r)
    where
      go :
          (o : Outcome Result)
          → recorded dec node_id n items r ≡ o
          → echo o ≡ o
          → let run = after_record file o rest in
            resume dec node_id again call_id n (items ∷ batches) run.file
            ≡ stopped run.file [] (echo run.outcome)
      go (merged rs) e f = rw (echo-prepend rs rest.outcome) (
          passes_over again call_id n items batches rest.file r rs (echo rest.outcome) b g' e
            (h again))
      go refused_size e f =
          rw f (stops_again again call_id n items batches file r refused_size b g e (λ x. refl))
      go refused_request e f =
          rw f (stops_again again call_id n items batches file r refused_request b g e (λ x. refl))
      go mismatch e f =
          rw f (stops_again again call_id n items batches file r mismatch b g e (λ x. refl))
      go (uncertain k status) e f =
          rw f (
            stops_again again call_id n items batches file r (uncertain k status) b g e (λ x. refl))
      go (interrupted k) e f =
          rw f (stops_again again call_id n items batches file r (interrupted k) b g e (λ x. refl))
      go (crashed k) e f =
          rw f (stops_again again call_id n items batches file r (crashed k) b g e (λ x. refl))

  after_reply-Replays :
      (call_id : String) (n : ℕ) (items : List Item) (batches : List (List Item))
      (reply : Reply Result) (file : File Item Result) (go_on : File Item Result → Run Item Result)
      → has_duplicates String_discrete (map node_id items) ≡ false
      → ((next : File Item Result) → get call_id n (go_on next).file ≡ get call_id n next)
      → ((next : File Item Result) → Replays call_id (n + 1) batches (go_on next))
      → Replays call_id n
          (items ∷ batches)
          (after_reply call_id n items reply (put call_id n (entry running items none) file) go_on)
  unfolding Replays after_reply recorded_status echo
  after_reply-Replays call_id n items batches died file go_on b g h again =
      let r = entry running items none in
      stops_again again call_id n items batches (put call_id n r file) r (uncertain n running) b
        (get-put call_id n r file) (recorded_same n items running none) (λ x. refl)
  after_reply-Replays call_id n items batches Reply.failed file go_on b g h again =
      let r = entry unknown items none in
      let next = put call_id n (entry running items none) file in
      stops_again again call_id n items batches (put call_id n r next) r (uncertain n unknown) b
        (get-put call_id n r next) (recorded_same n items unknown none) (λ x. refl)
  after_reply-Replays call_id n items batches (responded rs) file go_on b g h again =
      let done = entry complete items (some rs) in
      let sending = put call_id n (entry running items none) file in
      let next = put call_id n done sending in
      rw (echo-prepend rs (go_on next).outcome) (
        passes_over again call_id n items batches (go_on next).file done rs
          (echo (go_on next).outcome) b (g next ∙ get-put call_id n done sending)
          (recorded_same n items complete (some rs)) (h next again))

  resume-Replays :
      (backend : ℕ → List Item → Reply Result) (call_id : String) (n : ℕ)
      (batches : List (List Item)) (file : File Item Result)
      → Replays call_id n batches (resume dec node_id backend call_id n batches file)
  resume-Replays backend call_id n [] file = unfold resume in ended-Replays call_id n file
  resume-Replays backend call_id n (items ∷ batches) file =
      let g : (next : File Item Result)
          → get call_id n (resume dec node_id backend call_id (n + 1) batches next).file
            ≡ get call_id n next =
        λ next. resume-get dec node_id backend call_id (n + 1) n batches next (omega arith) in
      elim (Bool-cases (has_duplicates String_discrete (map node_id items))) [
        | inl b ↦
            rw (resume_refused dec node_id backend call_id n items batches file b)
              (stopped-Replays call_id n items batches file b)
        | inr b ↦ elim (Option-cases (get call_id n file)) [
          | inr (r, k) ↦ rw (resume_known dec node_id backend call_id n items batches file r b k) (
              after_record-Replays call_id n items batches file r
                (resume dec node_id backend call_id (n + 1) batches file) b k (g file ∙ k)
                (resume-Replays backend call_id (n + 1) batches file))
          | inl k ↦ rw (resume_new dec node_id backend call_id n items batches file b k) (
              after_reply-Replays call_id n items batches (backend n items) file
                (λ next. resume dec node_id backend call_id (n + 1) batches next) b g
                (λ next. resume-Replays backend call_id (n + 1) batches next))
        ]
      ]

-- A call that is made again with the same request sends nothing and leaves the journal as it is,
-- whatever the backend would answer. If it has ended with its results, it ends with the same ones; and
-- if it was interrupted by an exception of the backend, or the process has died, it refuses to go on,
-- with the status that is in the journal.
pub step_batch_resumable-Replays :
    {Item Result : Type 0} (dec : Discrete (List Item)) (node_id : Item → String)
    (backend again : ℕ → List Item → Reply Result) (call_id : String) (size : ℕ) (items : List Item)
    (file : File Item Result)
    → let run = step_batch_resumable dec node_id backend call_id size items file in
      step_batch_resumable dec node_id again call_id size items run.file
      ≡ stopped run.file [] (echo run.outcome)
unfolding step_batch_resumable
step_batch_resumable-Replays dec node_id backend again call_id size items file =
    elim (Bool-cases (leb size 0)) [
      | inl e ↦ rw (e, step_batch_resumable) (unfold echo in refl)
      | inr e ↦
          rw (e, step_batch_resumable)
            (unfold Replays in
              resume-Replays dec node_id backend call_id 0 (microbatches size items) file again)
    ]
