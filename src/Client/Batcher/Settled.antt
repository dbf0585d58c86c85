-- ===== src/Client/Batcher/Settled.antt =====
-- Every future of a batch that is sent is done in the end, once, and with a result of its own.
use mathlib.Core.Path.{subst}
use kimina_lean_server.Base.{
  ◌||◌, mem, ℕ, zero, suc, ◌+◌, String, Bool, true, false, ◌≡◌, ◌⊎◌, refl, inl, inr, ite, Option,
  none, some, List, [], ◌∷◌, map, string_key, nat_key, ℕ_discrete, arith,
}
use kimina_lean_server.Base.Dict
use kimina_lean_server.Base.Dict.{get-put}
use kimina_lean_server.Schemas.{StepBatchResult}
use kimina_lean_server.Client.Batcher.{
  QueuedStep, Settlement, result, failure, cancelled, Futures, done, settle, settle_all,
  fail_pending, still_pending, results_by_node_id, settle_one, settle_results, Response, responded,
  overloaded, failed, unless_empty, attempt, attempts, send_batch, missing_node_id,
  overloaded_error, backend_error,
}

done-settle :
    (n m : ℕ) (o : Settlement) (futures : Futures)
    → done m (settle n o futures) ≡ ite (ℕ_discrete n m) true (done m futures)
unfolding settle
done-settle n m o futures = ground (arith, get-put n m o futures)

-- What is done stays done, with what it is done with.
abbrev pub Keeps : Futures → Futures → Type 0
Keeps before after =
    (n : ℕ) (o : Settlement) → Dict.get n before ≡ some o → Dict.get n after ≡ some o

settle-Keeps : (n : ℕ) (o : Settlement) (futures : Futures) → Keeps futures (settle n o futures)
unfolding settle
settle-Keeps n o futures m p h = ground (arith, get-put n m o futures)

settle_all-Keeps :
    (ns : List ℕ) (o : Settlement) (futures : Futures) → Keeps futures (settle_all ns o futures)
unfolding settle_all
settle_all-Keeps [] o futures m p h = h
settle_all-Keeps (n ∷ ns) o futures m p h =
    settle_all-Keeps ns o (settle n o futures) m p (settle-Keeps n o futures m p h)

settle_one-Keeps :
    (more : Bool) (q : QueuedStep) (found : Option StepBatchResult) (futures : Futures)
    → Keeps futures (settle_one more q found futures).0
unfolding settle_one
settle_one-Keeps more q none futures m p h =
    ground (arith, settle-Keeps q.future (failure (missing_node_id q.item.node_id)) futures m p)
settle_one-Keeps more q (some r) futures m p h =
    ground (arith, settle-Keeps q.future (result r) futures m p)

settle_results-Keeps :
    (more : Bool) (qs : List QueuedStep) (results : Dict.Dict String StepBatchResult)
    (futures : Futures)
    → Keeps futures (settle_results more qs results futures).0
unfolding settle_results
settle_results-Keeps more [] results futures m p h = h
settle_results-Keeps more (q ∷ qs) results futures m p h =
    let found = Dict.get q.item.node_id results in
    settle_results-Keeps more qs results (settle_one more q found futures).0 m p
      (settle_one-Keeps more q found futures m p h)

Keeps-done :
    (before after : Futures) (n : ℕ)
    → Keeps before after
    → done n before ≡ true
    → done n after ≡ true
Keeps-done before after n k h = go (Dict.get n before) refl h
  where
    go :
        (o : Option Settlement)
        → Dict.get n before ≡ o
        → (elim o as (λ x. Bool) [ none ↦ false | some a ↦ true ]) ≡ true
        → done n after ≡ true
    go none e h = cc
    go (some o) e h = let e' = k n o e in ground arith

-- The futures of some queued steps.
abbrev pub ids : List QueuedStep → List ℕ
ids qs = map (λ (q : QueuedStep). q.future) qs

-- Each of the futures is done, or belongs to a step that is left.
abbrev Covers : List QueuedStep → Futures → List QueuedStep → Type 0
Covers qs futures left =
    (n : ℕ)
    → mem ℕ_discrete n (ids qs) ≡ true
    → (done n futures || mem ℕ_discrete n (ids left)) ≡ true

still_pending-Covers :
    (futures : Futures) (qs : List QueuedStep) → Covers qs futures (still_pending futures qs)
unfolding still_pending mem
still_pending-Covers futures [] n h = cc
still_pending-Covers futures (q ∷ qs) n h = ground (arith, still_pending-Covers futures qs n)

settle_one-done :
    (more : Bool) (q : QueuedStep) (found : Option StepBatchResult) (futures : Futures)
    → (done q.future (settle_one more q found futures).0 || (settle_one more q found futures).1)
      ≡ true
unfolding settle_one
settle_one-done more q none futures =
    ground (arith, done-settle q.future q.future (failure (missing_node_id q.item.node_id)) futures)
settle_one-done more q (some r) futures =
    ground (arith, done-settle q.future q.future (result r) futures)

settle_results-Covers :
    (more : Bool) (qs : List QueuedStep) (results : Dict.Dict String StepBatchResult)
    (futures : Futures)
    → let settled = settle_results more qs results futures in Covers qs settled.0 settled.1
unfolding settle_results mem
settle_results-Covers more [] results futures n h = cc
settle_results-Covers more (q ∷ qs) results futures n h =
    let found = Dict.get q.item.node_id results in
    let one = settle_one more q found futures in
    let rest = settle_results more qs results one.0 in
    ground (
      arith,
      settle_one-done more q found futures,
      settle_results-Covers more qs results one.0 n,
      Keeps-done one.0 rest.0 q.future (settle_results-Keeps more qs results one.0),
    )

settle_one-last :
    (q : QueuedStep) (found : Option StepBatchResult) (futures : Futures)
    → (settle_one false q found futures).1 ≡ false
unfolding settle_one
settle_one-last q none futures = ground arith
settle_one-last q (some r) futures = ground arith

-- Without attempts left no step is left.
settle_results-last :
    (qs : List QueuedStep) (results : Dict.Dict String StepBatchResult) (futures : Futures)
    → (settle_results false qs results futures).1 ≡ []
unfolding settle_results
settle_results-last [] results futures = refl
settle_results-last (q ∷ qs) results futures =
    let found = Dict.get q.item.node_id results in
    rw (settle_one-last q found futures)
      (settle_results-last qs results (settle_one false q found futures).0)

settle_all-done :
    (ns : List ℕ) (o : Settlement) (futures : Futures) (n : ℕ)
    → mem ℕ_discrete n ns ≡ true
    → done n (settle_all ns o futures) ≡ true
unfolding settle_all mem
settle_all-done [] o futures n h = cc
settle_all-done (m ∷ ns) o futures n h = ground (
  arith,
  settle_all-done ns o (settle m o futures) n,
  done-settle m n o futures,
  Keeps-done (settle m o futures) (settle_all ns o (settle m o futures)) n
      (settle_all-Keeps ns o (settle m o futures)),
)

-- The futures after an attempt keep what is done, and cover those of the steps that go on.
attempt-Covers :
    (more : Bool) (r : Response) (pending : List QueuedStep) (futures : Futures)
    → let one = attempt more r pending futures in Keeps futures one.0 × Covers pending one.0 one.1
unfolding attempt fail_pending mem
attempt-Covers true overloaded pending futures = (λ n o h. h, still_pending-Covers futures pending)
attempt-Covers false overloaded pending futures = (
  settle_all-Keeps (ids pending) (failure overloaded_error) futures,
  λ n h. rw (settle_all-done (ids pending) (failure overloaded_error) futures n h) refl,
)
attempt-Covers more failed pending futures = (
  settle_all-Keeps (ids pending) (failure backend_error) futures,
  λ n h. rw (settle_all-done (ids pending) (failure backend_error) futures n h) refl,
)
attempt-Covers more (responded items) pending futures = (
  settle_results-Keeps more pending (results_by_node_id items []) futures,
  settle_results-Covers more pending (results_by_node_id items []) futures,
)

attempt_last :
    (r : Response) (pending : List QueuedStep) (futures : Futures)
    → (attempt false r pending futures).1 ≡ []
unfolding attempt
attempt_last overloaded pending futures = refl
attempt_last failed pending futures = refl
attempt_last (responded items) pending futures =
    settle_results-last pending (results_by_node_id items []) futures

-- What is done is kept, and in the end all that was pending is done.
abbrev pub Ends : List QueuedStep → Futures → Futures → Type 0
Ends pending before after =
    Keeps before after × ((n : ℕ) → mem ℕ_discrete n (ids pending) ≡ true → done n after ≡ true)

unless_empty-Ends :
    (pending left : List QueuedStep) (before futures : Futures)
    (next : List QueuedStep → Futures → Futures)
    → Keeps before futures
    → Covers pending futures left
    → ((left ≡ []) ⊎ Ends left futures (next left futures))
    → Ends pending before (unless_empty left futures next)
unfolding mem
unless_empty-Ends pending [] before futures next k c h = (k, λ n m. ground (arith, c n m))
unless_empty-Ends pending (q ∷ qs) before futures next k c (inl e) = cc
unless_empty-Ends pending (q ∷ qs) before futures next k c (inr (k', d)) = (
  λ n o g. k' n o (k n o g),
  λ n m. ground (arith, c n m, d n, Keeps-done futures (next (q ∷ qs) futures) n k'),
)

attempts-Ends :
    (backend : ℕ → List QueuedStep → Response) (cancels : ℕ → List ℕ) (left n : ℕ)
    (pending : List QueuedStep) (futures : Futures)
    → Ends pending futures (attempts backend cancels (suc left) n pending futures)
unfolding attempts
attempts-Ends backend cancels zero n pending futures =
    let waited = settle_all (cancels n) cancelled futures in
    let one = attempt-Covers false (backend n pending) pending waited in
    unless_empty-Ends pending _ futures _ (attempts backend cancels zero (n + 1))
      (λ m o h. one.0 m o (settle_all-Keeps (cancels n) cancelled futures m o h)) one.1
      (inl (attempt_last (backend n pending) pending waited))
attempts-Ends backend cancels (suc left) n pending futures =
    let waited = settle_all (cancels n) cancelled futures in
    let done_one = attempt true (backend n pending) pending waited in
    let one = attempt-Covers true (backend n pending) pending waited in
    unless_empty-Ends pending done_one.1 futures done_one.0
      (attempts backend cancels (suc left) (n + 1))
      (λ m o h. one.0 m o (settle_all-Keeps (cancels n) cancelled futures m o h)) one.1
      (inr (attempts-Ends backend cancels left (n + 1) done_one.1 done_one.0))

-- After the last attempt, whatever the backend answers and whichever callers give up, every future of
-- the batch is done, and none that was done is changed: the retries end, and no caller waits forever.
pub send_batch-Ends :
    (backend : ℕ → List QueuedStep → Response) (cancels : ℕ → List ℕ) (max_overloaded_retries : ℕ)
    (pending : List QueuedStep) (futures : Futures)
    → Ends pending futures (send_batch backend cancels max_overloaded_retries pending futures)
unfolding send_batch
send_batch-Ends backend cancels max pending futures =
    let e : suc max ≡ max + 1 = omega arith in
    subst (λ k. Ends pending futures (attempts backend cancels k 0 pending futures)) e
      (attempts-Ends backend cancels max 0 pending futures)
