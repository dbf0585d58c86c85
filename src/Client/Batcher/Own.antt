-- ===== src/Client/Batcher/Own.antt =====
-- A caller gets the result of its own node.
use mathlib.Core.Path.{subst}
use kimina_lean_server.Base.{
  ℕ, zero, suc, ◌+◌, String, Bool, true, false, ◌≡◌, ◌≢◌, refl, sym, ◌∙◌, inl, inr, Option, none,
  some, Bool-cases, List, [], ◌∷◌, map, All, string_key, nat_key, arith,
}
use kimina_lean_server.Base.Dict
use kimina_lean_server.Base.Dict.{get-put}
use kimina_lean_server.Schemas.{StepBatchResult}
use kimina_lean_server.Client.Batcher.{
  QueuedStep, Failure, Settlement, result, failure, cancelled, Futures, settle, settle_all,
  fail_pending, still_pending, results_by_node_id, settle_one, settle_results, Response, responded,
  overloaded, failed, unless_empty, attempt, attempts, send_batch, is_positive, missing_node_id,
  overloaded_error, backend_error,
}

-- Each result stands under its node id.
IsKeyed : Dict.Dict String StepBatchResult → Type 0
IsKeyed results =
    (id : String) (r : StepBatchResult) → Dict.get id results ≡ some r → r.node_id ≡ id

results_by_node_id-IsKeyed :
    (rs : List StepBatchResult) (results : Dict.Dict String StepBatchResult)
    → IsKeyed results
    → IsKeyed (results_by_node_id rs results)
unfolding results_by_node_id IsKeyed
results_by_node_id-IsKeyed [] results k = k
results_by_node_id-IsKeyed (r ∷ rs) results k =
    results_by_node_id-IsKeyed rs (Dict.put r.node_id r results)
      (λ id s h. ground (arith, get-put r.node_id id r results, k id s))

-- The node that each future is of.
module _ (node_of : ℕ → String) where
  abbrev pub AreOf : List QueuedStep → Type 0
  AreOf qs = All (λ (q : QueuedStep). node_of q.future ≡ q.item.node_id) qs

  -- A future that is done with a result has one of its node.
  abbrev pub IsOwn : Futures → Type 0
  IsOwn futures =
      (n : ℕ) (r : StepBatchResult) → Dict.get n futures ≡ some (result r) → r.node_id ≡ node_of n

  settle-IsOwn :
      (n : ℕ) (o : Settlement) (futures : Futures)
      → ((r : StepBatchResult) → o ≡ result r → r.node_id ≡ node_of n)
      → IsOwn futures
      → IsOwn (settle n o futures)
  unfolding settle
  settle-IsOwn n o futures f h m r g = ground (arith, get-put n m o futures, h m r, f r)

  settle_all-IsOwn :
      (ns : List ℕ) (o : Settlement) (futures : Futures)
      → ((r : StepBatchResult) → o ≢ result r)
      → IsOwn futures
      → IsOwn (settle_all ns o futures)
  unfolding settle_all
  settle_all-IsOwn [] o futures f h = h
  settle_all-IsOwn (n ∷ ns) o futures f h =
      settle_all-IsOwn ns o (settle n o futures) f
        (settle-IsOwn n o futures (λ r e. absurd (f r e)) h)

  settle_one-IsOwn :
      (more : Bool) (q : QueuedStep) (found : Option StepBatchResult) (futures : Futures)
      → node_of q.future ≡ q.item.node_id
      → ((r : StepBatchResult) → found ≡ some r → r.node_id ≡ q.item.node_id)
      → IsOwn futures
      → IsOwn (settle_one more q found futures).0
  unfolding settle_one
  settle_one-IsOwn more q none futures f k h =
      let s =
        settle-IsOwn q.future (failure (missing_node_id q.item.node_id)) futures (λ r e. cc) h in
      λ n r g. ground (arith, s n r, h n r)
  settle_one-IsOwn more q (some found) futures f k h =
      let own : found.node_id ≡ node_of q.future = k found refl ∙ sym f in
      let s =
        settle-IsOwn q.future (result found) futures
          (λ r e. let p : found ≡ r = cc in subst (λ x. x.node_id ≡ node_of q.future) p own) h in
      λ n r g. ground (arith, s n r, h n r)

  settle_results-IsOwn :
      (more : Bool) (qs : List QueuedStep) (results : Dict.Dict String StepBatchResult)
      (futures : Futures)
      → AreOf qs
      → IsKeyed results
      → IsOwn futures
      → IsOwn (settle_results more qs results futures).0
        × AreOf (settle_results more qs results futures).1
  unfolding settle_results IsKeyed
  settle_results-IsOwn more [] results futures f k h = (h, tt)
  settle_results-IsOwn more (q ∷ qs) results futures (f, fs) k h =
      let found = Dict.get q.item.node_id results in
      let one = settle_one more q found futures in
      let rest =
        settle_results-IsOwn more qs results one.0 fs k
          (settle_one-IsOwn more q found futures f (k q.item.node_id) h) in
      (rest.0, elim (Bool-cases one.1) [ inl e ↦ rw e (f, rest.1) | inr e ↦ rw e rest.1 ])

  still_pending-AreOf :
      (futures : Futures) (qs : List QueuedStep) → AreOf qs → AreOf (still_pending futures qs)
  unfolding still_pending
  still_pending-AreOf futures [] f = tt
  still_pending-AreOf futures (q ∷ qs) (f, fs) = ground (arith, still_pending-AreOf futures qs fs)

  fail_pending-IsOwn :
      (e : Failure) (pending : List QueuedStep) (futures : Futures)
      → IsOwn futures
      → IsOwn (fail_pending e pending futures)
  unfolding fail_pending
  fail_pending-IsOwn e pending futures h =
      settle_all-IsOwn (map (λ (q : QueuedStep). q.future) pending) (failure e) futures (λ r p. cc)
        h

  attempt-IsOwn :
      (more : Bool) (r : Response) (pending : List QueuedStep) (futures : Futures)
      → AreOf pending
      → IsOwn futures
      → IsOwn (attempt more r pending futures).0 × AreOf (attempt more r pending futures).1
  unfolding attempt IsKeyed Dict.get
  attempt-IsOwn true overloaded pending futures f h = (h, still_pending-AreOf futures pending f)
  attempt-IsOwn false overloaded pending futures f h =
      (fail_pending-IsOwn overloaded_error pending futures h, tt)
  attempt-IsOwn more failed pending futures f h =
      (fail_pending-IsOwn backend_error pending futures h, tt)
  attempt-IsOwn more (responded items) pending futures f h =
      settle_results-IsOwn more pending (results_by_node_id items []) futures f
        (results_by_node_id-IsKeyed items [] (λ id r e. cc)) h

  unless_empty-IsOwn :
      (left : List QueuedStep) (futures : Futures) (next : List QueuedStep → Futures → Futures)
      → IsOwn futures
      → IsOwn (next left futures)
      → IsOwn (unless_empty left futures next)
  unless_empty-IsOwn [] futures next h k = h
  unless_empty-IsOwn (q ∷ qs) futures next h k = k

  attempts-IsOwn :
      (backend : ℕ → List QueuedStep → Response) (cancels : ℕ → List ℕ) (left n : ℕ)
      (pending : List QueuedStep) (futures : Futures)
      → AreOf pending
      → IsOwn futures
      → IsOwn (attempts backend cancels left n pending futures)
  unfolding attempts
  attempts-IsOwn backend cancels zero n pending futures f h = h
  attempts-IsOwn backend cancels (suc left) n pending futures f h =
      let waited = settle_all (cancels n) cancelled futures in
      let one = attempt (is_positive left) (backend n pending) pending waited in
      let (o, l) =
        attempt-IsOwn (is_positive left) (backend n pending) pending waited f
          (settle_all-IsOwn (cancels n) cancelled futures (λ r e. cc) h) in
      unless_empty-IsOwn one.1 one.0 (attempts backend cancels left (n + 1)) o
        (attempts-IsOwn backend cancels left (n + 1) one.1 one.0 l o)

-- If each future of a batch is of the node of its step, and results that are there already are of
-- the node of their future, then so are the results in the end: no caller gets the result of another
-- node, in whatever order the backend answers.
pub send_batch-IsOwn :
    (node_of : ℕ → String) (backend : ℕ → List QueuedStep → Response) (cancels : ℕ → List ℕ)
    (max_overloaded_retries : ℕ) (pending : List QueuedStep) (futures : Futures)
    → AreOf node_of pending
    → IsOwn node_of futures
    → IsOwn node_of (send_batch backend cancels max_overloaded_retries pending futures)
unfolding send_batch
send_batch-IsOwn node_of backend cancels max pending futures f h =
    attempts-IsOwn node_of backend cancels (max + 1) 0 pending futures f h
