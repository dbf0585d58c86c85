-- ===== src/Client/Batcher/Queue.antt =====
-- packages/lean-client/lean_client/exec_env.py: the queue of `AsyncLeanExecBatcher`, what
-- `submit_step`, `flush`, `close` and the timer do to it. Each part that runs under the lock is one
-- step. `timer` says that a timer task waits, `flushes` counts the calls of `flush` that have not
-- taken the queue yet, and `batches` are those that were handed to `_send_batch`.
use mathlib.Core.List.{append_assoc, append-nil}
use kimina_lean_server.Base.{
  ℕ, zero, suc, ◌+◌, ◌-◌, ◌<◌, Bool, true, false, ◌||◌, ◌≡◌, ◌⊎◌, inl, refl, ap, sym, ◌∙◌, Option,
  none, some, List, [], ◌∷◌, ◌++◌, length, All, All-append, leb, if◌then◌else◌, arith,
}
use kimina_lean_server.Client.Microbatches.{microbatches, concat, IsSlice, microbatches-Cover}
use kimina_lean_server.Client.Batcher.{QueuedStep}

pub record Batcher : Type 0 where
  pub max_items : ℕ
  pub max_wait_ms : ℕ
  pub queue : List QueuedStep
  pub timer : Bool
  pub flushes : ℕ
  pub closed : Bool
  pub batches : List (List QueuedStep)

-- __init__; a limit that is not positive is refused
unfoldable pub init : ℕ → ℕ → Option Batcher
init zero max_wait_ms = none
init (suc n) max_wait_ms = some (record {
  max_items = suc n;
  max_wait_ms = max_wait_ms;
  queue = [];
  timer = false;
  flushes = 0;
  closed = false;
  batches = [];
})

-- _schedule_flush_locked
abbrev schedule_flush_locked : Batcher → Batcher
schedule_flush_locked b = record b { timer = false; flushes = b.flushes + 1 }

-- The part of `submit_step` under the lock; `none` is the exception of a closed batcher.
unfoldable pub submit_step : QueuedStep → Batcher → Option Batcher
submit_step q b =
    let b' = record b { queue = b.queue ++ q ∷ [] } in
    if b.closed
    then none
    else some (
        if leb b.max_items (length b'.queue) || leb b.max_wait_ms 0
        then schedule_flush_locked b'
        else record b' { timer = true })

-- The part of `flush` under the lock.
unfoldable pub flush : Batcher → Batcher
unfolding microbatches
flush b = record b {
  timer = false;
  queue = [];
  batches = b.batches ++ microbatches b.max_items b.queue;
}

-- `close`, up to its call of `flush`
abbrev close : Batcher → Batcher
close b = record b { closed = true; flushes = b.flushes + 1 }

-- What the event loop may do next, with the step that is submitted.
pub data Step (b : Batcher) : List QueuedStep → Batcher → Type 0 where
  submits : (q : QueuedStep) (b' : Batcher) → submit_step q b ≡ some b' → Step b (q ∷ []) b'
  calls_flush : Step b [] (record b { flushes = b.flushes + 1 })
  flushes : 0 < b.flushes → Step b [] (flush (record b { flushes = b.flushes - 1 }))
  timer_fires : b.timer ≡ true → Step b [] (flush b)
  closes : Step b [] (close b)

-- What can be reached, and what was submitted on the way.
pub data Reach (b : Batcher) : List QueuedStep → Batcher → Type 0 where
  here : Reach b [] b
  next :
      {submitted more : List QueuedStep} {m n : Batcher}
      → Reach b submitted m
      → Step m more n
      → Reach b (submitted ++ more) n

-- Nothing is lost or sent twice, no batch is empty or too large, and a step that is queued will be
-- taken by a timer or a flush.
pub record IsValid (submitted : List QueuedStep) (b : Batcher) : Type 0 where
  pub positive : 0 < b.max_items
  pub accounted : concat b.batches ++ b.queue ≡ submitted
  pub sized : All (IsSlice b.max_items) b.batches
  pub promised : (b.queue ≡ []) ⊎ ((b.timer ≡ true) ⊎ (0 < b.flushes))

concat-append : (xs ys : List (List QueuedStep)) → concat (xs ++ ys) ≡ concat xs ++ concat ys
concat-append [] ys = refl
concat-append (x ∷ xs) ys =
    ap (λ l. x ++ l) (concat-append xs ys) ∙ sym (append_assoc x (concat xs) (concat ys))

init-IsValid : (n wait : ℕ) (b : Batcher) → init n wait ≡ some b → IsValid [] b
unfolding init
init-IsValid zero wait b h = cc
init-IsValid (suc n) wait b h = ground arith

submit-IsValid :
    (q : QueuedStep) (submitted : List QueuedStep) (b b' : Batcher)
    → submit_step q b ≡ some b'
    → IsValid submitted b
    → IsValid (submitted ++ q ∷ []) b'
unfolding submit_step
submit-IsValid q submitted b b' h v =
    ground (arith, append_assoc (concat b.batches) b.queue (q ∷ []))

flush-IsValid :
    (submitted : List QueuedStep) (b : Batcher)
    → 0 < b.max_items
    → concat b.batches ++ b.queue ≡ submitted
    → All (IsSlice b.max_items) b.batches
    → IsValid submitted (flush b)
unfolding flush
flush-IsValid submitted b positive accounted sized =
    let c = microbatches-Cover b.max_items b.queue positive in
    record {
      positive = positive;
      accounted =
          rw
            (
              append-nil (concat (b.batches ++ microbatches b.max_items b.queue)),
              concat-append b.batches (microbatches b.max_items b.queue),
              c.0,
            )
            accounted;
      sized =
          All-append (IsSlice b.max_items) b.batches (microbatches b.max_items b.queue) sized c.1;
      promised = inl refl;
    }

Step-IsValid :
    (submitted more : List QueuedStep) (b b' : Batcher)
    → Step b more b'
    → IsValid submitted b
    → IsValid (submitted ++ more) b'
Step-IsValid submitted more b b' (submits q _ h) v = submit-IsValid q submitted b b' h v
Step-IsValid submitted more b b' calls_flush v = rw (append-nil submitted) (ground arith)
Step-IsValid submitted more b b' (flushes h) v =
    rw (append-nil submitted) (
      flush-IsValid submitted (record b { flushes = b.flushes - 1 }) v.positive v.accounted v.sized)
Step-IsValid submitted more b b' (timer_fires h) v =
    rw (append-nil submitted) (flush-IsValid submitted b v.positive v.accounted v.sized)
Step-IsValid submitted more b b' closes v = rw (append-nil submitted) (ground arith)

-- From a new batcher on, in whatever order callers submit steps, flush and close and the timer fires:
-- the batches hold, in the order of their submission, all submitted steps but those that are still
-- queued; each batch has a step and at most `max_items`; and while a step is queued, a timer or a
-- flush is there to take it.
pub batcher_reachable-IsValid :
    (max_items max_wait_ms : ℕ) (b : Batcher)
    → init max_items max_wait_ms ≡ some b
    → (submitted : List QueuedStep) (b' : Batcher) → Reach b submitted b'
    → IsValid submitted b'
batcher_reachable-IsValid max_items max_wait_ms b e submitted b' here =
    init-IsValid max_items max_wait_ms b e
batcher_reachable-IsValid max_items max_wait_ms b e submitted b' (next r t) =
    Step-IsValid _ _ _ b' t (batcher_reachable-IsValid max_items max_wait_ms b e _ _ r)
