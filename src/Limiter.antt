-- ===== src/Limiter.antt =====
-- server/exec_request_limiter.py: `ExecRequestLimiter` and the tasks that use it. Tasks have
-- numbers. The lock of the condition is never held across a suspension, so what a task does between
-- two suspensions is one step: `acquire` up to its first `wait`, the test of the loop after a
-- wake-up, the `except` block after a cancellation, `release`.
pub mod Invariant
pub mod Progress
mod Examples
use kimina_lean_server.Base.{
  ℕ, zero, suc, ◌+◌, ◌-◌, ◌<◌, ◌≡◌, Bool, true, false, not, ◌&&◌, ◌||◌, Option, none, some, List,
  [], ◌∷◌, ◌++◌, if◌then◌else◌, length, mem, remove, ℕ_discrete,
}
use kimina_lean_server.Base.Int.{
  ℤ, pos, negsuc, is_negative, is_zero, below_minus_one, below, reached,
}

-- The fields of the limiter, and where the tasks that called it stand.
pub record Limiter : Type 0 where
  pub max_in_flight : ℤ
  pub max_queued : ℤ
  pub in_flight : ℕ
  pub queued : ℕ
  pub waiting : List ℕ  -- in `condition.wait()`, first come first
  pub woken : List ℕ  -- notified, and not yet run again
  pub interrupted : List ℕ  -- cancelled in `wait()`, and not yet run again
  pub holders : List ℕ  -- past `acquire` and before `release`

-- __init__; `none` is ValueError
unfoldable pub init : ℤ → ℤ → Option Limiter
init max_in_flight max_queued =
    if is_zero max_in_flight || below_minus_one max_in_flight
    then none
    else (if below_minus_one max_queued
        then none
        else some (record {
          max_in_flight = max_in_flight;
          max_queued = max_queued;
          in_flight = 0;
          queued = 0;
          waiting = [];
          woken = [];
          interrupted = [];
          holders = [];
        }))

-- How a call of `acquire` goes on from the step: in, in the queue, or ExecRequestRejected.
pub data Outcome : Type 0 where
  admitted waits rejected : Outcome

-- `condition.notify(1)`, by the tasks that wait
wake : List ℕ → Limiter → Limiter
wake [] l = l
wake (t ∷ rest) l = record l { waiting = rest; woken = l.woken ++ t ∷ [] }

abbrev notify : Limiter → Limiter
notify l = wake l.waiting l

abbrev enter : ℕ → Limiter → Limiter
enter t l = record l { in_flight = l.in_flight + 1; holders = t ∷ l.holders }

abbrev queue_is_full : Limiter → Bool
queue_is_full l = not (is_negative l.max_queued) && reached l.max_queued l.queued

-- acquire, up to its first suspension
pub acquire : ℕ → Limiter → Limiter × Outcome
acquire t l =
    if is_negative l.max_in_flight
    then (enter t l, admitted)
    else (if below l.in_flight l.max_in_flight
        then (enter t l, admitted)
        else (if queue_is_full l
            then (l, rejected)
            else (record l { queued = l.queued + 1; waiting = l.waiting ++ t ∷ [] }, waits)))

-- A woken task tests the condition of its loop again.
pub resume : ℕ → Limiter → Limiter × Outcome
resume t l =
    let l' = record l { woken = remove ℕ_discrete t l.woken } in
    if reached l.max_in_flight l.in_flight
    then (record l' { waiting = l.waiting ++ t ∷ [] }, waits)
    else (enter t (record l' { queued = l.queued - 1 }), admitted)

-- A task in `wait()` is cancelled.
pub interrupt : ℕ → Limiter → Limiter
interrupt t l =
    if mem ℕ_discrete t l.waiting
    then record l { waiting = remove ℕ_discrete t l.waiting; interrupted = t ∷ l.interrupted }
    else record l { woken = remove ℕ_discrete t l.woken; interrupted = t ∷ l.interrupted }

-- `except BaseException`
pub give_up : ℕ → Limiter → Limiter
give_up t l =
    notify (record l { queued = l.queued - 1; interrupted = remove ℕ_discrete t l.interrupted })

-- release; `in_flight - 1` on numbers is `max(in_flight - 1, 0)`
pub release : ℕ → Limiter → Limiter
release t l =
    let l' = record l { in_flight = l.in_flight - 1; holders = remove ℕ_discrete t l.holders } in
    if is_negative l.max_in_flight then l' else notify l'

-- What the event loop may do next.
pub data Step (l : Limiter) : Limiter → Type 0 where
  arrives : (t : ℕ) → Step l (acquire t l).0
  resumes : (t : ℕ) → mem ℕ_discrete t l.woken ≡ true → Step l (resume t l).0
  interrupts :
      (t : ℕ)
      → (mem ℕ_discrete t l.waiting || mem ℕ_discrete t l.woken) ≡ true
      → Step l (interrupt t l)
  gives_up : (t : ℕ) → mem ℕ_discrete t l.interrupted ≡ true → Step l (give_up t l)
  leaves : (t : ℕ) → mem ℕ_discrete t l.holders ≡ true → Step l (release t l)

pub data Reach (l : Limiter) : Limiter → Type 0 where
  here : Reach l l
  next : {m n : Limiter} → Reach l m → Step m n → Reach l n
