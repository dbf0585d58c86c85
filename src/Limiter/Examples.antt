-- ===== src/Limiter/Examples.antt =====
-- Runs of the limiter of server/exec_request_limiter.py.
use kimina_lean_server.Base.{true, ◌∷◌, ◌++◌, ℕ_discrete, mem, ◌+◌, ◌≡◌, refl, some, [], length}
use kimina_lean_server.Base.Int.{pos}
use kimina_lean_server.Limiter.{
  admitted, resume, release, Limiter, init, acquire, Reach, here, next, arrives,
}
use kimina_lean_server.Limiter.Invariant.{IsValid, limiter_reachable-IsValid}
use kimina_lean_server.Limiter.Progress.{acquire_rejected, release_hands_over}

-- One slot and one place in the queue.
abbrev empty : Limiter
empty = record {
  max_in_flight = pos 1;
  max_queued = pos 1;
  in_flight = 0;
  queued = 0;
  waiting = [];
  woken = [];
  interrupted = [];
  holders = [];
}

init-empty_eq : init (pos 1) (pos 1) ≡ some empty
unfolding init
init-empty_eq = refl

-- Task 1 holds the slot and task 2 waits.
abbrev full : Limiter
full = (acquire 2 (acquire 1 empty).0).0

full-Reach : Reach empty full
full-Reach = next (next here (arrives 1)) (arrives 2)

limiter_reachable-IsValid_example : IsValid full
limiter_reachable-IsValid_example =
    limiter_reachable-IsValid (pos 1) (pos 1) init-empty_eq full-Reach

acquire_rejected_example :
    (full.max_in_flight ≡ pos (length full.holders))
    × (full.max_queued ≡ pos (length full.waiting + length full.woken + length full.interrupted))
    × ((acquire 3 full).0 ≡ full)
unfolding acquire
acquire_rejected_example = acquire_rejected 3 full limiter_reachable-IsValid_example refl

release_hands_over_example :
    let after = release 1 full in
    (after.waiting ≡ [])
    × (after.woken ≡ full.woken ++ 2 ∷ [])
    × (mem ℕ_discrete 2 after.woken ≡ true)
    × ((resume 2 after).1 ≡ admitted)
    × (mem ℕ_discrete 2 (resume 2 after).0.holders ≡ true)
unfolding acquire mem ℕ_discrete
release_hands_over_example =
    release_hands_over 0 1 2 [] full limiter_reachable-IsValid_example refl refl refl
