-- ===== src/Backend/Timeout.antt =====
-- server/exec_backends.py and server/routers/exec.py: `_timeout_seconds`.
use kimina_lean_server.Base.{ℕ, ◌+◌, ◌*◌, ◌/◌, ◌≤◌, max, arith}

unfoldable pub timeout_seconds : ℕ → ℕ
timeout_seconds timeout_ms = max ((timeout_ms + 999) / 1000) 1

-- The worker's timeout is the least positive number of whole seconds that covers the milliseconds
-- that were asked for.
timeout_seconds-least :
    (ms : ℕ)
    → (1 ≤ timeout_seconds ms)
      × (ms ≤ 1000 * timeout_seconds ms)
      × ((s : ℕ) → 1 ≤ s → ms ≤ 1000 * s → timeout_seconds ms ≤ s)
unfolding timeout_seconds
timeout_seconds-least ms = (omega arith, omega arith, λ s p h. omega arith)
