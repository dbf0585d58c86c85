-- ===== src/Routes.antt =====
-- server/routers/exec.py: the handlers of the exec routes, without the framing of HTTP. What a worker
-- answers, and what other tasks do between the suspensions of a handler, is an argument.
pub mod Checks
pub mod Positions
pub mod Cleanup
pub mod Cancel
pub mod Create
pub mod Verify
mod Examples
