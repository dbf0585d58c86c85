-- ===== src/Legacy.antt =====
-- The legacy server beside the exec routes: server/manager.py with the bookkeeping of server/repl.py
-- (Manager), and server/routers/check.py (Checks).
pub mod Responses
pub mod Manager
pub mod Checks
mod Examples
