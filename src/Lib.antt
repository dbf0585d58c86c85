-- ===== src/Lib.antt =====
-- Verification library of the Lean server: the exec server, which steps Lean proofs in pooled
-- Pantograph workers and keeps the proof states between requests, its clients, and the legacy server,
-- which checks whole snippets in pooled REPLs.
--
-- Parts and files.
-- - Base: names that all parts share, Python's `dict` as an association list (Base/Dict), the
--   integers for which the program gives -1 a meaning (Base/Int), lists and Boolean tests, and the
--   methods of Python's `str` that the program uses (Base/Text).
-- - Lifecycle: server/exec_lifecycle.py, `ItemLifecycleRegistry`. The registry is a record and each
--   method a function that returns the new registry with the method's result.
-- - StateStore: server/state_store.py, `StateStore`. The directory is part of the state. The methods
--   that delete are in StateStore/Deletion.
-- - Pool: server/pantograph_manager.py, `PantographManager`. Each part of a method that runs under
--   the lock is one function, and Pool/Capacity has the step relation of the tasks that use it.
-- - Limiter: server/exec_request_limiter.py, `ExecRequestLimiter`. Each stretch of a task between two
--   suspensions is one step.
-- - Lanes: server/exec_backend_utils.py, the grouping of a batch by worker and its division in lanes.
-- - Schemas: packages/lean-client/lean_client/exec_models.py and server/pantograph_goal.py, the records
--   of requests, results and goals.
-- - Backend: server/exec_backends.py, the execution of a batch of proof steps. It pins the states in
--   StateStore, begins the items in Lifecycle, divides the batch by Lanes and gives each lane one
--   worker. Backend/Caps checks a request, Backend/Lane is the lane of a worker, Backend/Request the
--   whole batch. Backend/Lane/Schedule lets the lanes take turns in any given order, an item each;
--   what comes between while a lane waits within an item is an argument.
-- - Routes: server/routers/exec.py, the handlers that create states, verify proofs, clean up and
--   cancel.
-- - Split: server/split.py, the split of a snippet into header and body, and `imports_from_header` of
--   server/pantograph_manager.py. Routes and Legacy use it.
-- - Worker: server/pantograph_worker.py. Creating states (Worker/Create), stepping a state
--   (Worker/Step) with the focus on a group of goals (Worker/Focus), and verifying a proof
--   (Worker/Verify, Worker/Axioms). A directory is the list of its files; what the Pantograph process
--   answers is an argument.
-- - Requests: the validators of packages/lean-client/lean_client/exec_models.py.
-- - Client: packages/lean-client/lean_client. The journal of exec_journal.py (Client/Journal), and of
--   exec_env.py the resumable calls (Client/Resume) and the batcher: the attempts of a batch
--   (Client/Batcher) and its queue as a step relation (Client/Batcher/Queue). What the server answers
--   is an argument, and a call may end anywhere, as a process does. Client/Infotree: infotree.py, the
--   tactics of a proof from the intervals of its info tree (Intervals), their cutting out of the
--   source (Snippets), the text that they leave to each other (Trailing, Comments) and their merging
--   (Merge).
-- - Legacy: the pool of server/manager.py with what it reads of server/repl.py (Legacy/Manager, a step
--   relation), the check route server/routers/check.py (Legacy/Checks), and the answers of
--   packages/lean-client/lean_client/models.py with their classification (Legacy/Responses).
-- - Metrics: server/exec_metrics.py. ServerConfig: server/exec_server_config.py, the limits that the
--   Limiter and the StateStore are made with.
--
-- In each part the definitions stand in the file of the part, the proofs in its child modules, and
-- runs at concrete inputs in its Examples.
--
-- Numbers and time. Python's integers are unbounded, so that nothing wraps. Clocks and timestamps
-- are natural numbers, passed as arguments in the order in which the code reads them. Where the code
-- computes `max(x - 1, 0)`, subtraction of natural numbers does the same. Nearly all loops of the
-- modelled code run over lists, so that the functions are structural. The slices of a call run on
-- fuel, the number of its items, and the attempts of a batch on `max_overloaded_retries + 1`, which is
-- the bound of the loop itself. The loops that wait, of `acquire`, of `get_worker` and of `get_repl`,
-- are rounds of a step relation.
--
-- Not modelled: logging, HTTP framing and the transport of the client, the Prisma database (the legacy
-- server is modelled with it off), the settings, the Pantograph and REPL processes themselves, the
-- monitors of memory and processor time, the normalisation of goals and messages, the walk over
-- info trees, and the collection of statistics.
mod Base
pub mod Lifecycle
pub mod StateStore
pub mod Pool
pub mod Limiter
pub mod Lanes
pub mod Split
pub mod Schemas
pub mod Worker
pub mod Requests
pub mod Client
pub mod Legacy
pub mod Backend
pub mod Routes
pub mod Metrics
pub mod ServerConfig
