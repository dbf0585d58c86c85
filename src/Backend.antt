-- ===== src/Backend.antt =====
-- server/exec_backends.py: how a batch of proof steps is executed. `validate_step_batch_caps` is in
-- Backend/Caps.antt, the lane of one worker in Backend/Lane.antt, the whole request in
-- Backend/Request.antt. What the workers answer, and what the registry says when a lane reads it,
-- is an argument, a `Moment` for each item.
pub mod Caps
pub mod Timeout
pub mod Results
pub mod Lane
pub mod Request
mod Examples
