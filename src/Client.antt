-- ===== src/Client.antt =====
-- packages/lean-client/lean_client: the parts of the client that keep state of their own, the journal
-- of microbatches (exec_journal.py) with the resumable calls that use it, the batcher (exec_env.py),
-- and the tactics of a proof as its info tree gives them (infotree.py).
pub mod Journal
pub mod Microbatches
pub mod Resume
pub mod Batcher
pub mod Infotree
mod Examples
