-- ===== src/ServerConfig/Examples.antt =====
-- Settings of server/exec_server_config.py.
use kimina_lean_server.Base.{ℕ, ◌*◌, ◌^◌, ◌≡◌, refl, none, some, false}
use kimina_lean_server.Base.Int.{pos}
use kimina_lean_server.ServerConfig.{
  SafetySettings, default_exec_worker_count, validate_bounded_exec_caps,
}

-- 16 processors and 64 GiB of memory.
abbrev memory : ℕ
memory = 64 * 2 ^ 30

by_memory : default_exec_worker_count (some 16) (some memory) ≡ 2
unfolding default_exec_worker_count
by_memory = refl

by_processors : default_exec_worker_count (some 16) none ≡ 15
unfolding default_exec_worker_count
by_processors = refl

abbrev settings : SafetySettings
settings = record {
  max_in_flight_exec_requests = pos 8;
  max_queued_exec_requests = pos 32;
  max_state_store_bytes = pos 1000;
  allow_unbounded_exec = false;
}

bounded : validate_bounded_exec_caps settings ≡ none
unfolding validate_bounded_exec_caps
bounded = refl
