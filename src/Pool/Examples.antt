-- ===== src/Pool/Examples.antt =====
-- Runs of the pool of server/pantograph_manager.py.
use kimina_lean_server.Base.{◌≡◌, ◌≢◌, refl, String_discrete, some, [], arith, string_key, total}
use kimina_lean_server.Base.Dict
use kimina_lean_server.Base.Int.{pos, negsuc}
use kimina_lean_server.Pool.{
  Pool, Lease, init, request, attempt, started, release_worker, starting_of, mark_starting,
  can_start, start_or_wait, is_in,
}
use kimina_lean_server.Pool.Capacity.{Reach, here, next, requests, tries, starts, releases, IsValid}
use kimina_lean_server.Pool.Steps.{pool_reachable-IsValid}
use kimina_lean_server.Pool.Service.{Explains, attempt-Explains}

-- Two workers, at most one of a profile.
abbrev new_pool : Pool
new_pool = record {
  config = record {
    max_workers = 2;
    max_worker_uses = negsuc 0;
    max_workers_per_env_profile = pos 1;
    worker_startup_timeout_seconds = 60;
  };
  free = [];
  busy = [];
  starting = 0;
  starting_by_env_profile = [];
  lease_requests = 0;
  lease_timeouts = 0;
  lease_wait_ms_total = 0;
  lease_wait_ms_max = 0;
}

init-new_pool : init (pos 2) (negsuc 0) (pos 1) (pos 60) ≡ some new_pool
unfolding init
init-new_pool = refl

abbrev worker : Lease
worker = record {
  worker = 7;
  env_profile = "default";
  header = "import Mathlib";
  header_hash = "h";
  last_used_at = 5;
  use_count = 0;
}

abbrev starting : Pool
starting = (attempt "default" "h" 0 100 1 2 (request new_pool)).0

abbrev leased_out : Pool
leased_out = started worker 0 10 starting

abbrev idle : Pool
idle = (release_worker 7 20 leased_out).0

starting_once : starting_of "default" starting ≡ 1
unfolding attempt start_or_wait mark_starting can_start request is_in total Dict.get Dict.put
    String_discrete
starting_once = refl

starting_one : starting_of "default" starting ≢ 0
starting_one e = omega (arith, starting_once)

idle-Reach : Reach new_pool idle
unfolding attempt start_or_wait mark_starting can_start request is_in total Dict.get
idle-Reach =
    next
      (next (next (next here requests) (tries "default" "h" 0 100 1 2))
        (starts worker 0 10 starting_one refl))
      (releases 7 20)

pool_reachable-IsValid_example : IsValid idle
pool_reachable-IsValid_example =
    pool_reachable-IsValid (pos 2) (negsuc 0) (pos 1) (pos 60) init-new_pool idle-Reach

attempt-Explains_example :
    Explains "default" "h" 200 30 idle (attempt "default" "h" 25 200 30 31 idle).1
attempt-Explains_example = attempt-Explains "default" "h" 25 200 30 31 idle
