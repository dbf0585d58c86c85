-- ===== src/Pool.antt =====
-- server/pantograph_manager.py: `PantographManager`. Each part of a method that runs under the lock
-- is one function. Clock readings are arguments, in milliseconds: `now` is the reading that is
-- compared with the deadline, `later` that of `_record_lease_wait`. A lease is known by the number
-- of its worker, for `eq=False` makes it equal only to itself.
pub mod Starting
pub mod Leases
pub mod Capacity
pub mod Marking
pub mod Steps
pub mod Service
mod Examples
use kimina_lean_server.Base.{
  ℕ, zero, suc, ◌+◌, ◌-◌, max, String, Bool, true, false, not, ◌&&◌, ◌||◌, Option, none, some, List,
  [], ◌∷◌, ◌++◌, ltb, leb, ◌==◌, same_text, if◌then◌else◌, length, total, keep, string_key,
}
use kimina_lean_server.Base.Int.{
  ℤ, pos, negsuc, is_negative, is_zero, below_minus_one, below, reached,
}
use kimina_lean_server.Base.Dict
use kimina_lean_server.Base.Dict.{Dict}

-- PantographWorkerLease
pub record Lease : Type 0 where
  pub worker : ℕ
  pub env_profile : String
  pub header : String
  pub header_hash : String
  pub last_used_at : ℕ
  pub use_count : ℕ

pub record Config : Type 0 where
  pub max_workers : ℕ
  pub max_worker_uses : ℤ
  pub max_workers_per_env_profile : ℤ
  pub worker_startup_timeout_seconds : ℕ

pub record Pool : Type 0 where
  pub config : Config
  pub open config use *
  pub free : List Lease
  pub busy : List Lease
  pub starting : ℕ
  pub starting_by_env_profile : Dict String ℕ
  pub lease_requests : ℕ
  pub lease_timeouts : ℕ
  pub lease_wait_ms_total : ℕ
  pub lease_wait_ms_max : ℕ

-- A positive integer.
abbrev pub positive : ℤ → Option ℕ
positive (pos n) = if n == 0 then none else some n
positive (negsuc n) = none

-- __init__; `none` is ValueError
pub init : ℤ → ℤ → ℤ → ℤ → Option Pool
init max_workers max_worker_uses per_profile startup = elim (positive max_workers) [
  | none ↦ none
  | some workers ↦
      if below_minus_one max_worker_uses
      then none
      else (if is_zero per_profile || below_minus_one per_profile
          then none
          else elim (positive startup) [
            | none ↦ none
            | some seconds ↦ some (record {
              config = record {
                max_workers = workers;
                max_worker_uses = max_worker_uses;
                max_workers_per_env_profile = per_profile;
                worker_startup_timeout_seconds = seconds;
              };
              free = [];
              busy = [];
              starting = 0;
              starting_by_env_profile = [];
              lease_requests = 0;
              lease_timeouts = 0;
              lease_wait_ms_total = 0;
              lease_wait_ms_max = 0;
            })
          ])
]

-- `dict.get(env_profile, 0)`
abbrev or_zero : Option ℕ → ℕ
or_zero none = 0
or_zero (some n) = n

abbrev pub starting_of : String → Pool → ℕ
starting_of env p = or_zero (Dict.get env p.starting_by_env_profile)

abbrev pub one_if : Bool → ℕ
one_if true = 1
one_if false = 0

abbrev pub in_profile : String → Lease → ℕ
in_profile env l = one_if (same_text l.env_profile env)

-- The workers of a profile: free, busy and starting.
abbrev pub active : String → Pool → ℕ
active env p = total (in_profile env) (p.free ++ p.busy) + starting_of env p

-- _can_start_for_env_profile
pub can_start : String → Pool → Bool
can_start env p =
    if is_negative p.max_workers_per_env_profile
    then true
    else below (active env p) p.max_workers_per_env_profile

-- `min(leases, key=last_used_at)`: the first of those used longest ago.
pub oldest : Lease → List Lease → Lease
oldest best [] = best
oldest best (l ∷ ls) = oldest (if ltb l.last_used_at best.last_used_at then l else best) ls

first_oldest : List Lease → Option Lease
unfolding oldest
first_oldest [] = none
first_oldest (l ∷ ls) = some (oldest l ls)

-- _worker_to_close_for_start
pub worker_to_close : String → Bool → List Lease → Option Lease
unfolding first_oldest
worker_to_close env can free =
    if can then first_oldest free else first_oldest (keep (λ l. same_text l.env_profile env) free)

-- _mark_starting
pub mark_starting : String → Pool → Pool
mark_starting env p = record p {
  starting = p.starting + 1;
  starting_by_env_profile = Dict.put env (starting_of env p + 1) p.starting_by_env_profile;
}

-- _unmark_starting
pub unmark_starting : String → Pool → Pool
unmark_starting env p = record p {
  starting = p.starting - 1;
  starting_by_env_profile =
      if leb (starting_of env p) 1
      then Dict.pop env p.starting_by_env_profile
      else Dict.put env (starting_of env p - 1) p.starting_by_env_profile;
}

-- _record_lease_wait; the difference of numbers is the source's `max(…, 0.0)`
pub record_lease_wait : ℕ → ℕ → Bool → Pool → Pool
record_lease_wait started_at later timed_out p = record p {
  lease_wait_ms_total = p.lease_wait_ms_total + (later - started_at);
  lease_wait_ms_max = max p.lease_wait_ms_max (later - started_at);
  lease_timeouts = p.lease_timeouts + one_if timed_out;
}

-- The lease with a number among some, and what remains without it.
pub is_worker : ℕ → Lease → Bool
is_worker n l = l.worker == n

-- The first lease that passes the test, with the others.
pub take_first : (Lease → Bool) → List Lease → Option (Lease × List Lease)
take_first test [] = none
take_first test (l ∷ ls) =
    if test l
    then some (l, ls)
    else elim (take_first test ls) [ none ↦ none | some (m, rest) ↦ some (m, l ∷ rest) ]

-- What is left when `take_first` has taken one, or all.
abbrev rest_of : List Lease → Option (Lease × List Lease) → List Lease
rest_of ls none = ls
rest_of ls (some (m, rest)) = rest

pub without : ℕ → List Lease → List Lease
unfolding take_first is_worker
without n ls = rest_of ls (take_first (is_worker n) ls)

pub is_in : ℕ → List Lease → Bool
unfolding is_worker
is_in n [] = false
is_in n (l ∷ ls) = is_worker n l || is_in n ls

pub data Outcome : Type 0 where
  leased : Lease → Outcome
  starts : Option Lease → Outcome  -- with the free worker that is closed first
  timed_out waits : Outcome

-- `lease.env_profile == env_profile and lease.header_hash == header_hash_value`
abbrev pub serves : String → String → Lease → Bool
serves env hash l = same_text l.env_profile env && same_text l.header_hash hash

-- The part of the loop of `get_worker` where no free worker serves the request.
start_or_wait : String → ℕ → ℕ → ℕ → ℕ → Pool → Pool × Outcome
unfolding can_start worker_to_close mark_starting record_lease_wait without
start_or_wait env started_at deadline now later p =
    if ltb (length p.free + length p.busy + p.starting) p.max_workers && can_start env p
    then (mark_starting env p, starts none)
    else elim (worker_to_close env (can_start env p) p.free) [
      | some w ↦ (mark_starting env (record p { free = without w.worker p.free }), starts (some w))
      | none ↦
          if leb deadline now
          then (record_lease_wait started_at later true p, timed_out)
          else (p, waits)
    ]

-- One round of the loop of `get_worker`.
pub attempt : String → String → ℕ → ℕ → ℕ → ℕ → Pool → Pool × Outcome
unfolding start_or_wait take_first record_lease_wait
attempt env hash started_at deadline now later p = elim (take_first (serves env hash) p.free) [
  | some (l, rest) ↦ (
    record_lease_wait started_at later false (record p { free = rest; busy = l ∷ p.busy }),
    leased l,
  )
  | none ↦ start_or_wait env started_at deadline now later p
]

-- The entry of `get_worker`.
pub request : Pool → Pool
request p = record p { lease_requests = p.lease_requests + 1 }

-- `except TimeoutError` around the wait.
pub wait_timed_out : ℕ → ℕ → Pool → Pool
unfolding record_lease_wait
wait_timed_out started_at later p = record_lease_wait started_at later true p

-- The factory returned a worker, from which the lease is made.
pub started : Lease → ℕ → ℕ → Pool → Pool
unfolding unmark_starting record_lease_wait
started l started_at later p =
    let p' = unmark_starting l.env_profile p in
    record_lease_wait started_at later false (record p' { busy = l ∷ p'.busy })

-- The factory raised.
pub start_failed : String → ℕ → ℕ → Pool → Pool
unfolding unmark_starting record_lease_wait
start_failed env started_at later p =
    record_lease_wait started_at later false (unmark_starting env p)

-- _is_exhausted
pub is_exhausted : Lease → Pool → Bool
is_exhausted l p =
    if is_negative p.max_worker_uses then false else reached p.max_worker_uses l.use_count

-- release_worker, by the worker's number, with the worker that is closed afterwards.
pub release_worker : ℕ → ℕ → Pool → Pool × Option ℕ
unfolding take_first is_worker is_exhausted
release_worker n now p = elim (take_first (is_worker n) p.busy) [
  | none ↦ (p, none)
  | some (l, rest) ↦
      let l' = record l { use_count = l.use_count + 1 } in
      let p' = record p { busy = rest } in
      if is_exhausted l' p
      then (p', some n)
      else (record p' { free = p.free ++ record l' { last_used_at = now } ∷ [] }, none)
]

-- destroy_worker
pub destroy_worker : ℕ → Pool → Pool × Option ℕ
unfolding is_in without
destroy_worker n p = (
  record p { busy = without n p.busy; free = without n p.free },
  if is_in n p.busy || is_in n p.free then some n else none,
)

-- cleanup
pub cleanup : Pool → Pool × List Lease
cleanup p = (record p { free = []; busy = [] }, p.free ++ p.busy)
