-- ===== src/ServerConfig.antt =====
-- server/exec_server_config.py: the defaults and the checks of the limits of the exec service. What the
-- operating system says of processors and memory is an argument.
mod Examples
use kimina_lean_server.Base.{
  ℕ, zero, suc, ◌+◌, ◌-◌, ◌*◌, ◌/◌, ◌^◌, ◌≤◌, ◌≡◌, ◌≢◌, ◌⊎◌, ◌↔◌, refl, max, min, String, Bool,
  true, false, not, ◌&&◌, ◌||◌, Option, none, some, Option-cases, Bool-cases, List, [], ◌∷◌, ◌++◌,
  leb, ltb, ◌==◌, if◌then◌else◌, arith, inl, inr,
}
use kimina_lean_server.Base.Int.{ℤ, pos, negsuc}
use kimina_lean_server.Limiter.{Limiter, init}

abbrev pub worker_memory_bytes : ℕ
worker_memory_bytes = 6 * 2 ^ 30

abbrev pub memory_headroom_bytes : ℕ
memory_headroom_bytes = 16 * 2 ^ 30

-- `count or 1`
abbrev or_one : ℕ → ℕ
or_one n = if n == 0 then 1 else n

abbrev cpu_bound : Option ℕ → ℕ
cpu_bound none = 1
cpu_bound (some n) = max (or_one n - 1) 1

abbrev memory_bound : ℕ → ℕ
memory_bound bytes = max ((bytes / 2 - memory_headroom_bytes) / worker_memory_bytes) 1

unfoldable pub default_exec_worker_count : Option ℕ → Option ℕ → ℕ
default_exec_worker_count cpu_count none = cpu_bound cpu_count
default_exec_worker_count cpu_count (some bytes) =
    max (min (cpu_bound cpu_count) (memory_bound bytes)) 1

default_max_in_flight_exec_requests : ℕ → ℕ
default_max_in_flight_exec_requests worker_count = max (min worker_count 8) 1

default_max_queued_exec_requests : ℕ → ℕ
default_max_queued_exec_requests max_in_flight = max (min (max_in_flight * 4) 32) 4

-- ExecSafetySettings
pub record SafetySettings : Type 0 where
  pub max_in_flight_exec_requests : ℤ
  pub max_queued_exec_requests : ℤ
  pub max_state_store_bytes : ℤ
  pub allow_unbounded_exec : Bool

pub data ConfigError : Type 0 where
  must_be_positive must_not_be_negative : String → ConfigError
  unbounded : List String → ConfigError

abbrev is_minus_one : ℤ → Bool
is_minus_one (pos n) = false
is_minus_one (negsuc n) = n == 0

-- `value == -1 or value >= minimum`
abbrev is_cap : ℕ → ℤ → Bool
is_cap minimum (pos n) = leb minimum n
is_cap minimum (negsuc n) = n == 0

-- _validate_exec_cap_value
abbrev validate_exec_cap_value : String → ℤ → Bool → Option ConfigError
validate_exec_cap_value name value true =
    if is_cap 0 value then none else some (must_not_be_negative name)
validate_exec_cap_value name value false =
    if is_cap 1 value then none else some (must_be_positive name)

abbrev or_then : Option ConfigError → Option ConfigError → Option ConfigError
or_then (some e) rest = some e
or_then none rest = rest

abbrev name_if : String → ℤ → List String
name_if name value = if is_minus_one value then name ∷ [] else []

pub unbounded_names : SafetySettings → List String
unbounded_names c =
    name_if "max_in_flight_exec_requests" c.max_in_flight_exec_requests
    ++ name_if "max_queued_exec_requests" c.max_queued_exec_requests
    ++ name_if "max_state_store_bytes" c.max_state_store_bytes

pub refuse_names : List String → Option ConfigError
refuse_names [] = none
refuse_names (n ∷ ns) = some (unbounded (n ∷ ns))

unfoldable pub validate_bounded_exec_caps : SafetySettings → Option ConfigError
unfolding unbounded_names refuse_names
validate_bounded_exec_caps c =
    or_then
      (validate_exec_cap_value "max_in_flight_exec_requests" c.max_in_flight_exec_requests false)
      (or_then (validate_exec_cap_value "max_queued_exec_requests" c.max_queued_exec_requests true)
        (or_then (validate_exec_cap_value "max_state_store_bytes" c.max_state_store_bytes true)
          (if c.allow_unbounded_exec then none else refuse_names (unbounded_names c))))

-- The default number of workers is positive and leaves one processor free if there is another; and
-- with a known memory, all workers together with the headroom fit in half of it, unless there is
-- only one.
default_exec_worker_count_bounds :
    (cpus : ℕ) (bytes : ℕ)
    → let n = default_exec_worker_count (some cpus) (some bytes) in
      (1 ≤ n)
      × (n ≤ max (cpus - 1) 1)
      × ((n ≡ 1) ⊎ (n * worker_memory_bytes + memory_headroom_bytes ≤ bytes / 2))
unfolding default_exec_worker_count
default_exec_worker_count_bounds cpus bytes = (
  omega arith,
  ground arith,
  elim (Bool-cases (leb ((bytes / 2 - memory_headroom_bytes) / worker_memory_bytes) 1)) [
    | inl e ↦ inl (ground arith)
    | inr e ↦ inr (ground arith)
  ],
)

-- A value that is a bound and not the mark of no bound.
abbrev IsBound : ℕ → ℤ → Type 0
IsBound minimum (pos n) = minimum ≤ n
IsBound minimum (negsuc n) = ⊥

abbrev pub AreBounded : SafetySettings → Type 0
AreBounded c =
    IsBound 1 c.max_in_flight_exec_requests
    × IsBound 0 c.max_queued_exec_requests
    × IsBound 0 c.max_state_store_bytes

-- Settings that pass the checks make a limiter; and unless they allow it, none of the three caps is
-- without a bound.
validate_bounded_exec_caps-AreBounded :
    (c : SafetySettings)
    → validate_bounded_exec_caps c ≡ none
    → (init c.max_in_flight_exec_requests c.max_queued_exec_requests ≢ none)
      × (c.allow_unbounded_exec ≡ false → AreBounded c)
unfolding validate_bounded_exec_caps unbounded_names refuse_names init
validate_bounded_exec_caps-AreBounded c h =
    go c.max_in_flight_exec_requests c.max_queued_exec_requests c.max_state_store_bytes
      c.allow_unbounded_exec h
  where
    go :
        (a b d : ℤ) (allow : Bool)
        → validate_bounded_exec_caps (record {
          max_in_flight_exec_requests = a;
          max_queued_exec_requests = b;
          max_state_store_bytes = d;
          allow_unbounded_exec = allow;
        })
          ≡ none
        → (init a b ≢ none) × (allow ≡ false → IsBound 1 a × IsBound 0 b × IsBound 0 d)
    go (pos a) (pos b) (pos d) allow h =
        (λ e. ground arith, λ f. (ground arith, omega arith, omega arith))
    go (pos a) (pos b) (negsuc d) allow h = (λ e. ground arith, λ f. ground arith)
    go (pos a) (negsuc b) d allow h = (λ e. ground arith, λ f. ground arith)
    go (negsuc a) (pos b) d allow h = (λ e. ground arith, λ f. ground arith)
    go (negsuc a) (negsuc b) d allow h = (λ e. ground arith, λ f. ground arith)

-- The defaults for any number of workers pass the checks.
defaults_pass :
    (workers bytes : ℕ)
    → let in_flight = default_max_in_flight_exec_requests workers in
      validate_bounded_exec_caps (record {
        max_in_flight_exec_requests = pos in_flight;
        max_queued_exec_requests = pos (default_max_queued_exec_requests in_flight);
        max_state_store_bytes = pos bytes;
        allow_unbounded_exec = false;
      })
      ≡ none
unfolding validate_bounded_exec_caps unbounded_names refuse_names
    default_max_in_flight_exec_requests default_max_queued_exec_requests
defaults_pass workers bytes = ground arith
