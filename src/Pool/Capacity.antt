-- ===== src/Pool/Capacity.antt =====
-- server/pantograph_manager.py: no history starts more workers than the caps allow.
use kimina_lean_server.Base.{
  ℕ, ◌+◌, ◌≤◌, ◌≡◌, ◌≢◌, refl, ap, String, false, total, arith, ◌++◌, All, length, total-append,
}
use mathlib.Core.Path.{fun_ext}
use kimina_lean_server.Base.Int.{ℤ, AtMost, pos, negsuc}
use kimina_lean_server.Pool.{
  Pool, Config, Lease, request, attempt, wait_timed_out, started, start_failed, release_worker,
  destroy_worker, cleanup, starting_of, active, in_profile, one_if, is_worker, is_in, is_exhausted,
}
use kimina_lean_server.Pool.Starting.{StartsCounted}
use kimina_lean_server.Pool.Leases.{length-total}

-- What the tasks of the server may do next. A start ends only if it began, and a new worker has a
-- number of its own and was not used yet.
pub data Step (p : Pool) : Pool → Type 0 where
  requests : Step p (request p)
  tries :
      (env hash : String) (started_at deadline now later : ℕ)
      → Step p (attempt env hash started_at deadline now later p).0
  times_out : (started_at later : ℕ) → Step p (wait_timed_out started_at later p)
  starts :
      (l : Lease) (started_at later : ℕ)
      → starting_of l.env_profile p ≢ 0
      → is_in l.worker (p.free ++ p.busy) ≡ false
      → Step p (started l started_at later p)
  fails :
      (env : String) (started_at later : ℕ)
      → starting_of env p ≢ 0
      → Step p (start_failed env started_at later p)
  releases : (n now : ℕ) → Step p (release_worker n now p).0
  destroys : (n : ℕ) → Step p (destroy_worker n p).0
  cleans : Step p (cleanup p).0

pub data Reach (p : Pool) : Pool → Type 0 where
  here : Reach p p
  next : {q r : Pool} → Reach p q → Step q r → Reach p r

abbrev pub on : ℕ → Lease → ℕ
on n l = one_if (is_worker n l)

-- The sum of a weight over the leases of the pool.
abbrev pub weigh : (Lease → ℕ) → Pool → ℕ
weigh weight p = total weight p.free + total weight p.busy

pub record IsValid (p : Pool) : Type 0 where
  pub starts_counted : StartsCounted p
  pub in_cap : length p.free + length p.busy + p.starting ≤ p.max_workers
  pub profile_cap : (env : String) → AtMost (active env p) p.max_workers_per_env_profile
  pub single : (n : ℕ) → weigh (on n) p ≤ 1
  pub usable : All (λ l. is_exhausted l p ≡ false) p.free

pub AtMost-mono : (n m : ℕ) (z : ℤ) → n ≤ m → AtMost m z → AtMost n z
AtMost-mono n m (pos k) h a = omega arith
AtMost-mono n m (negsuc k) h a = tt

-- What a step shows of the new pool to prove it valid.
pub record IsWithin (p q : Pool) : Type 0 where
  pub config_kept : q.config ≡ p.config
  pub starts_counted : StartsCounted q
  pub in_cap : weigh (λ _. 1) q + q.starting ≤ p.max_workers
  pub profile_cap :
      (env : String)
      → AtMost (weigh (in_profile env) q + starting_of env q) p.max_workers_per_env_profile
  pub single : (n : ℕ) → weigh (on n) q ≤ 1
  pub usable : All (λ l. is_exhausted l p ≡ false) q.free

is_exhausted_kept :
    (l : Lease) (p q : Pool) → q.config ≡ p.config → is_exhausted l q ≡ is_exhausted l p
unfolding is_exhausted
is_exhausted_kept l p q c = rw c

pub IsWithin-IsValid : (p q : Pool) → IsWithin p q → IsValid q
IsWithin-IsValid p q v = record {
  starts_counted = v.starts_counted;
  in_cap = omega (
    arith,
    v.in_cap,
    length-total q.free,
    length-total q.busy,
    ap (λ (c : Config). c.max_workers) v.config_kept,
  );
  profile_cap = λ env.
      rw
        (
          ap (λ (c : Config). c.max_workers_per_env_profile) v.config_kept,
          total-append (in_profile env) q.free q.busy,
        )
        (v.profile_cap env);
  single = v.single;
  usable = rw (fun_ext (λ l. ap (λ b. b ≡ false) (is_exhausted_kept l p q v.config_kept))) v.usable;
}

pub IsValid-IsWithin : (p : Pool) → IsValid p → IsWithin p p
IsValid-IsWithin p v = record {
  config_kept = refl;
  starts_counted = v.starts_counted;
  in_cap = omega (arith, v.in_cap, length-total p.free, length-total p.busy);
  profile_cap = λ env. rw (← total-append (in_profile env) p.free p.busy) (v.profile_cap env);
  single = v.single;
  usable = v.usable;
}

-- A pool that holds no more leases and starts than a valid one is valid.
pub shrink-IsWithin :
    (p q : Pool)
    → IsWithin p p
    → q.config ≡ p.config
    → StartsCounted q
    → ((weight : Lease → ℕ) → weigh weight q ≤ weigh weight p)
    → q.starting ≤ p.starting
    → ((env : String) → starting_of env q ≤ starting_of env p)
    → All (λ l. is_exhausted l p ≡ false) q.free
    → IsWithin p q
shrink-IsWithin p q v c s w st by u = record {
  config_kept = c;
  starts_counted = s;
  in_cap = omega (arith, v.in_cap, w (λ _. 1));
  profile_cap = λ env.
      AtMost-mono _ _ p.max_workers_per_env_profile (omega (arith, w (in_profile env), by env))
        (v.profile_cap env);
  single = λ n. omega (arith, w (on n), v.single n);
  usable = u;
}
