-- ===== src/Pool/Steps.antt =====
-- server/pantograph_manager.py: every step of the pool keeps it valid.
use kimina_lean_server.Pool.Marking.{marked-IsWithin, can_start_room, closed-IsWithin}
use kimina_lean_server.Base.{
  ℕ, ◌+◌, ◌≡◌, ◌≢◌, refl, inl, inr, ◌∙◌, sym, String, String_discrete, some, true, false,
  Option-cases, Bool-cases, total, arith, List, [], ◌∷◌, ◌++◌, same_text, length, ltb, leb,
  total-append, ◌&&◌, All-append, ite,
}
use kimina_lean_server.Base.Dict
use mathlib.Core.Path.{subst}
use mathlib.Core.Logic.{if_pos, if_neg}
use kimina_lean_server.Base.Int.{ℤ, AtMost, pos, negsuc}
use kimina_lean_server.Pool.{
  Pool, Config, Lease, init, request, attempt, start_or_wait, wait_timed_out, started, start_failed,
  release_worker, destroy_worker, cleanup, starting_of, in_profile, is_worker, is_in, is_exhausted,
  take_first, serves, can_start, worker_to_close, unmark_starting, record_lease_wait,
}
use kimina_lean_server.Pool.Starting.{
  unmark_starting-IsCounted, starting_of-unmark_starting, starting_of-le,
}
use kimina_lean_server.Pool.Leases.{
  take_first-total, length-total, without-le, All-take_first, All-without,
}
use kimina_lean_server.Pool.Capacity.{
  AtMost-mono, Step, Reach, IsValid, IsWithin, IsWithin-IsValid, IsValid-IsWithin, shrink-IsWithin,
  on, weigh, requests, tries, times_out, starts, fails, releases, destroys, cleans, here, next,
}

start_or_wait-IsWithin :
    (env : String) (started_at deadline now later : ℕ) (p : Pool)
    → IsWithin p p
    → IsWithin p (start_or_wait env started_at deadline now later p).0
unfolding start_or_wait record_lease_wait
start_or_wait-IsWithin env started_at deadline now later p v =
    elim (Bool-cases
      (ltb (length p.free + length p.busy + p.starting) p.max_workers && can_start env p)) [
        | inl e ↦
            rw (e, start_or_wait)
              (marked-IsWithin env p p v refl refl refl (λ weight. omega arith)
                (ground (arith, length-total p.free, length-total p.busy))
                (can_start_room env p (ground arith)) v.usable)
        | inr e ↦
            rw (e, start_or_wait)
              (elim (Option-cases (worker_to_close env (can_start env p) p.free)) [
                | inl f ↦ rw f (elim (Bool-cases (leb deadline now)) [
                  | inl g ↦ rw g (
                      shrink-IsWithin p _ v refl v.starts_counted (λ weight. omega arith)
                        (omega arith) (λ other. omega arith) v.usable)
                  | inr g ↦ rw g v
                ])
                | inr (w, f) ↦ rw f (closed-IsWithin env p w v f)
              ])
      ]

attempt-IsWithin :
    (env hash : String) (started_at deadline now later : ℕ) (p : Pool)
    → IsWithin p p
    → IsWithin p (attempt env hash started_at deadline now later p).0
unfolding attempt record_lease_wait total
attempt-IsWithin env hash started_at deadline now later p v =
    elim (Option-cases (take_first (serves env hash) p.free)) [
      | inl e ↦ rw (e, attempt) (start_or_wait-IsWithin env started_at deadline now later p v)
      | inr ((l, rest), e) ↦
          rw (e, attempt)
            (shrink-IsWithin p _ v refl v.starts_counted
              (λ weight. omega (arith, take_first-total (serves env hash) weight p.free l rest e))
              (omega arith) (λ env. omega arith)
              (All-take_first _ (serves env hash) p.free l rest e v.usable).1)
    ]

-- A worker that is new to the pool weighs nothing there by its number.
not_in-total : (n : ℕ) (ls : List Lease) → is_in n ls ≡ false → total (on n) ls ≡ 0
unfolding is_in total
not_in-total n [] h = refl
not_in-total n (l ∷ ls) h = ground (arith, not_in-total n ls)

not_in_both : (n : ℕ) (p : Pool) → is_in n (p.free ++ p.busy) ≡ false → weigh (on n) p ≡ 0
not_in_both n p h = sym (total-append (on n) p.free p.busy) ∙ not_in-total n (p.free ++ p.busy) h

new_weight :
    (n : ℕ) (l : Lease) (p : Pool)
    → is_in l.worker (p.free ++ p.busy) ≡ false
    → is_worker n l ≡ true
    → weigh (on n) p ≡ 0
unfolding is_worker
new_weight n l p fresh e =
    let same : l.worker ≡ n = ground arith in rw same at (not_in_both l.worker p fresh)

in_profile_lem :
    (l : Lease) (env : String) → in_profile env l ≡ ite (String_discrete l.env_profile env) 1 0
unfolding same_text
in_profile_lem l env = ground arith

started-AtMost :
    (l : Lease) (env : String) (p : Pool)
    → starting_of l.env_profile p ≢ 0
    → AtMost (weigh (in_profile env) p + starting_of env p) p.max_workers_per_env_profile
    → AtMost
        (total (in_profile env) p.free
          + (in_profile env l + total (in_profile env) p.busy)
          + starting_of env (unmark_starting l.env_profile p))
        p.max_workers_per_env_profile
started-AtMost l env p begun cap =
    rw (starting_of-unmark_starting l.env_profile env p, in_profile_lem l env)
      (elim (String_discrete l.env_profile env) [
        | yes e ↦
            let some_begun = rw e at begun in
            rw (if_pos (String_discrete l.env_profile env) e)
              (AtMost-mono _ _ p.max_workers_per_env_profile (omega arith) cap)
        | no n ↦
            rw (if_neg (String_discrete l.env_profile env) n)
              (AtMost-mono _ _ p.max_workers_per_env_profile (omega arith) cap)
      ])

started-IsWithin :
    (l : Lease) (started_at later : ℕ) (p : Pool)
    → starting_of l.env_profile p ≢ 0
    → is_in l.worker (p.free ++ p.busy) ≡ false
    → IsWithin p p
    → IsWithin p (started l started_at later p)
unfolding started record_lease_wait total
started-IsWithin l started_at later p begun fresh v = record {
  config_kept = refl;
  starts_counted = unmark_starting-IsCounted l.env_profile p v.starts_counted begun;
  in_cap = omega (arith, v.in_cap, starting_of-le l.env_profile p v.starts_counted);
  profile_cap = λ env. started-AtMost l env p begun (v.profile_cap env);
  single = λ n. elim (Bool-cases (is_worker n l)) [
    | inl e ↦ rw e (omega (arith, new_weight n l p fresh e))
    | inr e ↦ rw e (omega (arith, v.single n))
  ];
  usable = v.usable;
}

start_failed-IsWithin :
    (env : String) (started_at later : ℕ) (p : Pool)
    → starting_of env p ≢ 0
    → IsWithin p p
    → IsWithin p (start_failed env started_at later p)
unfolding start_failed record_lease_wait
start_failed-IsWithin env started_at later p begun v =
    shrink-IsWithin p _ v refl (unmark_starting-IsCounted env p v.starts_counted begun)
      (λ weight. omega arith) (omega arith)
      (λ other. rw (starting_of-unmark_starting env other p) (omega arith)) v.usable

recycled-IsWithin :
    (n now : ℕ) (p : Pool) (l : Lease) (rest : List Lease)
    → IsWithin p p
    → take_first (is_worker n) p.busy ≡ some (l, rest)
    → is_exhausted (record l { use_count = l.use_count + 1 }) p ≡ false
    → IsWithin p (record p {
      busy = rest;
      free = p.free ++ record l { use_count = l.use_count + 1; last_used_at = now } ∷ [];
    })
unfolding total is_exhausted is_worker
recycled-IsWithin n now p l rest v e f =
    let l' = record l { use_count = l.use_count + 1; last_used_at = now } in
    let sum = λ (weight : Lease → ℕ). total-append weight p.free (l' ∷ []) in
    let was = λ (weight : Lease → ℕ). (take_first-total (is_worker n) weight p.busy l rest e).1 in
    record {
      config_kept = refl;
      starts_counted = v.starts_counted;
      in_cap = omega (arith, v.in_cap, sum (λ _. 1), was (λ _. 1));
      profile_cap = λ env.
          AtMost-mono _ _ p.max_workers_per_env_profile
            (omega (arith, sum (in_profile env), was (in_profile env))) (v.profile_cap env);
      single = λ k. omega (arith, v.single k, sum (on k), was (on k));
      usable = All-append _ p.free (l' ∷ []) v.usable (f, tt);
    }

release_worker-IsWithin :
    (n now : ℕ) (p : Pool) → IsWithin p p → IsWithin p (release_worker n now p).0
unfolding release_worker
release_worker-IsWithin n now p v = elim (Option-cases (take_first (is_worker n) p.busy)) [
  | inl e ↦ rw (e, release_worker) v
  | inr ((l, rest), e) ↦
      let l' = record l { use_count = l.use_count + 1 } in
      elim (Bool-cases (is_exhausted l' p)) [
        | inl f ↦
            rw (e, release_worker)
              (rw f (
                shrink-IsWithin p (record p { busy = rest }) v refl v.starts_counted
                  (λ weight. omega (arith, take_first-total (is_worker n) weight p.busy l rest e))
                  (omega arith) (λ env. omega arith) v.usable))
        | inr f ↦ rw (e, release_worker) (rw f (recycled-IsWithin n now p l rest v e f))
      ]
]

destroy_worker-IsWithin : (n : ℕ) (p : Pool) → IsWithin p p → IsWithin p (destroy_worker n p).0
unfolding destroy_worker
destroy_worker-IsWithin n p v =
    shrink-IsWithin p _ v refl v.starts_counted
      (λ weight. omega (arith, without-le n weight p.free, without-le n weight p.busy))
      (omega arith) (λ env. omega arith) (All-without _ n p.free v.usable)

cleanup-IsWithin : (p : Pool) → IsWithin p p → IsWithin p (cleanup p).0
unfolding cleanup total
cleanup-IsWithin p v =
    shrink-IsWithin p _ v refl v.starts_counted (λ weight. omega arith) (omega arith)
      (λ env. omega arith) tt

wait_timed_out-IsWithin :
    (started_at later : ℕ) (p : Pool)
    → IsWithin p p
    → IsWithin p (wait_timed_out started_at later p)
unfolding wait_timed_out
wait_timed_out-IsWithin started_at later p v =
    shrink-IsWithin p _ v refl v.starts_counted (λ weight. omega arith) (omega arith)
      (λ env. omega arith) v.usable

request-IsWithin : (p : Pool) → IsWithin p p → IsWithin p (request p)
unfolding request
request-IsWithin p v =
    shrink-IsWithin p _ v refl v.starts_counted (λ weight. omega arith) (omega arith)
      (λ env. omega arith) v.usable

Step-IsWithin : {p q : Pool} → Step p q → IsWithin p p → IsWithin p q
Step-IsWithin {p} requests v = request-IsWithin p v
Step-IsWithin {p} (tries env hash s d n l) v = attempt-IsWithin env hash s d n l p v
Step-IsWithin {p} (times_out s l) v = wait_timed_out-IsWithin s l p v
Step-IsWithin {p} (starts l s t b f) v = started-IsWithin l s t p b f v
Step-IsWithin {p} (fails env s t b) v = start_failed-IsWithin env s t p b v
Step-IsWithin {p} (releases n t) v = release_worker-IsWithin n t p v
Step-IsWithin {p} (destroys n) v = destroy_worker-IsWithin n p v
Step-IsWithin {p} cleans v = cleanup-IsWithin p v

pub Step-IsValid : {p q : Pool} → Step p q → IsValid p → IsValid q
Step-IsValid {p} {q} s v = IsWithin-IsValid p q (Step-IsWithin s (IsValid-IsWithin p v))

Reach-IsValid : {p q : Pool} → IsValid p → Reach p q → IsValid q
Reach-IsValid v here = v
Reach-IsValid v (next r s) = Step-IsValid s (Reach-IsValid v r)

abbrev empty : Config → Pool
empty c = record {
  config = c;
  free = [];
  busy = [];
  starting = 0;
  starting_by_env_profile = [];
  lease_requests = 0;
  lease_timeouts = 0;
  lease_wait_ms_total = 0;
  lease_wait_ms_max = 0;
}

init-empty : (a b c d : ℤ) (p : Pool) → init a b c d ≡ some p → empty p.config ≡ p
unfolding init
init-empty (pos a) b c (pos d) p h = ground arith
init-empty (negsuc a) b c d p h = cc
init-empty (pos a) b c (negsuc d) p h = ground arith

AtMost-zero : (z : ℤ) → AtMost 0 z
AtMost-zero (pos n) = omega arith
AtMost-zero (negsuc n) = tt

empty-IsValid : (c : Config) → IsValid (empty c)
unfolding total Dict.get
empty-IsValid c = record {
  starts_counted = record { unique = tt; summed = refl; positive = tt };
  in_cap = omega arith;
  profile_cap = λ env. AtMost-zero c.max_workers_per_env_profile;
  single = λ n. omega arith;
  usable = tt;
}

-- In every state that a new pool can reach, the workers that are free, busy or being started are
-- within `max_workers`, those of each profile within the cap of a profile, no worker is leased
-- twice or free while leased, the counts of starts agree, and no free worker is used up.
pub pool_reachable-IsValid :
    (a b c d : ℤ) {p q : Pool} → init a b c d ≡ some p → Reach p q → IsValid q
pool_reachable-IsValid a b c d {p} e r =
    Reach-IsValid (subst IsValid (init-empty a b c d p e) (empty-IsValid p.config)) r
