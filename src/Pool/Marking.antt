-- ===== src/Pool/Marking.antt =====
-- server/pantograph_manager.py: a start is marked only where the caps leave room for it.
use kimina_lean_server.Base.{
  ℕ, ◌+◌, ◌≤◌, ◌<◌, ◌≡◌, refl, inl, inr, String, String_discrete, some, true, false, Bool-cases,
  total, arith, List, [], ◌∷◌, All, total-append,
}
use mathlib.Core.Logic.{if_pos, if_neg}
use native.Mathlib.Nat.{add_assoc}
use kimina_lean_server.Base.Int.{AtMost}
use kimina_lean_server.Pool.{
  Pool, Lease, starting_of, in_profile, is_worker, is_in, is_exhausted, can_start, worker_to_close,
  mark_starting, without,
}
use kimina_lean_server.Pool.Starting.{mark_starting-IsCounted, starting_of-mark_starting}
use kimina_lean_server.Pool.Leases.{without-total, All-without, worker_to_close_lem, Distinct}
use kimina_lean_server.Pool.Capacity.{AtMost-mono, IsWithin, on, weigh}

pub mark_starting-AtMost :
    (env other : String) (p q : Pool)
    → IsWithin p p
    → q.starting_by_env_profile ≡ p.starting_by_env_profile
    → ((weight : Lease → ℕ) → weigh weight q ≤ weigh weight p)
    → AtMost (weigh (in_profile env) q + starting_of env p + 1) p.max_workers_per_env_profile
    → AtMost
        (weigh (in_profile other) q + starting_of other (mark_starting env q))
        p.max_workers_per_env_profile
mark_starting-AtMost env other p q v b w room =
    rw (starting_of-mark_starting env other q, b)
      (elim (String_discrete env other) [
        | yes e ↦
            rw (if_pos (String_discrete env other) e, ← e)
              (rw (← add_assoc (weigh (in_profile env) q) (starting_of env p) 1) room)
        | no n ↦ rw (if_neg (String_discrete env other) n) (
            AtMost-mono _ _ p.max_workers_per_env_profile (omega (arith, w (in_profile other)))
              (v.profile_cap other))
      ])

pub marked-IsWithin :
    (env : String) (p q : Pool)
    → IsWithin p p
    → q.config ≡ p.config
    → q.starting ≡ p.starting
    → q.starting_by_env_profile ≡ p.starting_by_env_profile
    → ((weight : Lease → ℕ) → weigh weight q ≤ weigh weight p)
    → weigh (λ _. 1) q + p.starting < p.max_workers
    → AtMost (weigh (in_profile env) q + starting_of env p + 1) p.max_workers_per_env_profile
    → All (λ l. is_exhausted l p ≡ false) q.free
    → IsWithin p (mark_starting env q)
unfolding mark_starting
marked-IsWithin env p q v c s b w room prof u = record {
  config_kept = c;
  starts_counted = mark_starting-IsCounted env q (rw (s, b) v.starts_counted);
  in_cap = omega (arith, s);
  profile_cap = λ other. mark_starting-AtMost env other p q v b w prof;
  single = λ n. omega (arith, w (on n), v.single n);
  usable = u;
}

pub can_start_room :
    (env : String) (p : Pool)
    → can_start env p ≡ true
    → AtMost (weigh (in_profile env) p + starting_of env p + 1) p.max_workers_per_env_profile
unfolding can_start
can_start_room env p h = ground (arith, total-append (in_profile env) p.free p.busy)

pub is_in-false : (n : ℕ) (ls : List Lease) → total (on n) ls ≡ 0 → is_in n ls ≡ false
unfolding is_in total
is_in-false n [] h = refl
is_in-false n (l ∷ ls) h = ground (arith, is_in-false n ls)

pub Distinct-singles : (ls : List Lease) → ((n : ℕ) → total (on n) ls ≤ 1) → Distinct ls
unfolding total is_worker
Distinct-singles [] h = tt
Distinct-singles (l ∷ ls) h = (
  is_in-false l.worker ls (ground (arith, h l.worker)),
  Distinct-singles ls (λ n. omega (arith, h n)),
)

pub closed-IsWithin :
    (env : String) (p : Pool) (w : Lease)
    → IsWithin p p
    → worker_to_close env (can_start env p) p.free ≡ some w
    → IsWithin p (mark_starting env (record p { free = without w.worker p.free }))
closed-IsWithin env p w v h =
    let (among, same, oldest) = worker_to_close_lem env (can_start env p) p.free w h in
    let distinct = Distinct-singles p.free (λ n. omega (arith, v.single n)) in
    marked-IsWithin env p (record p { free = without w.worker p.free }) v refl refl refl
      (λ weight. omega (arith, without-total w weight p.free among distinct))
      (omega (arith, v.in_cap, without-total w (λ _. 1) p.free among distinct))
      (elim (Bool-cases (can_start env p)) [
        | inl e ↦
            AtMost-mono _ _ p.max_workers_per_env_profile
              (omega (arith, without-total w (in_profile env) p.free among distinct))
              (can_start_room env p e)
        | inr e ↦
            AtMost-mono _ _ p.max_workers_per_env_profile
              (ground (arith, same e, without-total w (in_profile env) p.free among distinct))
              (v.profile_cap env)
      ])
      (All-without _ w.worker p.free v.usable)
