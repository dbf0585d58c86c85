-- ===== src/Legacy/Manager/Steps.antt =====
-- server/manager.py: giving REPLs back, and what holds in every state of the pool.
use kimina_lean_server.Base.{
  ℕ, true, false, ◌≡◌, refl, inl, inr, Bool-cases, [], ◌∷◌, ◌++◌, length-append, mem, mem-append,
  discard, mem-discard, Distinct-snoc, Distinct-discard, length-discard, length-discard-le, nat_key,
  ℕ_discrete, arith,
}
use kimina_lean_server.Base.Int.{ℤ}
use kimina_lean_server.Base.Dict
use kimina_lean_server.Base.Dict.{get-put}
use kimina_lean_server.Legacy.Manager.{
  Repl, exhausted, Manager, lookup, destroy_repl, release_repl, cleanup, change, Step, gets,
  changes, releases, destroys, cleans_up, Reach, here, next, init,
}
use kimina_lean_server.Legacy.Manager.Invariant.{IsValid, get_repl-IsValid, lookup-put}

destroy_repl-IsValid : (id : ℕ) (m : Manager) → IsValid m → IsValid (destroy_repl id m)
unfolding destroy_repl
destroy_repl-IsValid id m v = record {
  capped = omega (
    arith,
    length-discard-le ℕ_discrete id m.free,
    length-discard-le ℕ_discrete id m.busy,
    v.capped,
  );
  free_once = Distinct-discard ℕ_discrete id m.free v.free_once;
  busy_once = Distinct-discard ℕ_discrete id m.busy v.busy_once;
  apart = λ j k.
      ground
        (arith, mem-discard ℕ_discrete id j m.free, mem-discard ℕ_discrete id j m.busy, v.apart j);
  usable = λ j k. v.usable j (ground (arith, mem-discard ℕ_discrete id j m.free));
  known = λ j k.
      v.known j
        (ground (arith, mem-discard ℕ_discrete id j m.free, mem-discard ℕ_discrete id j m.busy));
}

-- A task that holds a REPL changes it: a free one stays as it is.
change-IsValid :
    (f : Repl → Repl) (id : ℕ) (m : Manager)
    → mem ℕ_discrete id m.busy ≡ true
    → IsValid m
    → IsValid (change f id m)
change-IsValid f id m h v = record {
  capped = v.capped;
  free_once = v.free_once;
  busy_once = v.busy_once;
  apart = v.apart;
  usable = λ j k.
      rw (lookup-put id j (f (lookup id m.repls)) m.repls) (ground (arith, v.usable j, v.apart j));
  known = λ j k. ground (arith, v.known j, get-put id j (f (lookup id m.repls)) m.repls);
}

exhausted-touched :
    (r : Repl) (now : ℕ) → exhausted (record r { last_check_at = now }) ≡ exhausted r
unfolding exhausted
exhausted-touched r now = refl

-- A REPL that has uses left becomes free.
freed-IsValid :
    (id now : ℕ) (m : Manager)
    → mem ℕ_discrete id m.busy ≡ true
    → exhausted (lookup id m.repls) ≡ false
    → IsValid m
    → IsValid (record m {
      busy = discard ℕ_discrete id m.busy;
      free = m.free ++ id ∷ [];
      repls = Dict.put id (record (lookup id m.repls) { last_check_at = now }) m.repls;
    })
unfolding mem
freed-IsValid id now m h e v =
    let touched = record (lookup id m.repls) { last_check_at = now } in
    let outside : mem ℕ_discrete id m.free ≡ false = ground (arith, v.apart id) in
    record {
      capped =
          omega (
            arith,
            length-append m.free (id ∷ []),
            length-discard ℕ_discrete id m.busy h,
            v.capped,
          );
      free_once = Distinct-snoc ℕ_discrete id m.free v.free_once outside;
      busy_once = Distinct-discard ℕ_discrete id m.busy v.busy_once;
      apart = λ j k. ground (
        arith,
        mem-append ℕ_discrete j m.free (id ∷ []),
        mem-discard ℕ_discrete id j m.busy,
        v.apart j,
      );
      usable = λ j k. rw (lookup-put id j touched m.repls) (
          ground (
            arith,
            mem-append ℕ_discrete j m.free (id ∷ []),
            exhausted-touched (lookup id m.repls) now,
            v.usable j,
          ));
      known = λ j k. ground (
        arith,
        mem-append ℕ_discrete j m.free (id ∷ []),
        mem-discard ℕ_discrete id j m.busy,
        v.known j,
        v.known id,
        get-put id j touched m.repls,
      );
    }

release_repl-IsValid : (id now : ℕ) (m : Manager) → IsValid m → IsValid (release_repl id now m)
unfolding release_repl
release_repl-IsValid id now m v = elim (Bool-cases (mem ℕ_discrete id m.busy)) [
  | inr b ↦ rw (b, release_repl) v
  | inl b ↦ elim (Bool-cases (exhausted (lookup id m.repls))) [
    | inl e ↦
        rw (b, e, release_repl)
          (record {
            capped = omega (arith, length-discard-le ℕ_discrete id m.busy, v.capped);
            free_once = v.free_once;
            busy_once = Distinct-discard ℕ_discrete id m.busy v.busy_once;
            apart = λ j k. ground (arith, mem-discard ℕ_discrete id j m.busy, v.apart j);
            usable = v.usable;
            known = λ j k. v.known j (ground (arith, mem-discard ℕ_discrete id j m.busy));
          })
    | inr e ↦ rw (b, e, release_repl) (freed-IsValid id now m b e v)
  ]
]

cleanup-IsValid : (m : Manager) → IsValid m → IsValid (cleanup m)
unfolding cleanup mem
cleanup-IsValid m v = record {
  capped = omega arith;
  free_once = tt;
  busy_once = tt;
  apart = λ j k. cc;
  usable = λ j k. cc;
  known = λ j k. cc;
}

Step-IsValid : {m n : Manager} → Step m n → IsValid m → IsValid n
Step-IsValid {m = m} (gets header reuse id now fresh) v =
    get_repl-IsValid header reuse id now m fresh v
Step-IsValid {m = m} (changes f id h) v = change-IsValid f id m h v
Step-IsValid {m = m} (releases id now) v = release_repl-IsValid id now m v
Step-IsValid {m = m} (destroys id) v = destroy_repl-IsValid id m v
Step-IsValid {m = m} cleans_up v = cleanup-IsValid m v

init-IsValid : (max_repls : ℕ) (max_repl_uses : ℤ) → IsValid (init max_repls max_repl_uses)
unfolding mem
init-IsValid max_repls max_repl_uses = record {
  capped = omega arith;
  free_once = tt;
  busy_once = tt;
  apart = λ j k. cc;
  usable = λ j k. cc;
  known = λ j k. cc;
}

Reach-IsValid : {m n : Manager} → Reach m n → IsValid m → IsValid n
Reach-IsValid here v = v
Reach-IsValid (next r s) v = Step-IsValid s (Reach-IsValid r v)

-- Without the database, in every state that a new pool can reach, the REPLs that are free or leased
-- are at most `max_repls`; none is free twice, leased twice, or free and leased; and no free one has
-- used up what it may be used.
pub manager_reachable-IsValid :
    (max_repls : ℕ) (max_repl_uses : ℤ) (m : Manager)
    → Reach (init max_repls max_repl_uses) m
    → IsValid m
manager_reachable-IsValid max_repls max_repl_uses m r =
    Reach-IsValid r (init-IsValid max_repls max_repl_uses)
