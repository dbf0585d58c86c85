-- ===== src/Legacy/Manager/Invariant.antt =====
-- server/manager.py: the cap of the pool, and the REPLs that are free.
use mathlib.Core.Path.{subst}
use kimina_lean_server.Base.{
  ℕ, ◌+◌, ◌≤◌, ◌<◌, String, Bool, true, false, ◌||◌, ◌≡◌, refl, inl, inr, ite, Option, none, some,
  Bool-cases, List, [], ◌∷◌, length, mem, mem-discard, Distinct, Distinct-discard, length-discard,
  ltb, nat_key, ℕ_discrete, if◌then◌else◌, arith,
}
use kimina_lean_server.Base.Dict
use kimina_lean_server.Base.Dict.{get-put}
use kimina_lean_server.Legacy.Manager.{
  Repl, exhausted, Manager, lookup, find_free, oldest_of, oldest, lease, retire, start_new,
  get_repl, create,
}

pub record IsValid (m : Manager) : Type 0 where
  pub capped : length m.free + length m.busy ≤ m.max_repls
  pub free_once : Distinct ℕ_discrete m.free
  pub busy_once : Distinct ℕ_discrete m.busy
  pub apart : (id : ℕ) → mem ℕ_discrete id m.free ≡ true → mem ℕ_discrete id m.busy ≡ false
  pub usable : (id : ℕ) → mem ℕ_discrete id m.free ≡ true → exhausted (lookup id m.repls) ≡ false
  pub known :
      (id : ℕ)
      → (mem ℕ_discrete id m.free || mem ℕ_discrete id m.busy) ≡ true
      → Dict.has id m.repls ≡ true

find_free-mem :
    (header : String) (repls : Dict.Dict ℕ Repl) (free : List ℕ) (id : ℕ)
    → find_free header repls free ≡ some id
    → mem ℕ_discrete id free ≡ true
unfolding find_free mem
find_free-mem header repls [] id h = cc
find_free-mem header repls (x ∷ xs) id h = ground (arith, find_free-mem header repls xs id)

oldest_of-mem :
    (repls : Dict.Dict ℕ Repl) (best : ℕ) (ids : List ℕ)
    → mem ℕ_discrete (oldest_of repls best ids) (best ∷ ids) ≡ true
unfolding oldest_of mem
oldest_of-mem repls best [] = ground arith
oldest_of-mem repls best (id ∷ ids) = ground (
  arith,
  oldest_of-mem repls
      (if ltb (lookup id repls).last_check_at (lookup best repls).last_check_at then id else best)
      ids,
)

pub lookup-put :
    (id j : ℕ) (r : Repl) (repls : Dict.Dict ℕ Repl)
    → lookup j (Dict.put id r repls) ≡ ite (ℕ_discrete id j) r (lookup j repls)
lookup-put id j r repls = rw (get-put id j r repls) (ground arith)

-- Leasing a free REPL.
lease-IsValid :
    (id : ℕ) (m : Manager) → mem ℕ_discrete id m.free ≡ true → IsValid m → IsValid (lease id m)
unfolding mem
lease-IsValid id m h v = record {
  capped = omega (arith, length-discard ℕ_discrete id m.free h, v.capped);
  free_once = Distinct-discard ℕ_discrete id m.free v.free_once;
  busy_once = (v.apart id h, v.busy_once);
  apart = λ j k. ground (arith, mem-discard ℕ_discrete id j m.free, v.apart j);
  usable = λ j k. v.usable j (ground (arith, mem-discard ℕ_discrete id j m.free));
  known = λ j k. v.known j (ground (arith, mem-discard ℕ_discrete id j m.free));
}

-- Starting a new one, while there is room.
start-IsValid :
    (header : String) (id now : ℕ) (m : Manager)
    → Dict.has id m.repls ≡ false
    → length m.free + length m.busy < m.max_repls
    → IsValid m
    → IsValid (start_new header id now m)
unfolding start_new mem
start-IsValid header id now m fresh room v = record {
  capped = omega arith;
  free_once = v.free_once;
  busy_once = (ground (arith, v.known id), v.busy_once);
  apart = λ j k. ground (arith, v.apart j, v.known j);
  usable = λ j k.
      rw (lookup-put id j (create header m.max_repl_uses now) m.repls)
        (ground (arith, v.usable j, v.known j));
  known =
      λ j k. ground (arith, v.known j, get-put id j (create header m.max_repl_uses now) m.repls);
}

-- A free REPL that is closed leaves room for another.
retire-IsValid :
    (id : ℕ) (m : Manager)
    → mem ℕ_discrete id m.free ≡ true
    → IsValid m
    → IsValid (retire id m) × (length (retire id m).free + length m.busy < m.max_repls)
retire-IsValid id m h v =
    let shorter = length-discard ℕ_discrete id m.free h in
    (
      record {
        capped = omega (arith, shorter, v.capped);
        free_once = Distinct-discard ℕ_discrete id m.free v.free_once;
        busy_once = v.busy_once;
        apart = λ j k. v.apart j (ground (arith, mem-discard ℕ_discrete id j m.free));
        usable = λ j k. v.usable j (ground (arith, mem-discard ℕ_discrete id j m.free));
        known = λ j k. v.known j (ground (arith, mem-discard ℕ_discrete id j m.free));
      },
      omega (arith, shorter, v.capped),
    )

oldest-mem :
    (repls : Dict.Dict ℕ Repl) (free : List ℕ) (id : ℕ)
    → oldest repls free ≡ some id
    → mem ℕ_discrete id free ≡ true
unfolding oldest
oldest-mem repls [] id h = cc
oldest-mem repls (first ∷ others) id h =
    let e : oldest_of repls first others ≡ id = cc in
    subst (λ j. mem ℕ_discrete j (first ∷ others) ≡ true) e (oldest_of-mem repls first others)

pub get_repl-IsValid :
    (header : String) (reuse : Bool) (id now : ℕ) (m : Manager)
    → Dict.has id m.repls ≡ false
    → IsValid m
    → IsValid (get_repl header reuse id now m).0
unfolding get_repl
get_repl-IsValid header reuse id now m fresh v =
    reused (if reuse then find_free header m.repls m.free else none) refl
  where
    reusable :
        (b : Bool) (found : ℕ)
        → (if b then find_free header m.repls m.free else none) ≡ some found
        → mem ℕ_discrete found m.free ≡ true
    reusable true found h = find_free-mem header m.repls m.free found h
    reusable false found h = cc

    replaced :
        (o : Option ℕ)
        → (if reuse then find_free header m.repls m.free else none) ≡ none
        → ltb (length m.free + length m.busy) m.max_repls ≡ false
        → oldest m.repls m.free ≡ o
        → IsValid (get_repl header reuse id now m).0
    replaced none e l h = rw (e, l, h, get_repl) v
    replaced (some old) e l h =
        let r = retire-IsValid old m (oldest-mem m.repls m.free old h) v in
        rw (e, l, h, get_repl) (start-IsValid header id now (retire old m) fresh r.1 r.0)

    reused :
        (o : Option ℕ)
        → (if reuse then find_free header m.repls m.free else none) ≡ o
        → IsValid (get_repl header reuse id now m).0
    reused (some found) e = rw (e, get_repl) (lease-IsValid found m (reusable reuse found e) v)
    reused none e = elim (Bool-cases (ltb (length m.free + length m.busy) m.max_repls)) [
      | inl l ↦ rw (e, l, get_repl) (start-IsValid header id now m fresh (ground arith) v)
      | inr l ↦ replaced (oldest m.repls m.free) e l refl
    ]
