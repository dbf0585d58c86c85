-- ===== src/Lifecycle/Examples.antt =====
-- Runs of the registry of server/exec_lifecycle.py.
use kimina_lean_server.Base.{
  Option, String, Bool, same_text, ap, ◌+◌, ◌≡◌, ◌≢◌, refl, false, some, none, [], ◌∷◌, List, arith,
  String_discrete,
}
use kimina_lean_server.Base.Dict
use kimina_lean_server.Lifecycle.{
  Registry, Call, begins, finishes, cancels, reports, active, begin, finish, cancel, sweep, run,
  apply, lookup, or_fresh,
}
use kimina_lean_server.Lifecycle.Invariant.{IsValid, run-IsValid}
use kimina_lean_server.Lifecycle.Sticky.{IsRefused, cancel-run-IsRefused}
use kimina_lean_server.Lifecycle.Counting.{cancelling_with}

abbrev empty : Registry
empty = record { retention = 660; records = [] }

empty-IsValid : IsValid empty
empty-IsValid = record { unique = tt; sound = tt }

abbrev calls : List Call
calls = begins "a" 0 ∷ begins "a" 1 ∷ begins "b" 2 ∷ cancels "a" 3 3 ∷ finishes "a" 4 ∷ []

abbrev used : Registry
used = run calls empty

-- One of two pieces of work of "a" is done: it is cancelling, and the other is in flight.
used_a : lookup "a" used ≡ some (cancelling_with 1)
unfolding run apply begin cancel finish String_discrete Dict.get Dict.put Dict.retain
used_a = refl

run-IsValid_example : IsValid used
run-IsValid_example = run-IsValid calls empty empty-IsValid

used_running :
    or_fresh (lookup "b" (sweep 5 used))
    ≡ record { status = active; in_flight = 1; terminal_expires_at = none }
unfolding run apply begin cancel finish String_discrete Dict.get Dict.put Dict.retain
used_running = refl

abbrev later_calls : List Call
later_calls = begins "b" 10 ∷ finishes "b" 11 ∷ reports 600 ∷ []

cancel-run-IsRefused_example :
    IsRefused "b" (6 + used.retention) (run later_calls (cancel "b" 5 6 used).0)
unfolding run apply begin cancel finish String_discrete Dict.get Dict.put Dict.retain
cancel-run-IsRefused_example =
    cancel-run-IsRefused "b" 5 6 used later_calls (run-IsValid calls empty empty-IsValid) refl
      (omega arith, (omega arith, (omega arith, tt)))

abbrev is_a : Option String → Bool
is_a none = false
is_a (some s) = same_text s "a"

a-ne-b : ◌≢◌ {A = Option String} (some "a") (some "b")
unfolding same_text
a-ne-b e = let f : is_a (some "a") ≡ is_a (some "b") = ap is_a e in cc
