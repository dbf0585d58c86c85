-- ===== src/Lifecycle/Invariant.antt =====
-- server/exec_lifecycle.py: what holds of every record between two calls.
use kimina_lean_server.Base.{
  ℕ, ◌+◌, ◌<◌, ◌≡◌, ◌≢◌, refl, String, false, Option, none, some, [], List, ◌∷◌, arith, All,
  string_key, Option-cases, Bool-cases, zero, suc, inl, inr,
}
use kimina_lean_server.Base.Dict
use kimina_lean_server.Lifecycle.{
  Status, active, cancelling, drained, cleaned, LifecycleRecord, Registry, Call, begins, finishes,
  cancels, decides, marks, reports, apply, run, init, or_fresh, finished, cancelled, sweep, begin,
  begin_swept, finish, cancel, cleanup_decision, mark_cleaned, stats, lookup, write, is_stopped,
}

-- An active item is never due, a cancelling one has work in flight and is not due, and a drained or
-- cleaned one has none and is due.
abbrev Fits : Status → ℕ → Option ℕ → Type 0
Fits active n due = due ≡ none
Fits cancelling n due = (0 < n) × (due ≡ none)
Fits drained n due = (n ≡ 0) × (due ≢ none)
Fits cleaned n due = (n ≡ 0) × (due ≢ none)

abbrev pub IsSound : LifecycleRecord → Type 0
IsSound r = Fits r.status r.in_flight r.terminal_expires_at

pub record IsValid (g : Registry) : Type 0 where
  pub unique : Dict.Unique g.records
  pub sound : All IsSound (Dict.values g.records)

pub init-IsValid : (n : ℕ) (g : Registry) → init n ≡ some g → IsValid g
unfolding init
init-IsValid zero g h = cc
init-IsValid (suc n) g h = ground arith

pub sweep-IsValid : (now : ℕ) (g : Registry) → IsValid g → IsValid (sweep now g)
unfolding sweep
sweep-IsValid now g v = record {
  unique = Dict.retain-Unique _ g.records v.unique;
  sound = Dict.All-retain IsSound _ g.records v.sound;
}

write-IsValid :
    (item : String) (r : LifecycleRecord) (g : Registry)
    → IsSound r
    → IsValid g
    → IsValid (write item r g)
write-IsValid item r g s v = record {
  unique = Dict.put-Unique item r g.records v.unique;
  sound = Dict.All-put IsSound item r g.records s v.sound;
}

or_fresh-IsSound : (item : String) (g : Registry) → IsValid g → IsSound (or_fresh (lookup item g))
or_fresh-IsSound item g v = elim (Option-cases (lookup item g)) [
  | inl e ↦ rw e refl
  | inr (r, e) ↦ rw e (Dict.All-get IsSound item r g.records v.sound e)
]

begun-IsSound :
    (r : LifecycleRecord)
    → IsSound r
    → is_stopped r.status ≡ false
    → IsSound (record r { in_flight = r.in_flight + 1 })
begun-IsSound r s h = ground arith

finished-IsSound : (n later : ℕ) (r : LifecycleRecord) → IsSound r → IsSound (finished n later r)
unfolding finished
finished-IsSound n later r s = ground arith

cancelled-IsSound :
    (n later : ℕ) (o : Option LifecycleRecord)
    → IsSound (or_fresh o)
    → IsSound (cancelled n later o)
unfolding cancelled
cancelled-IsSound n later none s = ground arith
cancelled-IsSound n later (some r) s = ground arith

begin_swept-IsValid : (item : String) (g : Registry) → IsValid g → IsValid (begin_swept item g).0
unfolding begin_swept
begin_swept-IsValid item g v = elim (Bool-cases (is_stopped (or_fresh (lookup item g)).status)) [
  | inl e ↦ rw e v
  | inr e ↦ rw e (write-IsValid item _ g (begun-IsSound _ (or_fresh-IsSound item g v) e) v)
]

pub apply-IsValid : (c : Call) (g : Registry) → IsValid g → IsValid (apply c g)
unfolding apply begin finish cancel cleanup_decision mark_cleaned stats
apply-IsValid (begins item now) g v = begin_swept-IsValid item _ (sweep-IsValid now g v)
apply-IsValid (finishes item later) g v =
    write-IsValid item _ g (finished-IsSound _ later _ (or_fresh-IsSound item g v)) v
apply-IsValid (cancels item now later) g v =
    write-IsValid item _ _
      (cancelled-IsSound g.retention later (lookup item (sweep now g))
        (or_fresh-IsSound item _ (sweep-IsValid now g v)))
      (sweep-IsValid now g v)
apply-IsValid (decides item now) g v = sweep-IsValid now g v
apply-IsValid (marks item later) g v = write-IsValid item _ g (refl, λ e. cc) v
apply-IsValid (reports now) g v = sweep-IsValid now g v

-- Whatever methods are called, and whatever the clock shows, each item keeps a single record, and
-- every record stays sound: an active one is never due, a cancelling one has work in flight and is
-- not due, and a drained or cleaned one has none and is due.
pub run-IsValid : (cs : List Call) (g : Registry) → IsValid g → IsValid (run cs g)
unfolding run
run-IsValid [] g v = v
run-IsValid (c ∷ cs) g v = run-IsValid cs (apply c g) (apply-IsValid c g v)
