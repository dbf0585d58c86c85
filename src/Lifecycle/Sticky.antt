-- ===== src/Lifecycle/Sticky.antt =====
-- server/exec_lifecycle.py: a cancelled or cleaned item stays refused for the retention time.
use kimina_lean_server.Base.{
  ℕ, ◌+◌, ◌<◌, ◌≤◌, ◌≡◌, refl, String, Bool, true, false, not, Option, none, some, [], List, ◌∷◌,
  arith, All, string_key, Bool-cases, inl, inr,
}
use kimina_lean_server.Base.Dict
use kimina_lean_server.Lifecycle.{
  cleaned, LifecycleRecord, Registry, Call, begins, finishes, cancels, decides, marks, reports,
  apply, run, or_fresh, finished, cancelled, set_terminal, sweep, begin, begin_swept, finish,
  cancel, cleanup_decision, mark_cleaned, stats, lookup, write, is_stopped, is_cleaned, has_expired,
  should_cancel,
}
use kimina_lean_server.Lifecycle.Invariant.{IsValid, apply-IsValid, run-IsValid}
use native.Mathlib.Nat.{le_refl}

abbrev NotBefore : ℕ → Option ℕ → Type 0
NotBefore end none = Unit
NotBefore end (some t) = end ≤ t

-- The record stops the item's work, and no sweep before `end` pops it.
abbrev StoppedUntil : ℕ → Option LifecycleRecord → Type 0
StoppedUntil end none = ⊥
StoppedUntil end (some r) = (is_stopped r.status ≡ true) × NotBefore end r.terminal_expires_at

-- The clock readings of a call that is made at or after `start` and before `end`.
abbrev Within : ℕ → ℕ → Call → Type 0
Within start end (begins item now) = now < end
Within start end (finishes item later) = start ≤ later
Within start end (cancels item now later) = (now < end) × (start ≤ later)
Within start end (decides item now) = now < end
Within start end (marks item later) = start ≤ later
Within start end (reports now) = now < end

module _ (end : ℕ) where
  kept-StoppedUntil :
      (now : ℕ) (o : Option LifecycleRecord)
      → now < end
      → StoppedUntil end o
      → StoppedUntil end (Dict.kept (λ r. not (has_expired now r)) o)
  kept-StoppedUntil now none h s = s
  kept-StoppedUntil now (some r) h s = ground arith

  sweep-StoppedUntil :
      (now : ℕ) (item : String) (g : Registry)
      → now < end
      → IsValid g
      → StoppedUntil end (lookup item g)
      → StoppedUntil end (lookup item (sweep now g))
  unfolding sweep
  sweep-StoppedUntil now item g h v s =
      rw (Dict.get-retain item (λ r. not (has_expired now r)) g.records v.unique)
        (kept-StoppedUntil now (lookup item g) h s)

  write-StoppedUntil :
      (j item : String) (r : LifecycleRecord) (g : Registry)
      → (j ≡ item → StoppedUntil end (some r))
      → StoppedUntil end (lookup item g)
      → StoppedUntil end (lookup item (write j r g))
  write-StoppedUntil j item r g new s = rw (Dict.get-put j item r g.records) (ground arith)

  finished-StoppedUntil :
      (n later : ℕ) (o : Option LifecycleRecord)
      → end ≤ later + n
      → StoppedUntil end o
      → StoppedUntil end (some (finished n later (or_fresh o)))
  unfolding finished
  finished-StoppedUntil n later none h s = absurd s
  finished-StoppedUntil n later (some r) h s = ground arith

  cancelled-StoppedUntil :
      (n later : ℕ) (o : Option LifecycleRecord)
      → end ≤ later + n
      → StoppedUntil end o
      → StoppedUntil end (some (cancelled n later o))
  unfolding cancelled
  cancelled-StoppedUntil n later none h s = absurd s
  cancelled-StoppedUntil n later (some r) h s = ground arith

  stopped-is_stopped :
      (o : Option LifecycleRecord) → StoppedUntil end o → is_stopped (or_fresh o).status ≡ true
  stopped-is_stopped none s = absurd s
  stopped-is_stopped (some r) s = s.0

  begin_swept-StoppedUntil :
      (j item : String) (g : Registry)
      → StoppedUntil end (lookup item g)
      → StoppedUntil end (lookup item (begin_swept j g).0)
  unfolding begin_swept
  begin_swept-StoppedUntil j item g s =
      elim (Bool-cases (is_stopped (or_fresh (lookup j g)).status)) [
        | inl e ↦ rw e s
        | inr e ↦ rw e (write-StoppedUntil j item _ g (λ p. absurd (clash p e)) s)
      ]
    where
      clash : j ≡ item → is_stopped (or_fresh (lookup j g)).status ≡ false → ⊥
      clash p e = cc (stopped-is_stopped (lookup item g) s)

  apply-StoppedUntil :
      (start : ℕ) (item : String) (c : Call) (g : Registry)
      → end ≤ start + g.retention
      → Within start end c
      → IsValid g
      → StoppedUntil end (lookup item g)
      → StoppedUntil end (lookup item (apply c g))
  unfolding apply begin finish cancel cleanup_decision mark_cleaned stats
  apply-StoppedUntil start item (begins j now) g h w v s =
      begin_swept-StoppedUntil j item _ (sweep-StoppedUntil now item g w v s)
  apply-StoppedUntil start item (finishes j later) g h w v s =
      write-StoppedUntil j item _ g
        (λ p. finished-StoppedUntil g.retention later (lookup j g) (omega arith) (rw p s)) s
  apply-StoppedUntil start item (cancels j now later) g h w v s =
      let s' = sweep-StoppedUntil now item g w.0 v s in
      write-StoppedUntil j item (cancelled g.retention later (lookup j (sweep now g))) (sweep now g)
        (λ p.
          cancelled-StoppedUntil g.retention later (lookup j (sweep now g)) (omega arith) (rw p s'))
        s'
  apply-StoppedUntil start item (decides j now) g h w v s = sweep-StoppedUntil now item g w v s
  apply-StoppedUntil start item (marks j later) g h w v s =
      write-StoppedUntil j item _ g (λ p. (refl, omega arith)) s
  apply-StoppedUntil start item (reports now) g h w v s = sweep-StoppedUntil now item g w v s

retention-begin_swept :
    (item : String) (g : Registry) → (begin_swept item g).0.retention ≡ g.retention
unfolding begin_swept
retention-begin_swept item g = ground arith

retention-apply : (c : Call) (g : Registry) → (apply c g).retention ≡ g.retention
unfolding apply begin finish cancel cleanup_decision mark_cleaned stats
retention-apply (begins item now) g = retention-begin_swept item (sweep now g)
retention-apply c g = refl

run-StoppedUntil :
    (start end : ℕ) (item : String) (cs : List Call) (g : Registry)
    → end ≤ start + g.retention
    → All (Within start end) cs
    → IsValid g
    → StoppedUntil end (lookup item g)
    → StoppedUntil end (lookup item (run cs g))
unfolding run
run-StoppedUntil start end item [] g h w v s = s
run-StoppedUntil start end item (c ∷ cs) g h w v s =
    run-StoppedUntil start end item cs (apply c g) (rw (retention-apply c g) h) w.1
      (apply-IsValid c g v) (apply-StoppedUntil end start item c g h w.0 v s)

cancelled-fresh :
    (n later : ℕ) (o : Option LifecycleRecord)
    → is_cleaned (or_fresh o).status ≡ false
    → StoppedUntil (later + n) (some (cancelled n later o))
unfolding cancelled
cancelled-fresh n later none h = ground arith
cancelled-fresh n later (some r) h = ground arith

cancel-StoppedUntil :
    (item : String) (now later : ℕ) (g : Registry)
    → is_cleaned (or_fresh (lookup item (sweep now g))).status ≡ false
    → StoppedUntil (later + g.retention) (lookup item (cancel item now later g).0)
unfolding cancel
cancel-StoppedUntil item now later g h =
    rw
      (Dict.get-put_self item (cancelled g.retention later (lookup item (sweep now g)))
        (sweep now g).records)
      (cancelled-fresh g.retention later (lookup item (sweep now g)) h)

mark_cleaned-StoppedUntil :
    (item : String) (later : ℕ) (g : Registry)
    → StoppedUntil (later + g.retention) (lookup item (mark_cleaned item later g).0)
unfolding mark_cleaned
mark_cleaned-StoppedUntil item later g =
    rw (Dict.get-put_self item (set_terminal g.retention later cleaned) g.records)
      (unfold set_terminal in (refl, omega arith))

-- What the routes see of a stopped item: work on it is refused, and running work is told to stop.
pub record IsRefused (item : String) (end : ℕ) (g : Registry) : Type 0 where
  pub told : should_cancel item g ≡ true
  pub refused : (now : ℕ) → now < end → (begin item now g).1.started ≡ false

begin_swept_refused :
    (end : ℕ) (item : String) (g : Registry)
    → StoppedUntil end (lookup item g)
    → (begin_swept item g).1.started ≡ false
unfolding begin_swept
begin_swept_refused end item g s = rw (stopped-is_stopped end (lookup item g) s)

should_cancel_told :
    (end : ℕ) (o : Option LifecycleRecord)
    → StoppedUntil end o
    → ◌≡◌ {A = Bool} (elim o [ none ↦ false | some r ↦ is_stopped r.status ]) true
should_cancel_told end none s = absurd s
should_cancel_told end (some r) s = s.0

StoppedUntil-IsRefused :
    (end : ℕ) (item : String) (g : Registry)
    → IsValid g
    → StoppedUntil end (lookup item g)
    → IsRefused item end g
unfolding begin should_cancel
StoppedUntil-IsRefused end item g v s = record {
  told = should_cancel_told end (lookup item g) s;
  refused = λ now h. begin_swept_refused end item _ (sweep-StoppedUntil end now item g h v s);
}

-- Whatever calls follow a cancellation, made at or after it and within the retention time, the
-- item is still told to stop and refused, unless it was already cleaned when it was cancelled.
pub cancel-run-IsRefused :
    (item : String) (now later : ℕ) (g : Registry) (cs : List Call)
    → IsValid g
    → is_cleaned (or_fresh (lookup item (sweep now g))).status ≡ false
    → All (Within later (later + g.retention)) cs
    → IsRefused item (later + g.retention) (run cs (cancel item now later g).0)
unfolding apply
cancel-run-IsRefused item now later g cs v h w =
    let valid = apply-IsValid (cancels item now later) g v in
    StoppedUntil-IsRefused _ item _ (run-IsValid cs _ valid) (
      run-StoppedUntil later (later + g.retention) item cs (cancel item now later g).0
        (rw (retention-apply (cancels item now later) g) (le_refl (later + g.retention))) w valid
        (cancel-StoppedUntil item now later g h))

-- The same holds after an item was marked as cleaned, from any state.
mark_cleaned-run-IsRefused :
    (item : String) (later : ℕ) (g : Registry) (cs : List Call)
    → IsValid g
    → All (Within later (later + g.retention)) cs
    → IsRefused item (later + g.retention) (run cs (mark_cleaned item later g).0)
unfolding apply
mark_cleaned-run-IsRefused item later g cs v w =
    let valid = apply-IsValid (marks item later) g v in
    StoppedUntil-IsRefused _ item _ (run-IsValid cs _ valid) (
      run-StoppedUntil later (later + g.retention) item cs (mark_cleaned item later g).0
        (rw (retention-apply (marks item later) g) (le_refl (later + g.retention))) w valid
        (mark_cleaned-StoppedUntil item later g))
