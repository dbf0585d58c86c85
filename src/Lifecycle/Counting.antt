-- ===== src/Lifecycle/Counting.antt =====
-- server/exec_lifecycle.py: the count of work in flight, and the figures of `stats`.
use kimina_lean_server.Base.{
  ℕ, zero, suc, ◌+◌, ◌<◌, ◌≤◌, ◌≡◌, ◌≢◌, refl, String, Bool, true, false, Option, none, some, [],
  List, ◌∷◌, arith, All, string_key, Bool-cases, inl, inr, ltb, keep, length, total, ◌∙◌, ap,
  length-map,
}
use kimina_lean_server.Base.Dict
use kimina_lean_server.Lifecycle.{
  cancelling, drained, LifecycleRecord, Registry, Call, begins, finishes, cancels, decides, marks,
  reports, apply, or_fresh, finished, set_terminal, sweep, begin, begin_swept, finish, cancel,
  cleanup_decision, mark_cleaned, stats, lookup, is_stopped, is_cleaned, is_active, is_drained,
  is_cancelling,
}
use kimina_lean_server.Lifecycle.Invariant.{IsValid, IsSound, sweep-IsValid}

finished_begun :
    (n later : ℕ) (r : LifecycleRecord)
    → is_stopped r.status ≡ false
    → finished n later (record r { in_flight = r.in_flight + 1 }) ≡ r
unfolding finished
finished_begun n later r h = ground arith

begin_swept-lookup :
    (item : String) (g : Registry)
    → (begin_swept item g).1.started ≡ true
    → (is_stopped (or_fresh (lookup item g)).status ≡ false)
      × (lookup item (begin_swept item g).0
          ≡ some (record (or_fresh (lookup item g)) {
            in_flight = (or_fresh (lookup item g)).in_flight + 1;
          }))
unfolding begin_swept
begin_swept-lookup item g h = elim (Bool-cases (is_stopped (or_fresh (lookup item g)).status)) [
  | inl e ↦ let h' = rw e at h in cc
  | inr e ↦ (
    e,
    rw e (
        Dict.get-put_self item
          (record (or_fresh (lookup item g)) {
            in_flight = (or_fresh (lookup item g)).in_flight + 1;
          })
          g.records),
  )
]

-- A `begin` that starts, and a `finish` with no other call on the item between them, leave the
-- record that the sweep left, or the record of an idle active item where there was none.
pub begin-finish_restores :
    (item : String) (now later : ℕ) (g : Registry)
    → (begin item now g).1.started ≡ true
    → lookup item (finish item later (begin item now g).0).0
      ≡ some (or_fresh (lookup item (sweep now g)))
unfolding begin finish
begin-finish_restores item now later g h =
    let g' = (begin_swept item (sweep now g)).0 in
    let (going, found) = begin_swept-lookup item (sweep now g) h in
    Dict.get-put_self item (finished g'.retention later (or_fresh (lookup item g'))) g'.records
    ∙ rw found
        (ap some (finished_begun g'.retention later (or_fresh (lookup item (sweep now g))) going))

-- `finish` called once for each reading of the clock.
pub finish_all : String → List ℕ → Registry → Registry
finish_all item [] g = g
finish_all item (t ∷ ts) g = finish_all item ts (finish item t g).0

abbrev pub cancelling_with : ℕ → LifecycleRecord
cancelling_with n = record { status = cancelling; in_flight = n; terminal_expires_at = none }

finished-cancelling :
    (n later a b : ℕ) → a ≡ b + 1 → 0 < b → finished n later (cancelling_with a) ≡ cancelling_with b
unfolding finished
finished-cancelling n later a b e p = ground arith

finished_last : (n later : ℕ) → (finished n later (cancelling_with 1)).status ≡ drained
unfolding finished set_terminal
finished_last n later = refl

finish-lookup :
    (item : String) (t : ℕ) (g : Registry)
    → lookup item (finish item t g).0 ≡ some (finished g.retention t (or_fresh (lookup item g)))
unfolding finish
finish-lookup item t g =
    Dict.get-put_self item (finished g.retention t (or_fresh (lookup item g))) g.records

-- A cancelling item with `n` pieces of work in flight is drained by exactly `n` calls of `finish`:
-- after fewer it is still cancelling, with the rest in flight.
drains_exactly :
    (item : String) (ts : List ℕ) (k : ℕ) (g : Registry)
    → lookup item g ≡ some (cancelling_with (length ts + k))
    → 0 < length ts
    → (0 < k → lookup item (finish_all item ts g) ≡ some (cancelling_with k))
      × (k ≡ 0 → (or_fresh (lookup item (finish_all item ts g))).status ≡ drained)
unfolding finish_all
drains_exactly item [] k g h p = absurd (omega arith)
drains_exactly item (t ∷ []) zero g h p =
    (λ q. absurd (omega arith), λ q. rw (finish-lookup item t g, h) (finished_last g.retention t))
drains_exactly item (t ∷ []) (suc k) g h p = (
  λ q.
      rw (finish-lookup item t g, h)
        (ap some (finished-cancelling g.retention t _ (suc k) (omega arith) (omega arith))),
  λ q. absurd (omega arith),
)
drains_exactly item (t ∷ u ∷ ts) k g h p =
    drains_exactly item (u ∷ ts) k (finish item t g).0
      (rw (finish-lookup item t g, h)
        (ap some
          (finished-cancelling g.retention t _ (suc (length ts) + k) (omega arith) (omega arith))))
      (omega arith)

partition :
    (rs : List LifecycleRecord)
    → length rs
      ≡ length (keep (λ r. is_active r.status) rs)
        + length (keep (λ r. is_cancelling r.status) rs)
        + length (keep (λ r. is_drained r.status) rs)
        + length (keep (λ r. is_cleaned r.status) rs)
unfolding keep
partition [] = omega arith
partition (r ∷ rs) = ground (arith, partition rs)

abbrev busy : LifecycleRecord → Bool
busy r = ltb 0 r.in_flight

busy-total : (rs : List LifecycleRecord) → length (keep busy rs) ≤ total (λ r. r.in_flight) rs
unfolding keep total
busy-total [] = omega arith
busy-total (r ∷ rs) = ground (arith, busy-total rs)

cancelling-busy :
    (rs : List LifecycleRecord)
    → All IsSound rs
    → (length (keep (λ r. is_cancelling r.status) rs) ≤ length (keep busy rs))
      × (length (keep busy rs)
          ≤ length (keep (λ r. is_active r.status) rs)
            + length (keep (λ r. is_cancelling r.status) rs))
unfolding keep
cancelling-busy [] s = (omega arith, omega arith)
cancelling-busy (r ∷ rs) s = ground (arith, cancelling-busy rs s.1)

-- In a valid registry the four status counts add up to the number of items; every cancelling item
-- is counted as busy, every busy item is active or cancelling, and each has work in the total.
stats_consistent :
    (now : ℕ) (g : Registry)
    → IsValid g
    → let s = (stats now g).1 in
      (s.total_items ≡ s.active_items + s.cancelling_items + s.drained_items + s.cleaned_items)
      × (s.cancelling_items ≤ s.in_flight_items)
      × (s.in_flight_items ≤ s.active_items + s.cancelling_items)
      × (s.in_flight_items ≤ s.total_in_flight)
unfolding stats
stats_consistent now g v =
    let rs = Dict.values (sweep now g).records in
    let (few, many) = cancelling-busy rs (sweep-IsValid now g v).sound in
    (
      omega (
        arith,
        partition rs,
        length-map (λ (e : String × LifecycleRecord). e.1) (sweep now g).records,
      ),
      few,
      many,
      busy-total rs,
    )

-- The item that a call is about, and the registry that its sweep leaves.
abbrev concerns : Call → Option String
concerns (begins item now) = some item
concerns (finishes item later) = some item
concerns (cancels item now later) = some item
concerns (decides item now) = none
concerns (marks item later) = some item
concerns (reports now) = none

abbrev pub after_sweep : Call → Registry → Registry
after_sweep (begins item now) g = sweep now g
after_sweep (finishes item later) g = g
after_sweep (cancels item now later) g = sweep now g
after_sweep (decides item now) g = sweep now g
after_sweep (marks item later) g = g
after_sweep (reports now) g = sweep now g

begin_swept_other :
    (item other : String) (g : Registry)
    → item ≢ other
    → lookup other (begin_swept item g).0 ≡ lookup other g
unfolding begin_swept
begin_swept_other item other g h =
    elim (Bool-cases (is_stopped (or_fresh (lookup item g)).status)) [
      | inl e ↦ rw e
      | inr e ↦ rw e (Dict.get-put_ne item other _ g.records h)
    ]

-- A call changes no other item's record, but for what its sweep pops.
apply_isolated :
    (c : Call) (other : String) (g : Registry)
    → concerns c ≢ some other
    → lookup other (apply c g) ≡ lookup other (after_sweep c g)
unfolding apply begin finish cancel cleanup_decision mark_cleaned stats
apply_isolated (begins item now) other g h =
    begin_swept_other item other (sweep now g) (λ e. h (ap some e))
apply_isolated (finishes item later) other g h =
    Dict.get-put_ne item other _ g.records (λ e. h (ap some e))
apply_isolated (cancels item now later) other g h =
    Dict.get-put_ne item other _ (sweep now g).records (λ e. h (ap some e))
apply_isolated (decides item now) other g h = refl
apply_isolated (marks item later) other g h =
    Dict.get-put_ne item other _ g.records (λ e. h (ap some e))
apply_isolated (reports now) other g h = refl
