-- ===== src/Client/Infotree/Intervals/Partition.antt =====
-- infotree.py: what `adjust_intervals` gives is a partition of a stretch of the file.
use mathlib.Core.Path.{subst}
use kimina_lean_server.Base.{
  true, false, ◌≡◌, ◌≢◌, refl, sym, ◌∙◌, inl, inr, none, some, List, [], ◌∷◌, All, Bool-cases,
  arith,
}
use kimina_lean_server.Client.Infotree.Intervals.{
  Place, Interval, is_before, same_place, insert_interval, sort_intervals, furthest, close_gaps,
  drop_empty, adjust_intervals,
}

-- The second place is not before the first one.
abbrev pub IsUpTo : Place → Place → Type 0
IsUpTo p q = is_before q p ≡ false

pub is_before_refl : (p : Place) → IsUpTo p p
unfolding is_before
is_before_refl p = ground arith

pub is_before_trans : (p q r : Place) → IsUpTo p q → IsUpTo q r → IsUpTo p r
unfolding is_before
is_before_trans p q r h k = ground arith

pub before-IsUpTo : (p q : Place) → is_before p q ≡ true → IsUpTo p q
unfolding is_before
before-IsUpTo p q h = ground arith

IsUpTo-before : (p q : Place) → IsUpTo p q → same_place p q ≡ false → is_before p q ≡ true
unfolding is_before same_place
IsUpTo-before p q h k = ground arith

same_place-eq : (p q : Place) → same_place p q ≡ true → p ≡ q
unfolding same_place
same_place-eq p q h =
    let e : p.line ≡ q.line = ground arith in
    let f : p.col ≡ q.col = ground arith in λ i. record { line = e i; col = f i }

module _ (P : Interval → Type 0) where
  insert-All :
      (iv : Interval) (ivs : List Interval) → P iv → All P ivs → All P (insert_interval iv ivs)
  unfolding insert_interval
  insert-All iv [] h hs = (h, tt)
  insert-All iv (other ∷ ivs) h (k, ks) = elim (Bool-cases (is_before other.start iv.start)) [
    | inl e ↦ rw (e, insert_interval) (k, insert-All iv ivs h ks)
    | inr e ↦ rw (e, insert_interval) (h, (k, ks))
  ]

  sort-All : (ivs : List Interval) → All P ivs → All P (sort_intervals ivs)
  unfolding sort_intervals
  sort-All [] h = tt
  sort-All (iv ∷ ivs) (h, hs) = insert-All iv (sort_intervals ivs) h (sort-All ivs hs)

  All-insert :
      (iv : Interval) (ivs : List Interval) → All P (insert_interval iv ivs) → P iv × All P ivs
  unfolding insert_interval
  All-insert iv [] h = h
  All-insert iv (other ∷ ivs) h = elim (Bool-cases (is_before other.start iv.start)) [
    | inl e ↦
        let g : P other × All P (insert_interval iv ivs) = rw e at h in
        let rest = All-insert iv ivs g.1 in (rest.0, (g.0, rest.1))
    | inr e ↦ rw e at h
  ]

  All-sort : (ivs : List Interval) → All P (sort_intervals ivs) → All P ivs
  unfolding sort_intervals
  All-sort [] h = tt
  All-sort (iv ∷ ivs) h =
      let rest = All-insert iv (sort_intervals ivs) h in (rest.0, All-sort ivs rest.1)

-- Each interval starts no earlier than those before it.
abbrev IsSorted : List Interval → Type 0
IsSorted [] = Unit
IsSorted (iv ∷ ivs) = All (λ (j : Interval). IsUpTo iv.start j.start) ivs × IsSorted ivs

All-later :
    (p q : Place) (ivs : List Interval)
    → IsUpTo p q
    → All (λ (j : Interval). IsUpTo q j.start) ivs
    → All (λ (j : Interval). IsUpTo p j.start) ivs
All-later p q [] h hs = tt
All-later p q (iv ∷ ivs) h (k, ks) = (is_before_trans p q iv.start h k, All-later p q ivs h ks)

insert-IsSorted :
    (iv : Interval) (ivs : List Interval) → IsSorted ivs → IsSorted (insert_interval iv ivs)
unfolding insert_interval
insert-IsSorted iv [] h = (tt, tt)
insert-IsSorted iv (other ∷ ivs) (h, hs) = elim (Bool-cases (is_before other.start iv.start)) [
  | inl e ↦
      rw (e, insert_interval)
        (
          insert-All (λ (j : Interval). IsUpTo other.start j.start) iv ivs
              (before-IsUpTo other.start iv.start e) h,
          insert-IsSorted iv ivs hs,
        )
  | inr e ↦ rw (e, insert_interval) ((e, All-later iv.start other.start ivs e h), (h, hs))
]

sort-IsSorted : (ivs : List Interval) → IsSorted (sort_intervals ivs)
unfolding sort_intervals
sort-IsSorted [] = tt
sort-IsSorted (iv ∷ ivs) = insert-IsSorted iv (sort_intervals ivs) (sort-IsSorted ivs)

-- The furthest finish of all.
furthest-IsUpTo :
    (best : Place) (ivs : List Interval)
    → (q : Place) × (furthest (some best) ivs ≡ some q)
      × IsUpTo best q
      × All (λ (j : Interval). IsUpTo j.finish q) ivs
unfolding furthest
furthest-IsUpTo best [] = (best, refl, is_before_refl best, tt)
furthest-IsUpTo best (iv ∷ ivs) = elim (Bool-cases (is_before best iv.finish)) [
  | inl e ↦
      let (q, f, h, hs) = furthest-IsUpTo iv.finish ivs in
      (
        q,
        rw (e, furthest) f,
        is_before_trans best iv.finish q (before-IsUpTo best iv.finish e) h,
        (h, hs),
      )
  | inr e ↦
      let (q, f, h, hs) = furthest-IsUpTo best ivs in
      (q, rw (e, furthest) f, h, (is_before_trans iv.finish best q e h, hs))
]

-- The intervals lead from one place to another: each starts where the one before ends.
abbrev pub Leads : Place → List Interval → Place → Type 0
Leads p [] q = p ≡ q
Leads p (iv ∷ ivs) q = (iv.start ≡ p) × Leads iv.finish ivs q

abbrev pub EndsLater : Interval → Type 0
EndsLater iv = is_before iv.start iv.finish ≡ true

-- No interval ends before it starts.
abbrev pub GoesOn : Interval → Type 0
GoesOn iv = IsUpTo iv.start iv.finish

drop_empty-Leads : (p q : Place) (ivs : List Interval) → Leads p ivs q → Leads p (drop_empty ivs) q
unfolding drop_empty
drop_empty-Leads p q [] l = l
drop_empty-Leads p q (iv ∷ ivs) (s, l) = elim (Bool-cases (same_place iv.start iv.finish)) [
  | inl e ↦
      rw (e, drop_empty)
        (drop_empty-Leads p q ivs
          (subst (λ r. Leads r ivs q) (sym (same_place-eq iv.start iv.finish e) ∙ s) l))
  | inr e ↦ rw (e, drop_empty) (s, drop_empty-Leads iv.finish q ivs l)
]

drop_empty-EndsLater : (ivs : List Interval) → All GoesOn ivs → All EndsLater (drop_empty ivs)
unfolding drop_empty
drop_empty-EndsLater [] h = tt
drop_empty-EndsLater (iv ∷ ivs) (h, hs) = elim (Bool-cases (same_place iv.start iv.finish)) [
  | inl e ↦ rw (e, drop_empty) (drop_empty-EndsLater ivs hs)
  | inr e ↦ rw (e, drop_empty) (IsUpTo-before iv.start iv.finish h e, drop_empty-EndsLater ivs hs)
]

close_gaps-Leads :
    (last : Place) (iv : Interval) (ivs : List Interval)
    → Leads iv.start (close_gaps (some last) (iv ∷ ivs)) last
unfolding close_gaps
close_gaps-Leads last iv [] = (refl, refl)
close_gaps-Leads last iv (next ∷ ivs) = (refl, close_gaps-Leads last next ivs)

close_gaps-GoesOn :
    (last : Place) (ivs : List Interval)
    → IsSorted ivs
    → All GoesOn ivs
    → All (λ (j : Interval). IsUpTo j.finish last) ivs
    → All GoesOn (close_gaps (some last) ivs)
unfolding close_gaps
close_gaps-GoesOn last [] o h k = tt
close_gaps-GoesOn last (iv ∷ []) o (h, hs) (k, ks) =
    (is_before_trans iv.start iv.finish last h k, tt)
close_gaps-GoesOn last (iv ∷ next ∷ ivs) ((o, os), ps) (h, hs) (k, ks) =
    (o, close_gaps-GoesOn last (next ∷ ivs) ps hs ks)

-- A stretch of the file that holds all the intervals, and its partition.
abbrev pub Partitions : List Interval → List Interval → Type 0
Partitions ivs parts =
    (p : Place) × (q : Place) × All (λ (j : Interval). IsUpTo p j.start) ivs
    × All (λ (j : Interval). IsUpTo j.finish q) ivs
    × Leads p parts q
    × All EndsLater parts

close-Partitions :
    (ivs : List Interval)
    → ivs ≢ []
    → IsSorted ivs
    → All GoesOn ivs
    → Partitions ivs (drop_empty (close_gaps (furthest none ivs) ivs))
unfolding furthest
close-Partitions [] n o h = absurd (n refl)
close-Partitions (iv ∷ ivs) n (o, os) h =
    let (q, f, k, ks) = furthest-IsUpTo iv.finish ivs in
    rw f (
      iv.start,
      q,
      (is_before_refl iv.start, o),
      (k, ks),
      drop_empty-Leads iv.start q _ (close_gaps-Leads q iv ivs),
      drop_empty-EndsLater _ (close_gaps-GoesOn q (iv ∷ ivs) (o, os) h (k, ks)),
    )

sort-nonempty : (ivs : List Interval) → ivs ≢ [] → sort_intervals ivs ≢ []
unfolding sort_intervals insert_interval
sort-nonempty [] n e = n refl
sort-nonempty (iv ∷ ivs) n e = go (sort_intervals ivs) e
  where
    go : (rest : List Interval) → insert_interval iv rest ≡ [] → ⊥
    go [] e = cc
    go (other ∷ rest) e = elim (Bool-cases (is_before other.start iv.start)) [
      | inl b ↦ let g : other ∷ insert_interval iv rest ≡ [] = rw b at e in cc
      | inr b ↦ let g : iv ∷ other ∷ rest ≡ [] = rw b at e in cc
    ]

-- If there are intervals and none of them ends before it starts, the result is a partition: there are
-- two places between which all the intervals lie, and the result leads from the first to the second,
-- each interval starting where the one before ends, and ending later than it starts.
pub adjust_intervals-Partitions :
    (ivs : List Interval) → ivs ≢ [] → All GoesOn ivs → Partitions ivs (adjust_intervals ivs)
unfolding adjust_intervals
adjust_intervals-Partitions ivs n h =
    let sorted = sort_intervals ivs in
    let (p, q, first, last, leads, later) =
      close-Partitions sorted (sort-nonempty ivs n) (sort-IsSorted ivs) (sort-All GoesOn ivs h) in
    (
      p,
      q,
      All-sort (λ (j : Interval). IsUpTo p j.start) ivs first,
      All-sort (λ (j : Interval). IsUpTo j.finish q) ivs last,
      leads,
      later,
    )
