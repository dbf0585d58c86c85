-- ===== src/Client/Infotree/Intervals.antt =====
-- infotree.py: `adjust_intervals`.
pub mod Partition
use mathlib.Core.Path.{subst}
use kimina_lean_server.Base.{
  ℕ, String, Bool, true, false, ◌&&◌, ◌||◌, not, ◌≡◌, refl, ap, sym, ◌∙◌, inl, inr, Option, none,
  some, List, [], ◌∷◌, ltb, ◌==◌, Bool-cases, if◌then◌else◌, arith,
}

-- A place in the file: its line and column.
pub record Place : Type 0 where
  pub line : ℕ
  pub col : ℕ

-- An interval, without `node_id` and `pp`, which are not read after `get_intervals`.
pub record Interval : Type 0 where
  pub start : Place
  pub finish : Place
  pub goals_before : List String
  pub goals_after : List String

-- Comparison of pairs in Python
unfoldable pub is_before : Place → Place → Bool
is_before p q = ltb p.line q.line || (p.line == q.line && ltb p.col q.col)

unfoldable pub same_place : Place → Place → Bool
same_place p q = p.line == q.line && p.col == q.col

-- Where an interval goes in a sorted list; `sorted` keeps the order of equal ones.
unfoldable pub insert_interval : Interval → List Interval → List Interval
unfolding is_before
insert_interval iv [] = iv ∷ []
insert_interval iv (other ∷ ivs) =
    let rest = insert_interval iv ivs in
    if is_before other.start iv.start then other ∷ rest else iv ∷ other ∷ ivs

-- sorted(intervals, key=lambda iv: (iv["start_line"], iv["start_col"]))
unfoldable pub sort_intervals : List Interval → List Interval
unfolding insert_interval
sort_intervals [] = []
sort_intervals (iv ∷ ivs) = insert_interval iv (sort_intervals ivs)

-- The furthest finish, of those so far; none stands for (-1, -1).
unfoldable pub furthest : Option Place → List Interval → Option Place
unfolding is_before
furthest best [] = best
furthest none (iv ∷ ivs) = furthest (some iv.finish) ivs
furthest (some best) (iv ∷ ivs) =
    furthest (some (if is_before best iv.finish then iv.finish else best)) ivs

abbrev ended : Option Place → Interval → Interval
ended none iv = iv
ended (some finish) iv = record iv { finish = finish }

-- The loop that lets each interval end where the next one starts, and the last one at the furthest
-- finish.
unfoldable pub close_gaps : Option Place → List Interval → List Interval
close_gaps last [] = []
close_gaps last (iv ∷ []) = ended last iv ∷ []
close_gaps last (iv ∷ next ∷ ivs) =
    record iv { finish = next.start; goals_after = next.goals_before }
    ∷ close_gaps last (next ∷ ivs)

-- The intervals that are not empty.
unfoldable pub drop_empty : List Interval → List Interval
unfolding same_place
drop_empty [] = []
drop_empty (iv ∷ ivs) =
    let rest = drop_empty ivs in if same_place iv.start iv.finish then rest else iv ∷ rest

-- adjust_intervals
unfoldable pub adjust_intervals : List Interval → List Interval
unfolding sort_intervals furthest close_gaps drop_empty
adjust_intervals intervals =
    let sorted = sort_intervals intervals in drop_empty (close_gaps (furthest none sorted) sorted)
