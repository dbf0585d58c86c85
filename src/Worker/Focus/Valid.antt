-- ===== src/Worker/Focus/Valid.antt =====
-- The goal groups that pass, and the goals that a step is focused on.
use kimina_lean_server.Base.{
  ℕ, zero, suc, ◌<◌, String, ◌≡◌, ◌≢◌, ◌↔◌, refl, inl, inr, none, some, List, [], ◌∷◌, map, length,
  get_elem?, All, Distinct, has_duplicates, has_duplicates-Distinct, Bool-cases, arith,
}
use kimina_lean_server.Base.Int.{ℤ, pos, negsuc, ℤ_discrete}
use kimina_lean_server.Schemas.{ExecMessage}
use kimina_lean_server.Worker.{View}
use kimina_lean_server.Worker.Focus.{
  GoalGroupError, validate_indices, validate_goal_group, at, target_ids, Continued, parse_continued,
  resume_goal_group,
}

-- An index of a list with so many elements.
abbrev pub InRange : ℕ → ℤ → Type 0
InRange n (pos i) = i < n
InRange n (negsuc i) = ⊥

validate_indices-none :
    (n : ℕ) (group : List ℤ) → (validate_indices n group ≡ none) ↔ All (InRange n) group
unfolding validate_indices
validate_indices-none n group = (to group, from group)
  where
    to : (g : List ℤ) → validate_indices n g ≡ none → All (InRange n) g
    to [] h = tt
    to (pos i ∷ g) h = ground (arith, to g)
    to (negsuc i ∷ g) h = cc

    from : (g : List ℤ) → All (InRange n) g → validate_indices n g ≡ none
    from [] h = refl
    from (pos i ∷ g) (h, hs) = ground (arith, from g hs)
    from (negsuc i ∷ g) (h, hs) = absurd h

-- A goal group passes exactly if it is not empty, names no goal twice, and each of its indices is
-- the position of a goal.
pub validate_goal_group-none :
    (group : List ℤ) (n : ℕ)
    → (validate_goal_group group n ≡ none)
      ↔ ((group ≢ []) × Distinct ℤ_discrete group × All (InRange n) group)
unfolding validate_goal_group
validate_goal_group-none [] n = (λ h. cc, λ h. absurd (h.0 refl))
validate_goal_group-none (index ∷ group) n =
    let g = index ∷ group in
    let d = has_duplicates-Distinct ℤ_discrete g in
    elim (Bool-cases (has_duplicates ℤ_discrete g)) [
      | inl e ↦ rw e (λ h. cc, λ h. let f = d.1 h.1 in cc)
      | inr e ↦ rw e (
        λ h. (λ k. cc, d.0 e, (validate_indices-none n g).0 h),
        λ h. (validate_indices-none n g).1 h.2,
      )
    ]

get-in_range :
    {A : Type 0} (xs : List A) (i : ℕ) → i < length xs → (x : A) × (get_elem? xs i ≡ some x)
get-in_range [] i h = absurd (omega arith)
get-in_range (x ∷ xs) zero h = (x, refl)
get-in_range (x ∷ xs) (suc i) h = get-in_range xs i (omega arith)

target_ids-valid :
    (ids : List String) (group : List ℤ)
    → All (InRange (length ids)) group
    → (found : List String) × (target_ids ids group ≡ some found)
      × (map (at ids) group ≡ map some found)
unfolding target_ids
target_ids-valid ids [] h = ([], refl, refl)
target_ids-valid ids (negsuc i ∷ group) (h, hs) = absurd h
target_ids-valid ids (pos i ∷ group) (h, hs) =
    let one = get-in_range ids i h in
    let ih = target_ids-valid ids group hs in
    (one.0 ∷ ih.0, rw (one.1, ih.1, target_ids) refl, rw (one.1, ih.2) refl)

-- A group that passes for the goals of a state is resumed without an exception of the worker's own:
-- the process is asked to continue with the ids of the goals at exactly these positions, in the
-- order of the group.
pub resume_goal_group-Focuses :
    {G : Type 0} (view : View G) (describe : GoalGroupError → List ExecMessage)
    (continue : List String → Continued G) (parent : G) (group : List ℤ)
    → validate_goal_group group (length (view.goal_ids parent)) ≡ none
    → (ids : List String) × (map (at (view.goal_ids parent)) group ≡ map some ids)
      × (resume_goal_group view describe continue parent group
          ≡ parse_continued view describe (continue ids))
unfolding resume_goal_group
resume_goal_group-Focuses view describe continue parent group h =
    let v = (validate_goal_group-none group (length (view.goal_ids parent))).0 h in
    let t = target_ids-valid (view.goal_ids parent) group v.2 in
    (t.0, t.2, rw (t.1, resume_goal_group) refl)
