-- ===== src/Requests/Focus.antt =====
-- Which focus a request may ask for, and what is left for the worker to refuse.
use kimina_lean_server.Base.{
  ℕ, Bool, true, false, ◌≡◌, ◌≢◌, ◌↔◌, refl, inl, inr, Option, none, some, List, [], ◌∷◌, any, All,
  Distinct, has_duplicates, has_duplicates-Distinct, Bool-cases, arith,
}
use kimina_lean_server.Base.Int.{ℤ, is_negative, ℤ_discrete}
use kimina_lean_server.Worker.Focus.{validate_goal_group}
use kimina_lean_server.Worker.Focus.Valid.{InRange, validate_goal_group-none}
use kimina_lean_server.Requests.{validate_group, validate_goal_focus, is_some}

-- A group of goals: not empty, of indices that are not negative, none twice.
abbrev pub IsGroup : List ℤ → Type 0
IsGroup group =
    (group ≢ []) × All (λ index. is_negative index ≡ false) group × Distinct ℤ_discrete group

-- The focus on nothing, on a goal, or on a group of goals.
abbrev pub IsFocus : Option ℕ → Option Bool → Option (List ℤ) → Type 0
IsFocus goal_id auto_resume none = is_some auto_resume ≡ true → is_some goal_id ≡ true
IsFocus goal_id auto_resume (some group) = (goal_id ≡ none) × (auto_resume ≡ none) × IsGroup group

not_negative :
    (group : List ℤ)
    → (any is_negative group ≡ false) ↔ All (λ index. is_negative index ≡ false) group
not_negative group = (to group, from group)
  where
    to : (g : List ℤ) → any is_negative g ≡ false → All (λ index. is_negative index ≡ false) g
    to [] h = tt
    to (i ∷ g) h = ground (arith, to g)

    from : (g : List ℤ) → All (λ index. is_negative index ≡ false) g → any is_negative g ≡ false
    from [] h = refl
    from (i ∷ g) (h, hs) = ground (arith, from g hs)

validate_group-IsGroup : (group : List ℤ) → (validate_group group ≡ none) ↔ IsGroup group
unfolding validate_group
validate_group-IsGroup [] = (λ h. cc, λ h. absurd (h.0 refl))
validate_group-IsGroup (index ∷ group) =
    let g = index ∷ group in
    let n = not_negative g in
    let d = has_duplicates-Distinct ℤ_discrete g in
    elim (Bool-cases (any is_negative g)) [
      | inl a ↦ rw a (λ h. cc, λ h. let e = n.1 h.1 in cc)
      | inr a ↦ elim (Bool-cases (has_duplicates ℤ_discrete g)) [
        | inl b ↦ rw (a, b) (λ h. cc, λ h. let e = d.1 h.2 in cc)
        | inr b ↦ rw (a, b) (λ h. (λ k. cc, n.0 a, d.0 b), λ h. refl)
      ]
    ]

-- A request passes exactly if it asks for no focus, for one goal, with or without `auto_resume`, or
-- for a group that is not empty and has no index that is negative or given twice.
validate_goal_focus-IsFocus :
    (goal_id : Option ℕ) (auto_resume : Option Bool) (goal_group : Option (List ℤ))
    → (validate_goal_focus goal_id auto_resume goal_group ≡ none)
      ↔ IsFocus goal_id auto_resume goal_group
unfolding validate_goal_focus
validate_goal_focus-IsFocus none none none = (λ h k. cc, λ h. refl)
validate_goal_focus-IsFocus none (some b) none = (λ h. cc, λ h. let e = h refl in cc)
validate_goal_focus-IsFocus (some n) none none = (λ h k. refl, λ h. refl)
validate_goal_focus-IsFocus (some n) (some b) none = (λ h k. refl, λ h. refl)
validate_goal_focus-IsFocus none none (some group) =
    let g = validate_group-IsGroup group in (λ h. (refl, refl, g.0 h), λ h. g.1 h.2)
validate_goal_focus-IsFocus none (some b) (some group) = (λ h. cc, λ h. cc)
validate_goal_focus-IsFocus (some n) none (some group) = (λ h. cc, λ h. cc)
validate_goal_focus-IsFocus (some n) (some b) (some group) = (λ h. cc, λ h. cc)

-- Of a group that the request was allowed to ask for, the worker refuses only an index that is not
-- that of a goal.
pub focus-validate_goal_group :
    (goal_id : Option ℕ) (auto_resume : Option Bool) (group : List ℤ) (goal_count : ℕ)
    → validate_goal_focus goal_id auto_resume (some group) ≡ none
    → (validate_goal_group group goal_count ≡ none) ↔ All (InRange goal_count) group
focus-validate_goal_group goal_id auto_resume group n h =
    let f = (validate_goal_focus-IsFocus goal_id auto_resume (some group)).0 h in
    let g = validate_goal_group-none group n in (λ k. (g.0 k).2, λ k. g.1 (f.2.0, f.2.2, k))
