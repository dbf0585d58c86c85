-- ===== src/Worker/Focus.antt =====
-- server/pantograph_worker.py: `_validate_goal_group` and `_resume_goal_group`, which focus a step
-- on a group of the goals of a state.
pub mod Valid
use kimina_lean_server.Base.{
  ℕ, suc, ◌+◌, ◌-◌, ◌≤◌, ◌<◌, String, Bool, true, false, ◌&&◌, ◌||◌, not, ◌≡◌, ◌≢◌, ◌↔◌, refl, ap,
  inl, inr, ite, Option, none, some, Option-cases, List, [], ◌∷◌, length, get_elem?, All, Distinct,
  has_duplicates, has_duplicates-Distinct, Bool-cases, ltb, leb, if◌then◌else◌, arith,
}
use kimina_lean_server.Base.Int.{ℤ, pos, negsuc, ℤ_discrete, is_negative, reached}
use kimina_lean_server.Schemas.{ExecMessage}
use kimina_lean_server.Worker.{Try, returned, raised, View}

-- The exceptions of the two functions.
pub data GoalGroupError : Type 0 where
  empty_group repeated_index : GoalGroupError
  out_of_range : ℤ → ℕ → GoalGroupError
  index_error : GoalGroupError
  continue_failed : String → GoalGroupError

-- `index < 0 or index >= goal_count`
abbrev is_outside : ℕ → ℤ → Bool
is_outside goal_count index = is_negative index || not (below_count index goal_count)
  where
    below_count : ℤ → ℕ → Bool
    below_count (pos i) n = ltb i n
    below_count (negsuc i) n = true

-- The loop of `_validate_goal_group`.
validate_indices : ℕ → List ℤ → Option GoalGroupError
validate_indices goal_count [] = none
validate_indices goal_count (index ∷ group) =
    let rest = validate_indices goal_count group in
    if is_outside goal_count index then some (out_of_range index goal_count) else rest

-- _validate_goal_group, with the exception that it raises
unfoldable pub validate_goal_group : List ℤ → ℕ → Option GoalGroupError
unfolding validate_indices
validate_goal_group [] goal_count = some empty_group
validate_goal_group (index ∷ group) goal_count =
    if has_duplicates ℤ_discrete (index ∷ group)
    then some repeated_index
    else validate_indices goal_count (index ∷ group)

-- xs[index], where a negative index counts from the end
abbrev pub at {ℓ} : {A : Type ℓ} → List A → ℤ → Option A
at xs (pos i) = get_elem? xs i
at xs (negsuc i) = if leb (suc i) (length xs) then get_elem? xs (length xs - suc i) else none

-- `[parent_state.goals[index].id for index in goal_group]`
unfoldable pub target_ids : List String → List ℤ → Option (List String)
target_ids ids [] = some []
target_ids ids (index ∷ group) =
    let rest = target_ids ids group in
    elim (at ids index) [
      | none ↦ none
      | some id ↦ elim rest [ none ↦ none | some found ↦ some (id ∷ found) ]
    ]

-- The answer of `goal.continue`: `repr` of what stands under a key, if it is there, and what
-- `GoalState.parse` makes of the answer.
pub record Continued (G : Type 0) : Type 0 where
  pub value_at : String → Option String
  pub parsed : Try G

-- The text of the `RuntimeError`, for the first of the keys that the answer has.
error_text : (String → Option String) → List String → Option String
error_text value_at [] = none
error_text value_at (key ∷ keys) = elim (value_at key) [
  | none ↦ error_text value_at keys
  | some shown ↦ some shown
]

module _ {G : Type 0} (view : View G) (describe : GoalGroupError → List ExecMessage) where
  -- What follows the answer of `goal.continue`.
  unfoldable pub parse_continued : Continued G → Try G
  unfolding error_text
  parse_continued c = elim (error_text c.value_at ("error" ∷ "tacticErrors" ∷ "parseError" ∷ [])) [
    | some shown ↦ raised (describe (continue_failed shown))
    | none ↦ c.parsed
  ]

  -- _resume_goal_group, with what the process answers when it is asked to continue with some ids
  unfoldable pub resume_goal_group : (List String → Continued G) → G → List ℤ → Try G
  unfolding target_ids parse_continued
  resume_goal_group continue parent group = elim (target_ids (view.goal_ids parent) group) [
    | none ↦ raised (describe index_error)
    | some ids ↦ parse_continued (continue ids)
  ]
