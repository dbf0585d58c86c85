-- ===== src/Requests.antt =====
-- packages/lean-client/lean_client/exec_models.py: the validators of requests.
pub mod Focus
mod Examples
use kimina_lean_server.Base.{
  ℕ, String, String_discrete, Bool, true, false, ◌&&◌, ◌||◌, not, Option, none, some, List, [], ◌∷◌,
  map, any, has_duplicates, if◌then◌else◌,
}
use kimina_lean_server.Base.Int.{ℤ, is_negative, ℤ_discrete}
use kimina_lean_server.Schemas.{StepBatchItem}

pub data RequestError : Type 0 where
  auto_resume_alone group_with_goal empty_group negative_index repeated_index repeated_id :
      RequestError

abbrev pub is_some {ℓ} : {A : Type ℓ} → Option A → Bool
is_some none = false
is_some (some a) = true

-- The tests of `validate_goal_focus` for a goal group.
validate_group : List ℤ → Option RequestError
validate_group [] = some empty_group
validate_group (index ∷ group) =
    if any is_negative (index ∷ group)
    then some negative_index
    else if has_duplicates ℤ_discrete (index ∷ group)
    then some repeated_index
    else none

-- validate_goal_focus, with the exception that it raises
unfoldable pub validate_goal_focus : Option ℕ → Option Bool → Option (List ℤ) → Option RequestError
unfolding validate_group
validate_goal_focus goal_id auto_resume goal_group =
    if is_some auto_resume && not (is_some goal_id)
    then some auto_resume_alone
    else elim goal_group [
      | none ↦ none
      | some group ↦
          if is_some goal_id || is_some auto_resume
          then some group_with_goal
          else validate_group group
    ]

-- `len(set(ids)) != len(ids)`, as the validators of all five requests test it
unfoldable pub validate_unique_ids : List String → Option RequestError
validate_unique_ids ids = if has_duplicates String_discrete ids then some repeated_id else none

-- validate_unique_node_ids
abbrev pub validate_unique_node_ids : List StepBatchItem → Option RequestError
unfolding validate_unique_ids
validate_unique_node_ids items = validate_unique_ids (map (λ (i : StepBatchItem). i.node_id) items)

-- The timeouts of a request as they are sent; none is a key that is missing.
pub record RawTimeouts : Type 0 where
  pub timeout_ms : Option ℕ
  pub acquire_timeout_ms : Option ℕ
  pub step_timeout_ms : Option ℕ

-- dict.setdefault
abbrev or_set : Option ℕ → Option ℕ → Option ℕ
or_set (some n) other = some n
or_set none other = other

-- apply_timeout_alias
unfoldable pub apply_timeout_alias : RawTimeouts → RawTimeouts
apply_timeout_alias t = elim t.timeout_ms [
  | none ↦ t
  | some n ↦ record t {
    acquire_timeout_ms = or_set t.acquire_timeout_ms (some n);
    step_timeout_ms = or_set t.step_timeout_ms (some n);
  }
]
