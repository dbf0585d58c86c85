-- ===== src/Requests/Examples.antt =====
-- Focuses that a request may and may not ask for.
use kimina_lean_server.Base.{
  ◌≡◌, ◌↔◌, refl, none, some, [], ◌∷◌, All, mem, has_duplicates, ℕ_discrete,
}
use kimina_lean_server.Base.Int.{pos, negsuc, ℤ_discrete}
use kimina_lean_server.Worker.Focus.{validate_goal_group}
use kimina_lean_server.Worker.Focus.Valid.{InRange}
use kimina_lean_server.Requests.{
  validate_goal_focus, repeated_index, negative_index, apply_timeout_alias,
}
use kimina_lean_server.Requests.Focus.{focus-validate_goal_group}

focus-validate_goal_group_example :
    (validate_goal_group (pos 0 ∷ pos 2 ∷ []) 2 ≡ none) ↔ All (InRange 2) (pos 0 ∷ pos 2 ∷ [])
unfolding validate_goal_focus has_duplicates mem ℤ_discrete ℕ_discrete
focus-validate_goal_group_example = focus-validate_goal_group none none (pos 0 ∷ pos 2 ∷ []) 2 refl

repeated : validate_goal_focus none none (some (pos 1 ∷ pos 1 ∷ [])) ≡ some repeated_index
unfolding validate_goal_focus has_duplicates mem ℤ_discrete ℕ_discrete
repeated = refl

negative : validate_goal_focus none none (some (negsuc 0 ∷ [])) ≡ some negative_index
unfolding validate_goal_focus
negative = refl

-- The alias fills only what is missing.
filled :
    apply_timeout_alias
      (record { timeout_ms = some 5; acquire_timeout_ms = some 1; step_timeout_ms = none })
    ≡ record { timeout_ms = some 5; acquire_timeout_ms = some 1; step_timeout_ms = some 5 }
unfolding apply_timeout_alias
filled = refl
