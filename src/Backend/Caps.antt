-- ===== src/Backend/Caps.antt =====
-- server/exec_backends.py: `validate_step_batch_caps`, and which batches it lets pass.
use kimina_lean_server.Base.{
  ℕ, ◌+◌, ◌≤◌, ◌≡◌, ◌↔◌, Option, none, some, Option-cases, Bool-cases, List, [], ◌∷◌, ltb, length,
  total, All, if◌then◌else◌, arith, inl, inr,
}
use kimina_lean_server.Schemas.{StepBatchItem}

pub record StepBatchBackendConfig : Type 0 where
  pub max_items_per_step_batch : ℕ
  pub max_tactics_per_step_item : ℕ
  pub max_attempts_per_step_batch : ℕ
  pub max_lean_processes_per_env_profile : ℕ
  pub max_acquire_timeout_ms : ℕ
  pub max_step_timeout_ms : ℕ

-- The messages of StepBatchCapError.
pub data StepBatchCapError : Type 0 where
  item_count tactic_count acquire_timeout step_timeout tactic_attempts : StepBatchCapError

validate_item : StepBatchBackendConfig → StepBatchItem → Option StepBatchCapError
validate_item config item =
    if ltb config.max_tactics_per_step_item (length item.tactics)
    then some tactic_count
    else (if ltb config.max_acquire_timeout_ms item.acquire_timeout_ms
        then some acquire_timeout
        else (if ltb config.max_step_timeout_ms item.step_timeout_ms
            then some step_timeout
            else none))

-- The loop over the items, from the attempts that were counted so far.
validate_items : StepBatchBackendConfig → ℕ → List StepBatchItem → Option StepBatchCapError
unfolding validate_item
validate_items config attempts [] =
    if ltb config.max_attempts_per_step_batch attempts then some tactic_attempts else none
validate_items config attempts (item ∷ items) =
    let rest = validate_items config (attempts + length item.tactics) items in
    elim (validate_item config item) [ some e ↦ some e | none ↦ rest ]

unfoldable pub validate_step_batch_caps :
    StepBatchBackendConfig → List StepBatchItem → Option StepBatchCapError
unfolding validate_items
validate_step_batch_caps config items =
    if ltb config.max_items_per_step_batch (length items)
    then some item_count
    else validate_items config 0 items

abbrev pub ItemWithin : StepBatchBackendConfig → StepBatchItem → Type 0
ItemWithin config item =
    (length item.tactics ≤ config.max_tactics_per_step_item)
    × (item.acquire_timeout_ms ≤ config.max_acquire_timeout_ms)
    × (item.step_timeout_ms ≤ config.max_step_timeout_ms)

abbrev pub attempts_of : List StepBatchItem → ℕ
attempts_of items = total (λ (i : StepBatchItem). length i.tactics) items

validate_item-none :
    (config : StepBatchBackendConfig) (item : StepBatchItem)
    → validate_item config item ≡ none ↔ ItemWithin config item
unfolding validate_item
validate_item-none config item = (λ h. ground arith, λ h. ground arith)

validate_items-none :
    (config : StepBatchBackendConfig) (attempts : ℕ) (items : List StepBatchItem)
    → validate_items config attempts items ≡ none ↔ (
        All (ItemWithin config) items
        × (attempts + attempts_of items ≤ config.max_attempts_per_step_batch))
unfolding validate_items total
validate_items-none config attempts [] = (λ h. (tt, ground arith), λ h. ground arith)
validate_items-none config attempts (item ∷ items) =
    let one = validate_item-none config item in
    let rest = validate_items-none config (attempts + length item.tactics) items in
    elim (Option-cases (validate_item config item)) [
      | inl e ↦
          rw (e, validate_items)
            (
              λ h. let (all, sum) = rest.0 h in ((one.0 e, all), omega (arith, sum)),
              λ h. rest.1 (h.0.1, omega (arith, h.1)),
            )
      | inr (err, e) ↦ rw (e, validate_items) (λ h. cc, λ h. let ok = one.1 h.0.0 in cc)
    ]

-- A batch passes exactly if it has at most the allowed number of items, each item has at most the
-- allowed number of tactics and timeouts within their bounds, and there are at most the allowed
-- number of attempts in all.
pub validate_step_batch_caps-none :
    (config : StepBatchBackendConfig) (items : List StepBatchItem)
    → validate_step_batch_caps config items ≡ none ↔ (
        (length items ≤ config.max_items_per_step_batch)
        × All (ItemWithin config) items
        × (attempts_of items ≤ config.max_attempts_per_step_batch))
unfolding validate_step_batch_caps
validate_step_batch_caps-none config items =
    let rest = validate_items-none config 0 items in
    elim (Bool-cases (ltb config.max_items_per_step_batch (length items))) [
      | inl e ↦ rw (e, validate_step_batch_caps) (λ h. cc, λ h. absurd (ground (arith, h.0)))
      | inr e ↦
          rw (e, validate_step_batch_caps)
            (
              λ h. let (all, sum) = rest.0 h in (ground arith, all, omega (arith, sum)),
              λ h. rest.1 (h.1, omega (arith, h.2)),
            )
    ]
