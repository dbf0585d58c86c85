-- ===== src/Routes/Checks.antt =====
-- server/routers/exec.py: `_validate_create_request` and `_validate_verify_request`.
use kimina_lean_server.Base.{
  Bool, ℕ, ◌≤◌, ◌≡◌, ◌↔◌, refl, String, Option, none, some, List, [], ◌∷◌, ltb, length, All,
  if◌then◌else◌, arith,
}

-- The limits of the settings that the checks read.
pub record Limits : Type 0 where
  pub max_create_items_per_request : ℕ
  pub max_acquire_timeout_ms : ℕ
  pub max_step_timeout_ms : ℕ

-- ExecCreateStateItem
pub record CreateStatesItem : Type 0 where
  pub item_id : String
  pub code : String
  pub acquire_timeout_ms : ℕ
  pub step_timeout_ms : ℕ
  pub debug : Bool  -- only passed on, to the worker

-- ExecVerifyItem
pub record VerifyItem : Type 0 where
  pub item_id : String
  pub code : String
  pub theorem_name : String
  pub allowed_axioms : Option (List String)
  pub acquire_timeout_ms : ℕ
  pub step_timeout_ms : ℕ
  pub debug : Bool  -- only passed on, to the worker

-- The details of the status 422.
pub data CapDetail : Type 0 where
  item_count acquire_timeout step_timeout : CapDetail

-- The body of the loop of both checks.
abbrev timeout_detail : Limits → ℕ → ℕ → Option CapDetail → Option CapDetail
timeout_detail l acquire_ms step_ms rest =
    if ltb l.max_acquire_timeout_ms acquire_ms
    then some acquire_timeout
    else (if ltb l.max_step_timeout_ms step_ms then some step_timeout else rest)

create_timeouts : Limits → List CreateStatesItem → Option CapDetail
create_timeouts l [] = none
create_timeouts l (i ∷ items) =
    let rest = create_timeouts l items in
    timeout_detail l i.acquire_timeout_ms i.step_timeout_ms rest

unfoldable pub validate_create_request : Limits → List CreateStatesItem → Option CapDetail
unfolding create_timeouts
validate_create_request l items =
    if ltb l.max_create_items_per_request (length items)
    then some item_count
    else create_timeouts l items

verify_timeouts : Limits → List VerifyItem → Option CapDetail
verify_timeouts l [] = none
verify_timeouts l (i ∷ items) =
    let rest = verify_timeouts l items in
    timeout_detail l i.acquire_timeout_ms i.step_timeout_ms rest

unfoldable pub validate_verify_request : Limits → List VerifyItem → Option CapDetail
unfolding verify_timeouts
validate_verify_request l items =
    if ltb l.max_create_items_per_request (length items)
    then some item_count
    else verify_timeouts l items

abbrev pub TimesWithin : Limits → ℕ → ℕ → Type 0
TimesWithin l acquire_ms step_ms =
    (acquire_ms ≤ l.max_acquire_timeout_ms) × (step_ms ≤ l.max_step_timeout_ms)

create_timeouts-none :
    (l : Limits) (items : List CreateStatesItem)
    → create_timeouts l items ≡ none
      ↔ All (λ (i : CreateStatesItem). TimesWithin l i.acquire_timeout_ms i.step_timeout_ms) items
unfolding create_timeouts
create_timeouts-none l [] = (λ h. tt, λ h. refl)
create_timeouts-none l (i ∷ items) =
    let rest = create_timeouts-none l items in
    (λ h. ((ground arith, ground arith), rest.0 (ground arith)), λ h. ground (arith, rest.1 h.1))

verify_timeouts-none :
    (l : Limits) (items : List VerifyItem)
    → verify_timeouts l items ≡ none
      ↔ All (λ (i : VerifyItem). TimesWithin l i.acquire_timeout_ms i.step_timeout_ms) items
unfolding verify_timeouts
verify_timeouts-none l [] = (λ h. tt, λ h. refl)
verify_timeouts-none l (i ∷ items) =
    let rest = verify_timeouts-none l items in
    (λ h. ((ground arith, ground arith), rest.0 (ground arith)), λ h. ground (arith, rest.1 h.1))

-- A request to create states passes exactly if it has at most the allowed number of items and both
-- timeouts of each item are within their bounds; so does a request to verify.
validate_requests-none :
    (l : Limits) (creates : List CreateStatesItem) (verifies : List VerifyItem)
    → (validate_create_request l creates ≡ none ↔ (
        (length creates ≤ l.max_create_items_per_request)
        × All
            (λ (i : CreateStatesItem). TimesWithin l i.acquire_timeout_ms i.step_timeout_ms)
            creates))
      × (validate_verify_request l verifies ≡ none ↔ (
          (length verifies ≤ l.max_create_items_per_request)
          × All
              (λ (i : VerifyItem). TimesWithin l i.acquire_timeout_ms i.step_timeout_ms)
              verifies))
unfolding validate_create_request validate_verify_request
validate_requests-none l creates verifies =
    let c = create_timeouts-none l creates in
    let v = verify_timeouts-none l verifies in
    (
      (λ h. (ground arith, c.0 (ground arith)), λ h. ground (arith, c.1 h.1)),
      (λ h. (ground arith, v.0 (ground arith)), λ h. ground (arith, v.1 h.1)),
    )
