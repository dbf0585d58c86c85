-- ===== src/Routes/Verify.antt =====
-- server/routers/exec.py: `verify_one` of the handler `verify`.
pub mod Judged
use kimina_lean_server.Base.{
  ◌∙◌, arith, ◌≢◌, ◌↔◌, ap, Option-cases, ◌⊎◌, ℕ, ◌≡◌, refl, String, Bool, true, false, Option,
  none, some, Bool-cases, List, [], ◌∷◌, if◌then◌else◌, inl, inr,
}
use mathlib.Core.Path.{sym}
use kimina_lean_server.Lifecycle.{Registry, begin, finish, should_cancel}
use kimina_lean_server.Schemas.{
  ExecMessage, error_severity, message, ExecDiagnostics, diagnostics_of,
}
use kimina_lean_server.Backend.Results.{cancelled_text, no_diagnostics}
use kimina_lean_server.Backend.Lane.{
  Acquired, worker, no_available_worker, failed, Health, Disposal, return_worker,
}
use kimina_lean_server.Routes.Checks.{VerifyItem}
pub use kimina_lean_server.Worker.Verify.{
  VerifyStatus, accepted, rejected, error, overloaded, cancelled, VerifyAnswer,
}
use kimina_lean_server.Split.{split_snippet}
use kimina_lean_server.Routes.Positions.{offset_messages}

pub data Verified : Type 0 where
  answered : VerifyAnswer → Verified
  raised : String → Verified

pub record VerifyResult : Type 0 where
  pub item_id : String
  pub theorem_name : String
  pub status : VerifyStatus
  pub axioms : List String
  pub messages : List ExecMessage
  pub diagnostics : ExecDiagnostics

-- `verified` is what the worker answers about a body and a list of allowed axioms.
pub record Visit : Type 0 where
  pub default_axioms : List String  -- settings.verify_allowed_axioms
  pub begin_at : ℕ
  pub acquired : Acquired
  pub acquire_ms : ℕ
  pub after_acquire : Registry
  pub verified : String → List String → Verified
  pub lean_ms : ℕ
  pub registry : Registry → Registry
  pub finish_at : ℕ
  pub health : Health

abbrev allowed_axioms_of : VerifyItem → Visit → List String
allowed_axioms_of item v = elim item.allowed_axioms [
  | none ↦ v.default_axioms
  | some axioms ↦ axioms
]

abbrev failed_verify : VerifyItem → VerifyStatus → String → ExecDiagnostics → VerifyResult
failed_verify item status text diagnostics = record {
  item_id = item.item_id;
  theorem_name = item.theorem_name;
  status = status;
  axioms = [];
  messages = message error_severity text ∷ [];
  diagnostics = diagnostics;
}

-- The part of `verify_one` that has a worker.
verify_with_worker : VerifyItem → Visit → VerifyResult
unfolding offset_messages
verify_with_worker item v =
    elim (v.verified (split_snippet item.code).body (allowed_axioms_of item v)) [
      | raised text ↦ failed_verify item error text no_diagnostics
      | answered a ↦ record {
        item_id = item.item_id;
        theorem_name = item.theorem_name;
        status = a.status;
        axioms = a.axioms;
        messages = offset_messages a.messages (split_snippet item.code).header_line_count;
        diagnostics = diagnostics_of v.acquire_ms v.lean_ms a.debug;
      }
    ]

-- What follows the test of `should_cancel` after the lease.
after_lease : VerifyItem → Visit → ℕ → Bool → VerifyResult × Option ℕ
unfolding verify_with_worker
after_lease item v n stopped =
    if stopped
    then (
      failed_verify item cancelled (cancelled_text item.item_id)
          (diagnostics_of v.acquire_ms 0 none),
      some n,
    )
    else (verify_with_worker item v, some n)

-- The body of `try`, with the worker that was leased.
verify_started : VerifyItem → Visit → VerifyResult × Option ℕ
unfolding after_lease should_cancel
verify_started item v = elim v.acquired [
  | failed text ↦ (failed_verify item error text no_diagnostics, none)
  | no_available_worker text ↦
      (failed_verify item overloaded text (diagnostics_of v.acquire_ms 0 none), none)
  | worker n ↦ after_lease item v n (should_cancel item.item_id v.after_acquire)
]

-- verify_one, with what became of the worker that was leased
unfoldable pub verify_one :
    VerifyItem → Visit → Registry → Registry × VerifyResult × Option (ℕ × Disposal)
unfolding verify_started begin finish return_worker
verify_one item v g =
    let begun = begin item.item_id v.begin_at g in
    let done = verify_started item v in
    if begun.1.started
    then (
      (finish item.item_id v.finish_at (v.registry begun.0)).0,
      done.0,
      elim done.1 [ none ↦ none | some n ↦ some (n, return_worker v.health) ],
    )
    else (begun.0, failed_verify item cancelled (cancelled_text item.item_id) no_diagnostics, none)
