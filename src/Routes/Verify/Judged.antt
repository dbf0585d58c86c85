-- ===== src/Routes/Verify/Judged.antt =====
-- server/routers/exec.py: which proofs `verify_one` reports as accepted or as rejected.
use kimina_lean_server.Base.{
  ◌∙◌, arith, ◌≢◌, ◌↔◌, ap, Option-cases, ◌⊎◌, ℕ, ◌≡◌, refl, String, true, false, none, some,
  Bool-cases, List, inl, inr,
}
use mathlib.Core.Path.{sym}
use kimina_lean_server.Lifecycle.{Registry, begin, should_cancel}
use kimina_lean_server.Backend.Lane.{Acquired, worker, no_available_worker, failed}
use kimina_lean_server.Routes.Checks.{VerifyItem}
use kimina_lean_server.Worker.Verify.{
  VerifyStatus, accepted, rejected, error, overloaded, cancelled, VerifyAnswer,
}
use kimina_lean_server.Split.{split_snippet}
use kimina_lean_server.Routes.Verify.{
  Verified, answered, raised, Visit, allowed_axioms_of, verify_with_worker, after_lease,
  verify_started, verify_one,
}

-- The axioms that the item allows, or the default ones if it names none.
abbrev pub Allows : VerifyItem → Visit → List String → Type 0
Allows item v axioms =
    ((item.allowed_axioms ≡ none) × (axioms ≡ v.default_axioms))
    ⊎ (item.allowed_axioms ≡ some axioms)

-- The worker answers with the status about the body and the allowed axioms.
abbrev pub Answers : VerifyItem → Visit → VerifyStatus → Type 0
Answers item v status =
    (axioms : List String) × Allows item v axioms
    × ((a : VerifyAnswer) × (v.verified (split_snippet item.code).body axioms ≡ answered a)
        × (a.status ≡ status))

-- The task got as far as the worker's answer.
abbrev pub IsJudged : VerifyItem → Visit → Registry → VerifyStatus → Type 0
IsJudged item v g status =
    ((begin item.item_id v.begin_at g).1.started ≡ true)
    × ((n : ℕ) × (v.acquired ≡ worker n))
    × (should_cancel item.item_id v.after_acquire ≡ false)
    × Answers item v status

abbrev pub IsVerdict : VerifyStatus → Type 0
IsVerdict status = (status ≡ accepted) ⊎ (status ≡ rejected)

Allows-allowed_axioms_of :
    (item : VerifyItem) (v : Visit) → Allows item v (allowed_axioms_of item v)
Allows-allowed_axioms_of item v = elim (Option-cases item.allowed_axioms) [
  | inl e ↦ inl (e, rw e refl)
  | inr (axioms, e) ↦ inr (rw e refl)
]

allowed_axioms_of-Allows :
    (item : VerifyItem) (v : Visit) (axioms : List String)
    → Allows item v axioms
    → axioms ≡ allowed_axioms_of item v
allowed_axioms_of-Allows item v axioms (inl (e, f)) = rw e f
allowed_axioms_of-Allows item v axioms (inr e) = rw e refl

with_worker-Answers :
    (item : VerifyItem) (v : Visit) (status : VerifyStatus)
    → IsVerdict status
    → (verify_with_worker item v).status ≡ status
    → Answers item v status
unfolding verify_with_worker
with_worker-Answers item v status s =
    go (v.verified (split_snippet item.code).body (allowed_axioms_of item v)) refl
  where
    go :
        (z : Verified)
        → v.verified (split_snippet item.code).body (allowed_axioms_of item v) ≡ z
        → (verify_with_worker item v).status ≡ status
        → Answers item v status
    go (raised t) e h = let h' : error ≡ status = rw (e, verify_with_worker) at h in no_error h' s
      where
        no_error : error ≡ status → IsVerdict status → Answers item v status
        no_error h (inl f) = cc
        no_error h (inr f) = cc
    go (answered a) e h =
        let h' : a.status ≡ status = rw (e, verify_with_worker) at h in
        (allowed_axioms_of item v, Allows-allowed_axioms_of item v, (a, e, h'))

with_worker-status :
    (item : VerifyItem) (v : Visit) (status : VerifyStatus)
    → Answers item v status
    → (verify_with_worker item v).status ≡ status
unfolding verify_with_worker
with_worker-status item v status (axioms, allowed, (a, e, f)) =
    let e' : v.verified (split_snippet item.code).body (allowed_axioms_of item v) ≡ answered a =
      ap (v.verified (split_snippet item.code).body)
        (sym (allowed_axioms_of-Allows item v axioms allowed))
      ∙ e in
    rw (e', verify_with_worker) f

-- The body of `try` ends with a verdict exactly if the worker gave it.
started-Answers :
    (item : VerifyItem) (v : Visit) (status : VerifyStatus)
    → IsVerdict status
    → ((verify_started item v).0.status ≡ status) ↔ (
        ((n : ℕ) × (v.acquired ≡ worker n))
        × (should_cancel item.item_id v.after_acquire ≡ false)
        × Answers item v status)
unfolding verify_started after_lease
started-Answers item v status s = go v.acquired refl
  where
    Told : Type 0
    Told =
        ((n : ℕ) × (v.acquired ≡ worker n))
        × (should_cancel item.item_id v.after_acquire ≡ false)
        × Answers item v status

    no_verdict :
        (w : VerifyStatus) → w ≢ accepted → w ≢ rejected → w ≡ status → IsVerdict status → ⊥
    no_verdict w n m e (inl f) = n (e ∙ f)
    no_verdict w n m e (inr f) = m (e ∙ f)

    go : (z : Acquired) → v.acquired ≡ z → ((verify_started item v).0.status ≡ status) ↔ Told
    go (failed t) e =
        rw (e, verify_started)
          (λ h. absurd (no_verdict error (λ f. cc) (λ f. cc) h s), λ told. absurd cc)
    go (no_available_worker t) e =
        rw (e, verify_started)
          (λ h. absurd (no_verdict overloaded (λ f. cc) (λ f. cc) h s), λ told. absurd cc)
    go (worker n) e = elim (Bool-cases (should_cancel item.item_id v.after_acquire)) [
      | inl f ↦
          rw (e, f, verify_started)
            (λ h. absurd (no_verdict cancelled (λ f. cc) (λ f. cc) h s), λ told. absurd cc)
      | inr f ↦
          rw (e, f, verify_started)
            (
              λ h. ((n, refl), refl, with_worker-Answers item v status s h),
              λ told. with_worker-status item v status told.2,
            )
    ]

-- A proof is reported as accepted, or as rejected, exactly if the item was not cancelled when its
-- work began nor when the lease had been awaited, a worker was leased, and the worker answered so
-- about the body under the axioms that the item allows, or the default ones if it names none.
pub verify_one-IsJudged :
    (item : VerifyItem) (v : Visit) (g : Registry) (status : VerifyStatus)
    → IsVerdict status
    → ((verify_one item v g).1.status ≡ status) ↔ IsJudged item v g status
unfolding verify_one
verify_one-IsJudged item v g status s =
    elim (Bool-cases (begin item.item_id v.begin_at g).1.started) [
      | inl e ↦
          let (there, back) = started-Answers item v status s in
          rw (e, verify_one)
            (λ h. let (w, c, a) = there h in (refl, w, c, a), λ (_, w, c, a). back (w, c, a))
      | inr e ↦ rw (e, verify_one) (λ h. ground arith, λ told. absurd cc)
    ]
