-- ===== src/Routes/Cleanup.antt =====
-- server/routers/exec.py: the handler `cleanup`. It has no suspension, so that nothing comes between
-- its calls of the registry and the store.
use kimina_lean_server.Base.{
  ◌↔◌, Bool, true, false, length, keep, ℕ, ◌<◌, ◌≡◌, refl, String, string_key, Option, none, some,
  Bool-cases, List, [], ◌∷◌, leb, if◌then◌else◌, arith, inl, inr,
}
use kimina_lean_server.Base.Dict
use kimina_lean_server.Lifecycle.{
  Registry, cleaned, cleanup_decision, mark_cleaned, lookup, or_fresh, sweep, set_terminal,
}
use kimina_lean_server.Lifecycle.Invariant.{IsValid, sweep-IsValid, apply-IsValid}
use kimina_lean_server.Lifecycle.{marks, apply}
use kimina_lean_server.StateStore.{Store, tokens_of}
use kimina_lean_server.StateStore.Consistency.{IsConsistent, owned_by}
use kimina_lean_server.StateStore.Deletion.{delete_by_item_id_all_or_none}
use kimina_lean_server.StateStore.Deletion.Items.{
  delete_by_item_id-pinned, delete_by_item_id-IsAllOrNone, all_or_none-IsConsistent,
}

pub data CleanupStatus : Type 0 where
  deleted deferred : CleanupStatus

-- CleanupDeferredReason
pub data Reason : Type 0 where
  work_in_flight states_pinned : Reason

pub record CleanupResult : Type 0 where
  pub item_id : String
  pub status : CleanupStatus
  pub reason : Option Reason
  pub in_flight : ℕ
  pub pinned_states : ℕ
  pub deleted_states : ℕ
  pub deleted_bytes : ℕ

abbrev deferred_result : String → Reason → ℕ → ℕ → CleanupResult
deferred_result item reason busy held = record {
  item_id = item;
  status = deferred;
  reason = some reason;
  in_flight = busy;
  pinned_states = held;
  deleted_states = 0;
  deleted_bytes = 0;
}

-- One round of the loop; `now` is read by `cleanup_decision`, `later` by `mark_cleaned`.
unfoldable pub cleanup_item : String → ℕ → ℕ → Registry → Store → Registry × Store × CleanupResult
unfolding cleanup_decision mark_cleaned delete_by_item_id_all_or_none
cleanup_item item now later g s =
    let (g', decision) = cleanup_decision item now g in
    let (s', delete_decision) = delete_by_item_id_all_or_none item s in
    if decision.should_delete
    then (if delete_decision.deleted
        then (
          (mark_cleaned item later g').0,
          s',
          record {
            item_id = item;
            status = deleted;
            reason = none;
            in_flight = 0;
            pinned_states = 0;
            deleted_states = delete_decision.stats.deleted_states;
            deleted_bytes = delete_decision.stats.deleted_bytes;
          },
        )
        else (g', s', deferred_result item states_pinned 0 delete_decision.pinned_states))
    else (g', s, deferred_result item work_in_flight decision.snapshot.in_flight 0)

-- cleanup
unfoldable pub cleanup :
    ℕ → ℕ → List String → Registry → Store → Registry × Store × List CleanupResult
unfolding cleanup_item
cleanup now later [] g s = (g, s, [])
cleanup now later (item ∷ items) g s =
    let (g', s', r) = cleanup_item item now later g s in
    let (g'', s'', rs) = cleanup now later items g' s' in (g'', s'', r ∷ rs)

-- What the status of an item says of the registry and the store before and after.
abbrev pub Explains : String → ℕ → Registry → Store → Registry → Store → CleanupStatus → Type 0
Explains item now before s after s' deleted =
    ((or_fresh (lookup item (sweep now before))).in_flight ≡ 0)
    × ((or_fresh (lookup item after)).status ≡ cleaned)
    × ((u : String)
        → Dict.get u s'.records
          ≡ (if owned_by item (Dict.get u s.records) then none else Dict.get u s.records))
Explains item now before s after s' deferred = (s' ≡ s) × (after ≡ sweep now before)

-- Nothing of the item is in flight and none of its states is pinned.
abbrev pub MayDelete : String → ℕ → Registry → Store → Type 0
MayDelete item now before s =
    ((or_fresh (lookup item (sweep now before))).in_flight ≡ 0)
    × ((u : String) → owned_by item (Dict.get u s.records) ≡ true → Dict.has u s.pinned ≡ false)

-- What the reason of a result says of the registry and the store before.
abbrev pub Justifies : String → ℕ → Registry → Store → CleanupResult → Option Reason → Type 0
Justifies item now before s r none = r.status ≡ deleted
Justifies item now before s r (some work_in_flight) =
    (r.status ≡ deferred)
    × (r.in_flight ≡ (or_fresh (lookup item (sweep now before))).in_flight)
    × (0 < r.in_flight)
Justifies item now before s r (some states_pinned) =
    (r.status ≡ deferred)
    × ((or_fresh (lookup item (sweep now before))).in_flight ≡ 0)
    × (r.pinned_states
        ≡ length (keep (λ t. Dict.has t s.pinned) (tokens_of (Dict.get item s.tokens_by_item_id))))
    × ((u : String) × (owned_by item (Dict.get u s.records) ≡ true) × (Dict.has u s.pinned ≡ true))

mark_cleaned-status :
    (item : String) (later : ℕ) (g : Registry)
    → (or_fresh (lookup item (mark_cleaned item later g).0)).status ≡ cleaned
unfolding mark_cleaned set_terminal
mark_cleaned-status item later g =
    rw (Dict.get-put_self item (set_terminal g.retention later cleaned) g.records) refl

-- An item is reported as deleted exactly if nothing of it is in flight and none of its states is
-- pinned; then none of its states is left, all other states are, and it is marked as cleaned. An
-- item that is deferred keeps all its states, and its reason is true: either work of it is in flight,
-- as much as the result says, or none is, and one of its states is pinned, and the result counts the
-- pinned ones among the tokens that are indexed for the item.
pub cleanup_item-Explains :
    (item : String) (now later : ℕ) (g : Registry) (s : Store)
    → IsConsistent s
    → let done = cleanup_item item now later g s in
      ((done.2.status ≡ deleted) ↔ MayDelete item now g s)
      × Explains item now g s done.0 done.1 done.2.status
      × Justifies item now g s done.2 done.2.reason
unfolding cleanup_item cleanup_decision
cleanup_item-Explains item now later g s c =
    let (none_deleted, all_deleted, kept) = delete_by_item_id-IsAllOrNone item s c in
    let busy = (or_fresh (lookup item (sweep now g))).in_flight in
    let answer = delete_by_item_id_all_or_none item s in
    elim (Bool-cases (leb busy 0)) [
      | inr e ↦
          let active : 0 < busy = ground (arith, e) in
          rw (e, cleanup_item, cleanup_decision)
            (
              (λ h. cc, λ (idle, _). absurd (omega (arith, idle, active))),
              (refl, refl),
              (refl, refl, active),
            )
      | inl e ↦
          let idle : busy ≡ 0 = ground (arith, e) in
          rw (e, cleanup_item, cleanup_decision)
            (elim (Bool-cases answer.1.deleted) [
              | inl d ↦ rw d (
                (λ h. (idle, λ u o. free_of (Dict.has u s.pinned) d (kept u o)), λ _. refl),
                (idle, mark_cleaned-status item later (sweep now g), all_deleted d),
                refl,
              )
              | inr d ↦
                  let (same, held) = none_deleted d in
                  let (count, (u, owned, pinned)) = delete_by_item_id-pinned item s c d in
                  rw d (
                    (λ h. cc, λ (_, free). absurd (clash pinned (free u owned))),
                    (same, refl),
                    (refl, idle, count, (u, owned, pinned)),
                  )
            ])
    ]
  where
    clash : {b : Bool} → b ≡ true → b ≡ false → ⊥
    clash h f = cc

    free_of : (b : Bool) {d : Bool} → d ≡ true → (b ≡ true → d ≡ false) → b ≡ false
    free_of true h f = absurd (clash h (f refl))
    free_of false h f = refl

cleanup_item-keeps :
    (item : String) (now later : ℕ) (g : Registry) (s : Store)
    → IsValid g
    → IsConsistent s
    → IsValid (cleanup_item item now later g s).0 × IsConsistent (cleanup_item item now later g s).1
unfolding cleanup_item cleanup_decision
cleanup_item-keeps item now later g s v c =
    let busy = (or_fresh (lookup item (sweep now g))).in_flight in
    let answer = delete_by_item_id_all_or_none item s in
    let swept = sweep-IsValid now g v in
    let c' = all_or_none-IsConsistent item s c in
    elim (Bool-cases (leb busy 0)) [
      | inr e ↦ rw (e, cleanup_item, cleanup_decision) (swept, c)
      | inl e ↦
          rw (e, cleanup_item, cleanup_decision)
            (elim (Bool-cases answer.1.deleted) [
              | inl d ↦
                  rw d (unfold apply in apply-IsValid (marks item later) (sweep now g) swept, c')
              | inr d ↦ rw d (swept, c')
            ])
    ]

-- A cleanup of any items keeps the registry valid and the store consistent.
cleanup-keeps :
    (now later : ℕ) (items : List String) (g : Registry) (s : Store)
    → IsValid g
    → IsConsistent s
    → IsValid (cleanup now later items g s).0 × IsConsistent (cleanup now later items g s).1
unfolding cleanup
cleanup-keeps now later [] g s v c = (v, c)
cleanup-keeps now later (item ∷ items) g s v c =
    let (v', c') = cleanup_item-keeps item now later g s v c in
    cleanup-keeps now later items _ _ v' c'
