-- ===== src/Routes/Create/Stored.antt =====
-- server/routers/exec.py: the states that `create_one` reports are stored for its item.
use kimina_lean_server.Base.{
  ◌≢◌, true, ℕ, ◌+◌, ◌≡◌, refl, ap, ◌∙◌, String, string_key, some, Bool-cases, List, [], ◌∷◌, All,
  inl, inr,
}
use mathlib.Core.Path.{subst}
use kimina_lean_server.Base.Dict
use kimina_lean_server.Lifecycle.{Registry, begin, should_cancel}
use kimina_lean_server.StateStore.{
  Result-cases, Store, StateRecord, Origin, Result, ok, err, put, new_record, origin_of,
}
use kimina_lean_server.StateStore.Tokens.{Stores, put-Stores, put_keeps}
use kimina_lean_server.Schemas.{ExecDiagnostics, diagnostics_of, goal_infos_from_worker}
use kimina_lean_server.Backend.Results.{Supply}
use kimina_lean_server.Backend.Lane.{Acquired, worker, no_available_worker, failed}
use kimina_lean_server.Split.{split_snippet}
use kimina_lean_server.Routes.Checks.{CreateStatesItem}
use kimina_lean_server.Routes.Create.Answers.{Made, started-Made}
use kimina_lean_server.Routes.Create.{
  SavedState, CreateAnswer, Created, answered, raised, StateInfo, Visit, origin_of_item, put_states,
  prepend_info, stored, create_with_worker, create_started, create_one,
}

-- The store has a record under the token of the state, made for the origin.
abbrev IsMade : Origin → Store → StateInfo → Type 0
IsMade o s i = (r : StateRecord) × (Dict.get i.state_token s.records ≡ some r) × (origin_of r ≡ o)

abbrev AllStored : Origin → Store × Result (List StateInfo) → Type 0
AllStored o (s, ok infos) = All (IsMade o s) infos
AllStored o (s, err e) = Unit

prepend-AllStored :
    (o : Origin) (i : StateInfo) (p : Store × Result (List StateInfo))
    → IsMade o p.0 i
    → AllStored o p
    → AllStored o (prepend_info i p)
prepend-AllStored o i (s, ok infos) h a = (h, a)
prepend-AllStored o i (s, err e) h a = tt

prepend_info-store :
    (i : StateInfo) (p : Store × Result (List StateInfo)) → (prepend_info i p).0 ≡ p.0
prepend_info-store i (s, ok infos) = refl
prepend_info-store i (s, err e) = refl

put_states_keeps :
    (o : Origin) (supply : ℕ → Supply) (k : ℕ) (states : List SavedState) (t : String)
    (r : StateRecord) (s : Store)
    → Dict.get t s.records ≡ some r
    → Dict.get t (put_states o supply k states s).0.records ≡ some r
unfolding put_states
put_states_keeps o supply k [] t r s h = h
put_states_keeps o supply k (x ∷ states) t r s h =
    let done = put x.path o (supply k).candidates (supply k).now s in
    let kept = put_keeps x.path o (supply k).candidates (supply k).now t r s h in
    elim (Result-cases done.1) [
      | inr (e, f) ↦ rw (f, put_states) kept
      | inl (token, f) ↦
          rw (f, put_states)
            (ap (λ (q : Store). Dict.get t q.records)
                (prepend_info-store
                  (record { state_token = token; goals = goal_infos_from_worker x.goals })
                  (put_states o supply (k + 1) states done.0))
              ∙ put_states_keeps o supply (k + 1) states t r done.0 kept)
    ]

put_states-AllStored :
    (o : Origin) (supply : ℕ → Supply) (k : ℕ) (states : List SavedState) (s : Store)
    → AllStored o (put_states o supply k states s)
unfolding put_states
put_states-AllStored o supply k [] s = tt
put_states-AllStored o supply k (x ∷ states) s =
    let done = put x.path o (supply k).candidates (supply k).now s in
    let stores = put-Stores x.path o (supply k).candidates (supply k).now s in
    elim (Result-cases done.1) [
      | inr (e, f) ↦ rw (f, put_states) tt
      | inl (token, f) ↦
          let (fresh, kept) =
            subst (Stores x.path o (supply k).candidates (supply k).now s done.0) f stores in
          let (file, there, made, moved, gone) = kept in
          rw (f, put_states)
            (prepend-AllStored o
              (record { state_token = token; goals = goal_infos_from_worker x.goals })
              (put_states o supply (k + 1) states done.0)
              (
                new_record o token file.size (supply k).now,
                put_states_keeps o supply (k + 1) states token _ done.0 made,
                refl,
              )
              (put_states-AllStored o supply (k + 1) states done.0))
    ]

stored-AllStored :
    (item : CreateStatesItem) (v : Visit) (a : CreateAnswer) (d : ExecDiagnostics)
    (p : Store × Result (List StateInfo)) (o : Origin)
    → AllStored o p
    → All (IsMade o (stored item v a d p).0) (stored item v a d p).1.states
stored-AllStored item v a d (s, ok infos) o h = h
stored-AllStored item v a d (s, err e) o h = tt

with_worker-AllStored :
    (item : CreateStatesItem) (v : Visit) (s : Store)
    → All
        (IsMade (origin_of_item item v) (create_with_worker item v s).0)
        (create_with_worker item v s).1.states
unfolding create_with_worker
with_worker-AllStored item v s = go (v.created (split_snippet item.code).body) refl
  where
    go :
        (z : Created)
        → v.created (split_snippet item.code).body ≡ z
        → All
            (IsMade (origin_of_item item v) (create_with_worker item v s).0)
            (create_with_worker item v s).1.states
    go (raised t) e = rw (e, create_with_worker) tt
    go (answered a) e =
        rw (e, create_with_worker)
          (elim (Bool-cases (should_cancel item.item_id v.after_step)) [
            | inl f ↦ rw f tt
            | inr f ↦ rw f (
                stored-AllStored item v a (diagnostics_of v.acquire_ms v.lean_ms a.debug)
                  (put_states (origin_of_item item v) v.supply 0 a.states (v.others s))
                  (origin_of_item item v)
                  (put_states-AllStored (origin_of_item item v) v.supply 0 a.states (v.others s)))
          ])

started-AllStored :
    (item : CreateStatesItem) (v : Visit) (s : Store)
    → All
        (IsMade (origin_of_item item v) (create_started item v s).0)
        (create_started item v s).1.states
unfolding create_started
started-AllStored item v s = go v.acquired refl
  where
    go :
        (z : Acquired)
        → v.acquired ≡ z
        → All
            (IsMade (origin_of_item item v) (create_started item v s).0)
            (create_started item v s).1.states
    go (failed t) e = rw (e, create_started) tt
    go (no_available_worker t) e = rw (e, create_started) tt
    go (worker n) e =
        rw (e, create_started)
          (elim (Bool-cases (should_cancel item.item_id v.after_acquire)) [
            | inl f ↦ rw f tt
            | inr f ↦ rw f (with_worker-AllStored item v s)
          ])

-- The store has a record under the token of the state, with the item, the profile and the header of
-- the request.
abbrev pub IsStored : CreateStatesItem → Visit → Store → StateInfo → Type 0
IsStored item v s i =
    (r : StateRecord) × (Dict.get i.state_token s.records ≡ some r)
    × (r.item_id ≡ item.item_id)
    × (r.env_profile ≡ v.env_profile)
    × (r.header ≡ (split_snippet item.code).header)
    × (r.header_hash ≡ v.header_hash (split_snippet item.code).header)

made-IsStored :
    (item : CreateStatesItem) (v : Visit) (s : Store) (infos : List StateInfo)
    → All (IsMade (origin_of_item item v) s) infos
    → All (IsStored item v s) infos
made-IsStored item v s [] h = tt
made-IsStored item v s (i ∷ infos) ((r, there, made), h) = (
  (
    r,
    there,
    ap (λ (o : Origin). o.item_id) made,
    ap (λ (o : Origin). o.env_profile) made,
    ap (λ (o : Origin). o.header) made,
    ap (λ (o : Origin). o.header_hash) made,
  ),
  made-IsStored item v s infos h,
)

-- Every state that is reported for an item is in the store under its token, with the item, the
-- profile and the header of the request. States are reported only if the item was not cancelled
-- when its work began, when the lease had been awaited and when the worker had answered, a worker
-- was leased, and it answered; they are then as many as the worker saved, with the same goals. So
-- an item that is cancelled, refused or failed reports none.
pub create_one-IsStored :
    (item : CreateStatesItem) (v : Visit) (s : Store) (g : Registry)
    → let done = create_one item v s g in
      All (IsStored item v done.0) done.2.states
      × (done.2.states ≢ []
          → ((begin item.item_id v.begin_at g).1.started ≡ true) × Made item v done.2.states)
unfolding create_one
create_one-IsStored item v s g = elim (Bool-cases (begin item.item_id v.begin_at g).1.started) [
  | inl e ↦
      let done = create_started item v s in
      rw (e, create_one)
        (
          made-IsStored item v done.0 done.1.states (started-AllStored item v s),
          λ n'. (refl, started-Made item v s n'),
        )
  | inr e ↦ rw (e, create_one) (tt, λ n'. absurd (n' refl))
]
