-- ===== src/Routes/Create/Answers.antt =====
-- server/routers/exec.py: `create_one` reports states only if a worker answered for its item.
use kimina_lean_server.Base.{
  ◌≢◌, map, false, ℕ, ◌+◌, ◌≡◌, refl, string_key, Bool-cases, List, [], ◌∷◌, inl, inr,
}
use kimina_lean_server.Lifecycle.{should_cancel}
use kimina_lean_server.StateStore.{Result-cases, Store, Origin, Result, ok, err, put}
use kimina_lean_server.Schemas.{ExecDiagnostics, diagnostics_of, goal_infos_from_worker}
use kimina_lean_server.Backend.Results.{Supply}
use kimina_lean_server.Backend.Lane.{Acquired, worker, no_available_worker, failed}
use kimina_lean_server.Split.{split_snippet}
use kimina_lean_server.Routes.Checks.{CreateStatesItem}
use kimina_lean_server.Routes.Create.{
  SavedState, CreateAnswer, Created, answered, raised, StateInfo, Visit, origin_of_item, put_states,
  prepend_info, stored, create_with_worker, create_started,
}

-- The goals of the states are those that the worker answered, state by state.
abbrev pub HasGoals : List StateInfo → List SavedState → Type 0
HasGoals infos states =
    map (λ (i : StateInfo). i.goals) infos
    ≡ map (λ (x : SavedState). goal_infos_from_worker x.goals) states

-- The worker answered for the item, which was not cancelled afterwards, with these states.
abbrev pub Answered : CreateStatesItem → Visit → List StateInfo → Type 0
Answered item v infos =
    (should_cancel item.item_id v.after_step ≡ false)
    × ((a : CreateAnswer) × (v.created (split_snippet item.code).body ≡ answered a)
        × HasGoals infos a.states)

-- A worker was leased for the item, which was not cancelled before, and answered.
abbrev pub Made : CreateStatesItem → Visit → List StateInfo → Type 0
Made item v infos =
    ((n : ℕ) × (v.acquired ≡ worker n))
    × (should_cancel item.item_id v.after_acquire ≡ false)
    × Answered item v infos

abbrev AllGoals : List SavedState → Store × Result (List StateInfo) → Type 0
AllGoals states (s, ok infos) = HasGoals infos states
AllGoals states (s, err e) = Unit

prepend-AllGoals :
    (i : StateInfo) (x : SavedState) (states : List SavedState)
    (p : Store × Result (List StateInfo))
    → i.goals ≡ goal_infos_from_worker x.goals
    → AllGoals states p
    → AllGoals (x ∷ states) (prepend_info i p)
prepend-AllGoals i x states (s, ok infos) e h = cc
prepend-AllGoals i x states (s, err f) e h = tt

put_states-AllGoals :
    (o : Origin) (supply : ℕ → Supply) (k : ℕ) (states : List SavedState) (s : Store)
    → AllGoals states (put_states o supply k states s)
unfolding put_states
put_states-AllGoals o supply k [] s = refl
put_states-AllGoals o supply k (x ∷ states) s =
    let done = put x.path o (supply k).candidates (supply k).now s in
    elim (Result-cases done.1) [
      | inr (e, f) ↦ rw (f, put_states) tt
      | inl (token, f) ↦
          rw (f, put_states)
            (prepend-AllGoals
              (record { state_token = token; goals = goal_infos_from_worker x.goals }) x states
              (put_states o supply (k + 1) states done.0) refl
              (put_states-AllGoals o supply (k + 1) states done.0))
    ]

stored-HasGoals :
    (item : CreateStatesItem) (v : Visit) (a : CreateAnswer) (d : ExecDiagnostics)
    (p : Store × Result (List StateInfo))
    → AllGoals a.states p
    → (stored item v a d p).1.states ≢ []
    → HasGoals (stored item v a d p).1.states a.states
stored-HasGoals item v a d (s, ok infos) h n = h
stored-HasGoals item v a d (s, err e) h n = absurd (n refl)

with_worker-Answered :
    (item : CreateStatesItem) (v : Visit) (s : Store)
    → (create_with_worker item v s).1.states ≢ []
    → Answered item v (create_with_worker item v s).1.states
unfolding create_with_worker
with_worker-Answered item v s = go (v.created (split_snippet item.code).body) refl
  where
    go :
        (z : Created)
        → v.created (split_snippet item.code).body ≡ z
        → (create_with_worker item v s).1.states ≢ []
        → Answered item v (create_with_worker item v s).1.states
    go (raised t) e = rw (e, create_with_worker) (λ n'. absurd (n' refl))
    go (answered a) e =
        rw (e, create_with_worker)
          (elim (Bool-cases (should_cancel item.item_id v.after_step)) [
            | inl f ↦ rw f (λ n'. absurd (n' refl))
            | inr f ↦ rw f (λ n'. (
              refl,
              (
                a,
                refl,
                stored-HasGoals item v a (diagnostics_of v.acquire_ms v.lean_ms a.debug)
                    (put_states (origin_of_item item v) v.supply 0 a.states (v.others s))
                    (put_states-AllGoals (origin_of_item item v) v.supply 0 a.states (v.others s))
                    n',
              ),
            ))
          ])

pub started-Made :
    (item : CreateStatesItem) (v : Visit) (s : Store)
    → (create_started item v s).1.states ≢ []
    → Made item v (create_started item v s).1.states
unfolding create_started
started-Made item v s = go v.acquired refl
  where
    go :
        (z : Acquired)
        → v.acquired ≡ z
        → (create_started item v s).1.states ≢ []
        → Made item v (create_started item v s).1.states
    go (failed t) e = rw (e, create_started) (λ n'. absurd (n' refl))
    go (no_available_worker t) e = rw (e, create_started) (λ n'. absurd (n' refl))
    go (worker n) e =
        rw (e, create_started)
          (elim (Bool-cases (should_cancel item.item_id v.after_acquire)) [
            | inl f ↦ rw f (λ n'. absurd (n' refl))
            | inr f ↦ rw f (λ n'.
                let (after, answer) = with_worker-Answered item v s n' in
                ((n, refl), refl, (after, answer)))
          ])
