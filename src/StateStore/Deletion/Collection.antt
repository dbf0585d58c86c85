-- ===== src/StateStore/Deletion/Collection.antt =====
-- server/state_store.py: what the garbage collection takes and what it leaves.
use kimina_lean_server.Base.{
  ℕ, ◌-◌, ◌≤◌, ◌≡◌, refl, ◌∙◌, ◌⊎◌, inl, inr, String, true, false, none, some, List, [], ◌∷◌, mem,
  ite, String_discrete, string_key, Option-cases, Bool-cases, arith, if◌then◌else◌, leb, ltb, keep,
}
use kimina_lean_server.Base.Int.{ℤ, pos, negsuc}
use kimina_lean_server.Base.Dict
use kimina_lean_server.Base.Dict.{Dict}
use kimina_lean_server.StateStore.{Store, StateRecord, stats}
use kimina_lean_server.StateStore.Deletion.{
  erase, delete_one, delete_tokens, gc_over_budget, choose, sorted, sweep_orphans, gc_expired,
  expired,
}

delete_one-pinned : (t : String) (s : Store) → (delete_one t s).0.pinned ≡ s.pinned
unfolding delete_one erase
delete_one-pinned t s = ground arith

delete_tokens-pinned : (ts : List String) (s : Store) → (delete_tokens ts s).0.pinned ≡ s.pinned
unfolding delete_tokens
delete_tokens-pinned [] s = refl
delete_tokens-pinned (t ∷ ts) s = delete_tokens-pinned ts (delete_one t s).0 ∙ delete_one-pinned t s

-- A record stays, or its token was given and is not pinned.
delete_one-get :
    (t u : String) (s : Store)
    → Dict.get u (delete_one t s).0.records
      ≡ ite
          (String_discrete t u)
          (if Dict.has t s.pinned then Dict.get u s.records else none)
          (Dict.get u s.records)
unfolding delete_one erase
delete_one-get t u s = elim (Bool-cases (Dict.has t s.pinned)) [
  | inl e ↦ rw e (ground arith)
  | inr e ↦ rw e (elim (Option-cases (Dict.get t s.records)) [
    | inl f ↦ rw f (ground arith)
    | inr (r, f) ↦ rw f (rw (Dict.get-pop t u s.records) refl)
  ])
]

-- The record of a token after a list of tokens was deleted: it is gone exactly if the token was in
-- the list and is not pinned.
pub delete_tokens-get :
    (ts : List String) (u : String) (s : Store)
    → Dict.get u (delete_tokens ts s).0.records ≡ (
        if mem String_discrete u ts
        then (if Dict.has u s.pinned then Dict.get u s.records else none)
        else Dict.get u s.records)
unfolding delete_tokens mem
delete_tokens-get [] u s = refl
delete_tokens-get (t ∷ ts) u s =
    rw (delete_tokens-get ts u (delete_one t s).0, delete_one-pinned t s, delete_one-get t u s)
      (ground arith)

expired-mem :
    (cutoff : ℕ) (d : Dict String StateRecord) (t : String) (r : StateRecord)
    → Dict.get t d ≡ some r
    → ltb r.last_accessed_at cutoff ≡ true
    → mem String_discrete t (expired cutoff d) ≡ true
unfolding expired keep mem Dict.get
expired-mem cutoff [] t r h old = cc
expired-mem cutoff ((k, q) ∷ d) t r h old = ground (arith, expired-mem cutoff d t r)

budget_records :
    (s : Store) (u : String)
    → (Dict.get u (gc_over_budget s).0.records ≡ Dict.get u s.records)
      ⊎ ((Dict.get u (gc_over_budget s).0.records ≡ none) × (Dict.has u s.pinned ≡ false))
unfolding gc_over_budget
budget_records s u = within s.max_bytes refl
  where
    within :
        (z : ℤ)
        → s.max_bytes ≡ z
        → (Dict.get u (gc_over_budget s).0.records ≡ Dict.get u s.records)
          ⊎ ((Dict.get u (gc_over_budget s).0.records ≡ none) × (Dict.has u s.pinned ≡ false))
    within (negsuc n) e = inl (rw (e, gc_over_budget))
    within (pos limit) e =
        rw (e, gc_over_budget)
          (elim (Bool-cases (leb (stats s).total_bytes limit)) [
            | inl f ↦ rw f (inl refl)
            | inr f ↦ rw f (
                ground (
                  arith,
                  delete_tokens-get
                      (choose limit (stats s).total_bytes (sorted (Dict.values s.records))) u s,
                ))
          ])

abbrev pub Survives : ℕ → String → Store → Store → Type 0
Survives cutoff u before after =
    (Dict.has u before.pinned ≡ true → Dict.get u after.records ≡ Dict.get u before.records)
    × ((r : StateRecord)
        → Dict.has u before.pinned ≡ false
        → Dict.get u after.records ≡ some r
        → (Dict.get u before.records ≡ some r) × (cutoff ≤ r.last_accessed_at))

-- A sweep leaves every pinned state as it was, and of the others only such as were there before
-- and were accessed since the cutoff.
pub gc_expired-Survives :
    (now : ℕ) (u : String) (s : Store) → Survives (now - s.ttl) u s (gc_expired now s).0
unfolding gc_expired sweep_orphans
gc_expired-Survives now u s =
    let cutoff = now - s.ttl in
    let s1 = (delete_tokens (expired cutoff s.records) s).0 in
    let gone = delete_tokens-get (expired cutoff s.records) u s in
    let pins = delete_tokens-pinned (expired cutoff s.records) s in
    let budget = budget_records s1 u in
    (
      λ pinned. ground (arith, gone, pins, budget),
      λ r free e. ground (arith, gone, pins, budget, expired-mem cutoff s.records u r),
    )
