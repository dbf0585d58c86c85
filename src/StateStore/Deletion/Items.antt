-- ===== src/StateStore/Deletion/Items.antt =====
-- server/state_store.py: the states of an item are deleted together or not at all.
use mathlib.Core.Logic.{if_pos}
use kimina_lean_server.Base.{
  sym, ◌∙◌, ◌<◌, ◌≡◌, refl, inl, inr, String, String_discrete, string_key, true, false, none,
  Bool-cases, List, [], ◌∷◌, ltb, arith, if◌then◌else◌, length, mem, keep,
}
use kimina_lean_server.Base.Dict
use kimina_lean_server.StateStore.{Store, tokens_of}
use kimina_lean_server.StateStore.Consistency.{IsConsistent, owned_by}
use kimina_lean_server.StateStore.Deletion.{
  delete_by_item_id_all_or_none, DeleteDecision, pinned_among,
}
use kimina_lean_server.StateStore.Deletion.Safety.{delete_tokens-IsConsistent}
use kimina_lean_server.StateStore.Deletion.Collection.{delete_tokens-get}

not_pinned :
    (ts : List String) (u : String) (s : Store)
    → ltb 0 (length (pinned_among ts s)) ≡ false
    → mem String_discrete u ts ≡ true
    → Dict.has u s.pinned ≡ false
unfolding keep mem
not_pinned [] u s h m = cc
not_pinned (t ∷ ts) u s h m = ground (arith, not_pinned ts u s)

some_pinned :
    (ts : List String) (u : String) (s : Store)
    → mem String_discrete u ts ≡ true
    → Dict.has u s.pinned ≡ true
    → 0 < length (pinned_among ts s)
unfolding keep mem
some_pinned [] u s m h = cc
some_pinned (t ∷ ts) u s m h = ground (arith, some_pinned ts u s)

a_pinned :
    (ts : List String) (s : Store)
    → 0 < length (pinned_among ts s)
    → (u : String) × (mem String_discrete u ts ≡ true) × (Dict.has u s.pinned ≡ true)
unfolding keep mem
a_pinned [] s h = absurd (omega (arith, h))
a_pinned (t ∷ ts) s h = elim (Bool-cases (Dict.has t s.pinned)) [
  | inl e ↦ (t, rw (if_pos (String_discrete t t) refl) refl, e)
  | inr e ↦ let (u, m, p) = a_pinned ts s (rw (e, keep) at h) in (u, ground (arith, m), p)
]

-- The store before and after, and the decision.
abbrev pub IsAllOrNone : String → Store → Store → DeleteDecision → Type 0
IsAllOrNone item before after d =
    (d.deleted ≡ false → (after ≡ before) × (0 < d.pinned_states))
    × (d.deleted ≡ true
        → (u : String)
        → Dict.get u after.records
          ≡ (if owned_by item (Dict.get u before.records) then none else Dict.get u before.records))
    × ((u : String)
        → owned_by item (Dict.get u before.records) ≡ true
        → Dict.has u before.pinned ≡ true
        → d.deleted ≡ false)

pub delete_by_item_id-IsAllOrNone :
    (item : String) (s : Store)
    → IsConsistent s
    → IsAllOrNone item s
        (delete_by_item_id_all_or_none item s).0
        (delete_by_item_id_all_or_none item s).1
unfolding delete_by_item_id_all_or_none
delete_by_item_id-IsAllOrNone item s c =
    let ts = tokens_of (Dict.get item s.tokens_by_item_id) in
    elim (Bool-cases (ltb 0 (length (pinned_among ts s)))) [
      | inl e ↦ rw e (λ d. (refl, ground arith), λ d. cc, λ u o p. refl)
      | inr e ↦ rw e (
        λ d. cc,
        λ d u. ground (arith, delete_tokens-get ts u s, c.indexed item u, not_pinned ts u s),
        λ u o p. ground (arith, c.indexed item u, not_pinned ts u s),
      )
    ]

pub all_or_none-IsConsistent :
    (item : String) (s : Store)
    → IsConsistent s
    → IsConsistent (delete_by_item_id_all_or_none item s).0
unfolding delete_by_item_id_all_or_none
all_or_none-IsConsistent item s c =
    let ts = tokens_of (Dict.get item s.tokens_by_item_id) in
    elim (Bool-cases (ltb 0 (length (pinned_among ts s)))) [
      | inl e ↦ rw e c
      | inr e ↦ rw e (delete_tokens-IsConsistent ts s c)
    ]

-- If nothing is deleted, a state of the item is pinned.
pub delete_by_item_id-pinned :
    (item : String) (s : Store)
    → IsConsistent s
    → (delete_by_item_id_all_or_none item s).1.deleted ≡ false
    → ((delete_by_item_id_all_or_none item s).1.pinned_states
        ≡ length (keep (λ t. Dict.has t s.pinned) (tokens_of (Dict.get item s.tokens_by_item_id))))
      × ((u : String) × (owned_by item (Dict.get u s.records) ≡ true)
          × (Dict.has u s.pinned ≡ true))
unfolding delete_by_item_id_all_or_none
delete_by_item_id-pinned item s c d =
    let ts = tokens_of (Dict.get item s.tokens_by_item_id) in
    elim (Bool-cases (ltb 0 (length (pinned_among ts s)))) [
      | inl e ↦
          let (u, m, p) = a_pinned ts s (ground (arith, e)) in
          rw e (refl, (u, sym (c.indexed item u) ∙ m, p))
      | inr e ↦ let d' = rw e at d in cc
    ]
