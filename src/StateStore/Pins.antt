-- ===== src/StateStore/Pins.antt =====
-- server/state_store.py: pins are counted, and given back as often as they were taken.
use kimina_lean_server.Base.{
  ℕ, ◌+◌, ◌-◌, ◌≡◌, refl, ◌∙◌, inl, inr, String, String_discrete, string_key, none, some,
  Option-cases, Bool-cases, List, [], ◌∷◌, ite, leb, arith, total,
}
use kimina_lean_server.Base.Dict
use kimina_lean_server.StateStore.{put, promote, new_token, create_child, origin_of, Origin}
use kimina_lean_server.StateStore.Tokens.{put_missing, put_found, child_missing, child_found}
use kimina_lean_server.StateStore.{
  state_token_not_found, Store, StateRecord, Result, ok, err, resolve, touch, pin, pins_of, unpin,
  unpin_many, resolve_and_pin,
}

-- How often a token is pinned.
abbrev pub pins : String → Store → ℕ
pins u s = pins_of (Dict.get u s.pinned)

abbrev pub same_as : String → String → ℕ
same_as t u = ite (String_discrete t u) 1 0

pins-pin : (t u : String) (s : Store) → pins u (pin t s) ≡ pins u s + same_as t u
unfolding pin
pins-pin t u s = ground (arith, Dict.get-put t u (pins_of (Dict.get t s.pinned) + 1) s.pinned)

pub pins-unpin : (t u : String) (s : Store) → pins u (unpin t s) ≡ pins u s - same_as t u
unfolding unpin
pins-unpin t u s = elim (Option-cases (Dict.get t s.pinned)) [
  | inl e ↦ rw (e, unpin) (ground arith)
  | inr (n, e) ↦
      rw (e, unpin)
        (elim (Bool-cases (leb n 1)) [
          | inl last ↦ rw last (rw (Dict.get-pop t u s.pinned) (ground arith))
          | inr more ↦ rw more (rw (Dict.get-put t u (n - 1) s.pinned) (ground arith))
        ])
]

-- How often a token stands in a list.
abbrev pub occurrences : String → List String → ℕ
occurrences u ts = total (λ t. same_as t u) ts

-- `unpin_many` takes back one pin for each time that a token stands in the list.
pub pins-unpin_many :
    (ts : List String) (u : String) (s : Store)
    → pins u (unpin_many ts s) ≡ pins u s - occurrences u ts
unfolding unpin_many total
pins-unpin_many [] u s = omega arith
pins-unpin_many (t ∷ ts) u s = omega (arith, pins-unpin_many ts u (unpin t s), pins-unpin t u s)

touch-pinned : (r : StateRecord) (now : ℕ) (s : Store) → (touch r now s).pinned ≡ s.pinned
unfolding touch
touch-pinned r now s = refl

put-pinned :
    (source : String) (o : Origin) (candidates : List String) (now : ℕ) (s : Store)
    → (put source o candidates now s).0.pinned ≡ s.pinned
unfolding put promote
put-pinned source o candidates now s = elim (Option-cases (Dict.get source s.bins)) [
  | inl e ↦ rw (put_missing source o candidates now s e) refl
  | inr (file, e) ↦
      rw (put_found source o candidates now s file e)
        (elim (Option-cases (new_token candidates s.records)) [
          | inl f ↦ rw f refl
          | inr (token, f) ↦ rw f refl
        ])
]

pub create_child-pinned :
    (parent child : String) (candidates : List String) (now later : ℕ) (s : Store)
    → (create_child parent child candidates now later s).0.pinned ≡ s.pinned
create_child-pinned parent child candidates now later s =
    elim (Option-cases (Dict.get parent s.records)) [
      | inl e ↦ rw (child_missing parent child candidates now later s e) refl
      | inr (r, e) ↦
          rw (child_found parent child candidates now later r s e)
            (put-pinned child (origin_of r) candidates later (touch r now s) ∙ touch-pinned r now s)
    ]

abbrev pub Pinned : String → String → Store → Store → Result StateRecord → Type 0
Pinned t u before after (ok r) = pins u after ≡ pins u before + same_as t u
Pinned t u before after (err e) = pins u after ≡ pins u before

resolve_and_pin_missing :
    (t : String) (now : ℕ) (s : Store)
    → Dict.get t s.records ≡ none
    → resolve_and_pin t now s ≡ (s, err state_token_not_found)
unfolding resolve_and_pin resolve
resolve_and_pin_missing t now s e = rw (e, resolve_and_pin, resolve) (rw (e, resolve))

resolve_and_pin_found :
    (t : String) (now : ℕ) (r : StateRecord) (s : Store)
    → Dict.get t s.records ≡ some r
    → resolve_and_pin t now s ≡ (pin t (touch r now s), ok (record r { last_accessed_at = now }))
unfolding resolve_and_pin resolve
resolve_and_pin_found t now r s e = rw (e, resolve_and_pin, resolve) (rw (e, resolve))

-- `resolve_and_pin` adds one pin to its token if it is known, and else changes no pin.
pub resolve_and_pin-Pinned :
    (t u : String) (now : ℕ) (s : Store)
    → Pinned t u s (resolve_and_pin t now s).0 (resolve_and_pin t now s).1
resolve_and_pin-Pinned t u now s = elim (Option-cases (Dict.get t s.records)) [
  | inl e ↦ rw (resolve_and_pin_missing t now s e) refl
  | inr (r, e) ↦
      rw (resolve_and_pin_found t now r s e) (pins-pin t u (touch r now s) ∙ unfold touch in refl)
]
