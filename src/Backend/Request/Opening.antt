-- ===== src/Backend/Request/Opening.antt =====
-- server/exec_backends.py: the first loop of a batch, which pins the states and begins the items.
use kimina_lean_server.Base.{
  length-set, ℕ, zero, suc, ◌+◌, ◌<◌, ◌≡◌, refl, sym, ap, ◌∙◌, String, Option, none, some,
  Bool-cases, List, [], ◌∷◌, length, set, get_elem?, replicate, total, total-append, All,
  All-append, arith, inl, inr, string_key,
}
use mathlib.Core.Path.{subst}
use kimina_lean_server.Lifecycle.{Registry, begin}
use kimina_lean_server.StateStore.{Result-cases, Store, StateRecord, resolve_and_pin}
use kimina_lean_server.StateStore.Pins.{
  pins, occurrences, same_as, pins-unpin, resolve_and_pin-Pinned, Pinned,
}
use kimina_lean_server.Schemas.{StepBatchItem, StepBatchResult}
use kimina_lean_server.Backend.Results.{invalid_token_result}
use kimina_lean_server.Backend.Lane.Slots.{Answers, set-Answers, Belongs}
use kimina_lean_server.Backend.Request.{
  Clock, Batch, open_resolved, open_item, open_items, new_batch, cancelled_item,
}

-- The pins that the batch added are those of the tokens that it will give back.
abbrev Balanced : String → Batch → Batch → Type 0
Balanced u a b =
    pins u b.store + occurrences u a.pinned_tokens ≡ pins u a.store + occurrences u b.pinned_tokens

open_resolved-Balanced :
    (u : String) (clock : Clock) (index : ℕ) (item : StepBatchItem) (r : StateRecord) (s : Store)
    (b : Batch)
    → pins u s ≡ pins u b.store + same_as item.state_token u
    → Balanced u b (open_resolved clock index item r s b)
unfolding open_resolved total
open_resolved-Balanced u clock index item r s b h =
    elim (Bool-cases (begin r.item_id (clock.lifecycle_now index) b.lifecycle).1.started) [
      | inl e ↦ rw e (
          omega (arith, h, total-append (λ t. same_as t u) b.pinned_tokens (item.state_token ∷ [])))
      | inr e ↦ rw e (omega (arith, h, pins-unpin item.state_token u s))
    ]

open_item-Balanced :
    (u : String) (clock : Clock) (index : ℕ) (item : StepBatchItem) (b : Batch)
    → Balanced u b (open_item clock index item b)
unfolding open_item
open_item-Balanced u clock index item b =
    let now = clock.store_now index in
    let found = resolve_and_pin item.state_token now b.store in
    let pinned = resolve_and_pin-Pinned item.state_token u now b.store in
    elim (Result-cases found.1) [
      | inl (r, e) ↦
          rw (e, open_item)
            (open_resolved-Balanced u clock index item r found.0 b
              (subst (Pinned item.state_token u b.store found.0) e pinned))
      | inr (x, e) ↦
          rw (e, open_item)
            (ap (λ n. n + occurrences u b.pinned_tokens)
              (subst (Pinned item.state_token u b.store found.0) e pinned))
    ]

-- Each token that the first loop pinned and did not unpin stands in the list that is given back.
pub open_items-Balanced :
    (u : String) (clock : Clock) (index : ℕ) (items : List StepBatchItem) (b : Batch)
    → Balanced u b (open_items clock index items b)
unfolding open_items
open_items-Balanced u clock index [] b = refl
open_items-Balanced u clock index (item ∷ items) b = omega (
  arith,
  open_item-Balanced u clock index item b,
  open_items-Balanced u clock (index + 1) items (open_item clock index item b),
)

-- What holds of the slots and the resolved items after any number of rounds.
pub record IsOpened (request : List StepBatchItem) (b : Batch) : Type 0 where
  pub slot_each : length b.slots ≡ length request
  pub answers : Answers request b.slots
  pub members : All (λ x. Belongs request x × (x.index < length request)) b.resolved

-- The item stands at the index in the request.
abbrev StandsAt : List StepBatchItem → ℕ → StepBatchItem → Type 0
StandsAt request index item = get_elem? request index ≡ some item

get-below : {A : Type 0} (xs : List A) (i : ℕ) (x : A) → get_elem? xs i ≡ some x → i < length xs
get-below [] i x h = cc
get-below (y ∷ ys) zero x h = omega arith
get-below (y ∷ ys) (suc i) x h = omega (arith, get-below ys i x h)

settled-IsOpened :
    (request : List StepBatchItem) (index : ℕ) (item : StepBatchItem) (q : StepBatchResult)
    (b c : Batch)
    → StandsAt request index item
    → q.node_id ≡ item.node_id
    → c.slots ≡ set b.slots index (some q)
    → c.resolved ≡ b.resolved
    → IsOpened request b
    → IsOpened request c
settled-IsOpened request index item q b c at name slots same v = record {
  slot_each = ap length slots ∙ length-set b.slots index (some q) ∙ v.slot_each;
  answers =
      subst (Answers request) (sym slots)
        (set-Answers request index item q b.slots at name v.answers);
  members = subst (All (λ x. Belongs request x × (x.index < length request))) (sym same) v.members;
}

open_resolved-IsOpened :
    (request : List StepBatchItem) (clock : Clock) (index : ℕ) (item : StepBatchItem)
    (r : StateRecord) (s : Store) (b : Batch)
    → StandsAt request index item
    → IsOpened request b
    → IsOpened request (open_resolved clock index item r s b)
unfolding open_resolved
open_resolved-IsOpened request clock index item r s b at v =
    elim (Bool-cases (begin r.item_id (clock.lifecycle_now index) b.lifecycle).1.started) [
      | inl e ↦
          rw (e, open_resolved)
            (record {
              slot_each = v.slot_each;
              answers = v.answers;
              members =
                  All-append (λ x. Belongs request x × (x.index < length request)) b.resolved
                    (record { index = index; item = item; state = r } ∷ []) v.members
                    ((at, get-below request index item at), tt);
            })
      | inr e ↦
          rw (e, open_resolved)
            (settled-IsOpened request index item (cancelled_item item r) b _ at refl refl refl v)
    ]

open_item-IsOpened :
    (request : List StepBatchItem) (clock : Clock) (index : ℕ) (item : StepBatchItem) (b : Batch)
    → StandsAt request index item
    → IsOpened request b
    → IsOpened request (open_item clock index item b)
unfolding open_item
open_item-IsOpened request clock index item b at v =
    let found = resolve_and_pin item.state_token (clock.store_now index) b.store in
    elim (Result-cases found.1) [
      | inl (r, e) ↦
          rw (e, open_item) (open_resolved-IsOpened request clock index item r found.0 b at v)
      | inr (x, e) ↦
          rw (e, open_item)
            (settled-IsOpened request index item (invalid_token_result item) b _ at refl refl refl
              v)
    ]

-- The items stand in the request from the index on.
abbrev StandFrom : List StepBatchItem → ℕ → List StepBatchItem → Type 0
StandFrom request index items = (k : ℕ) → get_elem? request (k + index) ≡ get_elem? items k

open_items-IsOpened :
    (request : List StepBatchItem) (clock : Clock) (index : ℕ) (items : List StepBatchItem)
    (b : Batch)
    → StandFrom request index items
    → IsOpened request b
    → IsOpened request (open_items clock index items b)
unfolding open_items
open_items-IsOpened request clock index [] b at v = v
open_items-IsOpened request clock index (item ∷ items) b at v =
    open_items-IsOpened request clock (index + 1) items (open_item clock index item b)
      (λ k. ap (get_elem? request) (omega arith) ∙ at (suc k))
      (open_item-IsOpened request clock index item b (ap (get_elem? request) (omega arith) ∙ at 0)
        v)

new_batch-IsOpened :
    (request : List StepBatchItem) (s : Store) (g : Registry)
    → IsOpened request (new_batch (length request) s g)
new_batch-IsOpened request s g = record {
  slot_each = length-replicate (length request);
  answers = λ i r e. absurd (no_result (length request) i r e);
  members = tt;
}
  where
    length-replicate : (n : ℕ) → length (replicate {A = Option StepBatchResult} n none) ≡ n
    length-replicate zero = refl
    length-replicate (suc n) = ap suc (length-replicate n)

    no_result :
        (n i : ℕ) (r : StepBatchResult)
        → get_elem? (replicate {A = Option StepBatchResult} n none) i ≡ some (some r)
        → ⊥
    no_result zero i r e = cc
    no_result (suc n) zero r e = cc
    no_result (suc n) (suc i) r e = no_result n i r e

pub open_items-new_batch-IsOpened :
    (request : List StepBatchItem) (clock : Clock) (s : Store) (g : Registry)
    → IsOpened request (open_items clock 0 request (new_batch (length request) s g))
open_items-new_batch-IsOpened request clock s g =
    open_items-IsOpened request clock 0 request (new_batch (length request) s g)
      (λ k. ap (get_elem? request) (omega arith)) (new_batch-IsOpened request s g)
