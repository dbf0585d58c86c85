-- ===== src/Backend/Lane/Slots.antt =====
-- server/exec_backends.py: a lane fills the slot of each of its items and no other.
use kimina_lean_server.Base.{
  get-set_self, get-set_ne, get-set_old, length-set, ℕ, ◌<◌, ◌≡◌, ◌⊎◌, refl, sym, ap, ◌∙◌, String,
  Option, none, some, Option-cases, Bool-cases, List, [], ◌∷◌, length, set, get_elem?, All, arith,
  inl, inr, ℕ_discrete,
}
use mathlib.Core.Path.{subst}
use kimina_lean_server.Lifecycle.{should_cancel}
use kimina_lean_server.StateStore.{Store, Result, ok, err}
use kimina_lean_server.Schemas.{StepResult, StepBatchItem, StepBatchResult, ExecDiagnostics}
use kimina_lean_server.Backend.Lane.{
  Acquired, Stepped, ResolvedStepItem, Moment, Lane, worker, no_available_worker, failed, returned,
  raised, answered, promoted, use_worker, acquire_worker, step_item,
}

abbrev pub Slots : Type 0
Slots = List (Option StepBatchResult)

-- A result of the item's node was written to its slot.
abbrev Fills : ResolvedStepItem → Slots → Slots → Type 0
Fills x before after =
    (r : StepBatchResult) × (r.node_id ≡ x.item.node_id) × (after ≡ set before x.index (some r))

abbrev pub Writes : ResolvedStepItem → Slots → Slots → Option String → Type 0
Writes x before after none = Fills x before after
Writes x before after (some text) = after ≡ before

promoted-Fills :
    (x : ResolvedStepItem) (m : Moment) (a : ℕ) (d : ExecDiagnostics)
    (p : Store × Result (List StepResult)) (lane : Lane)
    → Fills x lane.slots (promoted x m a d p lane).slots
promoted-Fills x m a d (s, ok r) lane = (_, refl, refl)
promoted-Fills x m a d (s, err e) lane = (_, refl, refl)

answered-Fills :
    (x : ResolvedStepItem) (m : Moment) (a : ℕ) (lane : Lane)
    → Fills x lane.slots (answered x m a lane).slots
unfolding answered
answered-Fills x m a lane = go m.stepped refl
  where
    go : (z : Stepped) → m.stepped ≡ z → Fills x lane.slots (answered x m a lane).slots
    go (raised t) e = rw (e, answered) (_, refl, refl)
    go (returned rs) e =
        rw (e, answered)
          (elim (Bool-cases (should_cancel x.state.item_id m.after_step)) [
            | inl f ↦ rw f (_, refl, refl)
            | inr f ↦ rw f (promoted-Fills x m a _ _ lane)
          ])

use_worker-Fills :
    (x : ResolvedStepItem) (m : Moment) (a n : ℕ) (lane : Lane)
    → Fills x lane.slots (use_worker x m a n lane).slots
unfolding use_worker
use_worker-Fills x m a n lane = elim (Bool-cases m.health.alive) [
  | inl e ↦ rw (e, use_worker) (answered-Fills x m a _)
  | inr e ↦ rw (e, use_worker) (answered-Fills x m a _)
]

acquire_worker-Writes :
    (x : ResolvedStepItem) (m : Moment) (lane : Lane)
    → Writes x lane.slots (acquire_worker x m lane).0.slots (acquire_worker x m lane).1
unfolding acquire_worker
acquire_worker-Writes x m lane = go m.acquired refl
  where
    go :
        (z : Acquired)
        → m.acquired ≡ z
        → Writes x lane.slots (acquire_worker x m lane).0.slots (acquire_worker x m lane).1
    go (failed t) e = rw (e, acquire_worker) refl
    go (no_available_worker t) e = rw (e, acquire_worker) (_, refl, refl)
    go (worker n) e =
        rw (e, acquire_worker)
          (elim (Bool-cases (should_cancel x.state.item_id m.after_acquire)) [
            | inl f ↦ rw f (_, refl, refl)
            | inr f ↦ rw f (use_worker-Fills x m m.acquire_ms n _)
          ])

pub step_item-Writes :
    (x : ResolvedStepItem) (m : Moment) (lane : Lane)
    → Writes x lane.slots (step_item x m lane).0.slots (step_item x m lane).1
unfolding step_item
step_item-Writes x m lane = elim (Bool-cases (should_cancel x.state.item_id m.at_start)) [
  | inl e ↦ rw e (_, refl, refl)
  | inr e ↦ rw e (elim (Option-cases lane.lease) [
    | inl f ↦ rw (f, step_item) (acquire_worker-Writes x m lane)
    | inr (n, f) ↦ rw (f, step_item) (use_worker-Fills x m 0 n lane)
  ])
]

abbrev pub IsFilled : Slots → ℕ → Type 0
IsFilled slots i = (r : StepBatchResult) × (get_elem? slots i ≡ some (some r))

-- A filled slot holds the result of the item that stands at its place in the request.
abbrev pub Answers : List StepBatchItem → Slots → Type 0
Answers items slots =
    (i : ℕ) (r : StepBatchResult)
    → get_elem? slots i ≡ some (some r)
    → (item : StepBatchItem) × (get_elem? items i ≡ some item) × (r.node_id ≡ item.node_id)

abbrev pub Belongs : List StepBatchItem → ResolvedStepItem → Type 0
Belongs items x = get_elem? items x.index ≡ some x.item

pub set-Answers :
    (items : List StepBatchItem) (i : ℕ) (item : StepBatchItem) (r : StepBatchResult)
    (slots : Slots)
    → get_elem? items i ≡ some item
    → r.node_id ≡ item.node_id
    → Answers items slots
    → Answers items (set slots i (some r))
set-Answers items i item r slots at name h j q e =
    elim (get-set_old slots i j (some r) (some q) e) [
      | inl (p, same) ↦
          (item, ap (get_elem? items) (sym p) ∙ at, ap (node_or item.node_id) same ∙ name)
      | inr old ↦ h j q old
    ]
  where
    node_or : String → Option StepBatchResult → String
    node_or s none = s
    node_or s (some r) = r.node_id

set-IsFilled :
    (slots : Slots) (i j : ℕ) (r : StepBatchResult)
    → i < length slots
    → IsFilled slots j ⊎ (i ≡ j)
    → IsFilled (set slots i (some r)) j
set-IsFilled slots i j r h filled = elim (ℕ_discrete i j) [
  | yes e ↦ (r, ap (get_elem? (set slots i (some r))) (sym e) ∙ get-set_self slots i (some r) h)
  | no n ↦ elim filled [
    | inl (q, e) ↦ (q, get-set_ne slots i j (some r) n ∙ e)
    | inr e ↦ absurd (n e)
  ]
]

-- What a lane does to the slots when no exception leaves it, and when one does.
pub record Kept (items : List StepBatchItem) (before after : Slots) : Type 0 where
  pub same_length : length after ≡ length before
  pub answers : Answers items after
  pub stays : (i : ℕ) → IsFilled before i → IsFilled after i

abbrev pub InRequest : List StepBatchItem → Slots → ResolvedStepItem → Type 0
InRequest items slots x = Belongs items x × (x.index < length slots)

pub Fills-Kept :
    (items : List StepBatchItem) (x : ResolvedStepItem) (before after : Slots)
    → InRequest items before x
    → Answers items before
    → Fills x before after
    → Kept items before after × IsFilled after x.index
Fills-Kept items x before after (at, room) h (r, name, e) =
    subst (λ s. Kept items before s × IsFilled s x.index) (sym e)
      (
        record {
          same_length = length-set before x.index (some r);
          answers = set-Answers items x.index x.item r before at name h;
          stays = λ i f. set-IsFilled before x.index i r room (inl f);
        },
        set-IsFilled before x.index x.index r room (inr refl),
      )

pub Kept-refl : (items : List StepBatchItem) (s : Slots) → Answers items s → Kept items s s
Kept-refl items s h = record { same_length = refl; answers = h; stays = λ i f. f }

pub Kept-trans :
    (items : List StepBatchItem) (a b c : Slots) → Kept items a b → Kept items b c → Kept items a c
Kept-trans items a b c k l = record {
  same_length = l.same_length ∙ k.same_length;
  answers = l.answers;
  stays = λ i f. l.stays i (k.stays i f);
}

-- The lane's work on the slots, with the text of the exception that left it.
abbrev pub Serves :
    List StepBatchItem → List (ResolvedStepItem × Moment) → Slots → Slots → Option String → Type 0
Serves request items before after failure =
    Kept request before after
    × (failure ≡ none → All (λ (e : ResolvedStepItem × Moment). IsFilled after e.0.index) items)

abbrev pub room_kept :
    (request : List StepBatchItem) (items : List (ResolvedStepItem × Moment)) (a b : Slots)
    → length b ≡ length a
    → All (λ (e : ResolvedStepItem × Moment). InRequest request a e.0) items
    → All (λ (e : ResolvedStepItem × Moment). InRequest request b e.0) items
room_kept request [] a b e h = tt
room_kept request ((x, m) ∷ items) a b e h =
    ((h.0.0, omega (arith, e, h.0.1)), room_kept request items a b e h.1)
