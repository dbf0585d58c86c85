-- ===== src/Client/Microbatches.antt =====
-- The slices `items[start : start + size]` of a list, one after another: the microbatches of
-- `step_batch_resumable`, and what `flush` takes from its queue until it is empty.
use kimina_lean_server.Base.{
  ℕ, zero, suc, ◌≤◌, ◌<◌, ◌≡◌, refl, ap, ◌∙◌, List, [], ◌∷◌, ◌++◌, length, take, drop, take-drop,
  length-take, length-drop, All, arith,
}

module _ {ℓ} {A : Type ℓ} where
  -- On fuel: each round takes at least one element.
  slices : ℕ → ℕ → List A → List (List A)
  slices zero size items = []
  slices (suc fuel) size [] = []
  slices (suc fuel) size (x ∷ xs) = take size (x ∷ xs) ∷ slices fuel size (drop size (x ∷ xs))

  unfoldable pub microbatches : ℕ → List A → List (List A)
  unfolding slices
  microbatches size items = slices (length items) size items

  abbrev pub concat : List (List A) → List A
  concat [] = []
  concat (xs ∷ xss) = xs ++ concat xss

  -- Not empty, and not larger than the limit.
  abbrev pub IsSlice : ℕ → List A → Type 0
  IsSlice size xs = (0 < length xs) × (length xs ≤ size)

  slices-lem :
      (fuel size : ℕ) (items : List A)
      → 0 < size
      → length items ≤ fuel
      → (concat (slices fuel size items) ≡ items) × All (IsSlice size) (slices fuel size items)
  unfolding slices
  slices-lem zero size [] p h = (refl, tt)
  slices-lem zero size (x ∷ xs) p h = absurd (omega arith)
  slices-lem (suc fuel) size [] p h = (refl, tt)
  slices-lem (suc fuel) size (x ∷ xs) p h =
      let l = length-drop size (x ∷ xs) in
      let t = length-take size (x ∷ xs) in
      let ih = slices-lem fuel size (drop size (x ∷ xs)) p (omega arith) in
      (
        ap (λ ys. take size (x ∷ xs) ++ ys) ih.0 ∙ take-drop size (x ∷ xs),
        ((omega arith, omega arith), ih.1),
      )

-- With a positive limit the loop ends: as many rounds as there are elements empty the list, whose
-- elements the microbatches hold in their order, and each microbatch has an element and at most as
-- many as the limit allows.
pub microbatches-Cover :
    {A : Type 0} (size : ℕ) (items : List A)
    → 0 < size
    → (concat (microbatches size items) ≡ items) × All (IsSlice size) (microbatches size items)
unfolding microbatches
microbatches-Cover size items p = slices-lem (length items) size items p (omega arith)
