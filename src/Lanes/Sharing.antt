-- ===== src/Lanes/Sharing.antt =====
-- server/exec_backend_utils.py: how `distribute_items_across_lanes` shares a group.
use kimina_lean_server.Base.{
  length-set, true, false, Bool, ℕ, zero, suc, ◌+◌, ◌%◌, ◌<◌, ◌≤◌, ◌≡◌, ◌≢◌, ◌∙◌, ap, refl, sym,
  List, [], ◌∷◌, ◌++◌, length, replicate, set, get_elem?, arith, inl, inr, ◌==◌, if◌then◌else◌,
  Bool-cases,
}
use mathlib.Core.List.{append_assoc, append-nil}
use native.Mathlib.Nat.{mod-eq_of_lt}
use kimina_lean_server.Base.Int.{ℤ, pos, negsuc}
use kimina_lean_server.Lanes.{
  or_empty, append_at, deal, lane_count_for_group, distribute_items_across_lanes,
}

-- The count is at most the number of items and at most a positive bound, and it is positive
-- exactly when there are items.
lane_count_bounds :
    (count : ℕ) (max_lanes : ℤ)
    → (lane_count_for_group count max_lanes ≤ count)
      × (0 < count → 0 < lane_count_for_group count max_lanes)
      × ((m : ℕ) → max_lanes ≡ pos (suc m) → lane_count_for_group count max_lanes ≤ suc m)
unfolding lane_count_for_group
lane_count_bounds count (pos m) = (ground arith, λ p. ground arith, λ n e. ground arith)
lane_count_bounds count (negsuc m) = (ground arith, λ p. ground arith, λ n e. cc)

lanes_length {ℓ} : (A : Type ℓ) (n : ℕ) → length (replicate {A = List A} n []) ≡ n
lanes_length A zero = refl
lanes_length A (suc n) = ap suc (lanes_length A n)

module _ {ℓ} {A : Type ℓ} where
  -- Of items numbered from `index`, those whose number leaves `j` on division by `n`.
  unfoldable pub every_nth : ℕ → ℕ → ℕ → List A → List A
  every_nth n j index [] = []
  every_nth n j index (x ∷ xs) =
      let rest = every_nth n j (index + 1) xs in if index % n == j then x ∷ rest else rest

  set-get :
      (xs : List (List A)) (i j : ℕ) (v : List A)
      → i < length xs
      → or_empty (get_elem? (set xs i v) j) ≡ (if i == j then v else or_empty (get_elem? xs j))
  set-get [] i j v h = absurd (omega arith)
  set-get (x ∷ xs) zero zero v h = refl
  set-get (x ∷ xs) zero (suc j) v h = ground arith
  set-get (x ∷ xs) (suc i) zero v h = ground arith
  set-get (x ∷ xs) (suc i) (suc j) v h = set-get xs i j v (omega arith) ∙ ground arith

  length-deal :
      (n index : ℕ) (xs : List A) (lanes : List (List A))
      → length (deal n index xs lanes) ≡ length lanes
  unfolding deal append_at
  length-deal n index [] lanes = refl
  length-deal n index (x ∷ xs) lanes =
      length-deal n (index + 1) xs _ ∙ length-set lanes (index % n) _

  append_at_lane :
      (i j : ℕ) (x : A) (lanes : List (List A))
      → i < length lanes
      → or_empty (get_elem? (append_at i x lanes) j)
        ≡ or_empty (get_elem? lanes j) ++ (if i == j then x ∷ [] else [])
  unfolding append_at
  append_at_lane i j x lanes h = elim (Bool-cases (i == j)) [
    | inl e ↦ rw (set-get lanes i j (or_empty (get_elem? lanes i) ++ x ∷ []) h) (ground arith)
    | inr e ↦
        rw (set-get lanes i j (or_empty (get_elem? lanes i) ++ x ∷ []) h)
          (ground (arith, append-nil (or_empty (get_elem? lanes j))))
  ]

  join :
      (b : Bool) (xs : List A) (x : A) (ys : List A)
      → (xs ++ (if b then x ∷ [] else [])) ++ ys ≡ xs ++ (if b then x ∷ ys else ys)
  join true xs x ys = append_assoc xs (x ∷ []) ys
  join false xs x ys = append_assoc xs [] ys

  deal_lane :
      (n index j : ℕ) (xs : List A) (lanes : List (List A))
      → 0 < n
      → length lanes ≡ n
      → or_empty (get_elem? (deal n index xs lanes) j)
        ≡ or_empty (get_elem? lanes j) ++ every_nth n j index xs
  unfolding deal every_nth
  deal_lane n index j [] lanes p h = sym (append-nil _)
  deal_lane n index j (x ∷ xs) lanes p h =
      let kept : length (append_at (index % n) x lanes) ≡ n =
        unfold append_at in length-set lanes (index % n) _ ∙ h in
      rw
        (
          deal_lane n (index + 1) j xs (append_at (index % n) x lanes) p kept,
          append_at_lane (index % n) j x lanes (grind arith),
        )
        (join (index % n == j) (or_empty (get_elem? lanes j)) x (every_nth n j (index + 1) xs))

  lanes_empty : (n j : ℕ) → or_empty (get_elem? (replicate {A = List A} n []) j) ≡ []
  lanes_empty zero j = refl
  lanes_empty (suc n) zero = refl
  lanes_empty (suc n) (suc j) = lanes_empty n j

  -- There are as many lanes as `lane_count_for_group` says, and lane `j` of `n` holds, in order,
  -- the items whose position leaves `j` on division by `n`.
  distribute_items_round_robin :
      (xs : List A) (max_lanes : ℤ) (j : ℕ)
      → let n = lane_count_for_group (length xs) max_lanes in
        let lanes = distribute_items_across_lanes xs max_lanes in
        (length lanes ≡ n) × (0 < length xs → or_empty (get_elem? lanes j) ≡ every_nth n j 0 xs)
  unfolding distribute_items_across_lanes
  distribute_items_round_robin xs max_lanes j =
      let n = lane_count_for_group (length xs) max_lanes in
      let lanes = replicate {A = List A} n [] in
      elim (Bool-cases (n == 0)) [
        | inl e ↦ rw e (
          ground arith,
          λ p. absurd (ground (arith, (lane_count_bounds (length xs) max_lanes).1 p)),
        )
        | inr e ↦ rw e (
          length-deal n 0 xs lanes ∙ lanes_length A n,
          λ p.
              deal_lane n 0 j xs lanes (ground arith) (lanes_length A n)
              ∙ ap (λ l. l ++ every_nth n j 0 xs) (lanes_empty n j),
        )
      ]

  every_nth_full :
      (n j index : ℕ) (xs : List A)
      → j < n
      → index ≤ j
      → j < index + length xs
      → every_nth n j index xs ≢ []
  unfolding every_nth
  every_nth_full n j index [] small low high = absurd (omega arith)
  every_nth_full n j index (x ∷ xs) small low high = elim (Bool-cases (index == j)) [
    | inl e ↦ grind (arith, mod-eq_of_lt)
    | inr e ↦ ground (arith, every_nth_full n j (index + 1) xs small)
  ]

  -- No worker is leased for an empty lane.
  lanes_full :
      (xs : List A) (max_lanes : ℤ) (j : ℕ)
      → j < length (distribute_items_across_lanes xs max_lanes)
      → or_empty (get_elem? (distribute_items_across_lanes xs max_lanes) j) ≢ []
  lanes_full xs max_lanes j h =
      let n = lane_count_for_group (length xs) max_lanes in
      let (few, lane) = distribute_items_round_robin xs max_lanes j in
      let bounds = lane_count_bounds (length xs) max_lanes in
      λ e.
        every_nth_full n j 0 xs (omega arith) (omega arith) (omega arith)
          (sym (lane (omega arith)) ∙ e)
