-- ===== src/Lanes/Members.antt =====
-- server/exec_backend_utils.py: what holds of all items holds of all items of the groups and lanes.
use kimina_lean_server.Base.{
  ℕ, zero, suc, ◌+◌, ◌%◌, Bool-cases, Option-cases, List, [], ◌∷◌, length, set, get_elem?,
  replicate, map, All, All-append, inl, inr, ◌==◌, Key,
}
use kimina_lean_server.Base.Int.{ℤ}
use kimina_lean_server.Base.Dict
use kimina_lean_server.Base.Dict.{Dict}
use kimina_lean_server.Lanes.{
  CompatibilityGroup, group_items_by_compatibility, collect, append_to,
  distribute_items_across_lanes, deal, append_at, lane_count_for_group, or_empty,
}

module _ {A : Type 0} (P : A → Type 0) where
  All-or_empty :
      (lanes : List (List A)) (i : ℕ) → All (All P) lanes → All P (or_empty (get_elem? lanes i))
  All-or_empty [] i h = tt
  All-or_empty (x ∷ lanes) zero h = h.0
  All-or_empty (x ∷ lanes) (suc i) h = All-or_empty lanes i h.1

  All-set :
      (lanes : List (List A)) (i : ℕ) (xs : List A)
      → All P xs
      → All (All P) lanes
      → All (All P) (set lanes i xs)
  All-set [] i xs p h = tt
  All-set (x ∷ lanes) zero xs p h = (p, h.1)
  All-set (x ∷ lanes) (suc i) xs p h = (h.0, All-set lanes i xs p h.1)

  All-deal :
      (n index : ℕ) (items : List A) (lanes : List (List A))
      → All P items
      → All (All P) lanes
      → All (All P) (deal n index items lanes)
  unfolding deal append_at
  All-deal n index [] lanes p h = h
  All-deal n index (item ∷ items) lanes p h = All-deal n (index + 1) items _ p.1 (
      All-set lanes (index % n) _
        (All-append P (or_empty (get_elem? lanes (index % n))) (item ∷ [])
          (All-or_empty lanes (index % n) h) (p.0, tt))
        h)

  All-replicate : (n : ℕ) → All (All P) (replicate n [])
  All-replicate zero = tt
  All-replicate (suc n) = (tt, All-replicate n)

  pub All-distribute_items :
      (items : List A) (max_lanes : ℤ)
      → All P items
      → All (All P) (distribute_items_across_lanes items max_lanes)
  unfolding distribute_items_across_lanes
  All-distribute_items items max_lanes p =
      let n = lane_count_for_group (length items) max_lanes in
      elim (Bool-cases (n == 0)) [
        | inl e ↦ rw (e, distribute_items_across_lanes) tt
        | inr e ↦
            rw (e, distribute_items_across_lanes)
              (All-deal n 0 items (replicate n []) p (All-replicate n))
      ]

module _ {K A : Type 0} ⦃k : Key K⦄ (P : A → Type 0) where
  All-found :
      (key : K) (grouped : Dict K (List A))
      → All (All P) (Dict.values grouped)
      → All P (or_empty (Dict.get key grouped))
  All-found key grouped h = elim (Option-cases (Dict.get key grouped)) [
    | inl e ↦ rw e tt
    | inr (xs, e) ↦ rw e (Dict.All-get (All P) key xs grouped h e)
  ]

  All-collect :
      (key_of_item : A → K) (items : List A) (grouped : Dict K (List A))
      → All P items
      → All (All P) (Dict.values grouped)
      → All (All P) (Dict.values (collect key_of_item items grouped))
  unfolding collect append_to
  All-collect key_of_item [] grouped p h = h
  All-collect key_of_item (item ∷ items) grouped p h = All-collect key_of_item items _ p.1 (
      Dict.All-put (All P) (key_of_item item) _ grouped
        (All-append P (or_empty (Dict.get (key_of_item item) grouped)) (item ∷ [])
          (All-found (key_of_item item) grouped h) (p.0, tt))
        h)

  All-groups :
      (grouped : Dict K (List A))
      → All (All P) (Dict.values grouped)
      → All
          (λ (g : CompatibilityGroup K A). All P g.items)
          (map (λ e. record { key = e.0; items = e.1 }) grouped)
  All-groups [] h = tt
  All-groups (e ∷ grouped) h = (h.0, All-groups grouped h.1)

  pub All-group_items :
      (items : List A) (key_of_item : A → K)
      → All P items
      → All
          (λ (g : CompatibilityGroup K A). All P g.items)
          (group_items_by_compatibility items key_of_item)
  unfolding group_items_by_compatibility
  All-group_items items key_of_item p =
      All-groups (collect key_of_item items []) (All-collect key_of_item items [] p tt)
