-- ===== src/Lanes/Grouping.antt =====
-- server/exec_backend_utils.py: what `group_items_by_compatibility` computes.
use kimina_lean_server.Base.{
  ℕ, ◌+◌, ◌≡◌, ◌≢◌, ◌∙◌, ap, refl, sym, List, [], ◌∷◌, ◌++◌, length, length-append, total, Key, map,
  arith, ite, All, inl, inr, Option-cases,
}
use mathlib.Core.List.{append_assoc, append-nil}
use kimina_lean_server.Base.Dict
use kimina_lean_server.Base.Dict.{Dict}
use kimina_lean_server.Lanes.{
  CompatibilityGroup, or_empty, append_to, collect, group_items_by_compatibility,
}

module _ {ℓ} {A : Type ℓ} where
  join :
      {P : Type ℓ} (xs : List A) (x : A) (ys : List A) (d : Dec P)
      → (xs ++ ite d (x ∷ []) []) ++ ys ≡ xs ++ ite d (x ∷ ys) ys
  join xs x ys (yes p) = append_assoc xs (x ∷ []) ys
  join xs x ys (no n) = append_assoc xs [] ys

  abbrev pub IsFull : List A → Type ℓ
  IsFull xs = xs ≢ []

  append-IsFull : (xs : List A) (x : A) → IsFull (xs ++ x ∷ [])
  append-IsFull [] x = λ e. cc
  append-IsFull (y ∷ xs) x = λ e. cc

module _ {ℓ} {K A : Type ℓ} ⦃k : Key K⦄ where
  -- The items whose key is the one given, in their order.
  unfoldable pub having : (A → K) → K → List A → List A
  having key_of_item key [] = []
  having key_of_item key (x ∷ xs) =
      let rest = having key_of_item key xs in ite (k.dec (key_of_item x) key) (x ∷ rest) rest

  -- The group with a key, if there is one.
  unfoldable pub find_group : K → List (CompatibilityGroup K A) → List A
  find_group key [] = []
  find_group key (g ∷ gs) = ite (k.dec g.key key) g.items (find_group key gs)

  append_to-or_empty :
      (key : K) (other : K) (item : A) (d : Dict K (List A))
      → or_empty (Dict.get other (append_to key item d))
        ≡ or_empty (Dict.get other d) ++ ite (k.dec key other) (item ∷ []) []
  unfolding append_to
  append_to-or_empty key other item d = elim (k.dec key other) [
    | yes p ↦ ground (arith, Dict.get-put key other (or_empty (Dict.get key d) ++ item ∷ []) d)
    | no n ↦ ground (
      arith,
      Dict.get-put key other (or_empty (Dict.get key d) ++ item ∷ []) d,
      append-nil (or_empty (Dict.get other d)),
    )
  ]

  collect-or_empty :
      (f : A → K) (key : K) (xs : List A) (d : Dict K (List A))
      → or_empty (Dict.get key (collect f xs d)) ≡ or_empty (Dict.get key d) ++ having f key xs
  unfolding collect having
  collect-or_empty f key [] d = sym (append-nil _)
  collect-or_empty f key (x ∷ xs) d =
      rw (collect-or_empty f key xs (append_to (f x) x d), append_to-or_empty (f x) key x d)
        (join (or_empty (Dict.get key d)) x (having f key xs) (k.dec (f x) key))

  find_group-map :
      (key : K) (d : Dict K (List A))
      → find_group key (map (λ e. record { key = e.0; items = e.1 }) d) ≡ or_empty (Dict.get key d)
  unfolding find_group Dict.get
  find_group-map key [] = refl
  find_group-map key ((j, xs) ∷ d) = ground (arith, find_group-map key d)

  -- The group of each key holds exactly the items with that key, in the order of the request.
  find_group-group_items :
      (xs : List A) (f : A → K) (key : K)
      → find_group key (group_items_by_compatibility xs f) ≡ having f key xs
  unfolding group_items_by_compatibility Dict.get
  find_group-group_items xs f key =
      find_group-map key (collect f xs []) ∙ collect-or_empty f key xs []

  -- The groups as the entries of a dictionary.
  abbrev pub entries : List (CompatibilityGroup K A) → Dict K (List A)
  entries = map (λ g. (g.key, g.items))

  entries_lem :
      (d : Dict K (List A))
      → map
          (λ (g : CompatibilityGroup K A). (g.key, g.items))
          (map (λ e. record { key = e.0; items = e.1 }) d)
        ≡ d
  entries_lem [] = refl
  entries_lem (e ∷ d) = ap (◌∷◌ e) (entries_lem d)

  collect-Unique :
      (f : A → K) (xs : List A) (d : Dict K (List A)) → Dict.Unique d → Dict.Unique (collect f xs d)
  unfolding collect append_to
  collect-Unique f [] d u = u
  collect-Unique f (x ∷ xs) d u = collect-Unique f xs _ (Dict.put-Unique (f x) _ d u)

  collect-IsFull :
      (f : A → K) (xs : List A) (d : Dict K (List A))
      → All IsFull (Dict.values d)
      → All IsFull (Dict.values (collect f xs d))
  unfolding collect append_to
  collect-IsFull f [] d h = h
  collect-IsFull f (x ∷ xs) d h =
      collect-IsFull f xs _
        (Dict.All-put IsFull (f x) _ d (append-IsFull (or_empty (Dict.get (f x) d)) x) h)

  abbrev size : Dict K (List A) → ℕ
  size d = total length (Dict.values d)

  size-append_to : (key : K) (x : A) (d : Dict K (List A)) → size (append_to key x d) ≡ size d + 1
  unfolding append_to
  size-append_to key x d = elim (Option-cases (Dict.get key d)) [
    | inl e ↦ rw e (omega (arith, Dict.total-put_new length key (x ∷ []) d e))
    | inr (xs, e) ↦ rw e (
        omega
          (arith, Dict.total-put_old length key (xs ++ x ∷ []) xs d e, length-append xs (x ∷ [])))
  ]

  size-collect :
      (f : A → K) (xs : List A) (d : Dict K (List A)) → size (collect f xs d) ≡ size d + length xs
  unfolding collect
  size-collect f [] d = omega arith
  size-collect f (x ∷ xs) d =
      omega (arith, size-collect f xs (append_to (f x) x d), size-append_to (f x) x d)

  -- No two groups share a key, no group is empty, and no item is lost or repeated.
  group_items_partition :
      (xs : List A) (f : A → K)
      → let groups = entries (group_items_by_compatibility xs f) in
        Dict.Unique groups
        × All IsFull (Dict.values groups)
        × (total length (Dict.values groups) ≡ length xs)
  unfolding group_items_by_compatibility total
  group_items_partition xs f =
      rw (entries_lem (collect f xs []))
        (collect-Unique f xs [] tt, collect-IsFull f xs [] tt, omega (arith, size-collect f xs []))
