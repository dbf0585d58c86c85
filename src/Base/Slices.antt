-- ===== src/Base/Slices.antt =====
-- Slices of lists, tests of all or some elements, and lists without duplicates.
use Prim.Native.Nat.{ℕ, zero, suc, ◌+◌, ◌-◌, ◌≤◌, ◌<◌, min}
use mathlib.Core.Path.{◌≡◌, refl, ap, ◌∙◌}
use mathlib.Core.Logic.{◌↔◌}
use mathlib.Core.Bool.{Bool, true, false, not, ◌&&◌, ◌||◌}
use mathlib.Core.List.{List, [], ◌∷◌, ◌++◌}
use native.Mathlib.Omega.{arith}
use kimina_lean_server.Base.Tests.{if◌then◌else◌, ◌==◌}
use kimina_lean_server.Base.Lists.{length, get_elem?, All, mem, mem-append, discard, mem-discard}

module _ {ℓ} {A : Type ℓ} where
  -- xs[:n]
  abbrev pub take : ℕ → List A → List A
  take zero xs = []
  take (suc n) [] = []
  take (suc n) (x ∷ xs) = x ∷ take n xs

  -- xs[n:]
  abbrev pub drop : ℕ → List A → List A
  drop zero xs = xs
  drop (suc n) [] = []
  drop (suc n) (x ∷ xs) = drop n xs

  -- any(test(x) for x in xs)
  abbrev pub any : (A → Bool) → List A → Bool
  any test [] = false
  any test (x ∷ xs) = test x || any test xs

  -- all(test(x) for x in xs)
  abbrev pub every : (A → Bool) → List A → Bool
  every test [] = true
  every test (x ∷ xs) = test x && every test xs

  pub take-drop : (n : ℕ) (xs : List A) → take n xs ++ drop n xs ≡ xs
  take-drop zero xs = refl
  take-drop (suc n) [] = refl
  take-drop (suc n) (x ∷ xs) = ap (λ ys. x ∷ ys) (take-drop n xs)

  pub get-drop : (n k : ℕ) (xs : List A) → get_elem? (drop n xs) k ≡ get_elem? xs (k + n)
  get-drop zero k xs = ap (get_elem? xs) (omega arith)
  get-drop (suc n) k [] = refl
  get-drop (suc n) k (x ∷ xs) =
      let e : suc (k + n) ≡ k + suc n = omega arith in get-drop n k xs ∙ ap (get_elem? (x ∷ xs)) e

  pub length-take : (n : ℕ) (xs : List A) → length (take n xs) ≡ min n (length xs)
  length-take zero xs = omega arith
  length-take (suc n) [] = omega arith
  length-take (suc n) (x ∷ xs) = omega (arith, length-take n xs)

  pub length-drop : (n : ℕ) (xs : List A) → length (drop n xs) ≡ length xs - n
  length-drop zero xs = omega arith
  length-drop (suc n) [] = omega arith
  length-drop (suc n) (x ∷ xs) = omega (arith, length-drop n xs)

  pub All-take {κ} : (P : A → Type κ) (n : ℕ) (xs : List A) → All P xs → All P (take n xs)
  All-take P zero xs h = tt
  All-take P (suc n) [] h = tt
  All-take P (suc n) (x ∷ xs) h = (h.0, All-take P n xs h.1)

  pub All-drop {κ} : (P : A → Type κ) (n : ℕ) (xs : List A) → All P xs → All P (drop n xs)
  All-drop P zero xs h = h
  All-drop P (suc n) [] h = tt
  All-drop P (suc n) (x ∷ xs) h = All-drop P n xs h.1

module _ {A : Type 0} (dec : Discrete A) where
  -- No element stands twice.
  abbrev pub Distinct : List A → Type 0
  Distinct [] = Unit
  Distinct (x ∷ xs) = (mem dec x xs ≡ false) × Distinct xs

  pub Distinct-snoc :
      (x : A) (xs : List A) → Distinct xs → mem dec x xs ≡ false → Distinct (xs ++ x ∷ [])
  unfolding mem
  Distinct-snoc x [] d h = (refl, tt)
  Distinct-snoc x (y ∷ ys) (hy, d) h =
      ground (arith, Distinct-snoc x ys d, mem-append dec y ys (x ∷ []))

  -- set(xs)
  unfoldable pub set_of : List A → List A
  set_of [] = []
  set_of (x ∷ xs) = let rest = set_of xs in if mem dec x xs then rest else x ∷ rest

  -- len(set(xs)) != len(xs)
  unfoldable pub has_duplicates : List A → Bool
  unfolding set_of
  has_duplicates xs = not (length (set_of xs) == length xs)

  length-set_of-le : (xs : List A) → length (set_of xs) ≤ length xs
  unfolding set_of
  length-set_of-le [] = omega arith
  length-set_of-le (x ∷ xs) = ground (arith, length-set_of-le xs)

  pub has_duplicates-Distinct : (xs : List A) → (has_duplicates xs ≡ false) ↔ Distinct xs
  unfolding has_duplicates set_of mem
  has_duplicates-Distinct xs = (to xs, from xs)
    where
      to : (ys : List A) → has_duplicates ys ≡ false → Distinct ys
      to [] h = tt
      to (y ∷ ys) h = ground (arith, to ys, length-set_of-le ys)

      from : (ys : List A) → Distinct ys → has_duplicates ys ≡ false
      from [] h = ground arith
      from (y ∷ ys) (h, d) = ground (arith, from ys d)

  pub Distinct-append :
      (xs ys : List A)
      → Distinct xs
      → Distinct ys
      → ((a : A) → mem dec a xs ≡ true → mem dec a ys ≡ false)
      → Distinct (xs ++ ys)
  unfolding mem
  Distinct-append [] ys dx dy h = dy
  Distinct-append (x ∷ xs) ys (f, dx) dy h =
      let apart : (a : A) → mem dec a xs ≡ true → mem dec a ys ≡ false =
        λ a k. h a (ground arith) in
      (ground (arith, mem-append dec x xs ys, h x), Distinct-append xs ys dx dy apart)

  pub discard_absent : (a : A) (xs : List A) → mem dec a xs ≡ false → discard dec a xs ≡ xs
  unfolding mem discard
  discard_absent a [] h = refl
  discard_absent a (x ∷ xs) h = ground (arith, discard_absent a xs)

  pub length-discard-le : (a : A) (xs : List A) → length (discard dec a xs) ≤ length xs
  unfolding discard
  length-discard-le a [] = omega arith
  length-discard-le a (x ∷ xs) = ground (arith, length-discard-le a xs)

  pub length-discard :
      (a : A) (xs : List A) → mem dec a xs ≡ true → length (discard dec a xs) < length xs
  unfolding mem discard
  length-discard a [] h = cc
  length-discard a (x ∷ xs) h = ground (arith, length-discard a xs, length-discard-le a xs)

  pub Distinct-discard : (a : A) (xs : List A) → Distinct xs → Distinct (discard dec a xs)
  unfolding mem discard
  Distinct-discard a [] d = tt
  Distinct-discard a (x ∷ xs) (f, d) =
      ground (arith, Distinct-discard a xs d, mem-discard dec a x xs)
