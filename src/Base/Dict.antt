-- ===== src/Base/Dict.antt =====
-- Python's `dict`: an association list in insertion order, each key once.
use Prim.Native.Nat.{ℕ, ◌+◌}
use mathlib.Core.Path.{◌≡◌, refl}
use mathlib.Core.Logic.{◌≢◌, ite}
use mathlib.Core.Bool.{Bool, true, false}
use mathlib.Core.Option.{Option, none, some}
use mathlib.Core.List.{List, [], ◌∷◌, map}
use native.Mathlib.Omega.{arith}
use kimina_lean_server.Base.Tests.{Key, if◌then◌else◌}
use kimina_lean_server.Base.Lists.{total, All}

abbrev pub Dict {ℓ} : Type ℓ → Type ℓ → Type ℓ
Dict K V = List (K × V)

module _ {ℓ} {K V : Type ℓ} ⦃key : Key K⦄ where
  -- d.get(k)
  unfoldable pub get : K → Dict K V → Option V
  get k [] = none
  get k ((j, v) ∷ d) = ite (key.dec j k) (some v) (get k d)

  -- k in d
  abbrev pub has : K → Dict K V → Bool
  has k d = elim (get k d) [ none ↦ false | some _ ↦ true ]

  -- d[k] = v: in place for a key that is there, at the end for a new one.
  unfoldable pub put : K → V → Dict K V → Dict K V
  put k v [] = (k, v) ∷ []
  put k v ((j, w) ∷ d) = ite (key.dec j k) ((j, v) ∷ d) ((j, w) ∷ put k v d)

  -- d.pop(k, None)
  unfoldable pub pop : K → Dict K V → Dict K V
  pop k [] = []
  pop k ((j, w) ∷ d) = let rest = pop k d in ite (key.dec j k) rest ((j, w) ∷ rest)

  -- Pops every key whose value fails the test.
  unfoldable pub retain : (V → Bool) → Dict K V → Dict K V
  retain test [] = []
  retain test ((j, w) ∷ d) = let rest = retain test d in if test w then (j, w) ∷ rest else rest

  -- No key stands twice.
  abbrev pub Unique : Dict K V → Type ℓ
  Unique [] = Unit
  Unique ((k, v) ∷ d) = (get k d ≡ none) × Unique d

module _ {ℓ} {K V : Type ℓ} where
  abbrev pub values : Dict K V → List V
  values = map (λ e. e.1)

  abbrev pub keys : Dict K V → List K
  keys = map (λ e. e.0)

-- What a test leaves of a looked-up value.
abbrev pub kept {ℓ} : {A : Type ℓ} → (A → Bool) → Option A → Option A
kept test none = none
kept test (some v) = if test v then some v else none

module _ {ℓ} {K V : Type ℓ} ⦃key : Key K⦄ where
  pub get-put :
      (k j : K) (v : V) (d : Dict K V) → get j (put k v d) ≡ ite (key.dec k j) (some v) (get j d)
  unfolding get put
  get-put k j v [] = refl
  get-put k j v ((i, w) ∷ d) = ground (arith, get-put k j v d)

  pub get-put_self : (k : K) (v : V) (d : Dict K V) → get k (put k v d) ≡ some v
  get-put_self k v d = rw (get-put k k v d) (ground arith)

  pub get-put_ne : (k j : K) (v : V) (d : Dict K V) → k ≢ j → get j (put k v d) ≡ get j d
  get-put_ne k j v d h = rw (get-put k j v d) (ground arith)

  pub get-pop : (k j : K) (d : Dict K V) → get j (pop k d) ≡ ite (key.dec k j) none (get j d)
  unfolding get pop
  get-pop k j [] = ground arith
  get-pop k j ((i, w) ∷ d) = ground (arith, get-pop k j d)

  pub get-retain-none :
      (k : K) (test : V → Bool) (d : Dict K V) → get k d ≡ none → get k (retain test d) ≡ none
  unfolding get retain
  get-retain-none k test [] h = refl
  get-retain-none k test ((i, w) ∷ d) h = ground (arith, get-retain-none k test d)

  pub get-retain :
      (k : K) (test : V → Bool) (d : Dict K V)
      → Unique d
      → get k (retain test d) ≡ kept test (get k d)
  unfolding get retain
  get-retain k test [] u = refl
  get-retain k test ((i, w) ∷ d) u =
      ground
        (arith, get-retain k test d u.1, get-retain-none k test d, get-retain-none i test d u.0)

  pub put-Unique : (k : K) (v : V) (d : Dict K V) → Unique d → Unique (put k v d)
  unfolding get put
  put-Unique k v [] u = (refl, tt)
  put-Unique k v ((i, w) ∷ d) u = ground (arith, put-Unique k v d u.1, get-put k i v d)

  pub pop-Unique : (k : K) (d : Dict K V) → Unique d → Unique (pop k d)
  unfolding pop
  pop-Unique k [] u = tt
  pop-Unique k ((i, w) ∷ d) u = ground (arith, pop-Unique k d u.1, get-pop k i d)

  pub retain-Unique : (test : V → Bool) (d : Dict K V) → Unique d → Unique (retain test d)
  unfolding retain
  retain-Unique test [] u = tt
  retain-Unique test ((i, w) ∷ d) u =
      ground (arith, retain-Unique test d u.1, get-retain-none i test d u.0)

  pub total-put_new :
      (weight : V → ℕ) (k : K) (v : V) (d : Dict K V)
      → get k d ≡ none
      → total weight (values (put k v d)) ≡ total weight (values d) + weight v
  unfolding get put total
  total-put_new weight k v [] h = omega arith
  total-put_new weight k v ((i, w) ∷ d) h = ground (arith, total-put_new weight k v d)

  pub total-put_old :
      (weight : V → ℕ) (k : K) (v w : V) (d : Dict K V)
      → get k d ≡ some w
      → total weight (values (put k v d)) + weight w ≡ total weight (values d) + weight v
  unfolding get put total
  total-put_old weight k v w [] h = cc
  total-put_old weight k v w ((i, x) ∷ d) h = ground (arith, total-put_old weight k v w d)

  pub pop_absent : (k : K) (d : Dict K V) → get k d ≡ none → pop k d ≡ d
  unfolding get pop
  pop_absent k [] h = refl
  pop_absent k ((i, x) ∷ d) h = ground (arith, pop_absent k d)

  pub total-pop :
      (weight : V → ℕ) (k : K) (w : V) (d : Dict K V)
      → Unique d
      → get k d ≡ some w
      → total weight (values (pop k d)) + weight w ≡ total weight (values d)
  unfolding get pop total
  total-pop weight k w [] u h = cc
  total-pop weight k w ((i, x) ∷ d) u h = ground (arith, total-pop weight k w d u.1, pop_absent k d)

  pub All-put {κ} :
      (P : V → Type κ) (k : K) (v : V) (d : Dict K V)
      → P v
      → All P (values d)
      → All P (values (put k v d))
  unfolding put
  All-put P k v [] p h = (p, tt)
  All-put P k v ((i, w) ∷ d) p h = ground (arith, All-put P k v d p h.1)

  pub All-retain {κ} :
      (P : V → Type κ) (test : V → Bool) (d : Dict K V)
      → All P (values d)
      → All P (values (retain test d))
  unfolding retain
  All-retain P test [] h = tt
  All-retain P test ((i, w) ∷ d) h = ground (arith, All-retain P test d h.1)

  pub All-pop {κ} :
      (P : V → Type κ) (k : K) (d : Dict K V) → All P (values d) → All P (values (pop k d))
  unfolding pop
  All-pop P k [] h = tt
  All-pop P k ((i, w) ∷ d) h = ground (arith, All-pop P k d h.1)

  pub All-get {κ} :
      (P : V → Type κ) (k : K) (v : V) (d : Dict K V) → All P (values d) → get k d ≡ some v → P v
  unfolding get
  All-get P k v [] h e = cc
  All-get P k v ((i, w) ∷ d) h e = elim (key.dec i k) [
    | yes p ↦ ground arith
    | no n ↦ All-get P k v d h.1 (ground arith)
  ]
