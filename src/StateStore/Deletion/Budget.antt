-- ===== src/StateStore/Deletion/Budget.antt =====
-- server/state_store.py: with nothing pinned, the collection brings the store within its budget.
use kimina_lean_server.Base.{
  ℕ, ◌+◌, ◌-◌, ◌≤◌, ◌≡◌, ◌≢◌, refl, sym, ap, ◌∙◌, inl, inr, String, String_discrete, string_key,
  none, some, Bool-cases, List, [], ◌∷◌, leb, arith, total, All,
}
use mathlib.Core.Logic.{if_pos, if_neg}
use kimina_lean_server.Base.Int.{pos}
use kimina_lean_server.Base.Dict
use kimina_lean_server.Base.Dict.{Dict}
use kimina_lean_server.StateStore.{Store, StateRecord, stats}
use kimina_lean_server.StateStore.Consistency.{IsConsistent}
use kimina_lean_server.StateStore.Deletion.{
  erase, delete_one, delete_tokens, gc_over_budget, choose, sorted, place, accessed_before,
}
use kimina_lean_server.StateStore.Deletion.Safety.{delete_one-IsConsistent}

abbrev size : StateRecord → ℕ
size r = r.size_bytes

abbrev pub bytes : Store → ℕ
bytes s = total (λ r. r.size_bytes) (Dict.values s.records)

total-place :
    (weight : StateRecord → ℕ) (r : StateRecord) (xs : List StateRecord)
    → total weight (place r xs) ≡ weight r + total weight xs
unfolding place total
total-place weight r [] = refl
total-place weight r (x ∷ xs) = ground (arith, total-place weight r xs)

total-sorted :
    (weight : StateRecord → ℕ) (rs : List StateRecord) → total weight (sorted rs) ≡ total weight rs
unfolding sorted total
total-sorted weight [] = refl
total-sorted weight (r ∷ rs) =
    omega (arith, total-place weight r (sorted rs), total-sorted weight rs)

All-place :
    (P : StateRecord → Type 0) (r : StateRecord) (xs : List StateRecord)
    → P r
    → All P xs
    → All P (place r xs)
unfolding place
All-place P r [] p h = (p, tt)
All-place P r (x ∷ xs) p h = ground (arith, All-place P r xs p h.1)

All-sorted : (P : StateRecord → Type 0) (rs : List StateRecord) → All P rs → All P (sorted rs)
unfolding sorted
All-sorted P [] h = tt
All-sorted P (r ∷ rs) h = All-place P r (sorted rs) h.0 (All-sorted P rs h.1)

abbrev Other : StateRecord → StateRecord → Type 0
Other r x = (r.state_token ≢ x.state_token) × (x.state_token ≢ r.state_token)

abbrev Distinct : List StateRecord → Type 0
Distinct [] = Unit
Distinct (r ∷ rs) = All (Other r) rs × Distinct rs

place-Distinct :
    (r : StateRecord) (xs : List StateRecord)
    → All (Other r) xs
    → Distinct xs
    → Distinct (place r xs)
unfolding place
place-Distinct r [] h d = (tt, tt)
place-Distinct r (x ∷ xs) h d = elim (Bool-cases (accessed_before r x)) [
  | inl e ↦ rw e (h, d)
  | inr e ↦ rw e (All-place (Other x) r xs (h.0.1, h.0.0) d.0, place-Distinct r xs h.1 d.1)
]

sorted-Distinct : (rs : List StateRecord) → Distinct rs → Distinct (sorted rs)
unfolding sorted
sorted-Distinct [] d = tt
sorted-Distinct (r ∷ rs) d =
    place-Distinct r (sorted rs) (All-sorted (Other r) rs d.0) (sorted-Distinct rs d.1)

abbrev Found : Store → StateRecord → Type 0
Found s r = Dict.get r.state_token s.records ≡ some r

abbrev Unpinned : Store → Type 0
Unpinned s = s.pinned ≡ []

-- One round of the deletion takes the bytes of the record away, and no other record.
delete_one-bytes :
    (r : StateRecord) (s : Store)
    → IsConsistent s
    → Unpinned s
    → Found s r
    → (bytes (delete_one r.state_token s).0 + r.size_bytes ≡ bytes s)
      × Unpinned (delete_one r.state_token s).0
      × ((x : StateRecord) → Other r x → Found s x → Found (delete_one r.state_token s).0 x)
unfolding delete_one erase Dict.get
delete_one-bytes r s c free found =
    rw (free, found)
      (
        Dict.total-pop (λ (x : StateRecord). x.size_bytes) r.state_token r s.records c.unique found,
        free,
        λ x o f. ground (arith, Dict.get-pop r.state_token x.state_token s.records),
      )

All-both :
    (P Q R : StateRecord → Type 0)
    → ((x : StateRecord) → P x → Q x → R x)
    → (rs : List StateRecord) → All P rs
    → All Q rs
    → All R rs
All-both P Q R f [] p q = tt
All-both P Q R f (r ∷ rs) p q = (f r p.0 q.0, All-both P Q R f rs p.1 q.1)

choose-bytes :
    (limit : ℕ) (rs : List StateRecord) (s : Store)
    → IsConsistent s
    → Unpinned s
    → All (Found s) rs
    → Distinct rs
    → bytes s ≡ total (λ r. r.size_bytes) rs
    → bytes (delete_tokens (choose limit (bytes s) rs) s).0 ≤ limit
unfolding choose delete_tokens total
choose-bytes limit [] s c free found d sum = omega arith
choose-bytes limit (r ∷ rs) s c free found d sum =
    let (less, free', still) = delete_one-bytes r s c free found.0 in
    elim (Bool-cases (leb (bytes s - r.size_bytes) limit)) [
      | inl e ↦ rw e (ground arith)
      | inr e ↦
          let s' = (delete_one r.state_token s).0 in
          let left : bytes s - r.size_bytes ≡ bytes s' = omega (arith, less) in
          rw e (
            rw left (
              choose-bytes limit rs s' (delete_one-IsConsistent r.state_token s c) free'
                (All-both (Other r) (Found s) (Found s') still rs d.0 found.1) d.1
                (omega (arith, less))))
    ]

abbrev Names : Store → Dict String StateRecord → Type 0
Names s d =
    (t : String) (r : StateRecord)
    → Dict.get t d ≡ some r
    → (r.state_token ≡ t) × (Dict.get t s.records ≡ some r)

Names-tail :
    (s : Store) (k : String) (r : StateRecord) (d : Dict String StateRecord)
    → Dict.get k d ≡ none
    → Names s ((k, r) ∷ d)
    → Names s d
unfolding Dict.get
Names-tail s k r d fresh h = λ t q e. h t q (elim (String_discrete k t) [
  | yes p ↦ let e' = rw (← p) at e in cc
  | no n ↦ rw (if_neg (String_discrete k t) n) e
])

Names-head :
    (s : Store) (k : String) (r : StateRecord) (d : Dict String StateRecord)
    → Names s ((k, r) ∷ d)
    → (r.state_token ≡ k) × (Dict.get k s.records ≡ some r)
unfolding Dict.get
Names-head s k r d h = h k r (rw (if_pos (String_discrete k k) refl))

entries-Other :
    (s : Store) (r : StateRecord) (d : Dict String StateRecord)
    → Dict.get r.state_token d ≡ none
    → Dict.Unique d
    → Names s d
    → All (Other r) (Dict.values d)
unfolding Dict.get
entries-Other s r [] fresh u h = tt
entries-Other s r ((k, q) ∷ d) fresh u h =
    let (name, there) = Names-head s k q d h in
    let apart : k ≢ r.state_token = λ p. ground arith in
    (
      (λ p. apart (sym name ∙ sym p), λ p. apart (sym name ∙ p)),
      entries-Other s r d (ground arith) u.1 (Names-tail s k q d u.0 h),
    )

entries-Found :
    (s : Store) (d : Dict String StateRecord)
    → Dict.Unique d
    → Names s d
    → All (Found s) (Dict.values d) × Distinct (Dict.values d)
entries-Found s [] u h = (tt, tt)
entries-Found s ((k, r) ∷ d) u h =
    let (name, there) = Names-head s k r d h in
    let rest = Names-tail s k r d u.0 h in
    let (found, distinct) = entries-Found s d u.1 rest in
    (
      (ap (λ t. Dict.get t s.records) name ∙ there, found),
      (entries-Other s r d (ap (λ t. Dict.get t d) name ∙ u.0) u.1 rest, distinct),
    )

-- With nothing pinned, a consistent store that has a limit is within it after the collection by
-- budget.
pub gc_over_budget-bytes :
    (limit : ℕ) (s : Store)
    → IsConsistent s
    → s.pinned ≡ []
    → s.max_bytes ≡ pos limit
    → bytes (gc_over_budget s).0 ≤ limit
unfolding gc_over_budget stats
gc_over_budget-bytes limit s c free cap =
    rw (cap, gc_over_budget)
      (elim (Bool-cases (leb (bytes s) limit)) [
        | inl e ↦ rw e (ground arith)
        | inr e ↦ rw e (
            let (found, distinct) =
              entries-Found s s.records c.unique (λ t r g. (c.named t r g, g)) in
            choose-bytes limit (sorted (Dict.values s.records)) s c free
              (All-sorted (Found s) (Dict.values s.records) found)
              (sorted-Distinct (Dict.values s.records) distinct)
              (sym (total-sorted (λ r. r.size_bytes) (Dict.values s.records))))
      ])
