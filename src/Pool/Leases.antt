-- ===== src/Pool/Leases.antt =====
-- server/pantograph_manager.py: what taking a lease out of a list leaves, and which one is closed.
use kimina_lean_server.Base.{
  ℕ, ◌+◌, ◌≤◌, ◌≡◌, refl, ◌⊎◌, inl, inr, ap, ◌∙◌, sym, String, Option, some, Bool, true, false,
  Option-cases, Bool-cases, total, arith, List, [], ◌∷◌, All, keep, same_text, length,
  if◌then◌else◌, ltb, ◌==◌,
}
use native.Mathlib.Nat.{le_trans}
use mathlib.Core.Path.{subst}
use kimina_lean_server.Pool.{
  Lease, take_first, without, is_in, is_worker, oldest, first_oldest, worker_to_close,
}

abbrev Took : (Lease → Bool) → Lease → List Lease → Lease → List Lease → Type 0
Took test l ls m rest =
    ((test l ≡ true) × (l ≡ m) × (ls ≡ rest))
    ⊎ ((test l ≡ false)
        × ((rest' : List Lease) × (take_first test ls ≡ some (m, rest')) × (rest ≡ l ∷ rest')))

some-pair :
    {l m : Lease} {ls rest : List Lease}
    → ◌≡◌ {A = Option (Lease × List Lease)} (some (l, ls)) (some (m, rest))
    → (l ≡ m) × (ls ≡ rest)
some-pair h = (ground arith, ground arith)

take_first_cons :
    (test : Lease → Bool) (l : Lease) (ls : List Lease) (m : Lease) (rest : List Lease)
    → take_first test (l ∷ ls) ≡ some (m, rest)
    → Took test l ls m rest
unfolding take_first
take_first_cons test l ls m rest h = elim (Bool-cases (test l)) [
  | inl e ↦ let h' = rw e at h in let (p, q) = some-pair h' in inl (e, p, q)
  | inr e ↦ elim (Option-cases (take_first test ls)) [
    | inl f ↦ let h' = rw (e, f) at h in cc
    | inr ((k, r), f) ↦
        let h' = rw (e, f) at h in
        let (p, q) = some-pair h' in inr (e, (r, f ∙ ap (λ x. some (x, r)) p, sym q))
  ]
]

-- The lease that was taken passes the test, and every weight of the list is that of the lease and
-- of the rest.
pub take_first-total :
    (test : Lease → Bool) (weight : Lease → ℕ) (ls : List Lease) (m : Lease) (rest : List Lease)
    → take_first test ls ≡ some (m, rest)
    → (test m ≡ true) × (total weight ls ≡ weight m + total weight rest)
unfolding total
take_first-total test weight [] m rest h = unfold take_first in cc
take_first-total test weight (l ∷ ls) m rest h = elim (take_first_cons test l ls m rest h) [
  | inl (e, p, q) ↦ rw (← p, ← q) (e, refl)
  | inr (e, (r, f, q)) ↦
      let (passed, sum) = take_first-total test weight ls m r f in
      (passed, rw q (omega (arith, sum)))
]

pub length-total : (ls : List Lease) → length ls ≡ total (λ _. 1) ls
unfolding total
length-total [] = refl
length-total (l ∷ ls) = omega (arith, length-total ls)

pub without-le :
    (n : ℕ) (weight : Lease → ℕ) (ls : List Lease) → total weight (without n ls) ≤ total weight ls
unfolding without
without-le n weight ls = elim (Option-cases (take_first (is_worker n) ls)) [
  | inl e ↦ rw e (omega arith)
  | inr ((m, rest), e) ↦ rw e (omega (arith, take_first-total (is_worker n) weight ls m rest e))
]

pub All-take_first :
    (P : Lease → Type 0) (test : Lease → Bool) (ls : List Lease) (m : Lease) (rest : List Lease)
    → take_first test ls ≡ some (m, rest)
    → All P ls
    → P m × All P rest
All-take_first P test [] m rest h a = unfold take_first in cc
All-take_first P test (l ∷ ls) m rest h a = elim (take_first_cons test l ls m rest h) [
  | inl (e, p, q) ↦ rw (← p, ← q) a
  | inr (e, (r, f, q)) ↦
      let (here, there) = All-take_first P test ls m r f a.1 in (here, rw q (a.0, there))
]

pub All-without : (P : Lease → Type 0) (n : ℕ) (ls : List Lease) → All P ls → All P (without n ls)
unfolding without
All-without P n ls a = elim (Option-cases (take_first (is_worker n) ls)) [
  | inl e ↦ rw e a
  | inr ((m, rest), e) ↦ rw e (All-take_first P (is_worker n) ls m rest e a).1
]

abbrev pub In : Lease → List Lease → Type 0
In m [] = ⊥
In m (l ∷ ls) = (m ≡ l) ⊎ In m ls

keep-In :
    (m : Lease) (test : Lease → Bool) (ls : List Lease)
    → In m (keep test ls)
    → In m ls × (test m ≡ true)
unfolding keep
keep-In m test [] i = absurd i
keep-In m test (l ∷ ls) i = elim (Bool-cases (test l)) [
  | inr e ↦ let (a, b) = keep-In m test ls (rw e at i) in (inr a, b)
  | inl e ↦
      let i' : (m ≡ l) ⊎ In m (keep test ls) = rw e at i in
      elim i' [ inl p ↦ (inl p, rw p e) | inr j ↦ let (a, b) = keep-In m test ls j in (inr a, b) ]
]

abbrev pub older : Lease → Lease → Lease
older best l = if ltb l.last_used_at best.last_used_at then l else best

older_cases : (best l : Lease) → (older best l ≡ l) ⊎ (older best l ≡ best)
older_cases best l = ground arith

oldest-In : (best : Lease) (ls : List Lease) → In (oldest best ls) (best ∷ ls)
unfolding oldest
oldest-In best [] = inl refl
oldest-In best (l ∷ ls) = elim (oldest-In (older best l) ls) [
  | inr i ↦ inr (inr i)
  | inl e ↦ elim (older_cases best l) [ inl p ↦ inr (inl (e ∙ p)) | inr p ↦ inl (e ∙ p) ]
]

older-le :
    (best l : Lease)
    → ((older best l).last_used_at ≤ best.last_used_at)
      × ((older best l).last_used_at ≤ l.last_used_at)
older-le best l = ground arith

-- The lease that `min` picks is not used after any other.
oldest-le :
    (best : Lease) (ls : List Lease)
    → All (λ l. (oldest best ls).last_used_at ≤ l.last_used_at) (best ∷ ls)
unfolding oldest
oldest-le best [] = (omega arith, tt)
oldest-le best (l ∷ ls) =
    let (a, b) = oldest-le (older best l) ls in
    let (c, d) = older-le best l in (le_trans a c, (le_trans a d, b))

first_oldest-In :
    (ls : List Lease) (w : Lease)
    → first_oldest ls ≡ some w
    → In w ls × All (λ l. w.last_used_at ≤ l.last_used_at) ls
unfolding first_oldest
first_oldest-In [] w h = cc
first_oldest-In (l ∷ ls) w h =
    let e : oldest l ls ≡ w = ground arith in
    subst (λ (x : Lease). In x (l ∷ ls) × All (λ m. x.last_used_at ≤ m.last_used_at) (l ∷ ls)) e
      (oldest-In l ls, oldest-le l ls)

abbrev pub candidates_for_close : String → Bool → List Lease → List Lease
candidates_for_close env can free =
    if can then free else keep (λ l. same_text l.env_profile env) free

-- The worker that gives way is free, of the profile when that is full, and the one of those that
-- was not used for the longest time.
pub worker_to_close_lem :
    (env : String) (can : Bool) (free : List Lease) (w : Lease)
    → worker_to_close env can free ≡ some w
    → In w free
      × (can ≡ false → same_text w.env_profile env ≡ true)
      × All (λ l. w.last_used_at ≤ l.last_used_at) (candidates_for_close env can free)
unfolding worker_to_close
worker_to_close_lem env true free w h = let (a, b) = first_oldest-In free w h in (a, λ e. cc, b)
worker_to_close_lem env false free w h =
    let (a, b) = first_oldest-In _ w h in
    let (c, d) = keep-In w (λ l. same_text l.env_profile env) free a in (c, λ e. d, b)

-- No two leases have one worker.
abbrev pub Distinct : List Lease → Type 0
Distinct [] = Unit
Distinct (l ∷ ls) = (is_in l.worker ls ≡ false) × Distinct ls

In-is_in : (w : Lease) (ls : List Lease) → In w ls → is_in w.worker ls ≡ true
unfolding is_in
In-is_in w [] i = absurd i
In-is_in w (l ∷ ls) (inl e) = rw e (ground arith)
In-is_in w (l ∷ ls) (inr i) = ground (arith, In-is_in w ls i)

take_first-In :
    (w : Lease) (ls : List Lease)
    → In w ls
    → Distinct ls
    → (rest : List Lease) × (take_first (is_worker w.worker) ls ≡ some (w, rest))
unfolding take_first is_worker
take_first-In w [] i d = absurd i
take_first-In w (l ∷ ls) (inl e) d = (ls, rw e (ground arith))
take_first-In w (l ∷ ls) (inr i) d = elim (Bool-cases (l.worker == w.worker)) [
  | inl e ↦ absurd (clash e)
  | inr e ↦ let (rest, f) = take_first-In w ls i d.1 in (l ∷ rest, rw (e, f))
]
  where
    clash : (l.worker == w.worker) ≡ true → ⊥
    clash e =
        let same : l.worker ≡ w.worker = ground arith in
        let h = rw same at d.0 in cc (In-is_in w ls i)

pub without-total :
    (w : Lease) (weight : Lease → ℕ) (ls : List Lease)
    → In w ls
    → Distinct ls
    → total weight ls ≡ weight w + total weight (without w.worker ls)
unfolding without
without-total w weight ls i d =
    let (rest, e) = take_first-In w ls i d in
    rw e (take_first-total (is_worker w.worker) weight ls w rest e).1
