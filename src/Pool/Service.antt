-- ===== src/Pool/Service.antt =====
-- server/pantograph_manager.py: what a caller of `get_worker` gets in one round of the loop.
use mathlib.Core.Path.{subst}
use kimina_lean_server.Base.{
  same_text_refl, ◌∙◌, sym, keep, same_text→eq, ap, ◌≢◌, ℕ, ◌+◌, ◌≤◌, ◌<◌, ◌≡◌, refl, ◌⊎◌, inl, inr,
  String, none, some, Bool, true, false, Option-cases, Bool-cases, arith, List, [], ◌∷◌, length,
  ltb, leb, ◌&&◌, All, same_text,
}
use kimina_lean_server.Pool.{
  negsuc, active, ℤ, pos, Pool, Lease, Outcome, leased, starts, timed_out, waits, attempt,
  start_or_wait, take_first, serves, can_start, worker_to_close, first_oldest,
}
use kimina_lean_server.Pool.Leases.{take_first-total, worker_to_close_lem, In}

-- The profile may have another worker, or has as many as it may have.
abbrev pub HasRoom : String → Pool → Type 0
HasRoom env p = (n : ℕ) → p.max_workers_per_env_profile ≡ pos n → active env p < n

abbrev pub IsFull : String → Pool → Type 0
IsFull env p = (n : ℕ) × (p.max_workers_per_env_profile ≡ pos n) × (n ≤ active env p)

-- No free worker has the profile and the header that are asked for.
abbrev pub NoneServes : String → String → Pool → Type 0
NoneServes env hash p = All (λ l. ¬ ((l.env_profile ≡ env) × (l.header_hash ≡ hash))) p.free

-- No worker can be started, and none can be closed for a new one.
abbrev pub IsStuck : String → Pool → Type 0
IsStuck env p =
    (HasRoom env p × (p.free ≡ []) × (p.max_workers ≤ length p.busy + p.starting))
    ⊎ (IsFull env p × All (λ l. l.env_profile ≢ env) p.free)

-- What each outcome says of the pool `p` that the round began with.
abbrev pub Explains : String → String → ℕ → ℕ → Pool → Outcome → Type 0
Explains env hash deadline now p (leased l) =
    In l p.free × (l.env_profile ≡ env) × (l.header_hash ≡ hash)
Explains env hash deadline now p (starts none) =
    NoneServes env hash p
    × HasRoom env p
    × (length p.free + length p.busy + p.starting < p.max_workers)
Explains env hash deadline now p (starts (some w)) =
    NoneServes env hash p
    × In w p.free
    × ((HasRoom env p
          × (p.max_workers ≤ length p.free + length p.busy + p.starting)
          × All (λ l. w.last_used_at ≤ l.last_used_at) p.free)
        ⊎ (IsFull env p
            × (w.env_profile ≡ env)
            × All (λ l. l.env_profile ≡ env → w.last_used_at ≤ l.last_used_at) p.free))
Explains env hash deadline now p timed_out =
    NoneServes env hash p × (deadline ≤ now) × IsStuck env p
Explains env hash deadline now p waits = NoneServes env hash p × (now < deadline) × IsStuck env p

same_text-eq_true : {s t : String} → s ≡ t → same_text s t ≡ true
same_text-eq_true {s} e = ap (λ u. same_text s u) (sym e) ∙ same_text_refl s

can_start-HasRoom : (env : String) (p : Pool) → can_start env p ≡ true → HasRoom env p
unfolding can_start
can_start-HasRoom env p h n e = ground arith

can_start-IsFull : (env : String) (p : Pool) → can_start env p ≡ false → IsFull env p
unfolding can_start
can_start-IsFull env p h = go p.max_workers_per_env_profile refl
  where
    go : (c : ℤ) → p.max_workers_per_env_profile ≡ c → IsFull env p
    go (pos n) e = (n, e, ground arith)
    go (negsuc n) e = ground arith

take_first-In_first :
    (test : Lease → Bool) (ls : List Lease) (m : Lease) (rest : List Lease)
    → take_first test ls ≡ some (m, rest)
    → In m ls
unfolding take_first
take_first-In_first test [] m rest h = cc
take_first-In_first test (l ∷ ls) m rest h = elim (Bool-cases (test l)) [
  | inl e ↦ inl (ground arith)
  | inr e ↦ elim (Option-cases (take_first test ls)) [
    | inl f ↦ ground arith
    | inr ((k, r), f) ↦
        let i = take_first-In_first test ls k r f in inr (subst (λ x. In x ls) (ground arith) i)
  ]
]

serves-eq :
    (env hash : String) (l : Lease)
    → serves env hash l ≡ true
    → (l.env_profile ≡ env) × (l.header_hash ≡ hash)
serves-eq env hash l h =
    (same_text→eq l.env_profile env (ground arith), same_text→eq l.header_hash hash (ground arith))

serves-not :
    (env hash : String) (l : Lease)
    → serves env hash l ≡ false
    → ¬ ((l.env_profile ≡ env) × (l.header_hash ≡ hash))
serves-not env hash l h (e, f) =
    let e' = same_text-eq_true e in let f' = same_text-eq_true f in ground arith

-- No lease passes the test if `take_first` takes none.
take_first-NoneServes :
    (env hash : String) (ls : List Lease)
    → take_first (serves env hash) ls ≡ none
    → All (λ l. ¬ ((l.env_profile ≡ env) × (l.header_hash ≡ hash))) ls
unfolding take_first
take_first-NoneServes env hash [] h = tt
take_first-NoneServes env hash (l ∷ ls) h =
    (serves-not env hash l (ground arith), take_first-NoneServes env hash ls (ground arith))

nothing_to_close :
    (env : String) (free : List Lease) → worker_to_close env true free ≡ none → free ≡ []
unfolding worker_to_close first_oldest
nothing_to_close env [] h = refl
nothing_to_close env (l ∷ ls) h = cc

none_of_profile :
    (env : String) (free : List Lease)
    → worker_to_close env false free ≡ none
    → All (λ l. l.env_profile ≢ env) free
unfolding worker_to_close first_oldest keep
none_of_profile env [] h = tt
none_of_profile env (l ∷ ls) h = elim (Bool-cases (same_text l.env_profile env)) [
  | inl e ↦ ground arith
  | inr e ↦
      (λ q. let q' = same_text-eq_true q in ground arith, none_of_profile env ls (ground arith))
]

of_profile :
    (env : String) (w : Lease) (free : List Lease)
    → All (λ l. w.last_used_at ≤ l.last_used_at) (keep (λ l. same_text l.env_profile env) free)
    → All (λ l. l.env_profile ≡ env → w.last_used_at ≤ l.last_used_at) free
unfolding keep
of_profile env w [] h = tt
of_profile env w (l ∷ ls) h = elim (Bool-cases (same_text l.env_profile env)) [
  | inl e ↦ let h' = rw (e, keep) at h in (λ q. h'.0, of_profile env w ls h'.1)
  | inr e ↦
      let h' = rw (e, keep) at h in
      (λ q. let q' = same_text-eq_true q in ground arith, of_profile env w ls h')
]

start_or_wait-Explains :
    (env hash : String) (started_at deadline now later : ℕ) (p : Pool)
    → NoneServes env hash p
    → Explains env hash deadline now p (start_or_wait env started_at deadline now later p).1
unfolding start_or_wait
start_or_wait-Explains env hash started_at deadline now later p none_serves =
    let full = length p.free + length p.busy + p.starting in
    elim (Bool-cases (can_start env p)) [
      | inl can ↦
          let room = can_start-HasRoom env p can in
          elim (Bool-cases (ltb full p.max_workers)) [
            | inl e ↦ rw (e, can, start_or_wait) (none_serves, room, ground arith)
            | inr e ↦
                rw (e, can, start_or_wait)
                  (elim (Option-cases (worker_to_close env true p.free)) [
                    | inr (w, f) ↦
                        let (i, _, least) = worker_to_close_lem env true p.free w f in
                        rw f (none_serves, i, inl (room, ground arith, least))
                    | inl f ↦
                        let idle = nothing_to_close env p.free f in
                        let stuck : IsStuck env p = inl (room, idle, ground arith) in
                        rw f (elim (Bool-cases (leb deadline now)) [
                          | inl g ↦ rw g (none_serves, ground arith, stuck)
                          | inr g ↦ rw g (none_serves, ground arith, stuck)
                        ])
                  ])
          ]
      | inr can ↦
          let no_room = can_start-IsFull env p can in
          let closed : (ltb full p.max_workers && can_start env p) ≡ false = ground (arith, can) in
          rw (closed, can, start_or_wait)
            (elim (Option-cases (worker_to_close env false p.free)) [
              | inr (w, f) ↦
                  let (i, same, least) = worker_to_close_lem env false p.free w f in
                  rw f (
                    none_serves,
                    i,
                    inr (
                      no_room,
                      same_text→eq w.env_profile env (same refl),
                      of_profile env w p.free least,
                    ),
                  )
              | inl f ↦
                  let stuck : IsStuck env p = inr (no_room, none_of_profile env p.free f) in
                  rw f (elim (Bool-cases (leb deadline now)) [
                    | inl g ↦ rw g (none_serves, ground arith, stuck)
                    | inr g ↦ rw g (none_serves, ground arith, stuck)
                  ])
            ])
    ]

-- One round of the loop. A lease that is handed out was free and has the profile and the header that
-- were asked for; any other outcome means that no free worker has both. A worker is started in
-- addition to the others only if its profile has room and the pool is not full; in place of a free
-- one only if the profile or the pool is full, and that is the one that was idle for the longest
-- time, of the same profile if the profile is full. A caller waits, or is turned away at the end of
-- the round because its deadline has passed, only if no worker can be started and none can be closed:
-- the profile has room, but the busy and the starting workers use up the pool and none is free; or
-- the profile is full and none of its workers is free. (One who waits is also turned away when the
-- wait itself times out, which is no part of the round.)
pub attempt-Explains :
    (env hash : String) (started_at deadline now later : ℕ) (p : Pool)
    → Explains env hash deadline now p (attempt env hash started_at deadline now later p).1
unfolding attempt
attempt-Explains env hash started_at deadline now later p =
    elim (Option-cases (take_first (serves env hash) p.free)) [
      | inl e ↦
          rw (e, attempt)
            (start_or_wait-Explains env hash started_at deadline now later p
              (take_first-NoneServes env hash p.free e))
      | inr ((l, rest), e) ↦
          let served = (take_first-total (serves env hash) (λ _. 1) p.free l rest e).0 in
          let (profile, header) = serves-eq env hash l served in
          rw (e, attempt) (take_first-In_first (serves env hash) p.free l rest e, profile, header)
    ]
