-- ===== src/Legacy/Checks/Returns.antt =====
-- server/routers/check.py: no REPL stays leased.
use kimina_lean_server.Base.{
  ℕ, String, true, false, ◌≡◌, refl, ap, ◌∙◌, inl, inr, ite, Option, none, some, Bool-cases, List,
  mem, mem-discard, nat_key, ℕ_discrete, arith,
}
use kimina_lean_server.Split.{split_snippet}
use kimina_lean_server.Legacy.Manager.{
  Manager, lookup, is_blank, exhausted, destroy_repl, release_repl, change,
}
use kimina_lean_server.Legacy.Checks.{
  Sent, answered, timed_out, cancelled, raised, Visit, Prepared, ready, header_timed_out,
  was_cancelled, failed, prep_header, prep, run_body, after_prep, run_one, destroy_if_error,
  without_diagnostics, used, started,
}

-- The REPL is leased no more, and the other leases are as they were.
abbrev pub Returned : ℕ → List ℕ → List ℕ → Type 0
Returned id before after =
    (j : ℕ) → mem ℕ_discrete j after ≡ ite (ℕ_discrete id j) false (mem ℕ_discrete j before)

destroy_repl-Returned : (id : ℕ) (m : Manager) → Returned id m.busy (destroy_repl id m).busy
unfolding destroy_repl
destroy_repl-Returned id m j = mem-discard ℕ_discrete id j m.busy

release_repl-Returned : (id now : ℕ) (m : Manager) → Returned id m.busy (release_repl id now m).busy
unfolding release_repl
release_repl-Returned id now m j = elim (Bool-cases (mem ℕ_discrete id m.busy)) [
  | inr b ↦ rw (b, release_repl) (ground arith)
  | inl b ↦ elim (Bool-cases (exhausted (lookup id m.repls))) [
    | inl e ↦ rw (b, e, release_repl) (mem-discard ℕ_discrete id j m.busy)
    | inr e ↦ rw (b, e, release_repl) (mem-discard ℕ_discrete id j m.busy)
  ]
]

-- What `prep` leaves: the leases as they were, but for a REPL whose header has failed.
abbrev Prepares : ℕ → Manager → Manager × Prepared → Type 0
Prepares id m (m', ready none) = m'.busy ≡ m.busy
Prepares id m (m', ready (some r)) = elim r.error [
  | none ↦ (m'.busy ≡ m.busy)
  | some text ↦ Returned id m.busy m'.busy
]
Prepares id m (m', header_timed_out) = m'.busy ≡ m.busy
Prepares id m (m', was_cancelled) = m'.busy ≡ m.busy
Prepares id m (m', failed text) = m'.busy ≡ m.busy

then-Returned :
    (id : ℕ) (before middle after : List ℕ)
    → middle ≡ before
    → Returned id middle after
    → Returned id before after
then-Returned id before middle after e h j =
    h j ∙ ap (λ l. ite (ℕ_discrete id j) false (mem ℕ_discrete j l)) e

destroy_if_error-Prepares :
    (id : ℕ) (error : Option String) (m m' : Manager)
    → m'.busy ≡ m.busy
    → elim error as (λ o. Type 0) [
      | none ↦ ((destroy_if_error error id m').busy ≡ m.busy)
      | some text ↦ Returned id m.busy (destroy_if_error error id m').busy
    ]
unfolding destroy_if_error
destroy_if_error-Prepares id none m m' e = e
destroy_if_error-Prepares id (some text) m m' e =
    then-Returned id m.busy m'.busy _ e (destroy_repl-Returned id m')

prep_header-Prepares :
    (id : ℕ) (v : Visit) (s : Sent) (m m' : Manager)
    → m'.busy ≡ m.busy
    → Prepares id m (prep_header id v s m')
unfolding prep_header destroy_if_error
prep_header-Prepares id v timed_out m m' e = e
prep_header-Prepares id v cancelled m m' e = e
prep_header-Prepares id v (raised text) m m' e = e
prep_header-Prepares id v (answered r) m m' e =
    let response = without_diagnostics v.debug r in
    destroy_if_error-Prepares id response.error m (change used id m') e

prep-Prepares :
    (id : ℕ) (v : Visit) (m : Manager)
    → (is_blank (lookup id m.repls).header ≡ true → (lookup id m.repls).header_cmd_response ≡ none)
    → Prepares id m (prep id v m)
unfolding prep
prep-Prepares id v m h = elim (Bool-cases (lookup id m.repls).is_running) [
  | inl a ↦ rw (a, prep) refl
  | inr a ↦ elim (Bool-cases v.start_fails) [
    | inl b ↦ rw (a, b, prep) refl
    | inr b ↦ elim (Bool-cases (is_blank (lookup id m.repls).header)) [
      | inl c ↦ rw (a, b, c, h c, prep) refl
      | inr c ↦
          rw (a, b, c, prep)
            (prep_header-Prepares id (record v { start_fails = false }) v.header_sent m
              (change started id m) refl)
    ]
  ]
]

run_body-Returned :
    (snippet_id code : String) (id : ℕ) (v : Visit) (m : Manager)
    → Returned id m.busy (run_body snippet_id code id v m).0.busy
unfolding run_body
run_body-Returned snippet_id code id v m = go (v.body_sent (split_snippet code).body) refl
  where
    go :
        (s : Sent)
        → v.body_sent (split_snippet code).body ≡ s
        → Returned id m.busy (run_body snippet_id code id v m).0.busy
    go (answered r) e = rw (e, run_body) (release_repl-Returned id v.now (change used id m))
    go timed_out e = rw (e, run_body) (destroy_repl-Returned id m)
    go cancelled e = rw (e, run_body) (destroy_repl-Returned id m)
    go (raised text) e = rw (e, run_body) (destroy_repl-Returned id m)

after_prep-Returned :
    (snippet_id code : String) (id : ℕ) (v : Visit) (m m' : Manager) (p : Prepared)
    → Prepares id m (m', p)
    → Returned id m.busy (after_prep snippet_id code id v p m').0.busy
unfolding after_prep
after_prep-Returned snippet_id code id v m m' (ready none) e =
    then-Returned id m.busy m'.busy _ e (run_body-Returned snippet_id code id v m')
after_prep-Returned snippet_id code id v m m' (ready (some r)) h = go r.error refl
  where
    go :
        (o : Option String)
        → r.error ≡ o
        → Returned id m.busy (after_prep snippet_id code id v (ready (some r)) m').0.busy
    go none e =
        let b : m'.busy ≡ m.busy = rw e at h in
        rw (e, after_prep)
          (then-Returned id m.busy m'.busy (run_body snippet_id code id v m').0.busy b
            (run_body-Returned snippet_id code id v m'))
    go (some text) e = rw (e, after_prep) (rw e at h)
after_prep-Returned snippet_id code id v m m' header_timed_out e =
    then-Returned id m.busy m'.busy _ e (destroy_repl-Returned id m')
after_prep-Returned snippet_id code id v m m' was_cancelled e =
    then-Returned id m.busy m'.busy _ e (destroy_repl-Returned id m')
after_prep-Returned snippet_id code id v m m' (failed text) e =
    then-Returned id m.busy m'.busy _ e (destroy_repl-Returned id m')

-- Whatever the REPL does, and also if the task is cancelled while it waits for an answer: when
-- `run_one` is over, the REPL that it has leased is leased no more, and no other lease has changed.
-- The answer to a header is that of a header that is not blank, as `prep` sees to.
pub run_one-Returned :
    (snippet_id code : String) (id : ℕ) (v : Visit) (m : Manager)
    → (is_blank (lookup id m.repls).header ≡ true → (lookup id m.repls).header_cmd_response ≡ none)
    → Returned id m.busy (run_one snippet_id code id v m).0.busy
unfolding run_one
run_one-Returned snippet_id code id v m h =
    let p = prep id v m in
    after_prep-Returned snippet_id code id v m p.0 p.1 (prep-Prepares id v m h)
