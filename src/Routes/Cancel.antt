-- ===== src/Routes/Cancel.antt =====
-- server/routers/exec.py: the handler `cancel`.
use kimina_lean_server.Base.{
  ℕ, ◌≡◌, ◌≢◌, refl, ap, String, string_key, Option, none, some, List, [], ◌∷◌, map, All, arith,
}
use kimina_lean_server.Lifecycle.{
  Registry, Status, active, cancel, cancelled, LifecycleRecord, lookup, sweep, set_terminal,
}

pub record CancelResult : Type 0 where
  pub item_id : String
  pub status : Status
  pub in_flight : ℕ

-- cancel; the two readings of the clock are those of each call of the registry's `cancel`.
unfoldable pub cancel_items : ℕ → ℕ → List String → Registry → Registry × List CancelResult
unfolding cancel
cancel_items now later [] g = (g, [])
cancel_items now later (item ∷ items) g =
    let (g', snapshot) = cancel item now later g in
    let (g'', rs) = cancel_items now later items g' in
    (g'', record { item_id = item; status = snapshot.status; in_flight = snapshot.in_flight } ∷ rs)

cancelled-inactive :
    (retention later : ℕ) (o : Option LifecycleRecord)
    → (cancelled retention later o).status ≢ active
unfolding cancelled set_terminal
cancelled-inactive retention later none h = cc
cancelled-inactive retention later (some r) h = ground arith

cancel-inactive :
    (item : String) (now later : ℕ) (g : Registry) → (cancel item now later g).1.status ≢ active
unfolding cancel
cancel-inactive item now later g = cancelled-inactive g.retention later (lookup item (sweep now g))

-- Each item of the request gets one result, in its order, and none is reported as active, so that
-- the cast of the registry's status to a CancelStatus is right.
cancel_items-inactive :
    (now later : ℕ) (items : List String) (g : Registry)
    → let rs = (cancel_items now later items g).1 in
      (map (λ (r : CancelResult). r.item_id) rs ≡ items)
      × All (λ (r : CancelResult). r.status ≢ active) rs
unfolding cancel_items
cancel_items-inactive now later [] g = (refl, tt)
cancel_items-inactive now later (item ∷ items) g =
    let (names, all) = cancel_items-inactive now later items (cancel item now later g).0 in
    (ap (λ is. item ∷ is) names, (cancel-inactive item now later g, all))
