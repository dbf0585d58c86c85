-- ===== src/Routes/Create/Work.antt =====
-- server/routers/exec.py: `create_one` begins and finishes the work on its item, and gives its worker
-- back.
use kimina_lean_server.Base.{ℕ, ◌≡◌, sym, ap, ◌∙◌, String, string_key, true, some}
use kimina_lean_server.Base.Dict
use kimina_lean_server.Lifecycle.{Registry, begin, finish, finished, lookup, or_fresh, sweep}
use kimina_lean_server.Lifecycle.Counting.{begin-finish_restores}
use kimina_lean_server.StateStore.{Store}
use kimina_lean_server.Routes.Checks.{CreateStatesItem}
use kimina_lean_server.Routes.Create.{Visit, create_one}

finish-lookup :
    (item : String) (later : ℕ) (a b : Registry)
    → a.retention ≡ b.retention
    → lookup item a ≡ lookup item b
    → lookup item (finish item later a).0 ≡ lookup item (finish item later b).0
unfolding finish
finish-lookup item later a b r l =
    Dict.get-put_self item (finished a.retention later (or_fresh (lookup item a))) a.records
    ∙ ap some (
        ap (λ n. finished n later (or_fresh (lookup item a))) r
        ∙ ap (λ x. finished b.retention later (or_fresh x)) l)
    ∙ sym (Dict.get-put_self item (finished b.retention later (or_fresh (lookup item b))) b.records)

-- If nothing else happens to the item while `create_one` works on it, its record in the end is what
-- the sweep at the start left of it, however the work ended.
create_one-lookup :
    (item : CreateStatesItem) (v : Visit) (s : Store) (g : Registry)
    → (begin item.item_id v.begin_at g).1.started ≡ true
    → let begun = (begin item.item_id v.begin_at g).0 in
      (v.registry begun).retention ≡ begun.retention
      → lookup item.item_id (v.registry begun) ≡ lookup item.item_id begun
      → lookup item.item_id (create_one item v s g).1
        ≡ some (or_fresh (lookup item.item_id (sweep v.begin_at g)))
unfolding create_one
create_one-lookup item v s g start kept same = rw start (
    finish-lookup item.item_id v.finish_at (v.registry (begin item.item_id v.begin_at g).0)
      (begin item.item_id v.begin_at g).0 kept same
    ∙ begin-finish_restores item.item_id v.begin_at v.finish_at g start)
