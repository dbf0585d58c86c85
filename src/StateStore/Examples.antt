-- ===== src/StateStore/Examples.antt =====
-- Runs of the store of server/state_store.py.
use kimina_lean_server.Base.{
  ◌≡◌, ◌≤◌, ◌-◌, refl, String, String_discrete, some, [], ◌∷◌, arith, string_key,
}
use kimina_lean_server.Base.Int.{pos}
use kimina_lean_server.Base.Dict
use kimina_lean_server.Base.Dict.{Dict}
use kimina_lean_server.StateStore.{
  unreadable, readable, Store, StateRecord, Bin, Sidecar, Origin, put, resolve_and_pin, restart,
  load, opened, new_token, promote,
}
use kimina_lean_server.StateStore.Consistency.{IsConsistent, put-IsConsistent}
use kimina_lean_server.StateStore.Restart.{AllNamed, restart-IsConsistent, restart_recovers}
use kimina_lean_server.StateStore.Rehydration.{recovered}
use kimina_lean_server.StateStore.Deletion.{gc_over_budget, gc_expired}
use kimina_lean_server.StateStore.Deletion.Safety.{gc_expired-IsConsistent}
use kimina_lean_server.StateStore.Deletion.Collection.{Survives, gc_expired-Survives}
use kimina_lean_server.StateStore.Deletion.Budget.{bytes, gc_over_budget-bytes}
use kimina_lean_server.StateStore.Consistency.{content_of}

abbrev old_record : StateRecord
old_record = record {
  state_token = "st_old";
  item_id = "item";
  env_profile = "default";
  header = "import Mathlib";
  header_hash = "h";
  created_at = 10;
  last_accessed_at = 20;
  size_bytes = 60;
}

abbrev bins : Dict String Bin
bins =
    ("st_old", record { size = 60; mtime = 20 }) ∷ ("pg_1", record { size = 50; mtime = 30 }) ∷ []

abbrev sidecars : Dict String Sidecar
sidecars =
    ("st_old", record { content = readable old_record; mtime = 20 })
    ∷ ("st_gone", record { content = unreadable; mtime = 5 })
    ∷ []

abbrev first : Store
first = load sidecars (opened 3600 (pos 100) bins sidecars)

opened_first : restart 3600 (pos 100) bins sidecars ≡ some first
unfolding restart
opened_first = refl

sidecars-Unique : Dict.Unique sidecars
unfolding Dict.get String_discrete
sidecars-Unique = (refl, (refl, tt))

sidecars-AllNamed : AllNamed sidecars
unfolding Dict.get
sidecars-AllNamed n f e r g = ground arith

first-IsConsistent : IsConsistent first
first-IsConsistent =
    restart-IsConsistent 3600 (pos 100) bins sidecars first sidecars-Unique sidecars-AllNamed
      opened_first

restart_recovers_example :
    ((t : String) (r : StateRecord)
      → Dict.get t first.records ≡ some r
      → Dict.get t first.records ≡ some r)
    × ((t : String)
        → Dict.get t first.records
          ≡ recovered (Dict.get t first.bins) (content_of (Dict.get t first.sidecars)))
unfolding load restart Dict.get String_discrete
restart_recovers_example =
    restart_recovers 3600 (pos 100) first first sidecars-Unique sidecars-AllNamed first-IsConsistent
      refl

abbrev origin : Origin
origin = record {
  item_id = "item";
  env_profile = "default";
  header = "import Mathlib";
  header_hash = "h";
}

-- The first candidate is taken.
abbrev grown : Store
grown = (put "pg_1" origin ("st_old" ∷ "st_new" ∷ []) 40 first).0

put-IsConsistent_example : IsConsistent grown
unfolding load Dict.get String_discrete Dict.put
put-IsConsistent_example =
    put-IsConsistent "pg_1" origin ("st_old" ∷ "st_new" ∷ []) 40 first refl first-IsConsistent

-- One of the two states is pinned, once.
abbrev held : Store
held = (resolve_and_pin "st_old" 60 grown).0

gc_expired-IsConsistent_example : IsConsistent (gc_expired 9000 grown).0
gc_expired-IsConsistent_example = gc_expired-IsConsistent 9000 grown put-IsConsistent_example

gc_expired-Survives_example : Survives (9000 - held.ttl) "st_old" held (gc_expired 9000 held).0
gc_expired-Survives_example = gc_expired-Survives 9000 "st_old" held

gc_over_budget-bytes_example : bytes (gc_over_budget grown).0 ≤ 100
unfolding load put promote new_token Dict.get String_discrete Dict.put
gc_over_budget-bytes_example = gc_over_budget-bytes 100 grown put-IsConsistent_example refl refl
