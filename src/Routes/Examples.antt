-- ===== src/Routes/Examples.antt =====
-- Runs of the handlers of server/routers/exec.py.
use kimina_lean_server.Base.{
  false, ◌↔◌, ◌≢◌, inl, ◌≡◌, refl, string_key, none, some, [], ◌∷◌, true, All,
}
use kimina_lean_server.Base.Int.{pos}
use kimina_lean_server.Base.Dict
use kimina_lean_server.Lifecycle.{Registry, begin}
use kimina_lean_server.Lifecycle.Invariant.{IsValid}
use kimina_lean_server.StateStore.{Store, opened, restart, put}
use kimina_lean_server.StateStore.Consistency.{IsConsistent, put-IsConsistent}
use kimina_lean_server.StateStore.Restart.{restart-IsConsistent}
use kimina_lean_server.Schemas.{open_goals}
use kimina_lean_server.Backend.Lane.{Health, worker}
use kimina_lean_server.Routes.Checks.{
  Limits, CreateStatesItem, VerifyItem, validate_create_request, item_count,
}
use kimina_lean_server.Routes.Cleanup.{
  deleted, MayDelete, Explains, Justifies, cleanup_item, cleanup_item-Explains,
}
use kimina_lean_server.Routes.Create as Create
use kimina_lean_server.Routes.Create.{create_one, origin_of_item}
use kimina_lean_server.Routes.Create.Answers.{Made}
use kimina_lean_server.Routes.Create.Stored.{IsStored, create_one-IsStored}
use kimina_lean_server.Routes.Verify as Verify
use kimina_lean_server.Routes.Verify.{verify_one}
use kimina_lean_server.Routes.Verify.Judged.{IsJudged, verify_one-IsJudged}

abbrev registry : Registry
registry = record { retention = 660; records = [] }

registry-IsValid : IsValid registry
registry-IsValid = record { unique = tt; sound = tt }

-- No state, and a file that the worker wrote.
abbrev store : Store
store = opened 3600 (pos 1000) (("pg_1", record { size = 50; mtime = 30 }) ∷ []) []

store-IsConsistent : IsConsistent store
unfolding restart Dict.get
store-IsConsistent =
    restart-IsConsistent 3600 (pos 1000) (("pg_1", record { size = 50; mtime = 30 }) ∷ []) [] store
      tt (λ n f e r g. cc) refl

abbrev healthy : Health
healthy = record { alive = true; agc_returned = true; alive_after = true }

abbrev create_item : CreateStatesItem
create_item = record {
  item_id = "item";
  code = "theorem t : True := by sorry";
  acquire_timeout_ms = 5000;
  step_timeout_ms = 5000;
  debug = false;
}

abbrev create_visit : Create.Visit
create_visit = record {
  env_profile = "default";
  header_hash = λ header. "h";
  begin_at = 1;
  acquired = worker 7;
  acquire_ms = 2;
  after_acquire = registry;
  created = λ body. Create.answered (record {
    status = open_goals;
    states = record { path = "pg_1"; goals = [] } ∷ [];
    messages = [];
    debug = none;
  });
  lean_ms = 30;
  after_step = registry;
  others = λ s. s;
  supply = λ k. record { candidates = "st_new" ∷ []; now = 5; later = 5 };
  store_error = λ e. "store error";
  registry = λ g. g;
  finish_at = 9;
  health = healthy;
}

create_one-IsStored_example :
    let done = create_one create_item create_visit store registry in
    All (IsStored create_item create_visit done.0) done.2.states
    × (done.2.states ≢ []
        → ((begin "item" 1 registry).1.started ≡ true)
          × Made create_item create_visit done.2.states)
create_one-IsStored_example = create_one-IsStored create_item create_visit store registry

-- The store with a state of the item.
abbrev grown : Store
grown = (put "pg_1" (origin_of_item create_item create_visit) ("st_new" ∷ []) 5 store).0

grown-IsConsistent : IsConsistent grown
unfolding Dict.get
grown-IsConsistent =
    put-IsConsistent "pg_1" (origin_of_item create_item create_visit) ("st_new" ∷ []) 5 store refl
      store-IsConsistent

cleanup_item-Explains_example :
    let done = cleanup_item "item" 10 11 registry grown in
    ((done.2.status ≡ deleted) ↔ MayDelete "item" 10 registry grown)
    × Explains "item" 10 registry grown done.0 done.1 done.2.status
    × Justifies "item" 10 registry grown done.2 done.2.reason
cleanup_item-Explains_example = cleanup_item-Explains "item" 10 11 registry grown grown-IsConsistent

abbrev verify_item : VerifyItem
verify_item = record {
  item_id = "item";
  code = "theorem t : True := trivial";
  theorem_name = "t";
  allowed_axioms = none;
  acquire_timeout_ms = 5000;
  step_timeout_ms = 5000;
  debug = false;
}

abbrev verify_visit : Verify.Visit
verify_visit = record {
  default_axioms = "propext" ∷ [];
  begin_at = 1;
  acquired = worker 7;
  acquire_ms = 2;
  after_acquire = registry;
  verified = λ body axioms.
      Verify.answered
        (record { status = Verify.accepted; axioms = axioms; messages = []; debug = none });
  lean_ms = 30;
  registry = λ g. g;
  finish_at = 9;
  health = healthy;
}

verify_one-IsJudged_example :
    ((verify_one verify_item verify_visit registry).1.status ≡ Verify.accepted)
    ↔ IsJudged verify_item verify_visit registry Verify.accepted
verify_one-IsJudged_example =
    verify_one-IsJudged verify_item verify_visit registry Verify.accepted (inl refl)

abbrev limits : Limits
limits = record {
  max_create_items_per_request = 1;
  max_acquire_timeout_ms = 5000;
  max_step_timeout_ms = 5000;
}

-- Two items are more than the request may have.
too_many : validate_create_request limits (create_item ∷ create_item ∷ []) ≡ some item_count
unfolding validate_create_request
too_many = refl
