-- ===== src/Legacy/Manager.antt =====
-- server/manager.py: `Manager`, the pool of REPL processes, with what server/repl.py keeps of a REPL.
-- A REPL is a number, under which its object is found. Without the database `Repl.create` does not
-- suspend, so that a round of `get_repl` is one step.
pub mod Invariant
pub mod Steps
use kimina_lean_server.Base.{
  ℕ, suc, ◌+◌, String, String_discrete, ◌≡◌, Bool, true, false, ◌&&◌, ◌||◌, not, Option, none, some,
  List, [], ◌∷◌, ◌++◌, length, mem, discard, ltb, leb, same_text, nat_key, ℕ_discrete,
  if◌then◌else◌,
}
use kimina_lean_server.Base.Int.{ℤ, pos, negsuc}
use kimina_lean_server.Base.Dict
use kimina_lean_server.Base.Dict.{Dict}
use kimina_lean_server.Base.Text.{is_empty, strip}
use kimina_lean_server.Legacy.Responses.{ReplResponse}

-- Repl: what the manager reads of it.
pub record Repl : Type 0 where
  pub header : String
  pub use_count : ℕ
  pub max_repl_uses : ℤ
  pub last_check_at : ℕ
  pub is_running : Bool
  pub header_cmd_response : Option ReplResponse

-- utils.is_blank
unfoldable pub is_blank : String → Bool
is_blank s = is_empty (strip s)

-- Repl.exhausted
unfoldable pub exhausted : Repl → Bool
unfolding is_blank
exhausted r = over r.max_repl_uses
  where
    over : ℤ → Bool
    over (negsuc n) = false
    over (pos n) =
        if not (is_empty r.header) && not (is_blank r.header)
        then leb (n + 1) r.use_count
        else leb n r.use_count

pub record Manager : Type 0 where
  pub max_repls : ℕ
  pub max_repl_uses : ℤ
  pub repls : Dict ℕ Repl
  pub free : List ℕ
  pub busy : List ℕ
  pub closing : List ℕ  -- those that `close_verbose` was called for

abbrev pub repl_of : Option Repl → Repl
repl_of (some r) = r
repl_of none = record {
  header = "";
  use_count = 0;
  max_repl_uses = pos 0;
  last_check_at = 0;
  is_running = false;
  header_cmd_response = none;
}

-- The object of a REPL.
abbrev pub lookup : ℕ → Dict ℕ Repl → Repl
lookup id repls = repl_of (Dict.get id repls)

-- The first free REPL with the header.
unfoldable pub find_free : String → Dict ℕ Repl → List ℕ → Option ℕ
find_free header repls [] = none
find_free header repls (id ∷ ids) =
    let rest = find_free header repls ids in
    if same_text (lookup id repls).header header then some id else rest

-- `min(self._free, key=lambda r: r.last_check_at)`, on what is the least so far
oldest_of : Dict ℕ Repl → ℕ → List ℕ → ℕ
oldest_of repls best [] = best
oldest_of repls best (id ∷ ids) =
    oldest_of repls
      (if ltb (lookup id repls).last_check_at (lookup best repls).last_check_at then id else best)
      ids

-- Repl.create
abbrev create : String → ℤ → ℕ → Repl
create header max_repl_uses now = record {
  header = header;
  use_count = 0;
  max_repl_uses = max_repl_uses;
  last_check_at = now;
  is_running = false;
  header_cmd_response = none;
}

-- start_new, of a REPL with a number that no object has had
unfoldable pub start_new : String → ℕ → ℕ → Manager → Manager
start_new header id now m = record m {
  repls = Dict.put id (create header m.max_repl_uses now) m.repls;
  busy = id ∷ m.busy;
}

abbrev oldest : Dict ℕ Repl → List ℕ → Option ℕ
unfolding oldest_of
oldest repls [] = none
oldest repls (id ∷ ids) = some (oldest_of repls id ids)

abbrev pub lease : ℕ → Manager → Manager
lease id m = record m { free = discard ℕ_discrete id m.free; busy = id ∷ m.busy }

-- The oldest free REPL makes place for a new one.
abbrev pub retire : ℕ → Manager → Manager
retire id m = record m { free = discard ℕ_discrete id m.free; closing = id ∷ m.closing }

-- A round of `get_repl`: the REPL that is leased, or none if the task has to wait.
unfoldable pub get_repl : String → Bool → ℕ → ℕ → Manager → Manager × Option ℕ
unfolding find_free oldest start_new
get_repl header reuse id now m = elim (if reuse then find_free header m.repls m.free else none) [
  | some found ↦ (lease found m, some found)
  | none ↦
      if ltb (length m.free + length m.busy) m.max_repls
      then (start_new header id now m, some id)
      else elim (oldest m.repls m.free) [
        | none ↦ (m, none)
        | some old ↦ (start_new header id now (retire old m), some id)
      ]
]

-- destroy_repl
unfoldable pub destroy_repl : ℕ → Manager → Manager
destroy_repl id m = record m {
  busy = discard ℕ_discrete id m.busy;
  free = discard ℕ_discrete id m.free;
  closing = id ∷ m.closing;
}

-- release_repl
unfoldable pub release_repl : ℕ → ℕ → Manager → Manager
unfolding exhausted
release_repl id now m =
    if not (mem ℕ_discrete id m.busy)
    then m
    else if exhausted (lookup id m.repls)
    then record m { busy = discard ℕ_discrete id m.busy; closing = id ∷ m.closing }
    else record m {
      busy = discard ℕ_discrete id m.busy;
      free = m.free ++ id ∷ [];
      repls = Dict.put id (record (lookup id m.repls) { last_check_at = now }) m.repls;
    }

-- cleanup
unfoldable pub cleanup : Manager → Manager
cleanup m = record m { free = []; busy = []; closing = m.free ++ (m.busy ++ m.closing) }

-- What a task does to a REPL that it holds: it starts it, and each answer counts as a use.
abbrev pub change : (Repl → Repl) → ℕ → Manager → Manager
change f id m = record m { repls = Dict.put id (f (lookup id m.repls)) m.repls }

-- What the tasks do to the pool; only a task that holds a REPL changes it.
pub data Step (m : Manager) : Manager → Type 0 where
  gets :
      (header : String) (reuse : Bool) (id now : ℕ)
      → Dict.has id m.repls ≡ false
      → Step m (get_repl header reuse id now m).0
  changes : (f : Repl → Repl) (id : ℕ) → mem ℕ_discrete id m.busy ≡ true → Step m (change f id m)
  releases : (id now : ℕ) → Step m (release_repl id now m)
  destroys : (id : ℕ) → Step m (destroy_repl id m)
  cleans_up : Step m (cleanup m)

pub data Reach (m : Manager) : Manager → Type 0 where
  here : Reach m m
  next : {n o : Manager} → Reach m n → Step n o → Reach m o

-- Manager.__init__
abbrev pub init : ℕ → ℤ → Manager
init max_repls max_repl_uses = record {
  max_repls = max_repls;
  max_repl_uses = max_repl_uses;
  repls = [];
  free = [];
  busy = [];
  closing = [];
}
