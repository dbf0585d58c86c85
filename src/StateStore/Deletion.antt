-- ===== src/StateStore/Deletion.antt =====
-- server/state_store.py: the methods of `StateStore` that delete states.
pub mod Safety
pub mod Items
pub mod Collection
pub mod Budget
use kimina_lean_server.Base.{
  ℕ, zero, suc, ◌+◌, ◌-◌, String, Bool, true, false, not, ◌&&◌, Option, none, some, List, [], ◌∷◌,
  leb, ltb, if◌then◌else◌, length, total, keep, map, discard, String_discrete, string_key,
}
use kimina_lean_server.Base.Int.{ℤ, pos, negsuc}
use kimina_lean_server.Base.Dict
use kimina_lean_server.Base.Dict.{Dict}
use kimina_lean_server.StateStore.{Store, StateRecord, Bin, Sidecar, tokens_of, stats}

-- DeleteStats
pub record DeleteStats : Type 0 where
  pub deleted_states : ℕ
  pub deleted_bytes : ℕ

-- DeleteDecision
pub record DeleteDecision : Type 0 where
  pub deleted : Bool
  pub stats : DeleteStats
  pub pinned_states : ℕ

abbrev pub nothing : DeleteStats
nothing = record { deleted_states = 0; deleted_bytes = 0 }

abbrev plus : DeleteStats → DeleteStats → DeleteStats
plus a b = record {
  deleted_states = a.deleted_states + b.deleted_states;
  deleted_bytes = a.deleted_bytes + b.deleted_bytes;
}

-- `item_tokens.discard(token)`, and the removal of a set that it leaves empty.
index_discard : String → String → Dict String (List String) → Dict String (List String)
index_discard item token index = elim (Dict.get item index) [
  | none ↦ index
  | some ts ↦ elim (discard String_discrete token ts) [
    | [] ↦ Dict.pop item index
    | t ∷ rest ↦ Dict.put item (t ∷ rest) index
  ]
]

-- What one round of the loop does to a state that is not pinned.
pub erase : String → StateRecord → Store → Store
unfolding index_discard
erase token r s = record s {
  records = Dict.pop token s.records;
  tokens_by_item_id = index_discard r.item_id token s.tokens_by_item_id;
  bins = Dict.pop r.state_token s.bins;
  sidecars = Dict.pop token s.sidecars;
}

pub delete_one : String → Store → Store × DeleteStats
unfolding erase
delete_one token s =
    if Dict.has token s.pinned then (s, nothing) else elim (Dict.get token s.records) [
      | none ↦ (s, nothing)
      | some r ↦ (erase token r s, record { deleted_states = 1; deleted_bytes = r.size_bytes })
    ]

-- _delete_tokens
pub delete_tokens : List String → Store → Store × DeleteStats
unfolding delete_one
delete_tokens [] s = (s, nothing)
delete_tokens (t ∷ ts) s =
    let (s', one) = delete_one t s in let (s'', rest) = delete_tokens ts s' in (s'', plus one rest)

-- delete_by_item_id
delete_by_item_id : String → Store → Store × DeleteStats
unfolding delete_tokens
delete_by_item_id item s = delete_tokens (tokens_of (Dict.get item s.tokens_by_item_id)) s

abbrev pub pinned_among : List String → Store → List String
pinned_among ts s = keep (λ t. Dict.has t s.pinned) ts

-- delete_by_item_id_all_or_none
unfoldable pub delete_by_item_id_all_or_none : String → Store → Store × DeleteDecision
unfolding delete_tokens
delete_by_item_id_all_or_none item s =
    let ts = tokens_of (Dict.get item s.tokens_by_item_id) in
    let pinned_count = length (pinned_among ts s) in
    if ltb 0 pinned_count
    then (s, record { deleted = false; stats = nothing; pinned_states = pinned_count })
    else (let (s', stats) = delete_tokens ts s in
        (s', record { deleted = true; stats = stats; pinned_states = 0 }))

-- `(last_accessed_at, created_at)`, compared as Python compares tuples: a is before or at b.
abbrev pub accessed_before : StateRecord → StateRecord → Bool
accessed_before a b =
    if ltb a.last_accessed_at b.last_accessed_at
    then true
    else (leb a.last_accessed_at b.last_accessed_at && leb a.created_at b.created_at)

-- `sorted`, which keeps the order of records with equal keys.
place : StateRecord → List StateRecord → List StateRecord
place r [] = r ∷ []
place r (x ∷ xs) = let rest = place r xs in if accessed_before r x then r ∷ x ∷ xs else x ∷ rest

pub sorted : List StateRecord → List StateRecord
unfolding place
sorted [] = []
sorted (r ∷ rs) = place r (sorted rs)

-- The loop that chooses what to delete, from the total that is left.
pub choose : ℕ → ℕ → List StateRecord → List String
choose limit left [] = []
choose limit left (r ∷ rs) =
    let rest = choose limit (left - r.size_bytes) rs in
    if leb (left - r.size_bytes) limit then r.state_token ∷ [] else r.state_token ∷ rest

-- _gc_over_budget
pub gc_over_budget : Store → Store × DeleteStats
unfolding stats sorted choose delete_tokens
gc_over_budget s = elim s.max_bytes [
  | negsuc _ ↦ (s, nothing)
  | pos limit ↦
      if leb (stats s).total_bytes limit
      then (s, nothing)
      else delete_tokens (choose limit (stats s).total_bytes (sorted (Dict.values s.records))) s
]

-- An untracked file older than the cutoff.
abbrev is_orphan : ℕ → Dict String StateRecord → String → ℕ → Bool
is_orphan cutoff records name mtime = not (Dict.has name records) && ltb mtime cutoff

-- _sweep_orphans: what is left of the files of one kind.
sweep_bins : ℕ → Dict String StateRecord → Dict String Bin → Dict String Bin
sweep_bins cutoff records [] = []
sweep_bins cutoff records ((name, f) ∷ files) =
    let rest = sweep_bins cutoff records files in
    if is_orphan cutoff records name f.mtime then rest else (name, f) ∷ rest

sweep_sidecars : ℕ → Dict String StateRecord → Dict String Sidecar → Dict String Sidecar
sweep_sidecars cutoff records [] = []
sweep_sidecars cutoff records ((name, f) ∷ files) =
    let rest = sweep_sidecars cutoff records files in
    if is_orphan cutoff records name f.mtime then rest else (name, f) ∷ rest

pub sweep_orphans : ℕ → Store → Store × DeleteStats
unfolding sweep_bins sweep_sidecars
sweep_orphans cutoff s =
    let swept = keep (λ (e : String × Bin). is_orphan cutoff s.records e.0 e.1.mtime) s.bins in
    (
      record s {
        bins = sweep_bins cutoff s.records s.bins;
        sidecars = sweep_sidecars cutoff s.records s.sidecars;
      },
      record {
        deleted_states = length swept;
        deleted_bytes = total (λ (e : String × Bin). e.1.size) swept;
      },
    )

-- The tokens not accessed since the cutoff.
pub expired : ℕ → Dict String StateRecord → List String
expired cutoff records =
    map (λ (e : String × StateRecord). e.0)
      (keep (λ (e : String × StateRecord). ltb e.1.last_accessed_at cutoff) records)

-- gc_expired; on numbers `now - ttl` is 0 where the source's cutoff lies before time 0
unfoldable pub gc_expired : ℕ → Store → Store × DeleteStats
unfolding delete_tokens gc_over_budget sweep_orphans expired
gc_expired now s =
    let cutoff = now - s.ttl in
    let (s1, tracked) = delete_tokens (expired cutoff s.records) s in
    let (s2, budget) = gc_over_budget s1 in
    let (s3, orphans) = sweep_orphans cutoff s2 in (s3, plus (plus tracked budget) orphans)
