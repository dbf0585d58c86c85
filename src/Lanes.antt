-- ===== src/Lanes.antt =====
-- server/exec_backend_utils.py: the grouping of step items by the worker that they need, and the
-- sharing of a group among lanes. `OrderedDict` is the dictionary of Base/Dict.antt.
pub mod Grouping
pub mod Sharing
pub mod Members
mod Examples
use mathlib.Core.HLevel.{×_discrete}
use kimina_lean_server.Base.{
  String_discrete, ℕ, zero, suc, ◌+◌, ◌%◌, min, String, Bool, Option, none, some, List, [], ◌∷◌,
  ◌++◌, leb, if◌then◌else◌, length, set, get_elem?, replicate, Key, ◌==◌, map,
}
use kimina_lean_server.Base.Int.{ℤ, pos, negsuc}
use kimina_lean_server.Base.Dict
use kimina_lean_server.Base.Dict.{Dict}

-- CompatibilityKey
abbrev pub CompatibilityKey : Type 0
CompatibilityKey = String × String

instance abbrev pub compatibility_key_test : Key CompatibilityKey
compatibility_key_test = record { dec = ×_discrete String_discrete String_discrete }

-- compatibility_key
abbrev pub compatibility_key : String → String → CompatibilityKey
compatibility_key env_profile header_hash = (env_profile, header_hash)

-- CompatibilityGroup
pub record CompatibilityGroup {ℓ} (K A : Type ℓ) : Type ℓ where
  pub key : K
  pub items : List A

abbrev pub or_empty {ℓ} : {A : Type ℓ} → Option (List A) → List A
or_empty none = []
or_empty (some xs) = xs

module _ {ℓ} {K A : Type ℓ} ⦃k : Key K⦄ where
  -- `grouped.setdefault(key, []).append(item)`
  append_to : K → A → Dict K (List A) → Dict K (List A)
  append_to key item grouped = Dict.put key (or_empty (Dict.get key grouped) ++ item ∷ []) grouped

  collect : (A → K) → List A → Dict K (List A) → Dict K (List A)
  unfolding append_to
  collect key_of_item [] grouped = grouped
  collect key_of_item (item ∷ items) grouped =
      collect key_of_item items (append_to (key_of_item item) item grouped)

  unfoldable pub group_items_by_compatibility : List A → (A → K) → List (CompatibilityGroup K A)
  unfolding collect
  group_items_by_compatibility items key_of_item =
      map (λ e. record { key = e.0; items = e.1 }) (collect key_of_item items [])

-- lane_count_for_group
unfoldable pub lane_count_for_group : ℕ → ℤ → ℕ
lane_count_for_group count (pos max_lanes) =
    if leb count 0 then 0 else (if leb max_lanes 0 then count else min max_lanes count)
lane_count_for_group count (negsuc _) = if leb count 0 then 0 else count

module _ {ℓ} {A : Type ℓ} where
  -- `lanes[i].append(item)`
  append_at : ℕ → A → List (List A) → List (List A)
  append_at i item lanes = set lanes i (or_empty (get_elem? lanes i) ++ item ∷ [])

  -- The loop over `enumerate(items)`, from the index that stands first.
  deal : ℕ → ℕ → List A → List (List A) → List (List A)
  unfolding append_at
  deal n index [] lanes = lanes
  deal n index (item ∷ items) lanes = deal n (index + 1) items (append_at (index % n) item lanes)

  unfoldable pub distribute_items_across_lanes : List A → ℤ → List (List A)
  unfolding deal lane_count_for_group
  distribute_items_across_lanes items max_lanes =
      let n = lane_count_for_group (length items) max_lanes in
      if n == 0 then [] else deal n 0 items (replicate n [])
