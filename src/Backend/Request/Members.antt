-- ===== src/Backend/Request/Members.antt =====
-- server/exec_backends.py: every item of a lane is one of the items that were resolved.
use kimina_lean_server.Base.{List, [], ◌∷◌, All, All-append}
use kimina_lean_server.Base.Int.{ℤ}
use kimina_lean_server.Lanes.{
  compatibility_key_test, CompatibilityKey, CompatibilityGroup, group_items_by_compatibility,
  distribute_items_across_lanes,
}
use kimina_lean_server.Lanes.Members.{All-group_items, All-distribute_items}
use kimina_lean_server.Backend.Lane.{ResolvedStepItem}
use kimina_lean_server.Backend.Request.{lanes_of_groups, lanes_of, key_of_item}

All-lanes_of_groups :
    (P : ResolvedStepItem → Type 0) (max_lanes : ℤ)
    (gs : List (CompatibilityGroup CompatibilityKey ResolvedStepItem))
    → All (λ (g : CompatibilityGroup CompatibilityKey ResolvedStepItem). All P g.items) gs
    → All (All P) (lanes_of_groups max_lanes gs)
All-lanes_of_groups P max_lanes [] h = tt
All-lanes_of_groups P max_lanes (g ∷ gs) h =
    All-append (All P) (distribute_items_across_lanes g.items max_lanes)
      (lanes_of_groups max_lanes gs) (All-distribute_items P g.items max_lanes h.0)
      (All-lanes_of_groups P max_lanes gs h.1)

pub All-lanes_of :
    (P : ResolvedStepItem → Type 0) (max_lanes : ℤ) (xs : List ResolvedStepItem)
    → All P xs
    → All (All P) (lanes_of max_lanes xs)
unfolding lanes_of
All-lanes_of P max_lanes xs h =
    All-lanes_of_groups P max_lanes (group_items_by_compatibility xs key_of_item)
      (All-group_items P xs key_of_item h)
