-- ===== src/Lanes/Examples.antt =====
-- Runs of the scheduling of server/exec_backend_utils.py.
use kimina_lean_server.Base.{ℕ, ◌≡◌, refl, [], ◌∷◌, List, String, String_discrete, string_key}
use kimina_lean_server.Base.Int.{pos}
use kimina_lean_server.Lanes.{distribute_items_across_lanes}
use kimina_lean_server.Lanes.Grouping.{having}

abbrev items : List (String × ℕ)
items = ("x", 1) ∷ ("y", 2) ∷ ("x", 3) ∷ []

abbrev profile : String × ℕ → String
profile item = item.0

having_x : having profile "x" items ≡ ("x", 1) ∷ ("x", 3) ∷ []
unfolding having String_discrete
having_x = refl

abbrev numbers : List ℕ
numbers = 10 ∷ 11 ∷ 12 ∷ 13 ∷ 14 ∷ []

two_lanes :
    distribute_items_across_lanes numbers (pos 2) ≡ (10 ∷ 12 ∷ 14 ∷ []) ∷ (11 ∷ 13 ∷ []) ∷ []
unfolding distribute_items_across_lanes
two_lanes = refl
