-- ===== src/Client/Infotree.antt =====
-- packages/lean-client/lean_client/infotree.py, from the intervals of a proof on: `adjust_intervals`
-- (Intervals), the cutting of tactics out of the source (Snippets), the tests on a tactic (Comments),
-- the text that a tactic leaves to the next one (Trailing), and `merge_intervals` (Merge). A list of
-- dictionaries that is changed in place is the list that it is afterwards.
pub mod Comments
pub mod Trailing
pub mod Merge
pub mod Texts
pub mod Goals
pub mod Intervals
pub mod Snippets
mod Examples
use kimina_lean_server.Base.{String, List, [], ◌∷◌, map}
use kimina_lean_server.Base.Text.{append}
use kimina_lean_server.Base.Text.Pieces.{joined}

-- A tactic, as `retrieve_tactics` gives it.
pub record TacticStep : Type 0 where
  pub goals_before : List String
  pub goals_after : List String
  pub tactic : String

-- "".join of the tactics
abbrev pub text_of : List TacticStep → String
text_of steps = joined (map (λ (t : TacticStep). t.tactic) steps)
