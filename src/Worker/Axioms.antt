-- ===== src/Worker/Axioms.antt =====
-- server/pantograph_worker.py: `_extract_axioms` and `_message_mentions_sorry`, which read what Lean
-- has printed. The regular expression is written out as the search that it stands for.
use Prim.Native.Char.{code}
use kimina_lean_server.Base.{
  String, Bool, not, Option, none, some, List, [], ◌∷◌, map, keep, ◌==◌, if◌then◌else◌,
}
use kimina_lean_server.Base.Text.{is_empty, strip, starts_with, contains}
use kimina_lean_server.Base.Text.Words.{remove_prefix, split_at, contains_lower}
use kimina_lean_server.Schemas.{ExecMessage}

-- `(.*)\]`: what stands on the line before its last bracket.
before_bracket : String → Option String
before_bracket String.[] = none
before_bracket (String.◌∷◌ c s) =
    let rest = before_bracket s in
    if code c == 10 then none else elim rest [
      | some t ↦ some (String.◌∷◌ c t)
      | none ↦ if code c == 93 then some String.[] else none
    ]

abbrev marker : String
marker = "depends on axioms: ["

-- `re.search(r"depends on axioms: \[(.*)\]", text)`: the group of the leftmost match.
unfoldable pub search_axioms : String → Option String
unfolding before_bracket starts_with remove_prefix
search_axioms String.[] = none
search_axioms (String.◌∷◌ c s) =
    let rest = search_axioms s in
    let here = before_bracket (remove_prefix marker (String.◌∷◌ c s)) in
    if starts_with (String.◌∷◌ c s) marker
    then elim here [ some group ↦ some group | none ↦ rest ]
    else rest

-- The names in the group of a match; `[]` for a blank one.
axiom_names : String → List String
axiom_names group = keep (λ name. not (is_empty name)) (map strip (split_at 44 group))

-- _extract_axioms
unfoldable pub extract_axioms : List ExecMessage → List String
unfolding search_axioms axiom_names
extract_axioms [] = []
extract_axioms (m ∷ messages) =
    let rest = extract_axioms messages in
    elim (search_axioms m.text) [
      | some group ↦ axiom_names group
      | none ↦ if contains m.text "does not depend on any axioms" then [] else rest
    ]

-- _message_mentions_sorry
unfoldable pub mentions_sorry : ExecMessage → Bool
mentions_sorry m = contains_lower m.text "sorry"
