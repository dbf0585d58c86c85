-- ===== src/Client/Infotree/Trailing.antt =====
-- infotree.py: `transfer_trailing_whitespaces_and_comments`, with the two functions that cut a tactic.
use kimina_lean_server.Base.{
  ℕ, zero, suc, String, Bool, ◌||◌, Option, none, some, List, [], ◌∷◌, ◌==◌, take, if◌then◌else◌,
}
use kimina_lean_server.Base.Text.{is_empty, append, lstrip, strip, starts_with, contains}
use kimina_lean_server.Base.Text.Pieces.{len, drop_text, rstrip_of, lines_with_ends}
use kimina_lean_server.Client.Infotree.{TacticStep}

-- The characters of " \t\n\r".
abbrev pub is_blank_code : ℕ → Bool
is_blank_code c = c == 32 || c == 9 || c == 10 || c == 13

-- separate_trailing_whitespace
unfoldable pub separate_trailing_whitespace : String → String × String
unfolding rstrip_of drop_text
separate_trailing_whitespace s =
    let code = rstrip_of is_blank_code s in (code, drop_text (len code) s)

-- The lines of a text from its last one on, before those that are there already.
unfoldable pub from_last : List String → List String → List String
from_last above [] = above
from_last above (line ∷ lines) = from_last (line ∷ above) lines

-- "".join of lines that are listed from the last one on
abbrev pub upward : List String → String
upward [] = String.[]
upward (line ∷ above) = append (upward above) line

-- How many lines the block comment has that ends with the first of them, from `lines[end_idx]` up.
block_lines : List String → Option ℕ
unfolding starts_with lstrip
block_lines [] = none
block_lines (line ∷ above) =
    let rest = block_lines above in
    if starts_with (lstrip line) "/-"
    then some 1
    else elim rest [ none ↦ none | some n ↦ some (suc n) ]

-- How many lines are part of a comment or blank, from `lines[i]` up, which is the first here; none if
-- the line is one of code.
unfoldable pub comment_lines : List String → Option ℕ
unfolding block_lines strip contains lstrip starts_with
comment_lines [] = none
comment_lines (line ∷ above) =
    if is_empty (strip line)
    then some 1
    else if contains line "-/"
    then block_lines (line ∷ above)
    else if starts_with (lstrip line) "--"
    then some 1
    else none

-- The loop over the lines from the last one on, of which the first `jumped` are in a comment that was
-- found: the lines that are left, and `trailing_comments`.
unfoldable pub trailing_comments : ℕ → List String → List String × List String
unfolding comment_lines
trailing_comments jumped [] = ([], [])
trailing_comments (suc jumped) (line ∷ above) = trailing_comments jumped above
trailing_comments zero (line ∷ above) = elim (comment_lines (line ∷ above)) [
  | none ↦ (line ∷ above, [])
  | some zero ↦ (line ∷ above, [])
  | some (suc n) ↦
      let rest = trailing_comments n above in
      (rest.0, upward (take (suc n) (line ∷ above)) ∷ rest.1)
]

-- separate_trailing_comment
unfoldable pub separate_trailing_comment : String → String × String
unfolding trailing_comments lines_with_ends from_last
separate_trailing_comment s =
    let (left, comments) = trailing_comments 0 (from_last [] (lines_with_ends s)) in
    (upward left, upward comments)

-- What one tactic keeps, and what the next one gets.
unfoldable pub cut_trailing : String → String × String
unfolding separate_trailing_whitespace separate_trailing_comment
cut_trailing tactic =
    let (code_1, trailing_ws_1) = separate_trailing_whitespace tactic in
    let (code_2, trailing_comment) = separate_trailing_comment code_1 in
    let (code_3, trailing_ws_2) = separate_trailing_whitespace code_2 in
    (code_3, append trailing_ws_2 (append trailing_comment trailing_ws_1))

-- The loop over the tactics, with what the tactic before has left to the first one
unfoldable pub transfer : String → List TacticStep → List TacticStep
unfolding cut_trailing
transfer carried [] = []
transfer carried (step ∷ []) = record step { tactic = append carried step.tactic } ∷ []
transfer carried (step ∷ next ∷ steps) =
    let (kept, given) = cut_trailing (append carried step.tactic) in
    record step { tactic = kept } ∷ transfer given (next ∷ steps)

-- transfer_trailing_whitespaces_and_comments
abbrev pub transfer_trailing : List TacticStep → List TacticStep
unfolding transfer
transfer_trailing = transfer String.[]
