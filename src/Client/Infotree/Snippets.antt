-- ===== src/Client/Infotree/Snippets.antt =====
-- infotree.py: `_extract_snippet` and `retrieve_tactics`.
pub mod Lines
pub mod Joined
pub mod Retrieved
use Prim.Native.String.{String}
use kimina_lean_server.Base.{
  ℕ, zero, suc, ◌+◌, Bool, true, false, ◌≡◌, refl, Option, none, some, List, [], ◌∷◌, ◌==◌, ◌-◌,
  get_elem?, if◌then◌else◌,
}
use kimina_lean_server.Base.Text.{append}
use kimina_lean_server.Base.Text.Pieces.{take_text, drop_text}
use kimina_lean_server.Client.Infotree.{TacticStep}
use kimina_lean_server.Client.Infotree.Intervals.{Place, Interval, adjust_intervals}
use kimina_lean_server.Client.Infotree.Trailing.{transfer, transfer_trailing}
use kimina_lean_server.Client.Infotree.Merge.{merge_intervals}

abbrev pub after {ℓ ℓ'} : {A : Type ℓ} → {B : Type ℓ'} → Option A → (A → Option B) → Option B
after none f = none
after (some a) f = f a

abbrev pub last_line : List String → Option String
last_line [] = none
last_line (line ∷ []) = some line
last_line (line ∷ next ∷ lines) = last_line (next ∷ lines)

-- `source_lines[line - 1]`, which for the line 0 is the last one; none is the exception.
unfoldable pub source_line : List String → ℕ → Option String
source_line lines zero = last_line lines
source_line lines (suc n) = get_elem? lines n

-- The lines from `line` on, joined.
unfoldable pub lines_between : List String → ℕ → ℕ → Option String
unfolding source_line
lines_between lines line zero = some String.[]
lines_between lines line (suc n) =
    after (source_line lines line)
      (λ text. after (lines_between lines (line + 1) n) (λ rest. some (append text rest)))

-- The two cases of `_extract_snippet`
unfoldable pub on_one_line : List String → Place → Place → Option String
unfolding source_line take_text drop_text
on_one_line lines p q =
    after (source_line lines p.line)
      (λ text. some (take_text (q.col - p.col) (drop_text p.col text)))

unfoldable pub on_many_lines : List String → Place → Place → Option String
unfolding source_line lines_between take_text drop_text
on_many_lines lines p q = after (source_line lines p.line) (λ first.
    after (lines_between lines (p.line + 1) (q.line - 1 - p.line)) (λ middle.
      after (source_line lines q.line)
        (λ last. some (append (drop_text p.col first) (append middle (take_text q.col last))))))

-- _extract_snippet
unfoldable pub extract_snippet : List String → Place → Place → Option String
unfolding on_one_line on_many_lines
extract_snippet lines p q =
    if p.line == q.line then on_one_line lines p q else on_many_lines lines p q

-- retrieve_tactics
unfoldable pub retrieve_tactics : List Interval → List String → Option (List TacticStep)
unfolding extract_snippet
retrieve_tactics [] lines = some []
retrieve_tactics (iv ∷ ivs) lines = after (extract_snippet lines iv.start iv.finish) (λ text.
    after (retrieve_tactics ivs lines) (λ rest. some (
      record { goals_before = iv.goals_before; goals_after = iv.goals_after; tactic = text }
      ∷ rest)))

-- The last five steps of `extract_data`, from the intervals on.
unfoldable pub extract_tactics : List Interval → List String → Option (List TacticStep)
unfolding adjust_intervals retrieve_tactics merge_intervals transfer
extract_tactics intervals lines =
    after (retrieve_tactics (adjust_intervals intervals) lines)
      (λ steps. some (merge_intervals (transfer_trailing steps)))
