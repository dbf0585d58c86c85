-- ===== src/Split.antt =====
-- server/split.py: `split_snippet`; and `imports_from_header` of server/pantograph_manager.py, which
-- reads the header that the split has made.
pub mod Lines
pub mod Collected
pub mod Header
pub mod Imports
pub mod Examples
use kimina_lean_server.Base.{
  ℕ, suc, String, String_discrete, Bool, true, false, ◌||◌, List, [], ◌∷◌, ◌++◌, map, length, keep,
  mem, take, drop, if◌then◌else◌,
}
use kimina_lean_server.Base.Text.{is_empty, strip, starts_with, splitlines, join}
use kimina_lean_server.Base.Text.Words.{split, remove_prefix}
use kimina_lean_server.Base.Text.Breaks.{newline}

pub record SplitSnippet : Type 0 where
  pub header : String
  pub body : String
  pub header_line_count : ℕ

-- The condition of the loop that finds the end of the header.
unfoldable pub is_header_line : String → Bool
is_header_line line = is_empty (strip line) || starts_with (strip line) "import "

-- The loop: how many lines the header takes up.
header_lines : List String → ℕ
unfolding is_header_line
header_lines [] = 0
header_lines (line ∷ lines) =
    let rest = header_lines lines in if is_header_line line then suc rest else 0

abbrev is_import : String → Bool
is_import line = starts_with line "import "

abbrev is_mathlib : String → Bool
is_mathlib line = starts_with line "import Mathlib"

-- One round of the second loop. `seen` has the members of `imports`.
unfoldable pub add_import : String → List String → List String
add_import line imports =
    if is_mathlib line || mem String_discrete line imports then imports else imports ++ line ∷ []

-- The second loop: `imports` and `has_mathlib` at its end.
pub collect_imports : List String → Bool → List String → List String × Bool
unfolding add_import
collect_imports imports has_mathlib [] = (imports, has_mathlib)
collect_imports imports has_mathlib (line ∷ lines) =
    collect_imports (add_import line imports) (is_mathlib line || has_mathlib) lines

abbrev result_header : List String × Bool → List String
result_header (imports, has_mathlib) = if has_mathlib then "import Mathlib" ∷ imports else imports

-- `import_lines` of a code
unfoldable pub import_lines : String → List String
unfolding header_lines
import_lines code =
    let lines = splitlines code in keep is_import (map strip (take (header_lines lines) lines))

unfoldable pub split_snippet : String → SplitSnippet
unfolding header_lines collect_imports import_lines
split_snippet code =
    let lines = splitlines code in
    let i = header_lines lines in
    record {
      header = join newline (result_header (collect_imports [] false (import_lines code)));
      body = join newline (drop i lines);
      header_line_count = i;
    }

-- The loop of `imports_from_header`.
imports_of_lines : List String → List String
imports_of_lines [] = []
imports_of_lines (line ∷ lines) =
    let rest = imports_of_lines lines in
    if is_import (strip line) then split (remove_prefix "import " (strip line)) ++ rest else rest

abbrev or_init : List String → List String
or_init [] = "Init" ∷ []
or_init (name ∷ names) = name ∷ names

unfoldable pub imports_from_header : String → List String
unfolding imports_of_lines
imports_from_header header = or_init (imports_of_lines (splitlines header))
