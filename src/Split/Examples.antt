-- ===== src/Split/Examples.antt =====
-- Splits of concrete codes.
use kimina_lean_server.Base.{
  keep, ℕ, String, String_discrete, ◌≡◌, refl, some, [], ◌∷◌, mem, Distinct, length, get_elem?, any,
  same_text, ◌&&◌, ◌||◌, not, ◌+◌,
}
use kimina_lean_server.Base.Text.{empty, splitlines, join, strip, starts_with}
use kimina_lean_server.Base.Text.Words.{split, remove_prefix}
use kimina_lean_server.Split.{split_snippet, imports_from_header, import_lines}
use kimina_lean_server.Split.Lines.{IsHeaderOf, split_snippet-Aligns}
use kimina_lean_server.Split.Header.{split_snippet-header}
use kimina_lean_server.Split.Imports.{split_snippet-Imports}

abbrev two_imports : String
two_imports =
    "import Lean\n\n import Mathlib.Data.Nat \nimport Lean\r\ntheorem a : True\n\nby trivial\n"

two_imports-split : split_snippet two_imports ≡ record {
  header = "import Mathlib\nimport Lean";
  body = "theorem a : True\n\nby trivial";
  header_line_count = 4;
}
unfolding split_snippet join splitlines keep strip starts_with mem String_discrete
two_imports-split = refl

no_imports-split :
    split_snippet "def x := 1" ≡ record { header = ""; body = "def x := 1"; header_line_count = 0 }
unfolding split_snippet join splitlines keep strip starts_with
no_imports-split = refl

modules_of_header :
    imports_from_header "import Mathlib\nimport Lean  Aesop" ≡ "Mathlib" ∷ "Lean" ∷ "Aesop" ∷ []
unfolding imports_from_header splitlines starts_with strip split remove_prefix
modules_of_header = refl

modules_of_empty : imports_from_header "" ≡ "Init" ∷ []
unfolding imports_from_header splitlines starts_with strip split remove_prefix
modules_of_empty = refl

split_snippet-Aligns_example :
    IsHeaderOf (split_snippet two_imports).header_line_count (splitlines two_imports)
    × ((k : ℕ) (line : String)
        → get_elem? (splitlines (split_snippet two_imports).body) k ≡ some line
        → get_elem? (splitlines two_imports) (k + (split_snippet two_imports).header_line_count)
          ≡ some line)
split_snippet-Aligns_example = split_snippet-Aligns two_imports

split_snippet-header_example : split_snippet (split_snippet two_imports).header ≡ record {
  header = (split_snippet two_imports).header;
  body = empty;
  header_line_count = length (splitlines (split_snippet two_imports).header);
}
split_snippet-header_example = split_snippet-header two_imports

split_snippet-Imports_example :
    (mem String_discrete "import Lean" (splitlines (split_snippet two_imports).header) ≡ (
      (same_text "import Mathlib" "import Lean"
        && any (λ l. starts_with l "import Mathlib") (import_lines two_imports))
      || (mem String_discrete "import Lean" (import_lines two_imports)
          && not (starts_with "import Lean" "import Mathlib"))))
    × Distinct String_discrete (splitlines (split_snippet two_imports).header)
split_snippet-Imports_example = split_snippet-Imports two_imports "import Lean"

-- A module whose name begins with `Mathlib` is not imported: `import Mathlib` takes its place.
extra_module-split : (split_snippet "import MathlibExtra\n#check 1").header ≡ "import Mathlib"
unfolding split_snippet join splitlines keep strip starts_with mem String_discrete
extra_module-split = refl
