-- ===== src/Split/Imports.antt =====
-- Which imports stand in the header that `split_snippet` makes, and which modules a worker loads
-- for it.
use kimina_lean_server.Base.{
  String, String_discrete, Bool, false, ◌&&◌, ◌||◌, not, ◌≡◌, refl, List, [], ◌∷◌, mem, mem-append,
  Distinct, any, same_text, arith,
}
use kimina_lean_server.Base.Text.{starts_with, splitlines}
use kimina_lean_server.Split.{
  split_snippet, is_mathlib, add_import, collect_imports, result_header, import_lines,
}
use kimina_lean_server.Split.Collected.{header_of-Distinct, header_of, header_of-All}
use kimina_lean_server.Split.Header.{splitlines-imports}

mem-add_import :
    (a line : String) (imports : List String)
    → mem String_discrete a (add_import line imports) ≡ (
        mem String_discrete a imports
        || (mem String_discrete a (line ∷ []) && not (is_mathlib line)))
unfolding add_import mem
mem-add_import a line imports = ground (arith, mem-append String_discrete a imports (line ∷ []))

mem-collect_imports :
    (a : String) (imports lines : List String) (has : Bool)
    → mem String_discrete a (collect_imports imports has lines).0
      ≡ (mem String_discrete a imports || (mem String_discrete a lines && not (is_mathlib a)))
unfolding collect_imports mem
mem-collect_imports a imports [] has = ground arith
mem-collect_imports a imports (line ∷ lines) has =
    rw
      (
        mem-collect_imports a (add_import line imports) lines (is_mathlib line || has),
        mem-add_import a line imports,
      )
      (ground arith)

collect-has :
    (imports lines : List String) (has : Bool)
    → (collect_imports imports has lines).1 ≡ (has || any is_mathlib lines)
unfolding collect_imports
collect-has imports [] has = ground arith
collect-has imports (line ∷ lines) has =
    rw (collect-has (add_import line imports) lines (is_mathlib line || has)) (ground arith)

mem-result_header :
    (a : String) (imports : List String) (has : Bool)
    → mem String_discrete a (result_header (imports, has))
      ≡ ((same_text "import Mathlib" a && has) || mem String_discrete a imports)
unfolding mem same_text
mem-result_header a imports has = ground arith

-- A line stands in the header of a code exactly if it is an import of the code that does not begin
-- with `import Mathlib`, or if it is `import Mathlib` and an import of the code begins with that; and
-- no line stands there twice.
pub split_snippet-Imports :
    (code line : String)
    → (mem String_discrete line (splitlines (split_snippet code).header) ≡ (
        (same_text "import Mathlib" line
          && any (λ l. starts_with l "import Mathlib") (import_lines code))
        || (mem String_discrete line (import_lines code)
            && not (starts_with line "import Mathlib"))))
      × Distinct String_discrete (splitlines (split_snippet code).header)
unfolding split_snippet collect_imports
split_snippet-Imports code line =
    let lines = header_of code in
    let c = collect_imports [] false (import_lines code) in
    rw (splitlines-imports lines (header_of-All code)) (
      rw
          (
            mem-result_header line c.0 c.1,
            collect-has [] (import_lines code) false,
            mem-collect_imports line [] (import_lines code) false,
          )
          (unfold mem in refl),
      header_of-Distinct code,
    )
