-- ===== src/Split/Collected.antt =====
-- What the second loop of `split_snippet` collects: each import once, and none of Mathlib.
use kimina_lean_server.Base.{
  String, String_discrete, Bool, true, false, ◌||◌, ◌≡◌, refl, inl, inr, List, [], ◌∷◌, map, keep,
  mem, All, All-append, take, All-take, Distinct, Distinct-snoc, Bool-cases, arith,
}
use kimina_lean_server.Base.Text.{strip, starts_with, splitlines}
use kimina_lean_server.Base.Text.Strip.{strip_idem}
use kimina_lean_server.Base.Text.Breaks.{IsLine, splitlines-AreLines, strip-IsLine}
use kimina_lean_server.Split.{
  header_lines, is_import, is_mathlib, add_import, collect_imports, result_header, import_lines,
}

-- A stripped line that begins with "import ".
abbrev pub IsImportLine : String → Type 0
IsImportLine line = IsLine line × (strip line ≡ line) × (is_import line ≡ true)

map-strip-All :
    (lines : List String)
    → All IsLine lines
    → All (λ line. IsLine line × (strip line ≡ line)) (map strip lines)
map-strip-All [] h = tt
map-strip-All (line ∷ lines) (h, hs) =
    ((strip-IsLine line h, strip_idem line), map-strip-All lines hs)

keep_import-All :
    (lines : List String)
    → All (λ line. IsLine line × (strip line ≡ line)) lines
    → All IsImportLine (keep is_import lines)
unfolding keep
keep_import-All [] h = tt
keep_import-All (line ∷ lines) ((hl, hs), h) = ground (arith, keep_import-All lines h)

pub import_lines-All : (code : String) → All IsImportLine (import_lines code)
unfolding import_lines
import_lines-All code =
    let lines = splitlines code in
    let n = header_lines lines in
    keep_import-All (map strip (take n lines))
      (map-strip-All (take n lines) (All-take IsLine n lines (splitlines-AreLines code)))

-- The imports that the second loop has collected: each once, and none of Mathlib.
abbrev pub IsCollected : List String → Type 0
IsCollected imports =
    All IsImportLine imports
    × Distinct String_discrete imports
    × All (λ line. is_mathlib line ≡ false) imports

add_import-IsCollected :
    (line : String) (imports : List String)
    → IsImportLine line
    → IsCollected imports
    → IsCollected (add_import line imports)
unfolding add_import
add_import-IsCollected line imports hl (h, d, m) = elim (Bool-cases (is_mathlib line)) [
  | inl e ↦ rw e (h, d, m)
  | inr e ↦ elim (Bool-cases (mem String_discrete line imports)) [
    | inl f ↦ rw (e, f) (h, d, m)
    | inr f ↦
        rw (e, f)
          (
            All-append IsImportLine imports (line ∷ []) h (hl, tt),
            Distinct-snoc String_discrete line imports d f,
            All-append (λ l. is_mathlib l ≡ false) imports (line ∷ []) m (e, tt),
          )
  ]
]

pub collect_imports-IsCollected :
    (lines imports : List String) (has : Bool)
    → All IsImportLine lines
    → IsCollected imports
    → IsCollected (collect_imports imports has lines).0
unfolding collect_imports
collect_imports-IsCollected [] imports has h c = c
collect_imports-IsCollected (line ∷ lines) imports has (hl, hs) c =
    collect_imports-IsCollected lines (add_import line imports) (is_mathlib line || has) hs
      (add_import-IsCollected line imports hl c)

-- The lines of the header of a code.
abbrev pub header_of : String → List String
unfolding collect_imports
header_of code = result_header (collect_imports [] false (import_lines code))

mathlib_import : IsImportLine "import Mathlib"
unfolding strip starts_with splitlines
mathlib_import = ((splitlines-AreLines "import Mathlib").0, refl, refl)

result_header-All :
    (imports : List String) (has : Bool)
    → All IsImportLine imports
    → All IsImportLine (result_header (imports, has))
result_header-All imports true h = (mathlib_import, h)
result_header-All imports false h = h

pub header_of-All : (code : String) → All IsImportLine (header_of code)
unfolding header_of collect_imports
header_of-All code =
    let c =
      collect_imports-IsCollected (import_lines code) [] false (import_lines-All code)
        (tt, tt, tt) in
    result_header-All _ (collect_imports [] false (import_lines code)).1 c.0

mathlib-apart :
    (imports : List String)
    → All (λ line. is_mathlib line ≡ false) imports
    → mem String_discrete "import Mathlib" imports ≡ false
unfolding mem
mathlib-apart [] h = refl
mathlib-apart (x ∷ xs) (h, hs) =
    let m : is_mathlib "import Mathlib" ≡ true = unfold starts_with in refl in
    ground (arith, mathlib-apart xs hs)

pub header_of-Distinct : (code : String) → Distinct String_discrete (header_of code)
unfolding header_of collect_imports
header_of-Distinct code =
    let c = collect_imports [] false (import_lines code) in
    let h =
      collect_imports-IsCollected (import_lines code) [] false (import_lines-All code)
        (tt, tt, tt) in
    elim (Bool-cases c.1) [ inl e ↦ rw e (mathlib-apart c.0 h.2, h.1) | inr e ↦ rw e h.1 ]
