-- ===== src/Split/Lines.antt =====
-- The lines of a code and of what `split_snippet` makes of it.
use kimina_lean_server.Base.{
  ℕ, zero, suc, ◌+◌, ◌≤◌, String, true, false, ◌≡◌, inl, inr, some, List, [], ◌∷◌, length,
  get_elem?, All, take, drop, get-drop, All-drop, Bool-cases, arith,
}
use kimina_lean_server.Base.Text.{is_empty, splitlines}
use kimina_lean_server.Base.Text.Breaks.{settle, IsLine, splitlines-AreLines, splitlines-join}
use kimina_lean_server.Split.{split_snippet, is_header_line, header_lines}

-- What stands in a list is found there in the list before an empty last line is dropped.
get-settle :
    (lines : List String) (k : ℕ) (line : String)
    → get_elem? (settle lines) k ≡ some line
    → get_elem? lines k ≡ some line
unfolding settle
get-settle [] k line h = h
get-settle (x ∷ []) k line h = elim (Bool-cases (is_empty x)) [
  | inl e ↦ let h' = rw e at h in cc
  | inr e ↦ rw e at h
]
get-settle (x ∷ y ∷ ys) zero line h = h
get-settle (x ∷ y ∷ ys) (suc k) line h = get-settle (y ∷ ys) k line h

-- The list is empty or begins with a line that belongs to no header.
abbrev pub Stops : List String → Type 0
Stops [] = Unit
Stops (line ∷ lines) = is_header_line line ≡ false

-- The first `n` lines are what the header takes up, and no more lines could be.
abbrev pub IsHeaderOf : ℕ → List String → Type 0
IsHeaderOf n lines =
    (n ≤ length lines)
    × All (λ line. is_header_line line ≡ true) (take n lines)
    × Stops (drop n lines)

header_lines-IsHeaderOf : (lines : List String) → IsHeaderOf (header_lines lines) lines
unfolding header_lines
header_lines-IsHeaderOf [] = (omega arith, tt, tt)
header_lines-IsHeaderOf (line ∷ lines) =
    let h = header_lines-IsHeaderOf lines in
    elim (Bool-cases (is_header_line line)) [
      | inl e ↦ rw e (omega (arith, h.0), (e, h.1), h.2)
      | inr e ↦ rw e (omega arith, tt, e)
    ]

-- The header ends at the first line of the code that is neither blank nor an import, and line `k`
-- of the body is line `k + header_line_count` of the code.
pub split_snippet-Aligns :
    (code : String)
    → IsHeaderOf (split_snippet code).header_line_count (splitlines code)
      × ((k : ℕ) (line : String)
          → get_elem? (splitlines (split_snippet code).body) k ≡ some line
          → get_elem? (splitlines code) (k + (split_snippet code).header_line_count) ≡ some line)
unfolding split_snippet
split_snippet-Aligns code =
    let lines = splitlines code in
    let n = header_lines lines in
    (
      header_lines-IsHeaderOf lines,
      λ k line h.
          let h' =
            rw (splitlines-join (drop n lines) (All-drop IsLine n lines (splitlines-AreLines code)))
              at h in
          rw (get-drop n k lines) at (get-settle (drop n lines) k line h'),
    )
