-- ===== src/Base/Text/Breaks.antt =====
-- `splitlines` against `join`: the lines of a text hold no line break, and joining lines that hold
-- none gives a text with these lines, but for an empty last one.
use Prim.Native.Char.{Char, code}
use Prim.Native.String.{String}
use mathlib.Core.Logic.{inl, inr}
use mathlib.Core.Path.{◌≡◌, refl}
use mathlib.Core.Bool.{Bool, false, ◌&&◌}
use mathlib.Core.List.{List, [], ◌∷◌}
use native.Mathlib.Omega.{arith}
use kimina_lean_server.Base.Tests.{◌==◌, if◌then◌else◌, Bool-cases}
use kimina_lean_server.Base.Lists.{All}
use kimina_lean_server.Base.Text.{
  is_empty, append, is_break, push, lines_after, splitlines, join, lstrip, rstrip, strip,
}

-- No character of the text ends a line.
abbrev pub IsLine : String → Type 0
IsLine String.[] = Unit
IsLine (String.◌∷◌ c s) = (is_break (code c) ≡ false) × IsLine s

abbrev pub newline : String
newline = "\n"

push-AreLines :
    (c : Char) (lines : List String)
    → is_break (code c) ≡ false
    → All IsLine lines
    → All IsLine (push c lines)
push-AreLines c [] h hs = ((h, tt), tt)
push-AreLines c (line ∷ lines) h (hl, hs) = ((h, hl), hs)

lines_after-AreLines : (cr : Bool) (s : String) → All IsLine (lines_after cr s)
unfolding lines_after
lines_after-AreLines cr String.[] = tt
lines_after-AreLines cr (String.◌∷◌ c s) =
    let rest = lines_after (code c == 13) s in
    let h = lines_after-AreLines (code c == 13) s in
    elim (Bool-cases (cr && code c == 10)) [
      | inl e ↦ rw e h
      | inr e ↦ rw e (elim (Bool-cases (is_break (code c))) [
        | inl f ↦ rw f (tt, h)
        | inr f ↦ rw f (push-AreLines c rest f h)
      ])
    ]

pub splitlines-AreLines : (s : String) → All IsLine (splitlines s)
unfolding splitlines
splitlines-AreLines s = lines_after-AreLines false s

not_return : (c : Char) → is_break (code c) ≡ false → (code c == 13) ≡ false
unfolding is_break
not_return c h = ground arith

-- The last line, if it is empty, is lost when the joined lines are split again.
unfoldable pub settle : List String → List String
settle [] = []
settle (line ∷ []) = if is_empty line then [] else line ∷ []
settle (line ∷ next ∷ lines) = line ∷ settle (next ∷ lines)

push-last :
    (c : Char) (s : String) → push c (if is_empty s then [] else s ∷ []) ≡ String.◌∷◌ c s ∷ []
push-last c String.[] = refl
push-last c (String.◌∷◌ d s) = refl

lines_after_last :
    (cr : Bool) (line : String)
    → cr ≡ false
    → IsLine line
    → lines_after cr line ≡ (if is_empty line then [] else line ∷ [])
unfolding lines_after
lines_after_last cr String.[] e h = refl
lines_after_last cr (String.◌∷◌ c s) e (hc, hs) =
    rw (e, hc, lines_after_last (code c == 13) s (not_return c hc) hs) (push-last c s)

lines_after_line :
    (cr : Bool) (line t : String)
    → cr ≡ false
    → IsLine line
    → lines_after cr (append line (append newline t)) ≡ line ∷ lines_after false t
unfolding lines_after
lines_after_line cr String.[] t e h = rw e refl
lines_after_line cr (String.◌∷◌ c s) t e (hc, hs) =
    rw (e, hc, lines_after_line (code c == 13) s t (not_return c hc) hs) refl

pub splitlines-join :
    (lines : List String) → All IsLine lines → splitlines (join newline lines) ≡ settle lines
unfolding splitlines join settle
splitlines-join [] h = unfold lines_after in refl
splitlines-join (line ∷ []) h = lines_after_last false line refl h.0
splitlines-join (line ∷ next ∷ lines) (hl, hs) =
    let rest = splitlines-join (next ∷ lines) hs in
    rw (lines_after_line false line (join newline (next ∷ lines)) refl hl, rest)

lstrip-IsLine : (s : String) → IsLine s → IsLine (lstrip s)
unfolding lstrip
lstrip-IsLine String.[] h = tt
lstrip-IsLine (String.◌∷◌ c s) (hc, hs) = ground (arith, lstrip-IsLine s hs)

rstrip-IsLine : (s : String) → IsLine s → IsLine (rstrip s)
unfolding rstrip
rstrip-IsLine String.[] h = tt
rstrip-IsLine (String.◌∷◌ c s) (hc, hs) = ground (arith, rstrip-IsLine s hs)

pub strip-IsLine : (s : String) → IsLine s → IsLine (strip s)
unfolding strip
strip-IsLine s h = rstrip-IsLine (lstrip s) (lstrip-IsLine s h)
