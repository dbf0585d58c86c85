-- ===== src/Base/Text.antt =====
-- Python's `str` methods that the program calls, on the native texts: a `str` is a list of code
-- points. The character classes are Python's, over all of Unicode.
pub mod Strip
pub mod Breaks
pub mod Words
pub mod Pieces
pub mod Repr
use Prim.Native.Nat.{ℕ}
use Prim.Native.Char.{Char, code}
use Prim.Native.String.{String}
use mathlib.Core.Bool.{Bool, true, false, ◌&&◌, ◌||◌}
use mathlib.Core.List.{List, [], ◌∷◌}
use kimina_lean_server.Base.Tests.{leb, ◌==◌, if◌then◌else◌}

abbrev pub empty : String
empty = String.[]

abbrev pub is_empty : String → Bool
is_empty String.[] = true
is_empty (String.◌∷◌ c s) = false

-- s + t
abbrev pub append : String → String → String
append String.[] t = t
append (String.◌∷◌ c s) t = String.◌∷◌ c (append s t)

abbrev within : ℕ → ℕ → ℕ → Bool
within a b c = leb a c && leb c b

-- `str.isspace` of a character, and `\s` of `re`
unfoldable pub is_space : ℕ → Bool
is_space c =
    within 9 13 c
    || within 28 32 c
    || c == 133
    || c == 160
    || c == 5760
    || within 8192 8202 c
    || c == 8232
    || c == 8233
    || c == 8239
    || c == 8287
    || c == 12288

-- The characters at which `str.splitlines` ends a line; "\r\n" counts as one.
unfoldable pub is_break : ℕ → Bool
is_break c = within 10 13 c || within 28 30 c || c == 133 || c == 8232 || c == 8233

-- s.lstrip()
unfoldable pub lstrip : String → String
unfolding is_space
lstrip String.[] = String.[]
lstrip (String.◌∷◌ c s) = let rest = lstrip s in if is_space (code c) then rest else String.◌∷◌ c s

-- s.rstrip()
unfoldable pub rstrip : String → String
unfolding is_space
rstrip String.[] = String.[]
rstrip (String.◌∷◌ c s) =
    let rest = rstrip s in
    if is_empty rest && is_space (code c) then String.[] else String.◌∷◌ c rest

-- s.strip()
unfoldable pub strip : String → String
unfolding lstrip rstrip
strip s = rstrip (lstrip s)

-- s.startswith(t)
unfoldable pub starts_with : String → String → Bool
starts_with s String.[] = true
starts_with String.[] (String.◌∷◌ d t) = false
starts_with (String.◌∷◌ c s) (String.◌∷◌ d t) = code c == code d && starts_with s t

-- t in s
unfoldable pub contains : String → String → Bool
unfolding starts_with
contains String.[] t = is_empty t
contains (String.◌∷◌ c s) t = let rest = contains s t in starts_with (String.◌∷◌ c s) t || rest

-- Puts a character in front of the first line.
abbrev push : Char → List String → List String
push c [] = String.◌∷◌ c String.[] ∷ []
push c (line ∷ lines) = String.◌∷◌ c line ∷ lines

-- The lines of a text; the flag says that the character before it was "\r".
unfoldable pub lines_after : Bool → String → List String
unfolding is_break
lines_after cr String.[] = []
lines_after cr (String.◌∷◌ c s) =
    let rest = lines_after (code c == 13) s in
    if cr && code c == 10 then rest else if is_break (code c) then String.[] ∷ rest else push c rest

-- s.splitlines()
unfoldable pub splitlines : String → List String
unfolding lines_after
splitlines s = lines_after false s

-- sep.join(lines)
unfoldable pub join : String → List String → String
join sep [] = String.[]
join sep (line ∷ []) = line
join sep (line ∷ next ∷ lines) = append line (append sep (join sep (next ∷ lines)))
