-- ===== src/Base/Text/Words.antt =====
-- `str.split()` at white space, and `str.removeprefix`.
use Prim.Native.Nat.{ℕ, ◌+◌}
use Prim.Native.Char.{Char, code}
use Prim.Native.String.{String}
use mathlib.Core.Bool.{Bool, true, false, not, ◌&&◌, ◌||◌}
use mathlib.Core.List.{List, [], ◌∷◌}
use kimina_lean_server.Base.Tests.{◌==◌, leb, if◌then◌else◌}
use kimina_lean_server.Base.Text.{is_empty, is_space, starts_with}

-- Puts a character in front of the first word.
abbrev extend : Char → List String → List String
extend c [] = String.◌∷◌ c String.[] ∷ []
extend c (word ∷ words) = String.◌∷◌ c word ∷ words

-- The words of a text, under whether the character before it belongs to a word: then the first word
-- goes on there, and may be empty.
words_after : Bool → String → List String
unfolding is_space
words_after true String.[] = String.[] ∷ []
words_after false String.[] = []
words_after inside (String.◌∷◌ c s) =
    let rest = words_after (not (is_space (code c))) s in
    if is_space (code c) then if inside then String.[] ∷ rest else rest else extend c rest

-- s.split()
unfoldable pub split : String → List String
unfolding words_after
split s = words_after false s

without : String → String → String
without String.[] s = s
without (String.◌∷◌ d t) String.[] = String.[]
without (String.◌∷◌ d t) (String.◌∷◌ c s) = without t s

-- s.removeprefix(t)
unfoldable pub remove_prefix : String → String → String
unfolding without
remove_prefix t s = if starts_with s t then without t s else s

-- s.split(c), for the separator with the code `n`
unfoldable pub split_at : ℕ → String → List String
split_at n String.[] = String.[] ∷ []
split_at n (String.◌∷◌ c s) =
    let rest = split_at n s in if code c == n then String.[] ∷ rest else extend c rest

-- The lower case of an ASCII letter.
abbrev lower_code : ℕ → ℕ
lower_code n = if leb 65 n && leb n 90 then n + 32 else n

unfoldable pub starts_with_lower : String → String → Bool
starts_with_lower s String.[] = true
starts_with_lower String.[] (String.◌∷◌ d t) = false
starts_with_lower (String.◌∷◌ c s) (String.◌∷◌ d t) =
    lower_code (code c) == code d && starts_with_lower s t

-- t in s.lower(), for a text `t` of lower case ASCII letters without "i" and "k". Outside of ASCII no
-- character has one of its letters as its lower case.
unfoldable pub contains_lower : String → String → Bool
unfolding starts_with_lower
contains_lower String.[] t = is_empty t
contains_lower (String.◌∷◌ c s) t =
    let rest = contains_lower s t in starts_with_lower (String.◌∷◌ c s) t || rest
