-- ===== src/Base/Text/Pieces.antt =====
-- Indices, slices and counts of a text, and its lines with their ends.
use Prim.Native.Nat.{ℕ, zero, suc}
use Prim.Native.Char.{Char, code}
use Prim.Native.String.{String}
use mathlib.Core.Logic.{inl, inr}
use mathlib.Core.Path.{◌≡◌, refl, ap}
use mathlib.Core.Bool.{Bool, false, ◌&&◌, ◌||◌, not}
use mathlib.Core.List.{List, [], ◌∷◌}
use mathlib.Core.Option.{Option, none, some}
use native.Mathlib.Omega.{arith}
use kimina_lean_server.Base.Tests.{◌==◌, if◌then◌else◌, same_text, Bool-cases}
use kimina_lean_server.Base.Text.{append, is_empty, is_break, starts_with, push}

-- len(s)
abbrev pub len : String → ℕ
len String.[] = 0
len (String.◌∷◌ c s) = suc (len s)

-- s[:n]
unfoldable pub take_text : ℕ → String → String
take_text zero s = String.[]
take_text (suc n) String.[] = String.[]
take_text (suc n) (String.◌∷◌ c s) = String.◌∷◌ c (take_text n s)

-- s[n:]
unfoldable pub drop_text : ℕ → String → String
drop_text zero s = s
drop_text (suc n) String.[] = String.[]
drop_text (suc n) (String.◌∷◌ c s) = drop_text n s

abbrev later : Option ℕ → Option ℕ
later none = none
later (some n) = some (suc n)

-- s.find(t), of a text that is not empty
unfoldable pub find : String → String → Option ℕ
unfolding starts_with
find String.[] t = none
find (String.◌∷◌ c s) t =
    let rest = find s t in if starts_with (String.◌∷◌ c s) t then some 0 else later rest

-- s.rfind(t), of a text that is not empty
unfoldable pub rfind : String → String → Option ℕ
unfolding starts_with
rfind String.[] t = none
rfind (String.◌∷◌ c s) t = elim (rfind s t) [
  | some n ↦ some (suc n)
  | none ↦ if starts_with (String.◌∷◌ c s) t then some 0 else none
]

-- s.count(c), of a character
unfoldable pub count_code : ℕ → String → ℕ
count_code n String.[] = 0
count_code n (String.◌∷◌ c s) = let rest = count_code n s in if code c == n then suc rest else rest

-- s.endswith(t)
unfoldable pub ends_with : String → String → Bool
ends_with String.[] t = is_empty t
ends_with (String.◌∷◌ c s) t = let rest = ends_with s t in same_text (String.◌∷◌ c s) t || rest

-- s.rstrip(chars), where the test says which characters those are
unfoldable pub rstrip_of : (ℕ → Bool) → String → String
rstrip_of p String.[] = String.[]
rstrip_of p (String.◌∷◌ c s) =
    let rest = rstrip_of p s in if is_empty rest && p (code c) then String.[] else String.◌∷◌ c rest

abbrev starts_newline : String → Bool
starts_newline String.[] = false
starts_newline (String.◌∷◌ c s) = code c == 10

-- s.splitlines(keepends=True)
unfoldable pub lines_with_ends : String → List String
unfolding is_break
lines_with_ends String.[] = []
lines_with_ends (String.◌∷◌ c s) =
    let rest = lines_with_ends s in
    if is_break (code c) && not (code c == 13 && starts_newline s)
    then String.◌∷◌ c String.[] ∷ rest
    else push c rest

-- "".join(parts)
abbrev pub joined : List String → String
joined [] = String.[]
joined (part ∷ parts) = append part (joined parts)

pub append_assoc : (s t u : String) → append (append s t) u ≡ append s (append t u)
append_assoc String.[] t u = refl
append_assoc (String.◌∷◌ c s) t u = ap (String.◌∷◌ c) (append_assoc s t u)

pub append-empty : (s : String) → append s String.[] ≡ s
append-empty String.[] = refl
append-empty (String.◌∷◌ c s) = ap (String.◌∷◌ c) (append-empty s)

-- A text is cut into two parts at any index.
pub take-drop_text : (n : ℕ) (s : String) → append (take_text n s) (drop_text n s) ≡ s
unfolding take_text drop_text
take-drop_text zero s = refl
take-drop_text (suc n) String.[] = refl
take-drop_text (suc n) (String.◌∷◌ c s) = ap (String.◌∷◌ c) (take-drop_text n s)

-- What `rstrip` leaves is a beginning of the text.
pub rstrip_of-drop_text :
    (p : ℕ → Bool) (s : String) → append (rstrip_of p s) (drop_text (len (rstrip_of p s)) s) ≡ s
unfolding rstrip_of drop_text
rstrip_of-drop_text p String.[] = refl
rstrip_of-drop_text p (String.◌∷◌ c s) =
    elim (Bool-cases (is_empty (rstrip_of p s) && p (code c))) [
      | inl e ↦ rw e refl
      | inr e ↦ rw e (ap (String.◌∷◌ c) (rstrip_of-drop_text p s))
    ]

joined-push : (c : Char) (lines : List String) → joined (push c lines) ≡ String.◌∷◌ c (joined lines)
joined-push c [] = refl
joined-push c (line ∷ lines) = refl

-- The lines with their ends are the whole text.
pub joined-lines_with_ends : (s : String) → joined (lines_with_ends s) ≡ s
unfolding lines_with_ends
joined-lines_with_ends String.[] = refl
joined-lines_with_ends (String.◌∷◌ c s) =
    ground (arith, joined-push c (lines_with_ends s), joined-lines_with_ends s)
