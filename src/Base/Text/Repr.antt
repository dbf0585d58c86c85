-- ===== src/Base/Text/Repr.antt =====
-- Python's `repr` of a `str`.
use Prim.Native.Nat.{ℕ, ◌/◌, ◌%◌}
use Prim.Native.Char.{Char, code}
use Prim.Native.String.{String}
use mathlib.Core.Bool.{Bool, false, not, ◌&&◌, ◌||◌}
use kimina_lean_server.Base.Tests.{leb, ◌==◌, if◌then◌else◌}
use kimina_lean_server.Base.Text.{append}
use kimina_lean_server.Base.Text.Pieces.{take_text, drop_text}

has_code : ℕ → String → Bool
has_code n String.[] = false
has_code n (String.◌∷◌ c s) = let rest = has_code n s in code c == n || rest

hex_digit : ℕ → String
unfolding take_text drop_text
hex_digit n = take_text 1 (drop_text n "0123456789abcdef")

-- The code points below 256 that are not printable. Those from 256 on are all taken as printable,
-- which the source's `str.isprintable` knows better.
is_control : ℕ → Bool
is_control n = leb n 31 || (leb 127 n && leb n 160) || n == 173

-- One character, between quotes with the code `quote`.
escaped : ℕ → Char → String
unfolding hex_digit is_control
escaped quote c =
    let n = code c in
    if n == quote || n == 92
    then append "\\" (String.◌∷◌ c "")
    else (if n == 9
        then "\\t"
        else (if n == 10
            then "\\n"
            else (if n == 13
                then "\\r"
                else (if is_control n
                    then append "\\x" (append (hex_digit (n / 16)) (hex_digit (n % 16)))
                    else String.◌∷◌ c ""))))

escaped_text : ℕ → String → String
unfolding escaped
escaped_text quote String.[] = ""
escaped_text quote (String.◌∷◌ c s) = append (escaped quote c) (escaped_text quote s)

-- Single quotes, or double ones around a text that has single quotes and no double ones.
unfoldable pub repr : String → String
unfolding has_code escaped_text
repr s =
    if has_code 39 s && not (has_code 34 s)
    then append "\"" (append (escaped_text 34 s) "\"")
    else append "'" (append (escaped_text 39 s) "'")
