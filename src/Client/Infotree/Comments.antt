-- ===== src/Client/Infotree/Comments.antt =====
-- infotree.py: the tests of `merge_intervals` on the text of a tactic.
use Prim.Native.Char.{code}
use kimina_lean_server.Base.{
  ℕ, zero, suc, ◌+◌, String, Bool, false, ◌&&◌, ◌||◌, Option, none, some, List, [], ◌∷◌, ◌==◌,
  same_text, any, if◌then◌else◌,
}
use kimina_lean_server.Base.Text.{
  is_empty, is_space, lstrip, rstrip, strip, starts_with, splitlines, join,
}
use kimina_lean_server.Base.Text.Pieces.{take_text, drop_text, find, count_code, ends_with}

-- How long the block comment is with which the text begins.
abbrev block_length : String → Option ℕ
unfolding find drop_text starts_with
block_length s =
    if starts_with s "/-"
    then elim (find (drop_text 2 s) "-/") [ none ↦ none | some n ↦ some (n + 4) ]
    else none

-- `re.compile(r"/-.*?-/", re.DOTALL).sub("", text)`, where the first characters are left out that
-- belong to the comment before.
remove_blocks : ℕ → String → String
unfolding block_length
remove_blocks skipped String.[] = String.[]
remove_blocks (suc skipped) (String.◌∷◌ c s) = remove_blocks skipped s
remove_blocks zero (String.◌∷◌ c s) = elim (block_length (String.◌∷◌ c s)) [
  | none ↦ String.◌∷◌ c (remove_blocks zero s)
  | some zero ↦ String.◌∷◌ c (remove_blocks zero s)
  | some (suc n) ↦ remove_blocks n s
]

-- `line.split("--")[0].rstrip()`, if there is such a mark in the line
abbrev before_dashes : String → String
unfolding find take_text rstrip
before_dashes line = elim (find line "--") [ none ↦ line | some n ↦ rstrip (take_text n line) ]

-- The second part of `remove_lean_comments`: the lines without single-line comments.
remove_line_comments : List String → List String
unfolding before_dashes strip
remove_line_comments [] = []
remove_line_comments (line ∷ lines) =
    let rest = remove_line_comments lines in
    if is_empty (strip line)
    then line ∷ rest
    else if is_empty (strip (before_dashes line))
    then rest
    else before_dashes line ∷ rest

-- remove_lean_comments
unfoldable pub remove_lean_comments : String → String
unfolding remove_blocks remove_line_comments splitlines join
remove_lean_comments text = join "\n" (remove_line_comments (splitlines (remove_blocks 0 text)))

-- is_balanced, with the codes of the six brackets
unfoldable pub is_balanced : String → Bool
unfolding count_code
is_balanced s =
    count_code 91 s == count_code 93 s
    && count_code 40 s == count_code 41 s
    && count_code 10216 s == count_code 10217 s

-- is_by
unfoldable pub is_by : String → Bool
unfolding remove_lean_comments strip
is_by tactic = same_text (strip (remove_lean_comments tactic)) "by"

abbrev pub begins_with_space : String → Bool
unfolding is_space
begins_with_space String.[] = false
begins_with_space (String.◌∷◌ c s) = is_space (code c)

-- Whether the text is one of the words, with `by` before it or not: the direct match, and the group of
-- `re.match(r"^by\s+([\w_]+)$", s)`, of a text without space at its ends.
unfoldable pub is_word_or_by : List String → String → Bool
unfolding starts_with drop_text lstrip
is_word_or_by words s =
    any (same_text s) words
    || (starts_with s "by"
        && begins_with_space (drop_text 2 s)
        && any (same_text (lstrip (drop_text 2 s))) words)

-- is_calc
unfoldable pub is_calc : String → Bool
unfolding is_word_or_by remove_lean_comments strip
is_calc tactic = is_word_or_by ("calc" ∷ []) (strip (remove_lean_comments tactic))

-- WRAPPER_TACTICS
abbrev pub wrapper_tactics : List String
wrapper_tactics = "all_goals" ∷ "any_goals" ∷ "repeat" ∷ []

-- is_wrapper
unfoldable pub is_wrapper : String → Bool
unfolding is_word_or_by remove_lean_comments strip
is_wrapper tactic = is_word_or_by wrapper_tactics (strip (remove_lean_comments tactic))

-- ends_with_by
unfoldable pub ends_with_by : String → Bool
unfolding ends_with remove_lean_comments rstrip
ends_with_by tactic =
    let s = rstrip (remove_lean_comments tactic) in ends_with s ":=by" || ends_with s ":= by"
