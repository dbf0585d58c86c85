-- ===== src/Split/Header.antt =====
-- The header that `split_snippet` makes: which imports it has, and that it is its own header.
use mathlib.Core.List.{append_assoc, append-nil}
use kimina_lean_server.Base.{
  String, String_discrete, Bool, true, false, ◌≡◌, refl, ap, List, [], ◌∷◌, ◌++◌, map, length, keep,
  mem, mem-append, All, take, drop, arith,
}
use kimina_lean_server.Base.Text.{empty, is_empty, strip, starts_with, splitlines, join}
use kimina_lean_server.Base.Text.Breaks.{newline, settle, IsLine, splitlines-join}
use kimina_lean_server.Split.Collected.{
  IsImportLine, IsCollected, header_of, header_of-All, import_lines-All,
  collect_imports-IsCollected,
}
use kimina_lean_server.Split.{
  split_snippet, is_header_line, header_lines, is_import, add_import, collect_imports,
  result_header, import_lines,
}

-- Lines of a header survive the join.
import-not_empty : (line : String) → is_import line ≡ true → is_empty line ≡ false
unfolding starts_with
import-not_empty String.[] h = cc
import-not_empty (String.◌∷◌ c s) h = refl

settle_imports : (lines : List String) → All IsImportLine lines → settle lines ≡ lines
unfolding settle
settle_imports [] h = refl
settle_imports (x ∷ []) ((_, _, h), _) = rw (import-not_empty x h) refl
settle_imports (x ∷ y ∷ ys) (h, hs) = ap (λ l. x ∷ l) (settle_imports (y ∷ ys) hs)

header-import :
    (line : String) → strip line ≡ line → is_import line ≡ true → is_header_line line ≡ true
unfolding is_header_line
header-import line s h = rw (s, h) (ground arith)

header_lines_imports :
    (lines : List String) → All IsImportLine lines → header_lines lines ≡ length lines
unfolding header_lines
header_lines_imports [] h = refl
header_lines_imports (x ∷ xs) ((_, s, h), hs) =
    rw (header-import x s h, header_lines_imports xs hs) refl

take_all : (lines : List String) → take (length lines) lines ≡ lines
take_all [] = refl
take_all (x ∷ xs) = ap (λ l. x ∷ l) (take_all xs)

drop_all : (lines : List String) → drop (length lines) lines ≡ []
drop_all [] = refl
drop_all (x ∷ xs) = drop_all xs

imports-fixed :
    (lines : List String) → All IsImportLine lines → keep is_import (map strip lines) ≡ lines
unfolding keep
imports-fixed [] h = refl
imports-fixed (x ∷ xs) ((_, s, h), hs) = rw (s, h, imports-fixed xs hs) refl

pub splitlines-imports :
    (lines : List String) → All IsImportLine lines → splitlines (join newline lines) ≡ lines
splitlines-imports lines h = rw (splitlines-join lines (areLines lines h)) (settle_imports lines h)
  where
    areLines : (ls : List String) → All IsImportLine ls → All IsLine ls
    areLines [] k = tt
    areLines (x ∷ xs) ((k, _, _), ks) = (k, areLines xs ks)

import_lines-header :
    (lines : List String) → All IsImportLine lines → import_lines (join newline lines) ≡ lines
unfolding import_lines
import_lines-header lines h =
    rw (splitlines-imports lines h, header_lines_imports lines h, take_all lines)
      (imports-fixed lines h)

fresh_snoc :
    (x : String) (imports lines : List String)
    → mem String_discrete x lines ≡ false
    → All (λ line. mem String_discrete line imports ≡ false) lines
    → All (λ line. mem String_discrete line (imports ++ x ∷ []) ≡ false) lines
unfolding mem
fresh_snoc x imports [] h f = tt
fresh_snoc x imports (y ∷ ys) h (f, fs) =
    ground (arith, fresh_snoc x imports ys, mem-append String_discrete y imports (x ∷ []))

-- Collecting the imports that are collected already changes nothing.
keeps_collected :
    (imports lines : List String) (has : Bool)
    → IsCollected lines
    → All (λ line. mem String_discrete line imports ≡ false) lines
    → collect_imports imports has lines ≡ (imports ++ lines, has)
unfolding collect_imports add_import
keeps_collected imports [] has c fresh = rw (append-nil imports) refl
keeps_collected imports (x ∷ xs) has ((_, hs), (hx, d), (m, ms)) (f, fs) =
    rw
      (m, f, keeps_collected (imports ++ x ∷ []) xs has (hs, d, ms) (fresh_snoc x imports xs hx fs))
      (ap (λ l. (l, has)) (append_assoc imports (x ∷ []) xs))

fresh_nil : (lines : List String) → All (λ line. mem String_discrete line [] ≡ false) lines
unfolding mem
fresh_nil [] = tt
fresh_nil (x ∷ xs) = (refl, fresh_nil xs)

collect-result :
    (imports : List String) (has : Bool)
    → IsCollected imports
    → result_header (collect_imports [] false (result_header (imports, has)))
      ≡ result_header (imports, has)
unfolding collect_imports add_import starts_with
collect-result imports false c = rw (keeps_collected [] imports false c (fresh_nil imports)) refl
collect-result imports true c = rw (keeps_collected [] imports true c (fresh_nil imports)) refl

-- The header of a code is its own header, with no body: splitting it again changes nothing, so that
-- the worker that is leased for it is asked for under the same text.
pub split_snippet-header :
    (code : String)
    → split_snippet (split_snippet code).header ≡ record {
      header = (split_snippet code).header;
      body = empty;
      header_line_count = length (splitlines (split_snippet code).header);
    }
unfolding split_snippet collect_imports
split_snippet-header code =
    let lines = header_of code in
    let h = header_of-All code in
    let c =
      collect_imports-IsCollected (import_lines code) [] false (import_lines-All code)
        (tt, tt, tt) in
    rw
      (
        import_lines-header lines h,
        splitlines-imports lines h,
        header_lines_imports lines h,
        drop_all lines,
        collect-result (collect_imports [] false (import_lines code)).0
            (collect_imports [] false (import_lines code)).1 c,
      )
      (unfold join in refl)
