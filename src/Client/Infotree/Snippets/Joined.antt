-- ===== src/Client/Infotree/Snippets/Joined.antt =====
-- infotree.py: adjacent snippets make up the snippet of the whole stretch.
use Prim.Native.String.{String}
use kimina_lean_server.Base.{
  ◌+◌, ◌≤◌, ◌<◌, true, false, ◌≡◌, refl, ap, sym, ◌∙◌, inl, inr, ◌⊎◌, some, List, ◌==◌, ◌-◌,
  Bool-cases, arith,
}
use kimina_lean_server.Base.Text.{append}
use kimina_lean_server.Base.Text.Pieces.{take_text, drop_text, append_assoc, take-drop_text}
use kimina_lean_server.Client.Infotree.Intervals.{Place, is_before}
use kimina_lean_server.Client.Infotree.Intervals.Partition.{IsUpTo}
use kimina_lean_server.Client.Infotree.Snippets.{
  source_line, lines_between, on_one_line, on_many_lines, extract_snippet,
}
use kimina_lean_server.Client.Infotree.Snippets.Lines.{
  after-some, after-is, slices-append, slice-drop, slice-take, lines_between-append, some_eq,
}

-- The snippet of a stretch on one line, and of one on several lines.
pub one_line :
    (lines : List String) (p q : Place)
    → p.line ≡ q.line
    → extract_snippet lines p q ≡ on_one_line lines p q
unfolding extract_snippet
one_line lines p q e =
    let b : (p.line == q.line) ≡ true = ground arith in rw (b, extract_snippet) refl

pub many_lines :
    (lines : List String) (p q : Place)
    → p.line < q.line
    → extract_snippet lines p q ≡ on_many_lines lines p q
unfolding extract_snippet
many_lines lines p q e =
    let b : (p.line == q.line) ≡ false = ground arith in rw (b, extract_snippet) refl

pub IsUpTo-cases :
    (p q : Place) → IsUpTo p q → (p.line < q.line) ⊎ ((p.line ≡ q.line) × (p.col ≤ q.col))
unfolding is_before
IsUpTo-cases p q h = elim (Bool-cases (p.line == q.line)) [
  | inl e ↦ inr (ground arith, ground arith)
  | inr e ↦ inl (ground arith)
]

-- Two adjacent stretches on one line.
pub on_one_line-append :
    (lines : List String) (p m q : Place) (x y : String)
    → p.line ≡ m.line
    → p.col ≤ m.col
    → m.col ≤ q.col
    → on_one_line lines p m ≡ some x
    → on_one_line lines m q ≡ some y
    → on_one_line lines p q ≡ some (append x y)
unfolding on_one_line
on_one_line-append lines p m q x y e h k f g =
    let (t, a, f') = after-some (source_line lines p.line) _ x f in
    let (t', b, g') = after-some (source_line lines m.line) _ y g in
    let same : t' ≡ t = some_eq (sym b ∙ sym (ap (source_line lines) e) ∙ a) in
    after-is (source_line lines p.line) _ t (some (append x y)) a (
      ap some (
        sym (slices-append p.col m.col q.col t h k)
        ∙ ap (append (take_text (m.col - p.col) (drop_text p.col t)))
            (ap (λ s. take_text (q.col - m.col) (drop_text m.col s)) (sym same) ∙ some_eq g')
        ∙ ap (λ s. append s y) (some_eq f')))

-- What a stretch on several lines is made of.
pub record Parts (lines : List String) (p q : Place) (x : String) : Type 0 where
  pub first : String
  pub middle : String
  pub last : String
  pub first_line : source_line lines p.line ≡ some first
  pub between : lines_between lines (p.line + 1) (q.line - 1 - p.line) ≡ some middle
  pub final_line : source_line lines q.line ≡ some last
  pub whole : append (drop_text p.col first) (append middle (take_text q.col last)) ≡ x

pub to_Parts :
    (lines : List String) (p q : Place) (x : String)
    → on_many_lines lines p q ≡ some x
    → Parts lines p q x
unfolding on_many_lines
to_Parts lines p q x h =
    let (s, a, h1) = after-some (source_line lines p.line) _ x h in
    let (u, b, h2) = after-some (lines_between lines (p.line + 1) (q.line - 1 - p.line)) _ x h1 in
    let (t, c, h3) = after-some (source_line lines q.line) _ x h2 in
    record {
      first = s;
      middle = u;
      last = t;
      first_line = a;
      between = b;
      final_line = c;
      whole = some_eq h3;
    }

pub from_Parts :
    (lines : List String) (p q : Place) (x : String)
    → Parts lines p q x
    → on_many_lines lines p q ≡ some x
unfolding on_many_lines
from_Parts lines p q x r = after-is (source_line lines p.line) _ r.first (some x) r.first_line (
    after-is (lines_between lines (p.line + 1) (q.line - 1 - p.line)) _ r.middle (some x) r.between
      (after-is (source_line lines q.line) _ r.last (some x) r.final_line (ap some r.whole)))

-- A stretch on one line, before one on several lines.
pub on_one_line-many :
    (lines : List String) (p m q : Place) (x y : String)
    → p.line ≡ m.line
    → p.col ≤ m.col
    → on_one_line lines p m ≡ some x
    → Parts lines m q y
    → Parts lines p q (append x y)
unfolding on_one_line
on_one_line-many lines p m q x y e h f r =
    let (t, a, f') = after-some (source_line lines p.line) _ x f in
    let same : r.first ≡ t = some_eq (sym r.first_line ∙ sym (ap (source_line lines) e) ∙ a) in
    let rest = append r.middle (take_text q.col r.last) in
    record {
      first = t;
      middle = r.middle;
      last = r.last;
      first_line = a;
      between = ap (λ i. lines_between lines (i + 1) (q.line - 1 - i)) e ∙ r.between;
      final_line = r.final_line;
      whole =
          ap (λ s. append s rest) (sym (slice-drop p.col m.col t h))
          ∙ append_assoc (take_text (m.col - p.col) (drop_text p.col t)) (drop_text m.col t) rest
          ∙ ap (λ s. append s (append (drop_text m.col t) rest)) (some_eq f')
          ∙ ap (append x) (ap (λ s. append (drop_text m.col s) rest) (sym same) ∙ r.whole);
    }

-- A stretch on several lines, before one on one line.
pub on_many_lines-one :
    (lines : List String) (p m q : Place) (x y : String)
    → m.line ≡ q.line
    → m.col ≤ q.col
    → Parts lines p m x
    → on_one_line lines m q ≡ some y
    → Parts lines p q (append x y)
unfolding on_one_line
on_many_lines-one lines p m q x y e h r g =
    let (t, a, g') = after-some (source_line lines m.line) _ y g in
    let same : t ≡ r.last = some_eq (sym a ∙ r.final_line) in
    let start = drop_text p.col r.first in
    record {
      first = r.first;
      middle = r.middle;
      last = r.last;
      first_line = r.first_line;
      between = ap (λ i. lines_between lines (p.line + 1) (i - 1 - p.line)) (sym e) ∙ r.between;
      final_line = ap (source_line lines) (sym e) ∙ r.final_line;
      whole =
          ap (λ s. append start (append r.middle s)) (sym (slice-take m.col q.col r.last h))
          ∙ ap (append start) (
              sym (
                append_assoc r.middle (take_text m.col r.last)
                  (take_text (q.col - m.col) (drop_text m.col r.last))))
          ∙ sym (
              append_assoc start (append r.middle (take_text m.col r.last))
                (take_text (q.col - m.col) (drop_text m.col r.last)))
          ∙ ap (λ s. append s (take_text (q.col - m.col) (drop_text m.col r.last))) r.whole
          ∙ ap (append x)
              (ap (λ s. take_text (q.col - m.col) (drop_text m.col s)) (sym same) ∙ some_eq g');
    }

-- Two adjacent stretches on several lines.
pub Parts-append :
    (lines : List String) (p m q : Place) (x y : String)
    → p.line < m.line
    → m.line < q.line
    → Parts lines p m x
    → Parts lines m q y
    → Parts lines p q (append x y)
Parts-append lines p m q x y h k r r' =
    let same : r'.first ≡ r.last = some_eq (sym r'.first_line ∙ r.final_line) in
    let start = drop_text p.col r.first in
    let end = take_text q.col r'.last in
    let head = take_text m.col r.last in
    let tail = drop_text m.col r.last in
    record {
      first = r.first;
      middle = append r.middle (append r.last r'.middle);
      last = r'.last;
      first_line = r.first_line;
      between =
          lines_between-append lines (p.line + 1) (m.line - 1 - p.line) (q.line - 1 - m.line) m.line
            (q.line - 1 - p.line) r.middle r.last r'.middle (omega arith) (omega arith) r.between
            r.final_line r'.between;
      final_line = r'.final_line;
      whole =
          ap (λ s. append start (append (append r.middle (append s r'.middle)) end))
            (sym (take-drop_text m.col r.last))
          ∙ simp append_assoc refl
          ∙ ap (λ s. append s (append tail (append r'.middle end))) r.whole
          ∙ ap (append x)
              (ap (λ s. append (drop_text m.col s) (append r'.middle end)) (sym same) ∙ r'.whole);
    }
