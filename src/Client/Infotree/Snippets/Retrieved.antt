-- ===== src/Client/Infotree/Snippets/Retrieved.antt =====
-- infotree.py: the tactics that `retrieve_tactics` cuts out of a partition are its whole text.
use Prim.Native.String.{String}
use mathlib.Core.Path.{subst}
use kimina_lean_server.Base.{
  ◌≡◌, refl, ap, sym, ◌∙◌, inl, inr, some, List, [], ◌∷◌, All, ◌≢◌, arith,
}
use kimina_lean_server.Base.Text.{append}
use kimina_lean_server.Base.Text.Pieces.{append-empty}
use kimina_lean_server.Client.Infotree.{TacticStep, text_of}
use kimina_lean_server.Client.Infotree.Intervals.{Place, Interval, adjust_intervals}
use kimina_lean_server.Client.Infotree.Intervals.Partition.{
  IsUpTo, before-IsUpTo, is_before_refl, is_before_trans, Leads, EndsLater, GoesOn,
  adjust_intervals-Partitions,
}
use kimina_lean_server.Client.Infotree.Trailing.{transfer_trailing}
use kimina_lean_server.Client.Infotree.Merge.{merge_intervals}
use kimina_lean_server.Client.Infotree.Texts.{merge_intervals-text_of}
use kimina_lean_server.Client.Infotree.Snippets.{extract_snippet, retrieve_tactics, extract_tactics}
use kimina_lean_server.Client.Infotree.Snippets.Lines.{after-some}
use kimina_lean_server.Client.Infotree.Snippets.Joined.{
  IsUpTo-cases, one_line, many_lines, on_one_line-append, on_one_line-many, on_many_lines-one,
  Parts-append, to_Parts, from_Parts,
}

-- Two adjacent snippets are the snippet of the whole stretch.
extract_snippet-append :
    (lines : List String) (p m q : Place) (x y : String)
    → IsUpTo p m
    → IsUpTo m q
    → extract_snippet lines p m ≡ some x
    → extract_snippet lines m q ≡ some y
    → extract_snippet lines p q ≡ some (append x y)
extract_snippet-append lines p m q x y h k f g = elim (IsUpTo-cases p m h) [
  | inl a ↦
      let left = to_Parts lines p m x (sym (many_lines lines p m a) ∙ f) in
      many_lines lines p q (ground (arith, IsUpTo-cases m q k))
      ∙ from_Parts lines p q (append x y) (elim (IsUpTo-cases m q k) [
        | inl b ↦
            Parts-append lines p m q x y a b left
              (to_Parts lines m q y (sym (many_lines lines m q b) ∙ g))
        | inr (b, c) ↦ on_many_lines-one lines p m q x y b c left (sym (one_line lines m q b) ∙ g)
      ])
  | inr (a, b) ↦
      let left = sym (one_line lines p m a) ∙ f in
      elim (IsUpTo-cases m q k) [
        | inl c ↦
            many_lines lines p q (omega arith)
            ∙ from_Parts lines p q (append x y) (
                on_one_line-many lines p m q x y a b left
                  (to_Parts lines m q y (sym (many_lines lines m q c) ∙ g)))
        | inr (c, d) ↦
            one_line lines p q (a ∙ c)
            ∙ on_one_line-append lines p m q x y a b d left (sym (one_line lines m q c) ∙ g)
      ]
]

Leads-IsUpTo : (p q : Place) (ivs : List Interval) → Leads p ivs q → All EndsLater ivs → IsUpTo p q
Leads-IsUpTo p q [] l h = subst (IsUpTo p) l (is_before_refl p)
Leads-IsUpTo p q (iv ∷ ivs) (s, l) (h, hs) =
    subst (λ r. IsUpTo r q) s
      (is_before_trans iv.start iv.finish q (before-IsUpTo iv.start iv.finish h)
        (Leads-IsUpTo iv.finish q ivs l hs))

retrieve-snippet :
    (lines : List String) (p q : Place) (iv : Interval) (ivs : List Interval)
    (steps : List TacticStep)
    → Leads p (iv ∷ ivs) q
    → All EndsLater (iv ∷ ivs)
    → retrieve_tactics (iv ∷ ivs) lines ≡ some steps
    → extract_snippet lines p q ≡ some (text_of steps)
unfolding retrieve_tactics
retrieve-snippet lines p q iv [] steps (s, l) h f =
    let (text, a, f') = after-some (extract_snippet lines iv.start iv.finish) _ steps f in
    let step : TacticStep = record {
      goals_before = iv.goals_before;
      goals_after = iv.goals_after;
      tactic = text;
    } in
    let e : step ∷ [] ≡ steps = cc in
    let whole : text ≡ text_of steps = sym (append-empty text) ∙ ap text_of e in
    ap (λ r. extract_snippet lines r q) (sym s)
    ∙ ap (extract_snippet lines iv.start) (sym l)
    ∙ a
    ∙ ap some whole
retrieve-snippet lines p q iv (next ∷ ivs) steps (s, l) (h, hs) f =
    let (text, a, f') = after-some (extract_snippet lines iv.start iv.finish) _ steps f in
    let (rest, b, f'') = after-some (retrieve_tactics (next ∷ ivs) lines) _ steps f' in
    let step : TacticStep = record {
      goals_before = iv.goals_before;
      goals_after = iv.goals_after;
      tactic = text;
    } in
    let e : step ∷ rest ≡ steps = cc in
    ap (λ r. extract_snippet lines r q) (sym s)
    ∙ extract_snippet-append lines iv.start iv.finish q text (text_of rest)
        (before-IsUpTo iv.start iv.finish h) (Leads-IsUpTo iv.finish q (next ∷ ivs) l hs) a
        (retrieve-snippet lines iv.finish q next ivs rest l hs b)
    ∙ ap (λ x. some (text_of x)) e

retrieve_partition :
    (lines : List String) (p q : Place) (parts : List Interval) (steps : List TacticStep)
    → parts ≢ []
    → Leads p parts q
    → All EndsLater parts
    → retrieve_tactics parts lines ≡ some steps
    → extract_snippet lines p q ≡ some (text_of steps)
retrieve_partition lines p q [] steps n l h f = absurd (n refl)
retrieve_partition lines p q (iv ∷ ivs) steps n l h f =
    retrieve-snippet lines p q iv ivs steps l h f

-- Where the intervals, of which none ends before it starts, leave something of the file and lie within
-- it, the tactics are, one after another, exactly a snippet of the file: that between two places
-- between which all the intervals lie.
pub extract_tactics-text_of :
    (ivs : List Interval) (lines : List String) (steps : List TacticStep)
    → adjust_intervals ivs ≢ []
    → All GoesOn ivs
    → extract_tactics ivs lines ≡ some steps
    → (p : Place) × (q : Place) × All (λ (j : Interval). IsUpTo p j.start) ivs
      × All (λ (j : Interval). IsUpTo j.finish q) ivs
      × (extract_snippet lines p q ≡ some (text_of steps))
unfolding extract_tactics
extract_tactics-text_of [] lines steps n h f = absurd (n (unfold adjust_intervals in refl))
extract_tactics-text_of (iv ∷ ivs) lines steps n h f =
    let parts = adjust_intervals (iv ∷ ivs) in
    let (raw, a, f') = after-some (retrieve_tactics parts lines) _ steps f in
    let e : merge_intervals (transfer_trailing raw) ≡ steps = cc in
    let (p, q, first, last, leads, later) = adjust_intervals-Partitions (iv ∷ ivs) (λ e. cc) h in
    (
      p,
      q,
      first,
      last,
      retrieve_partition lines p q parts raw n leads later a
          ∙ ap some (sym (merge_intervals-text_of raw) ∙ ap text_of e),
    )
