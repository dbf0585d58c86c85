-- ===== src/Client/Infotree/Texts.antt =====
-- infotree.py: no character of the proof is lost, doubled or moved past another.
use Prim.Native.String.{String}
use kimina_lean_server.Base.{
  ℕ, zero, suc, ◌≡◌, refl, ap, sym, ◌∙◌, inl, inr, Option, none, some, List, [], ◌∷◌, take, drop,
  Bool-cases,
}
use kimina_lean_server.Base.Text.{append}
use kimina_lean_server.Base.Text.Pieces.{
  joined, append_assoc, append-empty, take-drop_text, rstrip_of-drop_text, joined-lines_with_ends,
  take_text, drop_text, lines_with_ends,
}
use kimina_lean_server.Client.Infotree.{TacticStep, text_of}
use kimina_lean_server.Client.Infotree.Comments.{ends_with_by}
use kimina_lean_server.Client.Infotree.Trailing.{
  separate_trailing_whitespace, from_last, upward, comment_lines, is_blank_code, trailing_comments,
  separate_trailing_comment, cut_trailing, transfer, transfer_trailing,
}
use kimina_lean_server.Client.Infotree.Merge.{
  is_unfinished, gather, merge_unfinished, transfer_by, set_goals_before, set_goals_after,
  merge_intervals, cut_of,
}

whitespace-append :
    (s : String) → append (separate_trailing_whitespace s).0 (separate_trailing_whitespace s).1 ≡ s
unfolding separate_trailing_whitespace
whitespace-append s = rstrip_of-drop_text is_blank_code s

upward-from_last :
    (above lines : List String)
    → upward (from_last above lines) ≡ append (upward above) (joined lines)
unfolding from_last
upward-from_last above [] = sym (append-empty (upward above))
upward-from_last above (line ∷ lines) =
    upward-from_last (line ∷ above) lines ∙ append_assoc (upward above) line (joined lines)

upward-drop :
    (n : ℕ) (lines : List String)
    → append (upward (drop n lines)) (upward (take n lines)) ≡ upward lines
upward-drop zero lines = append-empty (upward lines)
upward-drop (suc n) [] = refl
upward-drop (suc n) (line ∷ above) =
    sym (append_assoc (upward (drop n above)) (upward (take n above)) line)
    ∙ ap (λ s. append s line) (upward-drop n above)

trailing_comments-upward :
    (jumped : ℕ) (lines : List String)
    → append (upward (trailing_comments jumped lines).0) (upward (trailing_comments jumped lines).1)
      ≡ upward (drop jumped lines)
unfolding trailing_comments
trailing_comments-upward zero [] = refl
trailing_comments-upward (suc jumped) [] = refl
trailing_comments-upward (suc jumped) (line ∷ above) = trailing_comments-upward jumped above
trailing_comments-upward zero (line ∷ above) =
    go (comment_lines (line ∷ above)) refl (λ n. trailing_comments-upward n above)
  where
    lines : List String
    lines = line ∷ above

    go :
        (o : Option ℕ)
        → comment_lines lines ≡ o
        → ((n : ℕ)
            → append (upward (trailing_comments n above).0) (upward (trailing_comments n above).1)
              ≡ upward (drop n above))
        → append (upward (trailing_comments zero lines).0) (upward (trailing_comments zero lines).1)
          ≡ upward lines
    go none e ih = rw (e, trailing_comments) (append-empty (upward lines))
    go (some zero) e ih = rw (e, trailing_comments) (append-empty (upward lines))
    go (some (suc n)) e ih =
        let rest = trailing_comments n above in
        let block = upward (take (suc n) lines) in
        rw (e, trailing_comments)
          (sym (append_assoc (upward rest.0) (upward rest.1) block)
            ∙ ap (λ s. append s block) (ih n)
            ∙ upward-drop (suc n) lines)

comment-append :
    (s : String) → append (separate_trailing_comment s).0 (separate_trailing_comment s).1 ≡ s
unfolding separate_trailing_comment
comment-append s =
    trailing_comments-upward 0 (from_last [] (lines_with_ends s))
    ∙ upward-from_last [] (lines_with_ends s)
    ∙ joined-lines_with_ends s

cut_trailing-append : (s : String) → append (cut_trailing s).0 (cut_trailing s).1 ≡ s
unfolding cut_trailing
cut_trailing-append s =
    let first = separate_trailing_whitespace s in
    let second = separate_trailing_comment first.0 in
    let third = separate_trailing_whitespace second.0 in
    sym (append_assoc third.0 third.1 (append second.1 first.1))
    ∙ ap (λ t. append t (append second.1 first.1)) (whitespace-append second.0)
    ∙ sym (append_assoc second.0 second.1 first.1)
    ∙ ap (λ t. append t first.1) (comment-append first.0)
    ∙ whitespace-append s

transfer-text_of :
    (carried : String) (step : TacticStep) (steps : List TacticStep)
    → text_of (transfer carried (step ∷ steps)) ≡ append carried (text_of (step ∷ steps))
unfolding transfer
transfer-text_of carried step [] = append_assoc carried step.tactic String.[]
transfer-text_of carried step (next ∷ steps) =
    let text = append carried step.tactic in
    let cut = cut_trailing text in
    ap (append cut.0) (transfer-text_of cut.1 next steps)
    ∙ sym (append_assoc cut.0 cut.1 (text_of (next ∷ steps)))
    ∙ ap (λ t. append t (text_of (next ∷ steps))) (cut_trailing-append text)
    ∙ append_assoc carried step.tactic (text_of (next ∷ steps))

gather-text_of :
    (current : TacticStep) (steps : List TacticStep)
    → text_of (gather current steps) ≡ append current.tactic (text_of steps)
unfolding gather
gather-text_of current [] = refl
gather-text_of current (next ∷ steps) = elim (Bool-cases (is_unfinished current.tactic)) [
  | inl e ↦
      let merged : TacticStep = record {
        goals_before = current.goals_before;
        goals_after = next.goals_after;
        tactic = append current.tactic next.tactic;
      } in
      rw (e, gather)
        (gather-text_of merged steps ∙ append_assoc current.tactic next.tactic (text_of steps))
  | inr e ↦ rw (e, gather) (ap (append current.tactic) (gather-text_of next steps))
]

transfer_by-text_of :
    (carried : String) (step : TacticStep) (steps : List TacticStep)
    → text_of (transfer_by carried (step ∷ steps)) ≡ append carried (text_of (step ∷ steps))
unfolding transfer_by
transfer_by-text_of carried step [] = append_assoc carried step.tactic String.[]
transfer_by-text_of carried step (next ∷ steps) =
    let text = append carried step.tactic in
    let rest = text_of (next ∷ steps) in
    let n = cut_of text in
    elim (Bool-cases (ends_with_by text)) [
      | inl e ↦
          rw (e, transfer_by)
            (ap (append (take_text n text)) (transfer_by-text_of (drop_text n text) next steps)
              ∙ sym (append_assoc (take_text n text) (drop_text n text) rest)
              ∙ ap (λ t. append t rest) (take-drop_text n text)
              ∙ append_assoc carried step.tactic rest)
      | inr e ↦
          rw (e, transfer_by)
            (ap (append text) (transfer_by-text_of String.[] next steps)
              ∙ append_assoc carried step.tactic rest)
    ]

set_goals_before-text_of :
    (steps : List TacticStep) → text_of (set_goals_before steps) ≡ text_of steps
unfolding set_goals_before
set_goals_before-text_of [] = refl
set_goals_before-text_of (step ∷ []) = refl
set_goals_before-text_of (step ∷ next ∷ steps) =
    ap (append step.tactic) (set_goals_before-text_of (next ∷ steps))

set_goals_after-text_of :
    (steps : List TacticStep) → text_of (set_goals_after steps) ≡ text_of steps
unfolding set_goals_after
set_goals_after-text_of [] = refl
set_goals_after-text_of (step ∷ []) = refl
set_goals_after-text_of (step ∷ next ∷ steps) =
    ap (append step.tactic) (set_goals_after-text_of (next ∷ steps))

transfer_by_all : (steps : List TacticStep) → text_of (transfer_by String.[] steps) ≡ text_of steps
unfolding transfer_by
transfer_by_all [] = refl
transfer_by_all (step ∷ steps) = transfer_by-text_of String.[] step steps

merge_unfinished-text_of :
    (steps : List TacticStep) → text_of (merge_unfinished steps) ≡ text_of steps
unfolding merge_unfinished
merge_unfinished-text_of [] = refl
merge_unfinished-text_of (step ∷ steps) = gather-text_of step steps

transfer_all : (steps : List TacticStep) → text_of (transfer_trailing steps) ≡ text_of steps
unfolding transfer
transfer_all [] = refl
transfer_all (step ∷ steps) = transfer-text_of String.[] step steps

-- Moving what trails a tactic to the next one, merging tactics that are not finished and moving a `by`
-- leave the text of the proof as it is: the tactics, one after another, are the same text before and
-- after, whatever they hold.
pub merge_intervals-text_of :
    (steps : List TacticStep) → text_of (merge_intervals (transfer_trailing steps)) ≡ text_of steps
unfolding merge_intervals
merge_intervals-text_of steps =
    let moved = transfer_trailing steps in
    let merged = merge_unfinished moved in
    let by_moved = transfer_by String.[] merged in
    set_goals_after-text_of (set_goals_before by_moved)
    ∙ set_goals_before-text_of by_moved
    ∙ transfer_by_all merged
    ∙ merge_unfinished-text_of moved
    ∙ transfer_all steps
