-- ===== src/Legacy/Examples.antt =====
-- Runs of the pool and of a check at concrete answers.
use kimina_lean_server.Base.{
  ℕ, true, false, ◌≡◌, ◌↔◌, refl, Option, none, some, List, [], ◌∷◌, mem, discard, same_text,
  ℕ_discrete,
}
use kimina_lean_server.Base.Int.{pos}
use kimina_lean_server.Base.Dict
use kimina_lean_server.Base.Text.{strip}
use kimina_lean_server.Schemas.{warning_severity}
use kimina_lean_server.Legacy.Responses.{
  Pos, Message, Sorry, command, ReplResponse, SnippetAnalysis, valid, require_error_or_response,
  analyze,
}
use kimina_lean_server.Legacy.Responses.Classes.{IsProved, analyze-IsProved}
use kimina_lean_server.Legacy.Manager.{
  Manager, lookup, is_blank, get_repl, release_repl, here, next, gets, releases, init,
}
use kimina_lean_server.Legacy.Manager.Invariant.{IsValid}
use kimina_lean_server.Legacy.Manager.Steps.{manager_reachable-IsValid}
use kimina_lean_server.Legacy.Checks.{apply_header_offset, timed_out, Visit, run_one}
use kimina_lean_server.Legacy.Checks.Returns.{Returned, run_one-Returned}

-- A pool of one REPL that may be used once.
abbrev pool : Manager
pool = init 1 (pos 1)

abbrev leased : Manager
leased = (get_repl "" true 7 0 pool).0

leased_busy : (leased.busy ≡ 7 ∷ []) × (leased.free ≡ [])
unfolding get_repl
leased_busy = (refl, refl)

abbrev given_back : Manager
given_back = release_repl 7 3 leased

given_back_free : (given_back.busy ≡ []) × (given_back.free ≡ 7 ∷ [])
unfolding get_repl release_repl mem ℕ_discrete Dict.get Dict.put discard
given_back_free = (refl, refl)

manager_reachable-IsValid_example : IsValid given_back
unfolding Dict.get
manager_reachable-IsValid_example =
    manager_reachable-IsValid 1 (pos 1) given_back
      (next (next here (gets "" true 7 0 refl)) (releases 7 3))

-- Another header makes the free REPL give place.
replaced : (get_repl "import A" true 8 5 given_back).1 ≡ some 8
unfolding get_repl release_repl mem ℕ_discrete Dict.get Dict.put same_text discard
replaced = refl

-- A pool whose only REPL is leased lets the next task wait.
waits : (get_repl "" true 8 5 leased).1 ≡ none
unfolding get_repl
waits = refl

abbrev late : Visit
late = record {
  debug = false;
  start_fails = false;
  header_sent = timed_out;
  body_sent = λ body. timed_out;
  timeout = 60;
  timeout_text = "60";
  now = 5;
}

leased_fresh :
    is_blank (lookup 7 leased.repls).header ≡ true
    → (lookup 7 leased.repls).header_cmd_response ≡ none
unfolding get_repl Dict.get Dict.put ℕ_discrete
leased_fresh h = refl

run_one-Returned_example : Returned 7 leased.busy (run_one "s" "theorem t" 7 late leased).0.busy
run_one-Returned_example = run_one-Returned "s" "theorem t" 7 late leased leased_fresh

-- The REPL that was late is destroyed.
late_run : (run_one "s" "theorem t" 7 late leased).0.closing ≡ 7 ∷ []
unfolding get_repl run_one Dict.get Dict.put ℕ_discrete strip
late_run = refl

abbrev at_line : ℕ → Option Pos
at_line n = some (record { line = n; column = 0 })

abbrev one_sorry : List Sorry
one_sorry = record { start_pos = at_line 1; end_pos = at_line 1; goal = "x" } ∷ []

abbrev warnings : Option (List Message)
warnings = some (
    record {
      severity = warning_severity;
      start_pos = at_line 1;
      end_pos = at_line 1;
      text = "declaration uses 'sorry'";
    }
    ∷ [])

abbrev answer : Option (List Message) → Option (List Sorry) → ReplResponse
answer messages sorries = record {
  id = "s";
  time = 3;
  error = none;
  response = some (command (record { messages = messages; sorries = sorries }));
  diagnostics = none;
}

-- Positions move by the lines of the header, those of sorries only if there are messages.
shifted :
    apply_header_offset (answer warnings (some one_sorry)) 2
    ≡ answer
        (some (
          record {
            severity = warning_severity;
            start_pos = at_line 3;
            end_pos = at_line 3;
            text = "declaration uses 'sorry'";
          }
          ∷ []))
        (some (record { start_pos = at_line 3; end_pos = at_line 3; goal = "x" } ∷ []))
unfolding apply_header_offset
shifted = refl

not_shifted : apply_header_offset (answer none (some one_sorry)) 2 ≡ answer none (some one_sorry)
unfolding apply_header_offset
not_shifted = refl

analyze-IsProved_example :
    (a : SnippetAnalysis) × (analyze (answer warnings none) ≡ some a)
    × ((a.status ≡ valid) ↔ IsProved (answer warnings none))
unfolding require_error_or_response
analyze-IsProved_example = analyze-IsProved (answer warnings none) refl
