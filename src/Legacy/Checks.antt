-- ===== src/Legacy/Checks.antt =====
-- server/routers/check.py: `run_checks`, for one snippet, with `prep` of server/manager.py and the
-- counting of uses in `send` of server/repl.py. What the REPL does is part of a `Visit`; what other
-- tasks do to the pool meanwhile is left out.
pub mod Returns
use kimina_lean_server.Base.{
  ℕ, ◌+◌, String, Bool, true, false, not, Option, none, some, List, [], ◌∷◌, map, leb,
  if◌then◌else◌,
}
use kimina_lean_server.Base.Text.{append}
use kimina_lean_server.Split.{split_snippet}
use kimina_lean_server.Legacy.Responses.{
  Pos, Message, Sorry, CommandResponse, Payload, command, repl_failure, Diagnostics, ReplResponse,
}
use kimina_lean_server.Legacy.Manager.{
  Repl, Manager, lookup, is_blank, destroy_repl, release_repl, change,
}

-- _shift_line, of a position that is there
abbrev shift_line : ℕ → Option Pos → Option Pos
shift_line offset none = none
shift_line offset (some p) = some (record p { line = p.line + offset })

abbrev shift_message : ℕ → Message → Message
shift_message offset m = record m {
  start_pos = shift_line offset m.start_pos;
  end_pos = shift_line offset m.end_pos;
}

abbrev shift_sorry : ℕ → Sorry → Sorry
shift_sorry offset s = record s {
  start_pos = shift_line offset s.start_pos;
  end_pos = shift_line offset s.end_pos;
}

abbrev shift_sorries : ℕ → Option (List Sorry) → Option (List Sorry)
shift_sorries offset none = none
shift_sorries offset (some sorries) = some (map (shift_sorry offset) sorries)

-- The part of `_apply_header_offset` that has a payload. Without messages it stops at once.
shift_command : ℕ → CommandResponse → CommandResponse
shift_command offset c = elim c.messages [
  | none ↦ c
  | some [] ↦ c
  | some (m ∷ ms) ↦ record {
    messages = some (map (shift_message offset) (m ∷ ms));
    sorries = shift_sorries offset c.sorries;
  }
]

-- _apply_header_offset
unfoldable pub apply_header_offset : ReplResponse → ℕ → ReplResponse
unfolding shift_command
apply_header_offset r offset = if leb offset 0 then r else elim r.error [
  | some text ↦ r
  | none ↦ elim r.response [
    | none ↦ r
    | some (repl_failure text) ↦ r
    | some (command c) ↦ record r { response = some (command (shift_command offset c)) }
  ]
]

-- What `send_timeout` does.
pub data Sent : Type 0 where
  answered : ReplResponse → Sent
  timed_out cancelled : Sent
  raised : String → Sent

pub record Visit : Type 0 where
  pub debug : Bool
  pub start_fails : Bool  -- repl.start()
  pub header_sent : Sent
  pub body_sent : String → Sent
  pub timeout : ℕ
  pub timeout_text : String
  pub now : ℕ

pub data Prepared : Type 0 where
  ready : Option ReplResponse → Prepared
  header_timed_out was_cancelled : Prepared
  failed : String → Prepared

abbrev without_diagnostics : Bool → ReplResponse → ReplResponse
without_diagnostics true r = r
without_diagnostics false r = record r { diagnostics = none }

abbrev pub started : Repl → Repl
started r = record r { is_running = true }

abbrev pub used : Repl → Repl
used r = record r { use_count = r.use_count + 1 }

abbrev keeps_response : ReplResponse → Repl → Repl
keeps_response response r = record r { header_cmd_response = some response }

-- An error of the header destroys the REPL. An error is not empty, as `require_error_or_response`
-- sees to.
abbrev destroy_if_error : Option String → ℕ → Manager → Manager
unfolding destroy_repl
destroy_if_error none id m = m
destroy_if_error (some text) id m = destroy_repl id m

-- The end of `prep`, once the header was sent.
unfoldable pub prep_header : ℕ → Visit → Sent → Manager → Manager × Prepared
unfolding destroy_if_error
prep_header id v (answered r) m =
    let response = without_diagnostics v.debug r in
    (
      change (keeps_response response) id (destroy_if_error response.error id (change used id m)),
      ready (some response),
    )
prep_header id v timed_out m = (m, header_timed_out)
prep_header id v cancelled m = (m, was_cancelled)
prep_header id v (raised text) m = (m, failed "Failed to run header on REPL")

-- prep
unfoldable pub prep : ℕ → Visit → Manager → Manager × Prepared
unfolding is_blank prep_header
prep id v m =
    if (lookup id m.repls).is_running
    then (m, ready none)
    else if v.start_fails
    then (m, failed "Failed to start REPL")
    else if is_blank (lookup id m.repls).header
    then (change started id m, ready (lookup id m.repls).header_cmd_response)
    else prep_header id v v.header_sent (change started id m)

pub data Outcome : Type 0 where
  response : ReplResponse → Outcome
  http_error : ℕ → String → Outcome
  raised_cancelled : Outcome

abbrev timeout_response : String → String → ℕ → ℕ → ReplResponse
timeout_response snippet_id text timeout id = record {
  id = snippet_id;
  time = timeout;
  error = some text;
  response = none;
  diagnostics = some (record { repl_uuid = id; cpu_max = none; memory_max = none });
}

-- The part of `run_one` that sends the body.
unfoldable pub run_body : String → String → ℕ → Visit → Manager → Manager × Outcome
unfolding destroy_repl release_repl apply_header_offset
run_body snippet_id code id v m = elim (v.body_sent (split_snippet code).body) [
  | answered r ↦ (
    release_repl id v.now (change used id m),
    response (
        without_diagnostics v.debug (apply_header_offset r (split_snippet code).header_line_count)),
  )
  | timed_out ↦ (
    destroy_repl id m,
    response (
        timeout_response snippet_id
          (append "Lean REPL command timed out in " (append v.timeout_text " seconds")) v.timeout
          id),
  )
  | cancelled ↦ (destroy_repl id m, raised_cancelled)
  | raised text ↦ (destroy_repl id m, http_error 500 text)
]

abbrev error_of : Option ReplResponse → Option String
error_of none = none
error_of (some r) = r.error

-- What `run_one` does with what `prep` has ended with.
unfoldable pub after_prep : String → String → ℕ → Visit → Prepared → Manager → Manager × Outcome
unfolding destroy_repl run_body
after_prep snippet_id code id v (ready none) m = run_body snippet_id code id v m
after_prep snippet_id code id v (ready (some r)) m = elim r.error [
  | none ↦ run_body snippet_id code id v m
  | some text ↦ (m, response r)
]
after_prep snippet_id code id v header_timed_out m = (
  destroy_repl id m,
  response (
      timeout_response snippet_id
        (append "Lean REPL header command timed out in " (append v.timeout_text " seconds"))
        v.timeout id),
)
after_prep snippet_id code id v was_cancelled m = (destroy_repl id m, raised_cancelled)
after_prep snippet_id code id v (failed text) m = (destroy_repl id m, http_error 500 text)

-- run_one, once `get_repl` has leased the REPL number `id`
unfoldable pub run_one : String → String → ℕ → Visit → Manager → Manager × Outcome
unfolding prep after_prep
run_one snippet_id code id v m =
    let prepared = prep id v m in after_prep snippet_id code id v prepared.1 prepared.0
