-- ===== src/Legacy/Responses.antt =====
-- packages/lean-client/lean_client/models.py: the answers of a REPL, and how the client classifies
-- them. Of a `CommandResponse` only its messages and sorries are read.
pub mod Classes
use kimina_lean_server.Base.{
  ℕ, String, Bool, true, false, ◌&&◌, ◌||◌, not, Option, none, some, List, [], ◌∷◌, any,
  if◌then◌else◌,
}
use kimina_lean_server.Base.Text.{is_empty, contains}
use kimina_lean_server.Schemas.{Severity, is_error_severity}

pub record Pos : Type 0 where
  pub line : ℕ
  pub column : ℕ

pub record Message : Type 0 where
  pub severity : Severity
  pub start_pos : Option Pos
  pub end_pos : Option Pos
  pub text : String

pub record Sorry : Type 0 where
  pub start_pos : Option Pos
  pub end_pos : Option Pos
  pub goal : String

pub record CommandResponse : Type 0 where
  pub messages : Option (List Message)
  pub sorries : Option (List Sorry)

-- `CommandResponse | Error`
pub data Payload : Type 0 where
  command : CommandResponse → Payload
  repl_failure : String → Payload

pub record Diagnostics : Type 0 where
  pub repl_uuid : ℕ
  pub cpu_max : Option ℕ
  pub memory_max : Option ℕ

pub record ReplResponse : Type 0 where
  pub id : String
  pub time : ℕ
  pub error : Option String
  pub response : Option Payload
  pub diagnostics : Option Diagnostics

pub data SnippetStatus : Type 0 where
  valid sorry lean_error repl_error timeout_error server_error : SnippetStatus

pub record SnippetAnalysis : Type 0 where
  pub status : SnippetStatus
  pub time : Option ℕ

abbrev is_error_message : Message → Bool
is_error_message m = is_error_severity m.severity

unfoldable pub is_error : CommandResponse → Bool
is_error r = elim r.messages [ none ↦ false | some messages ↦ any is_error_message messages ]

abbrev is_nonempty {ℓ} : {A : Type ℓ} → List A → Bool
is_nonempty [] = false
is_nonempty (x ∷ xs) = true

unfoldable pub has_sorry : CommandResponse → Bool
has_sorry r = elim r.sorries [ none ↦ false | some sorries ↦ is_nonempty sorries ]

unfoldable pub is_valid : CommandResponse → Bool
is_valid r = not (is_error r) && not (has_sorry r)

unfoldable pub is_sorry : CommandResponse → Bool
is_sorry r = not (is_error r) && has_sorry r

abbrev is_given : Option String → Bool
is_given none = false
is_given (some text) = not (is_empty text)

-- require_error_or_response
unfoldable pub require_error_or_response : Option String → Option Payload → Bool
require_error_or_response error none = is_given error
require_error_or_response none (some payload) = true
require_error_or_response (some text) (some payload) = false

analysis : SnippetStatus → Option ℕ → Option SnippetAnalysis
analysis status time = some (record { status = status; time = time })

-- The end of `analyze`, on a `CommandResponse`; none is the exception.
unfoldable pub analyze_command : ℕ → CommandResponse → Option SnippetAnalysis
unfolding analysis
analyze_command time r =
    if is_error r
    then analysis lean_error (some time)
    else if is_valid r
    then analysis valid (some time)
    else if is_sorry r
    then analysis sorry (some time)
    else none

-- analyze
unfoldable pub analyze : ReplResponse → Option SnippetAnalysis
unfolding analysis analyze_command
analyze r = elim r.error [
  | some text ↦
      if contains text "timed out" then analysis timeout_error none else analysis server_error none
  | none ↦ elim r.response [
    | none ↦ none
    | some (repl_failure text) ↦ analysis repl_error (some r.time)
    | some (command c) ↦ analyze_command r.time c
  ]
]
