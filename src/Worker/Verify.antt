-- ===== src/Worker/Verify.antt =====
-- server/pantograph_worker.py: `verify_complete_proof`.
pub mod Accepted
use Prim.Native.Nat.{Ordering}
use Prim.Native.String.{compare}
use mathlib.Core.List.{zip}
use kimina_lean_server.Base.{
  String, String_discrete, Bool, true, false, not, ◌||◌, Option, none, some, List, [], ◌∷◌, ◌++◌,
  map, keep, mem, any, set_of, same_text, if◌then◌else◌,
}
use kimina_lean_server.Base.Text.{append, join, rstrip}
use kimina_lean_server.Schemas.{
  ExecMessage, DebugInfo, Severity, error_severity, message, is_error_severity,
}
use kimina_lean_server.Worker.{Try, returned, raised}
use kimina_lean_server.Worker.Axioms.{extract_axioms, mentions_sorry}

-- ExecVerifyStatus
pub data VerifyStatus : Type 0 where
  accepted rejected error overloaded cancelled : VerifyStatus

-- PantographVerifyResult
pub record VerifyAnswer : Type 0 where
  pub status : VerifyStatus
  pub axioms : List String
  pub messages : List ExecMessage
  pub debug : Option DebugInfo

-- A message of a compilation unit: what `payload_to_exec_messages` makes of it, and its kind.
pub record RawMessage : Type 0 where
  pub execs : List ExecMessage
  pub kind : Option String

abbrev pub is_sorry_kind : Option String → Bool
is_sorry_kind none = false
is_sorry_kind (some kind) = same_text kind "hasSorry"

abbrev pub is_sorry : RawMessage × ExecMessage → Bool
is_sorry (raw, m) = mentions_sorry m || is_sorry_kind raw.kind

abbrev pub is_error : ExecMessage → Bool
is_error m = is_error_severity m.severity

insert_sorted : String → List String → List String
insert_sorted name [] = name ∷ []
insert_sorted name (other ∷ names) = elim (compare name other) [
  | Ordering.gt ↦ other ∷ insert_sorted name names
  | _ ↦ name ∷ other ∷ names
]

-- sorted(names)
sorted : List String → List String
unfolding insert_sorted
sorted [] = []
sorted (name ∷ names) = insert_sorted name (sorted names)

-- `sorted(set(axioms) - set(allowed_axioms))`
unfoldable pub disallowed_axioms : List String → List String → List String
unfolding sorted
disallowed_axioms axioms allowed =
    sorted (keep (λ name. not (mem String_discrete name allowed)) (set_of String_discrete axioms))

-- The messages of all units.
unfoldable pub all_messages : List (List RawMessage) → List RawMessage
all_messages [] = []
all_messages (unit ∷ units) = unit ++ all_messages units

-- messages_to_exec_messages
abbrev pub exec_messages : List RawMessage → List ExecMessage
exec_messages [] = []
exec_messages (r ∷ raw) = r.execs ++ exec_messages raw

verify_answer : VerifyStatus → List String → List ExecMessage → VerifyAnswer
verify_answer status axioms messages = record {
  status = status;
  axioms = axioms;
  messages = messages;
  debug = none;
}

-- The text that is compiled.
abbrev pub compiled_text : String → String → String
compiled_text code theorem_name = append (rstrip code) (append "\n#print axioms " theorem_name)

with_disallowed : List String → List ExecMessage → List ExecMessage
unfolding join
with_disallowed [] messages = messages
with_disallowed (name ∷ names) messages =
    messages
    ++ message error_severity (append "disallowed axioms: " (join ", " (name ∷ names))) ∷ []

abbrev pub is_nonempty {ℓ} : {A : Type ℓ} → List A → Bool
is_nonempty [] = false
is_nonempty (x ∷ xs) = true

-- What the worker concludes from the messages of the units.
unfoldable pub judge : List RawMessage → List String → VerifyAnswer
unfolding disallowed_axioms verify_answer with_disallowed zip
judge raw allowed =
    let messages = exec_messages raw in
    let axioms = extract_axioms messages in
    let disallowed = disallowed_axioms axioms allowed in
    let refused =
      any is_error messages || any is_sorry (zip raw messages) || is_nonempty disallowed in
    verify_answer (if refused then rejected else accepted) axioms
      (with_disallowed disallowed messages)

-- _verify_complete_proof, with what `check_compile_async` answers to a text
unfoldable pub verify_complete_proof :
    (String → Try (List (List RawMessage))) → String → String → List String → VerifyAnswer
unfolding judge all_messages verify_answer
verify_complete_proof compile code theorem_name allowed =
    elim (compile (compiled_text code theorem_name)) [
      | raised messages ↦ verify_answer error [] messages
      | returned units ↦ judge (all_messages units) allowed
    ]
