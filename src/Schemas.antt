-- ===== src/Schemas.antt =====
-- packages/lean-client/lean_client/exec_models.py, as server/schemas_exec.py passes it on: the
-- requests and responses, with the checks of a request. server/pantograph_goal.py: the goals of a
-- worker. Numbers that the schemas bound below by 0 or 1 are natural.
use kimina_lean_server.Base.{ℕ, String, Bool, true, false, Option, none, List, map}
use kimina_lean_server.Base.Int.{ℤ}

-- ExecStatus; `open_goals` is "open"
pub data ExecStatus : Type 0 where
  open_goals complete error invalid_state_token overloaded cancelled : ExecStatus

-- ExecMessageSeverity
pub data Severity : Type 0 where
  trace_severity info_severity warning_severity error_severity : Severity

pub record ExecPos : Type 0 where
  pub line : ℕ
  pub col : ℕ

pub record ExecMessage : Type 0 where
  pub severity : Severity
  pub text : String
  pub start_pos : Option ExecPos
  pub end_pos : Option ExecPos

-- ExecDebugInfo, and PantographDebugInfo of the worker
pub record DebugInfo : Type 0 where
  pub cpu_max : ℕ
  pub memory_max : ℕ

pub record ExecDiagnostics : Type 0 where
  pub acquire_ms : ℕ
  pub lean_ms : ℕ
  pub debug : Option DebugInfo

pub record Hypothesis : Type 0 where
  pub type_text : String
  pub name : Option String
  pub value : Option String

pub record GoalInfo : Type 0 where
  pub target : String
  pub pretty : String
  pub hypotheses : List Hypothesis
  pub name : Option String
  pub sibling_dep : List ℕ

-- PantographHypothesis and PantographGoal
pub record PantographHypothesis : Type 0 where
  pub type_text : String
  pub name : Option String
  pub value : Option String

pub record PantographGoal : Type 0 where
  pub target : String
  pub pretty : String
  pub hypotheses : List PantographHypothesis
  pub name : Option String
  pub sibling_dep : List ℕ

pub record StepBatchItem : Type 0 where
  pub node_id : String
  pub state_token : String
  pub tactics : List String
  pub acquire_timeout_ms : ℕ
  pub step_timeout_ms : ℕ
  pub debug : Bool  -- only passed on, to the worker
  pub goal_id : Option ℕ
  pub auto_resume : Option Bool
  pub goal_group : Option (List ℤ)

pub record StepResult : Type 0 where
  pub tactic : String
  pub status : ExecStatus
  pub state_token : Option String
  pub goals : List GoalInfo
  pub messages : List ExecMessage

pub record StepBatchResult : Type 0 where
  pub node_id : String
  pub results : List StepResult
  pub diagnostics : ExecDiagnostics

-- PantographStepResult; a path is the NAME of a file NAME.bin in the store's directory
pub record PantographStepResult : Type 0 where
  pub tactic : String
  pub status : ExecStatus
  pub state_path : Option String
  pub goals : List PantographGoal
  pub messages : List ExecMessage
  pub debug : Option DebugInfo

-- PantographSavedState and PantographCreateResult
pub record SavedState : Type 0 where
  pub path : String
  pub goals : List PantographGoal

pub record CreateAnswer : Type 0 where
  pub status : ExecStatus
  pub states : List SavedState
  pub messages : List ExecMessage
  pub debug : Option DebugInfo

abbrev pub is_open : ExecStatus → Bool
is_open open_goals = true
is_open _ = false

abbrev pub is_overloaded : ExecStatus → Bool
is_overloaded overloaded = true
is_overloaded _ = false

abbrev pub is_error_severity : Severity → Bool
is_error_severity error_severity = true
is_error_severity _ = false

abbrev pub message : Severity → String → ExecMessage
message severity text = record {
  severity = severity;
  text = text;
  start_pos = none;
  end_pos = none;
}

abbrev pub diagnostics_of : ℕ → ℕ → Option DebugInfo → ExecDiagnostics
diagnostics_of acquire_ms lean_ms debug = record {
  acquire_ms = acquire_ms;
  lean_ms = lean_ms;
  debug = debug;
}

abbrev hypothesis_of : PantographHypothesis → Hypothesis
hypothesis_of h = record { type_text = h.type_text; name = h.name; value = h.value }

abbrev goal_info_of : PantographGoal → GoalInfo
goal_info_of g = record {
  target = g.target;
  pretty = g.pretty;
  hypotheses = map hypothesis_of g.hypotheses;
  name = g.name;
  sibling_dep = g.sibling_dep;
}

-- goal_infos_from_worker
abbrev pub goal_infos_from_worker : List PantographGoal → List GoalInfo
goal_infos_from_worker goals = map goal_info_of goals
