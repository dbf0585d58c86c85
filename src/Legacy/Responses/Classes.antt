-- ===== src/Legacy/Responses/Classes.antt =====
-- Every answer falls into one class.
use kimina_lean_server.Base.{
  ℕ, ◌+◌, String, Bool, true, false, ◌≡◌, ◌↔◌, refl, ap, ◌∙◌, Option, none, some, Bool-cases, inl,
  inr, arith,
}
use kimina_lean_server.Base.Text.{contains}
use kimina_lean_server.Legacy.Responses.{
  CommandResponse, Payload, command, repl_failure, ReplResponse, SnippetAnalysis, valid, sorry,
  lean_error, repl_error, timeout_error, server_error, Diagnostics, is_error, has_sorry, is_valid,
  is_sorry, require_error_or_response, analyze, analyze_command, analysis,
}

-- An answer in which Lean reports neither an error nor a `sorry`.
abbrev pub IsProved : ReplResponse → Type 0
IsProved r =
    (r.error ≡ none)
    × (c : CommandResponse) × (r.response ≡ some (command c))
    × (is_error c ≡ false)
    × (has_sorry c ≡ false)

-- How an answer is classified.
abbrev Classified : ReplResponse → Type 0
Classified r = (a : SnippetAnalysis) × (analyze r ≡ some a) × ((a.status ≡ valid) ↔ IsProved r)

command-Classified :
    (id : String) (time : ℕ) (c : CommandResponse) (diagnostics : Option Diagnostics)
    → Classified (record {
      id = id;
      time = time;
      error = none;
      response = some (command c);
      diagnostics = diagnostics;
    })
unfolding analyze analyze_command analysis is_valid is_sorry
command-Classified id time c diagnostics = elim (Bool-cases (is_error c)) [
  | inl e ↦ (
    record { status = lean_error; time = some time },
    rw (e, analyze) refl,
    (
      λ p. cc,
      λ (_, d, q, f, _).
          let same : c ≡ d = cc in let g : is_error c ≡ false = ap is_error same ∙ f in cc,
    ),
  )
  | inr e ↦ elim (Bool-cases (has_sorry c)) [
    | inl s ↦ (
      record { status = sorry; time = some time },
      rw (e, s, analyze) refl,
      (
        λ p. cc,
        λ (_, d, q, _, f).
            let same : c ≡ d = cc in let g : has_sorry c ≡ false = ap has_sorry same ∙ f in cc,
      ),
    )
    | inr s ↦ (
      record { status = valid; time = some time },
      rw (e, s, analyze) refl,
      (λ p. (refl, c, refl, e, s), λ p. refl),
    )
  ]
]

error-Classified :
    (id text : String) (time : ℕ) (response : Option Payload) (diagnostics : Option Diagnostics)
    → Classified (record {
      id = id;
      time = time;
      error = some text;
      response = response;
      diagnostics = diagnostics;
    })
unfolding analyze analysis
error-Classified id text time response diagnostics = elim (Bool-cases (contains text "timed out")) [
  | inl e ↦
      (record { status = timeout_error; time = none }, rw (e, analyze) refl, (λ p. cc, λ p. cc))
  | inr e ↦
      (record { status = server_error; time = none }, rw (e, analyze) refl, (λ p. cc, λ p. cc))
]

classify :
    (id : String) (time : ℕ) (error : Option String) (response : Option Payload)
    (diagnostics : Option Diagnostics)
    → require_error_or_response error response ≡ true
    → Classified (record {
      id = id;
      time = time;
      error = error;
      response = response;
      diagnostics = diagnostics;
    })
unfolding require_error_or_response
classify id time none none diagnostics h = cc
classify id time none (some (command c)) diagnostics h = command-Classified id time c diagnostics
classify id time none (some (repl_failure text)) diagnostics h =
    unfold analyze analysis in
    (record { status = repl_error; time = some time }, refl, (λ p. cc, λ p. cc))
classify id time (some text) response diagnostics h =
    error-Classified id text time response diagnostics

-- An answer that the model admits is always classified, and it counts as valid exactly if it is
-- that of a command, with neither an error nor a `sorry`.
pub analyze-IsProved :
    (r : ReplResponse)
    → require_error_or_response r.error r.response ≡ true
    → (a : SnippetAnalysis) × (analyze r ≡ some a) × ((a.status ≡ valid) ↔ IsProved r)
analyze-IsProved r h = classify r.id r.time r.error r.response r.diagnostics h

abbrev count : Bool → ℕ
count true = 1
count false = 0

-- Each answer of a command is in exactly one of the classes of errors, sorries and valid ones.
classes_partition :
    (c : CommandResponse) → count (is_error c) + count (is_sorry c) + count (is_valid c) ≡ 1
unfolding is_sorry is_valid
classes_partition c = ground arith
