-- ===== src/Pool/Starting.antt =====
-- server/pantograph_manager.py: the two counts of workers that are being started agree.
use kimina_lean_server.Base.{
  ℕ, ◌+◌, ◌-◌, ◌≤◌, ◌≡◌, ◌≢◌, inl, inr, String, String_discrete, Option-cases, Bool-cases, total,
  arith, string_key, ite, leb, All,
}
use kimina_lean_server.Base.Dict
use kimina_lean_server.Base.Dict.{Dict}
use kimina_lean_server.Pool.{Pool, mark_starting, unmark_starting, starting_of}

abbrev IsPositive : ℕ → Type 0
IsPositive n = 1 ≤ n

pub record IsCounted (starting : ℕ) (by_env : Dict String ℕ) : Type 0 where
  pub unique : Dict.Unique by_env
  pub summed : starting ≡ total (λ n. n) (Dict.values by_env)
  pub positive : All IsPositive (Dict.values by_env)

abbrev pub StartsCounted : Pool → Type 0
StartsCounted p = IsCounted p.starting p.starting_by_env_profile

pub mark_starting-IsCounted :
    (env : String) (p : Pool) → StartsCounted p → StartsCounted (mark_starting env p)
unfolding mark_starting
mark_starting-IsCounted env p v = record {
  unique = Dict.put-Unique env _ p.starting_by_env_profile v.unique;
  summed = elim (Option-cases (Dict.get env p.starting_by_env_profile)) [
    | inl e ↦ rw e (omega (arith, v, Dict.total-put_new (λ n. n) env 1 p.starting_by_env_profile e))
    | inr (n, e) ↦
        rw e
          (omega (arith, v, Dict.total-put_old (λ n. n) env (n + 1) n p.starting_by_env_profile e))
  ];
  positive = Dict.All-put IsPositive env _ p.starting_by_env_profile (omega arith) v.positive;
}

pub starting_of-mark_starting :
    (env other : String) (p : Pool)
    → starting_of other (mark_starting env p)
      ≡ starting_of other p + ite (String_discrete env other) 1 0
unfolding mark_starting
starting_of-mark_starting env other p =
    ground (arith, Dict.get-put env other (starting_of env p + 1) p.starting_by_env_profile)

pub starting_of-unmark_starting :
    (env other : String) (p : Pool)
    → starting_of other (unmark_starting env p)
      ≡ starting_of other p - ite (String_discrete env other) 1 0
unfolding unmark_starting
starting_of-unmark_starting env other p = ground (
  arith,
  Dict.get-put env other (starting_of env p - 1) p.starting_by_env_profile,
  Dict.get-pop env other p.starting_by_env_profile,
)

-- A start that was marked is counted in the total too.
pub starting_of-le : (env : String) (p : Pool) → StartsCounted p → starting_of env p ≤ p.starting
starting_of-le env p v = elim (Option-cases (Dict.get env p.starting_by_env_profile)) [
  | inl e ↦ rw e (omega arith)
  | inr (n, e) ↦
      rw e (omega (arith, v, Dict.total-pop (λ n. n) env n p.starting_by_env_profile v.unique e))
]

pub unmark_starting-IsCounted :
    (env : String) (p : Pool)
    → StartsCounted p
    → starting_of env p ≢ 0
    → StartsCounted (unmark_starting env p)
unfolding unmark_starting
unmark_starting-IsCounted env p v h = elim (Option-cases (Dict.get env p.starting_by_env_profile)) [
  | inl e ↦ absurd (h (rw e))
  | inr (n, e) ↦ rw e (elim (Bool-cases (leb n 1)) [
    | inl last ↦ rw last (record {
      unique = Dict.pop-Unique env p.starting_by_env_profile v.unique;
      summed = ground (
        arith,
        Dict.All-get IsPositive env n p.starting_by_env_profile v.positive e,
        Dict.total-pop (λ (n : ℕ). n) env n p.starting_by_env_profile v.unique e,
      );
      positive = Dict.All-pop IsPositive env p.starting_by_env_profile v.positive;
    })
    | inr more ↦ rw more (record {
      unique = Dict.put-Unique env _ p.starting_by_env_profile v.unique;
      summed =
          ground
            (arith, Dict.total-put_old (λ (n : ℕ). n) env (n - 1) n p.starting_by_env_profile e);
      positive = Dict.All-put IsPositive env _ p.starting_by_env_profile (ground arith) v.positive;
    })
  ])
]
