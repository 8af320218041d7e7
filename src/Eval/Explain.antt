-- ===== src/Eval/Explain.antt =====
-- internal/eval/explain.go: the evaluation of a flag with a trace of its steps. It calls `Evaluate`
-- for each prerequisite, and evaluates every clause of a rule.
pub mod Agreement
pub mod EmptyRules
use pennant.Prelude.{
  ℕ, zero, suc, String, Option, none, some, List, [], ◌∷◌, ◌++◌, Bool, true, false, not, ◌&&◌,
  ◌>>=◌, if◌then◌else◌,
}
use pennant.Prelude.Int.{ℤ}
use pennant.Model.Types.{
  Clause, Rule, Prerequisite, FlagConfig, Flag, Reason, reason_off, reason_fallthrough,
  reason_target_match,
}
use pennant.Eval.Runtime.{Runtime, Value, Context, EvalStore}
use pennant.Eval.Clauses.{clause_matches}
use pennant.Eval.Evaluate.{
  Outcome, plain, rule_match, prerequisite_failed, first_target, variation_result, off_result,
  resolve_variation_or_rollout, prerequisite_met, evaluate,
}

pub data TraceStepKind : Type 0 where
  step_off step_prereq step_target step_rule step_fallthrough : TraceStepKind

pub record ClauseResult : Type 0 where
  pub clause : Clause
  pub matched : Bool

pub record TraceStep : Type 0 where
  pub kind : TraceStepKind
  pub matched : Bool
  pub rule_index : Option ℕ
  pub rule_id : String
  pub prereq_key : String
  pub clause_results : List ClauseResult

-- The fields `Variation`, `Value` and `Reason` are the outcome; `Bucket` is never set.
pub record Trace (F : Type 0) : Type 0 where
  pub steps : List TraceStep
  pub outcome : Outcome F

abbrev pub plain_step : TraceStepKind → Bool → TraceStep
plain_step kind matched = record {
  kind = kind;
  matched = matched;
  rule_index = none;
  rule_id = "";
  prereq_key = "";
  clause_results = [];
}

abbrev pub prereq_step : String → Bool → TraceStep
prereq_step key matched = record (plain_step step_prereq matched) { prereq_key = key }

abbrev pub rule_step : ℕ → Rule → Bool → List ClauseResult → TraceStep
rule_step i rule matched results = record (plain_step step_rule matched) {
  rule_index = some i;
  rule_id = rule.id;
  clause_results = results;
}

-- The loop over `rule.Clauses`, with `allMatch` beside the results: true for a rule with no clause.
unfoldable pub explain_clauses :
    (Clause → Option Bool) → List Clause → Option (Bool × List ClauseResult)
explain_clauses f [] = some (true, [])
explain_clauses f (c ∷ cs) =
    let rest = explain_clauses f cs in
    f c >>= λ m. rest >>= λ r. some (m && r.0, record { clause = c; matched = m } ∷ r.1)

-- The loop over `cfg.Rules`: the steps that it adds, and the rule at which it returns.
unfoldable pub explain_rules :
    (Clause → Option Bool) → ℕ → List Rule → Option (List TraceStep × Option (ℕ × Rule))
explain_rules f i [] = some ([], none)
explain_rules f i (r ∷ rs) =
    let rest = explain_rules f (suc i) rs in
    explain_clauses f r.clauses >>= λ res.
    if res.0
    then some (rule_step i r true res.1 ∷ [], some (i, r))
    else rest >>= λ t. some (rule_step i r false res.1 ∷ t.0, t.1)

module _ (rt : Runtime) (store : EvalStore) (ctx : Context rt.Float) (fuel : ℕ) where
  open rt use {Float}

  -- The loop over `cfg.Prerequisites`: the steps, and the key of the first that is not met.
  unfoldable pub explain_prerequisites : List Prerequisite → Option (List TraceStep × Option String)
  explain_prerequisites [] = some ([], none)
  explain_prerequisites (p ∷ ps) =
      let rest = explain_prerequisites ps in
      prerequisite_met rt store ctx fuel (evaluate rt store ctx fuel) p (store.get_flag p.flag_key)
      >>= λ met.
          if met
          then (rest >>= λ t. some (prereq_step p.flag_key false ∷ t.0, t.1))
          else some (prereq_step p.flag_key true ∷ [], some p.flag_key)

  abbrev pub trace : List TraceStep → Outcome Float → Trace Float
  trace steps out = record { steps = steps; outcome = out }

  unfoldable pub explain_serve :
      List TraceStep → Flag → FlagConfig → Option (ℕ × Rule) → Trace Float
  explain_serve steps flag cfg (some (i, r)) =
      trace steps (resolve_variation_or_rollout rt flag cfg r.serve ctx (rule_match i r))
  explain_serve steps flag cfg none =
      trace (steps ++ plain_step step_fallthrough true ∷ [])
        (resolve_variation_or_rollout rt flag cfg cfg.fallthrough ctx (plain reason_fallthrough))

  unfoldable pub explain_targets :
      List TraceStep → Flag → FlagConfig → Option ℤ → Option (Trace Float)
  explain_targets steps flag cfg (some v) = some (
      trace (steps ++ plain_step step_target true ∷ [])
        (variation_result rt flag v (plain reason_target_match)))
  explain_targets steps flag cfg none =
      explain_rules (clause_matches rt store ctx fuel) 0 cfg.rules >>= λ t.
      some (explain_serve (steps ++ (plain_step step_target false ∷ t.0)) flag cfg t.1)

  unfoldable pub explain_entered :
      Flag → FlagConfig → List TraceStep × Option String → Option (Trace Float)
  explain_entered flag cfg (steps, some key) =
      some (
        trace (plain_step step_off false ∷ steps)
          (off_result rt flag cfg (prerequisite_failed key)))
  explain_entered flag cfg (steps, none) =
      explain_targets (plain_step step_off false ∷ steps) flag cfg
        (first_target ctx.key cfg.targets)

  unfoldable pub explain : Flag → FlagConfig → Option (Trace Float)
  explain flag cfg =
      if not cfg.on
      then some (trace (plain_step step_off true ∷ []) (off_result rt flag cfg (plain reason_off)))
      else explain_prerequisites cfg.prerequisites >>= explain_entered flag cfg
