-- ===== src/Checks/Serving.antt =====
-- Rollouts of internal/eval/evaluate.go and traces of internal/eval/explain.go.
use pennant.Prelude.{ℕ, none, some, [], ◌∷◌, true, false, ◌≡◌, refl, ltb, arith}
use pennant.Prelude.Int.{pos}
use pennant.Prelude.Dict.{get}
use pennant.Model.Types.{reason_fallthrough}
use pennant.Eval.Runtime.{get_attribute}
use pennant.Eval.Operators.{json_values_equal, match_in, match_operator}
use pennant.Eval.Bucket.{stringify_bucket_value, hash_input, bucket_number, compute_bucket}
use pennant.Eval.Clauses.{
  all_match, rule_clauses, segment_hit, any_value, any_element, value_matches, attribute_matches,
  any_segment, clause_body, weight_matches, segment_rules, segment_body, segment_matches,
  clause_matches, rule_matches,
}
use pennant.Eval.Evaluate.{
  nth_variation, first_target, serves, first_rule, last_variation, variation_result, off_from,
  off_result, walk, rollout_result, resolve, resolve_variation_or_rollout, prerequisite_met,
  failed_prerequisite, after_rules, after_targets, after_prerequisites, evaluate_step,
  evaluate_with_depth, evaluate, plain,
}
use pennant.Eval.Evaluate.Rollouts.{rollout_growth, IsMonotone, share}
use pennant.Eval.Explain.Agreement.{explain-eq-evaluate}
use pennant.Eval.Explain.{
  Trace, plain_step, prereq_step, rule_step, step_off, step_target, explain, explain_prerequisites,
  explain_entered, explain_targets, explain_rules, explain_clauses, explain_serve,
}
use pennant.Checks.Fixtures.{
  halves, in_segment, plan_is, fixed_point, flag, guarded, project, member_rule, pro_rule,
}
use pennant.Checks.Evaluation.{eve, eve_outcome}

fixed_point-IsMonotone : IsMonotone fixed_point
fixed_point-IsMonotone = record {
  lt_le = λ a b c h k. ground arith;
  of_int_mono = λ i j h. ground arith;
  div_mono = λ a b h. ground arith;
  add_mono = λ a b h. ground arith;
}

below_half :
    ltb (compute_bucket fixed_point eve "key" "f" "s" none) (share fixed_point (pos 50000)) ≡ true
unfolding compute_bucket get_attribute stringify_bucket_value hash_input bucket_number
below_half = refl

-- From one half to nine tenths, with the rest given to another variation.
rollout_growth_example :
    rollout_result fixed_point
      (flag "f")
      guarded
      halves
      (record { variation = pos 0; weight = pos 90000 }
        ∷ record { variation = pos 7; weight = pos 10000 }
        ∷ [])
      eve
      (plain reason_fallthrough)
    ≡ rollout_result fixed_point
        (flag "f")
        guarded
        halves
        halves.variations
        eve
        (plain reason_fallthrough)
rollout_growth_example =
    rollout_growth fixed_point fixed_point-IsMonotone (flag "f") guarded halves
      (record { variation = pos 0; weight = pos 50000 }) (pos 90000)
      (record { variation = pos 1; weight = pos 50000 } ∷ [])
      (record { variation = pos 7; weight = pos 10000 } ∷ []) eve (plain reason_fallthrough)
      (omega arith) below_half

abbrev eve_trace : Trace ℕ
eve_trace = record {
  steps =
      plain_step step_off false
      ∷ prereq_step "gate" false
      ∷ plain_step step_target false
      ∷ rule_step 0 member_rule false (record { clause = in_segment "beta"; matched = false } ∷ [])
      ∷ rule_step 1 pro_rule true (record { clause = plan_is "pro"; matched = true } ∷ [])
      ∷ [];
  outcome = eve_outcome;
}

eve_traced : explain fixed_point project eve 2 (flag "f") guarded ≡ some eve_trace
unfolding explain explain_prerequisites explain_entered explain_targets explain_rules
    explain_clauses explain_serve get get_attribute json_values_equal match_in match_operator
    stringify_bucket_value hash_input bucket_number compute_bucket all_match rule_clauses
    segment_hit any_value any_element value_matches attribute_matches any_segment clause_body
    weight_matches segment_rules segment_body segment_matches clause_matches rule_matches
    nth_variation first_target serves first_rule last_variation variation_result off_from off_result
    walk rollout_result resolve resolve_variation_or_rollout prerequisite_met failed_prerequisite
    after_rules after_targets after_prerequisites evaluate_step evaluate_with_depth evaluate
eve_traced = refl

explain-eq-evaluate_example :
    evaluate fixed_point project eve 2 (flag "f") guarded ≡ some eve_trace.outcome
explain-eq-evaluate_example =
    explain-eq-evaluate fixed_point project eve 2 (flag "f") guarded ((λ e. cc), ((λ e. cc), tt))
      ((refl, refl), tt) eve_traced
