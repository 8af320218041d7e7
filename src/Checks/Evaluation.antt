-- ===== src/Checks/Evaluation.antt =====
-- internal/eval/{evaluate,explain}.go at a flag behind a gate.
use pennant.Prelude.{ℕ, none, some, [], ◌∷◌, true, false, ◌≡◌, refl, ◌≢◌, ◌↔◌, inl, inr, arith}
use pennant.Prelude.Int.{pos, wrap64, ◌+ℤ◌}
use pennant.Prelude.Dict.{get}
use pennant.Model.Types.{FlagConfig, reason_target_match, err_prereq_cycle}
use pennant.Model.Validate.{
  validate_flag_config, validate_rules, validate_rollout?, validate_rollout, sum_weights,
  index_error, in_range,
}
use pennant.Eval.Runtime.{Context, Value, get_attribute}
use pennant.Eval.Operators.{json_values_equal, match_in, match_operator}
use pennant.Eval.Bucket.{stringify_bucket_value, hash_input, bucket_number, compute_bucket}
use pennant.Eval.Clauses.{
  all_match, rule_clauses, segment_hit, any_value, any_element, value_matches, attribute_matches,
  any_segment, clause_body, weight_matches, segment_rules, segment_body, segment_matches,
  clause_matches, rule_matches,
}
use pennant.Eval.Evaluate.{
  Outcome, nth_variation, first_target, serves, first_rule, last_variation, variation_result,
  off_from, off_result, walk, rollout_result, resolve, resolve_variation_or_rollout,
  prerequisite_met, failed_prerequisite, after_rules, after_targets, after_prerequisites,
  evaluate_step, evaluate_with_depth, evaluate, rule_match, plain, prerequisite_failed,
}
use pennant.Eval.Evaluate.Prerequisites.{met, evaluate_first_unmet}
use pennant.Eval.Evaluate.Range.{IsSound, evaluate-IsSound}
use pennant.Eval.Evaluate.Cycles.{evaluate-NoCycle}
use pennant.Eval.Evaluate.Validated.{IsComplete, IsServed, evaluate-IsServed}
use pennant.Eval.Evaluate.Order.{IsEntered, evaluate_first_rule, evaluate_first_target}
use pennant.Eval.Evaluate.Pipeline.{Decided, evaluate-Decided}
use pennant.Checks.Fixtures.{
  needs, target, serve_fixed, serve_rollout, halves, fixed_point, user, flag, config, guarded,
  project, member_rule, pro_rule,
}

-- "eve" is no member, on the plan "pro", and her bucket lies below one half.
abbrev pub eve : Context ℕ
eve = user "eve"

abbrev pub eve_outcome : Outcome ℕ
eve_outcome = record {
  index = some (pos 0);
  value = Value.text "true";
  reason = record (rule_match 1 pro_rule) { in_experiment = true };
}

eve_run : evaluate fixed_point project eve 2 (flag "f") guarded ≡ some eve_outcome
unfolding get get_attribute json_values_equal match_in match_operator stringify_bucket_value
    hash_input bucket_number compute_bucket all_match rule_clauses segment_hit any_value any_element
    value_matches attribute_matches any_segment clause_body weight_matches segment_rules
    segment_body segment_matches clause_matches rule_matches nth_variation first_target serves
    first_rule last_variation variation_result off_from off_result walk rollout_result resolve
    resolve_variation_or_rollout prerequisite_met failed_prerequisite after_rules after_targets
    after_prerequisites evaluate_step evaluate_with_depth evaluate
eve_run = refl

pub gate_met : met fixed_point project eve 2 (flag "f") (needs "gate" (pos 0)) ≡ some true
unfolding variation_result nth_variation resolve resolve_variation_or_rollout first_rule after_rules
    first_target after_targets failed_prerequisite after_prerequisites evaluate_step
    evaluate_with_depth serves prerequisite_met
gate_met = refl

gate_unmet : met fixed_point project eve 2 (flag "f") (needs "gate" (pos 1)) ≡ some false
unfolding variation_result nth_variation resolve resolve_variation_or_rollout first_rule after_rules
    first_target after_targets failed_prerequisite after_prerequisites evaluate_step
    evaluate_with_depth serves prerequisite_met
gate_unmet = refl

pub not_member : rule_matches fixed_point project eve 2 member_rule ≡ some false
unfolding rule_matches rule_clauses all_match clause_matches clause_body any_segment segment_hit
    segment_matches segment_body segment_rules
not_member = refl

is_pro : rule_matches fixed_point project eve 2 pro_rule ≡ some true
unfolding rule_matches rule_clauses all_match clause_matches clause_body attribute_matches
    get_attribute get value_matches any_value match_operator match_in json_values_equal
is_pro = refl

evaluate-IsSound_example : IsSound fixed_point (flag "f") eve_outcome
evaluate-IsSound_example = evaluate-IsSound fixed_point project eve 2 (flag "f") guarded eve_run

evaluate-NoCycle_example : eve_outcome.reason.error_kind ≢ some err_prereq_cycle
evaluate-NoCycle_example = evaluate-NoCycle fixed_point project eve 2 (flag "f") guarded eve_run

guarded_validates : validate_flag_config 2 "live" guarded ≡ none
unfolding validate_flag_config validate_rules validate_rollout? validate_rollout sum_weights
    index_error in_range wrap64 ◌+ℤ◌
guarded_validates = refl

guarded-IsComplete : IsComplete fixed_point project eve 2 (flag "f") guarded
guarded-IsComplete =
    ((omega arith, tt), omega arith, inl (λ e. cc), (inl (λ e. cc), (inr (λ e. cc), tt)))

evaluate-IsServed_example : IsServed fixed_point eve_outcome
evaluate-IsServed_example =
    evaluate-IsServed fixed_point project eve 2 (flag "f") guarded "live" guarded_validates
      guarded-IsComplete eve_run

guarded-IsEntered : IsEntered fixed_point project eve 2 (flag "f") guarded
guarded-IsEntered = (refl, (gate_met, tt))

evaluate_first_rule_example :
    evaluate fixed_point project eve 2 (flag "f") guarded
    ≡ some (
        resolve_variation_or_rollout fixed_point
          (flag "f")
          guarded
          (serve_rollout halves)
          eve
          (rule_match 1 pro_rule))
evaluate_first_rule_example =
    evaluate_first_rule fixed_point project eve 2 (flag "f") guarded (member_rule ∷ []) [] pro_rule
      guarded-IsEntered (refl, tt) refl (not_member, tt) is_pro

-- "eve" is in the second target only.
abbrev targeted : FlagConfig
targeted =
    config (needs "gate" (pos 0) ∷ [])
      (target (pos 1) ("dan" ∷ []) ∷ target (pos 0) ("eve" ∷ []) ∷ []) (pro_rule ∷ [])
      (serve_fixed (pos 1))

evaluate_first_target_example :
    evaluate fixed_point project eve 2 (flag "f") targeted
    ≡ some (variation_result fixed_point (flag "f") (pos 0) (plain reason_target_match))
evaluate_first_target_example =
    evaluate_first_target fixed_point project eve 2 (flag "f") targeted
      (target (pos 1) ("dan" ∷ []) ∷ []) [] (target (pos 0) ("eve" ∷ [])) (refl, (gate_met, tt))
      refl (refl, tt) refl

-- Two prerequisites are not met: the second and the third, which names no flag.
abbrev blocked : FlagConfig
blocked =
    config (needs "gate" (pos 0) ∷ needs "gate" (pos 1) ∷ needs "none" (pos 0) ∷ []) []
      (pro_rule ∷ []) (serve_fixed (pos 0))

evaluate_first_unmet_example :
    evaluate fixed_point project eve 2 (flag "f") blocked
    ≡ some (off_result fixed_point (flag "f") blocked (prerequisite_failed "gate"))
evaluate_first_unmet_example =
    evaluate_first_unmet fixed_point project eve 2 (flag "f") blocked (needs "gate" (pos 0) ∷ [])
      (needs "none" (pos 0) ∷ []) (needs "gate" (pos 1)) refl refl (gate_met, tt) gate_unmet

evaluate-Decided_example :
    (evaluate fixed_point project eve 2 (flag "f") guarded ≡ some eve_outcome)
    ↔ Decided fixed_point project eve 2 (flag "f") guarded eve_outcome
evaluate-Decided_example = evaluate-Decided fixed_point project eve 2 (flag "f") guarded eve_outcome
