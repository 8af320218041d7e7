-- ===== src/Checks/Traces.antt =====
-- A rule without clauses in internal/eval/{evaluate,explain}.go, between two rules that have one.
use pennant.Prelude.{ℕ, some, [], ◌∷◌, true, false, ◌≡◌, ◌≢◌, refl}
use pennant.Prelude.Int.{pos}
use pennant.Prelude.Dict.{get}
use pennant.Model.Types.{Rule, FlagConfig}
use pennant.Eval.Runtime.{Value, get_attribute}
use pennant.Eval.Operators.{json_values_equal, match_in, match_operator}
use pennant.Eval.Bucket.{stringify_bucket_value, hash_input, bucket_number, compute_bucket}
use pennant.Eval.Clauses.{
  all_match, rule_clauses, segment_hit, any_value, any_element, value_matches, attribute_matches,
  any_segment, clause_body, weight_matches, segment_rules, segment_body, segment_matches,
  clause_matches, rule_matches,
}
use pennant.Eval.Evaluate.{
  Outcome, nth_variation, first_target, serves, first_rule, last_variation, variation_result,
  off_from, off_result, walk, rollout_result, resolve, resolve_variation_or_rollout,
  prerequisite_met, failed_prerequisite, after_rules, after_targets, after_prerequisites,
  evaluate_step, evaluate_with_depth, evaluate, rule_match,
}
use pennant.Eval.Explain.{
  Trace, plain_step, prereq_step, rule_step, step_off, step_target, explain, explain_prerequisites,
  explain_entered, explain_targets, explain_rules, explain_clauses, explain_serve,
}
use pennant.Eval.Explain.EmptyRules.{explain_empty_rule}
use pennant.Checks.Fixtures.{
  needs, rule, variation, serve_fixed, in_segment, fixed_point, flag, config, project, member_rule,
  pro_rule,
}
use pennant.Checks.Evaluation.{eve, gate_met, not_member}

abbrev all_rule : Rule
all_rule = rule "all" [] (serve_fixed (pos 1))

-- "eve" is no member, but on the plan "pro".
abbrev for_all : FlagConfig
for_all =
    config (needs "gate" (pos 0) ∷ []) [] (member_rule ∷ all_rule ∷ pro_rule ∷ [])
      (serve_fixed (pos 1))

abbrev for_all_outcome : Outcome ℕ
for_all_outcome = record {
  index = some (pos 0);
  value = Value.text "true";
  reason = record (rule_match 2 pro_rule) { in_experiment = true };
}

abbrev for_all_trace : Trace ℕ
for_all_trace = record {
  steps =
      plain_step step_off false
      ∷ prereq_step "gate" false
      ∷ plain_step step_target false
      ∷ rule_step 0 member_rule false (record { clause = in_segment "beta"; matched = false } ∷ [])
      ∷ rule_step 1 all_rule true []
      ∷ [];
  outcome = record {
    index = some (pos 1);
    value = Value.text "false";
    reason = rule_match 1 all_rule;
  };
}

for_all_run : evaluate fixed_point project eve 2 (flag "f") for_all ≡ some for_all_outcome
unfolding get get_attribute json_values_equal match_in match_operator stringify_bucket_value
    hash_input bucket_number compute_bucket all_match rule_clauses segment_hit any_value any_element
    value_matches attribute_matches any_segment clause_body weight_matches segment_rules
    segment_body segment_matches clause_matches rule_matches nth_variation first_target serves
    first_rule last_variation variation_result off_from off_result walk rollout_result resolve
    resolve_variation_or_rollout prerequisite_met failed_prerequisite after_rules after_targets
    after_prerequisites evaluate_step evaluate_with_depth evaluate
for_all_run = refl

for_all_traced : explain fixed_point project eve 2 (flag "f") for_all ≡ some for_all_trace
unfolding explain explain_prerequisites explain_entered explain_targets explain_rules
    explain_clauses explain_serve get get_attribute json_values_equal match_in match_operator
    stringify_bucket_value hash_input bucket_number compute_bucket all_match rule_clauses
    segment_hit any_value any_element value_matches attribute_matches any_segment clause_body
    weight_matches segment_rules segment_body segment_matches clause_matches rule_matches
    nth_variation first_target serves first_rule last_variation variation_result off_from off_result
    walk rollout_result resolve resolve_variation_or_rollout prerequisite_met failed_prerequisite
    after_rules after_targets after_prerequisites evaluate_step evaluate_with_depth evaluate
for_all_traced = refl

explain_empty_rule_example :
    (for_all_trace.outcome.reason.rule_index ≡ some 1)
    × (for_all_outcome.reason.rule_index ≢ some 1)
explain_empty_rule_example =
    explain_empty_rule fixed_point project eve 2 (flag "f") for_all (member_rule ∷ [])
      (pro_rule ∷ []) all_rule (refl, (gate_met, tt)) ((refl, refl), tt) tt refl ((λ e. cc), tt)
      (not_member, tt) refl refl all_there for_all_run for_all_traced
  where
    all_there : nth_variation (flag "f").variations (pos 1) ≡ some (variation "false")
    all_there = unfold nth_variation in refl
