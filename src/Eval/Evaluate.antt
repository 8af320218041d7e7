-- ===== src/Eval/Evaluate.antt =====
-- internal/eval/evaluate.go: the evaluation of a flag. `none` means that the fuel of the segments,
-- or that of the prerequisites, ran out.
pub mod Rules
pub mod Range
pub mod Order
pub mod Pipeline
pub mod Reasons
pub mod Prerequisites
pub mod Cycles
pub mod Validated
pub mod Rollouts
pub mod Descriptions
use pennant.Prelude.{
  ℕ, zero, suc, ◌<◌, String, Option, none, some, List, [], ◌∷◌, Bool, true, false, not, ◌||◌, ◌==◌,
  ◌>>=◌, or_else, ltb, length, get_elem?, member, if◌then◌else◌,
}
use pennant.Prelude.Int.{ℤ, pos, negsuc, eqb_ℤ}
use pennant.Model.Types.{
  Variation, WeightedVariation, Rollout, VariationOrRollout, Rule, Prerequisite, Target, FlagConfig,
  Flag, ReasonKind, reason_off, reason_fallthrough, reason_target_match, reason_rule_match,
  reason_prerequisite_failed, reason_error, ErrorKind, err_malformed_flag, err_prereq_cycle, Reason,
}
use pennant.Eval.Runtime.{Runtime, Value, Context, EvalStore}
use pennant.Eval.Bucket.{default_key, compute_bucket}
use pennant.Eval.Clauses.{rule_matches}

-- `MaxPrerequisiteDepth`
abbrev pub max_prerequisite_depth : ℕ
max_prerequisite_depth = 20

-- `model.Reason{Kind: kind}`, the other fields zero
abbrev pub plain : ReasonKind → Reason
plain kind = record {
  kind = kind;
  rule_index = none;
  rule_id = "";
  prerequisite_key = "";
  error_kind = none;
  in_experiment = false;
}

abbrev pub error_reason : ErrorKind → Reason
error_reason e = record (plain reason_error) { error_kind = some e }

abbrev pub prerequisite_failed : String → Reason
prerequisite_failed key = record (plain reason_prerequisite_failed) { prerequisite_key = key }

abbrev pub rule_match : ℕ → Rule → Reason
rule_match i rule = record (plain reason_rule_match) { rule_index = some i; rule_id = rule.id }

-- The three results `(*int, any, model.Reason)`.
pub record Outcome (F : Type 0) : Type 0 where
  pub index : Option ℤ
  pub value : Value F
  pub reason : Reason

-- `flag.Variations[idx]`, or `none` where the code's test rejects the index
unfoldable pub nth_variation : List Variation → ℤ → Option Variation
nth_variation vs (pos i) = get_elem? vs i
nth_variation vs (negsuc i) = none

-- The first target that lists the context's key.
unfoldable pub first_target : String → List Target → Option ℤ
first_target key [] = none
first_target key (t ∷ ts) =
    if member key t.context_keys then some t.variation else first_target key ts

-- `pIdx == nil || *pIdx != p.Variation`, negated
unfoldable pub serves : Option ℤ → ℤ → Bool
serves none v = false
serves (some i) v = eqb_ℤ i v

-- The first rule that matches, with its index.
unfoldable pub first_rule : (Rule → Option Bool) → ℕ → List Rule → Option (Option (ℕ × Rule))
first_rule f i [] = some none
first_rule f i (r ∷ rs) =
    let rest = first_rule f (suc i) rs in f r >>= λ b. if b then some (some (i, r)) else rest

-- `ro.Variations[len(ro.Variations)-1]`
unfoldable pub last_variation : WeightedVariation → List WeightedVariation → ℤ
last_variation wv [] = wv.variation
last_variation wv (next ∷ wvs) = last_variation next wvs

module _ (rt : Runtime) where
  open rt use {Float, of_int, add, div, lt, unmarshal_any}

  abbrev pub malformed : Outcome Float
  malformed = record { index = none; value = Value.null; reason = error_reason err_malformed_flag }

  -- An error of `json.Unmarshal` leaves the value nil.
  abbrev pub served : ℤ → Reason → Option Variation → Outcome Float
  served idx reason none = malformed
  served idx reason (some v) = record {
    index = some idx;
    value = or_else (unmarshal_any v.value) Value.null;
    reason = reason;
  }

  unfoldable pub variation_result : Flag → ℤ → Reason → Outcome Float
  variation_result flag idx reason = served idx reason (nth_variation flag.variations idx)

  unfoldable pub off_from : Flag → Option ℤ → Reason → Outcome Float
  off_from flag none reason = record { index = none; value = Value.null; reason = reason }
  off_from flag (some idx) reason = variation_result flag idx reason

  unfoldable pub off_result : Flag → FlagConfig → Reason → Outcome Float
  off_result flag cfg reason = off_from flag cfg.off_variation reason

  -- The loop over the weighted variations from the sum so far: the first whose sum passes the bucket.
  unfoldable pub walk : Float → Float → List WeightedVariation → Option ℤ
  walk bucket sum [] = none
  walk bucket sum (wv ∷ wvs) =
      let sum' = add sum (div (of_int wv.weight) (of_int (pos 100000))) in
      if lt bucket sum' then some wv.variation else walk bucket sum' wvs

  unfoldable pub rollout_result :
      Flag → FlagConfig → Rollout → List WeightedVariation → Context Float → Reason → Outcome Float
  rollout_result flag cfg ro [] ctx reason = malformed
  rollout_result flag cfg ro (wv ∷ wvs) ctx reason =
      let bucket = compute_bucket rt ctx (default_key ro.bucket_by) flag.key cfg.salt ro.seed in
      variation_result flag
        (or_else (walk bucket (of_int (pos 0)) (wv ∷ wvs)) (last_variation wv wvs))
        (record reason { in_experiment = ro.is_experiment })

  unfoldable pub resolve :
      Flag → FlagConfig → Option ℤ → Option Rollout → Context Float → Reason → Outcome Float
  resolve flag cfg (some v) ro ctx reason = variation_result flag v reason
  resolve flag cfg none none ctx reason = malformed
  resolve flag cfg none (some ro) ctx reason = rollout_result flag cfg ro ro.variations ctx reason

  -- `resolveVariationOrRollout`
  unfoldable pub resolve_variation_or_rollout :
      Flag → FlagConfig → VariationOrRollout → Context Float → Reason → Outcome Float
  resolve_variation_or_rollout flag cfg vr ctx reason =
      resolve flag cfg vr.variation vr.rollout ctx reason

  module _ (store : EvalStore) (ctx : Context Float) (fuel : ℕ) where
    -- One prerequisite, as the store answers for its flag: whether it is met.
    unfoldable pub prerequisite_met :
        (Flag → FlagConfig → Option (Outcome Float))
        → Prerequisite
        → Option (Flag × FlagConfig)
        → Option Bool
    prerequisite_met eval p none = some false
    prerequisite_met eval p (some (pf, pcfg)) =
        if pcfg.on
        then (eval pf pcfg >>= λ out. some (serves out.index p.variation))
        else some false

    -- The key of the first prerequisite that is not met.
    unfoldable pub failed_prerequisite :
        (Flag → FlagConfig → Option (Outcome Float)) → List Prerequisite → Option (Option String)
    failed_prerequisite eval [] = some none
    failed_prerequisite eval (p ∷ ps) =
        let rest = failed_prerequisite eval ps in
        prerequisite_met eval p (store.get_flag p.flag_key) >>= λ met.
        if met then rest else some (some p.flag_key)

    unfoldable pub after_rules : Flag → FlagConfig → Option (ℕ × Rule) → Outcome Float
    after_rules flag cfg (some (i, rule)) =
        resolve_variation_or_rollout flag cfg rule.serve ctx (rule_match i rule)
    after_rules flag cfg none =
        resolve_variation_or_rollout flag cfg cfg.fallthrough ctx (plain reason_fallthrough)

    -- Steps 3 to 5: targets, rules, fallthrough.
    unfoldable pub after_targets : Flag → FlagConfig → Option ℤ → Option (Outcome Float)
    after_targets flag cfg (some v) = some (variation_result flag v (plain reason_target_match))
    after_targets flag cfg none = first_rule (rule_matches rt store ctx fuel) 0 cfg.rules >>= λ r.
        some (after_rules flag cfg r)

    unfoldable pub after_prerequisites : Flag → FlagConfig → Option String → Option (Outcome Float)
    after_prerequisites flag cfg (some key) = some (off_result flag cfg (prerequisite_failed key))
    after_prerequisites flag cfg none = after_targets flag cfg (first_target ctx.key cfg.targets)

    -- `evaluateWithDepth`, with its recursive call as an argument. The map `visited` is a list of keys;
    -- each prerequisite gets a copy of it with this flag's key.
    unfoldable pub evaluate_step :
        (List String → Flag → FlagConfig → Option (Outcome Float))
        → ℕ
        → List String
        → Flag
        → FlagConfig
        → Option (Outcome Float)
    evaluate_step eval depth visited flag cfg =
        if not cfg.on
        then some (off_result flag cfg (plain reason_off))
        else if ltb max_prerequisite_depth depth || member flag.key visited
        then some (off_result flag cfg (error_reason err_prereq_cycle))
        else failed_prerequisite (eval (flag.key ∷ visited)) cfg.prerequisites
          >>= after_prerequisites flag cfg

    unfoldable pub evaluate_with_depth :
        ℕ → ℕ → List String → Flag → FlagConfig → Option (Outcome Float)
    evaluate_with_depth zero depth visited flag cfg = none
    evaluate_with_depth (suc n) depth visited flag cfg =
        evaluate_step (evaluate_with_depth n (suc depth)) depth visited flag cfg

    -- Depths 0 to 21 are entered, the last only to be rejected: 22 rounds are enough.
    unfoldable pub evaluate : Flag → FlagConfig → Option (Outcome Float)
    evaluate flag cfg = evaluate_with_depth 22 0 [] flag cfg
