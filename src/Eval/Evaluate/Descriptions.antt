-- ===== src/Eval/Evaluate/Descriptions.antt =====
-- Evaluation in internal/eval/evaluate.go reads neither a flag's description nor its times.
use pennant.Prelude.{
  ℕ, zero, suc, String, Option, none, some, List, [], ◌∷◌, Bool, not, ◌||◌, ◌≡◌, refl, ap, ◌∙◌,
  fun_ext, ◌>>=◌, member, ltb, if◌then◌else◌,
}
use pennant.Prelude.Int.{ℤ}
use pennant.Model.Types.{
  Reason, WeightedVariation, Flag, FlagConfig, Segment, SegmentRule, Rule, RawMessage, Prerequisite,
  Rollout, err_prereq_cycle, reason_off,
}
use pennant.Eval.Runtime.{Runtime, Context, EvalStore}
use pennant.Eval.Clauses.{
  any_segment, clause_body, segment_rules, segment_body, weight_matches, segment_matches,
  clause_matches, rule_clauses, rule_matches,
}
use pennant.Eval.Evaluate.{
  Outcome, plain, error_reason, max_prerequisite_depth, first_rule, rollout_result,
  variation_result, resolve, resolve_variation_or_rollout, off_from, off_result,
  evaluate_with_depth, evaluate_step, evaluate, failed_prerequisite, prerequisite_met,
  after_prerequisites, after_targets, after_rules,
}

-- The flag without its description.
abbrev pub undescribed : Flag → Flag
undescribed f = record f { description = "" }

abbrev pub undescribed_answer : Option (Flag × FlagConfig) → Option (Flag × FlagConfig)
undescribed_answer none = none
undescribed_answer (some (f, cfg)) = some (undescribed f, cfg)

-- The store whose flags are without theirs.
abbrev pub undescribed_store : EvalStore → EvalStore
undescribed_store store = record {
  get_flag = λ key. undescribed_answer (store.get_flag key);
  get_segment = store.get_segment;
}

module _ (rt : Runtime) (store : EvalStore) (ctx : Context rt.Float) where
  abbrev bare : EvalStore
  bare = undescribed_store store

  any_segment-bare :
      (m : Segment → Option Bool) (raws : List RawMessage)
      → any_segment rt bare ctx m raws ≡ any_segment rt store ctx m raws
  unfolding any_segment
  any_segment-bare m [] = refl
  any_segment-bare m (raw ∷ raws) = rw (any_segment-bare m raws) refl

  clause_body-bare :
      (m : Segment → Option Bool) → clause_body rt bare ctx m ≡ clause_body rt store ctx m
  unfolding clause_body
  clause_body-bare m = fun_ext λ c. rw (any_segment-bare m c.values) refl

  segment_rules-bare :
      (m : Segment → Option Bool) (seg : Segment) (rs : List SegmentRule)
      → segment_rules rt bare ctx m seg rs ≡ segment_rules rt store ctx m seg rs
  unfolding segment_rules weight_matches
  segment_rules-bare m seg [] = refl
  segment_rules-bare m seg (r ∷ rs) = rw (segment_rules-bare m seg rs, clause_body-bare m) refl

  segment_matches-bare : (n : ℕ) → segment_matches rt bare ctx n ≡ segment_matches rt store ctx n
  unfolding segment_matches segment_body
  segment_matches-bare zero = refl
  segment_matches-bare (suc n) = fun_ext λ seg.
      rw (segment_matches-bare n, segment_rules-bare (segment_matches rt store ctx n) seg seg.rules)
        refl

  rule_matches-bare : (n : ℕ) → rule_matches rt bare ctx n ≡ rule_matches rt store ctx n
  unfolding rule_matches clause_matches
  rule_matches-bare n = fun_ext λ r.
      ap (λ f. rule_clauses f r.clauses)
        (ap (λ m. clause_body rt bare ctx m) (segment_matches-bare n)
          ∙ clause_body-bare (segment_matches rt store ctx n))

  rollout_result-bare :
      (f : Flag) (cfg : FlagConfig) (ro : Rollout) (wvs : List WeightedVariation) (reason : Reason)
      → rollout_result rt (undescribed f) cfg ro wvs ctx reason
        ≡ rollout_result rt f cfg ro wvs ctx reason
  unfolding rollout_result variation_result
  rollout_result-bare f cfg ro [] reason = refl
  rollout_result-bare f cfg ro (wv ∷ wvs) reason = refl

  resolve-bare :
      (f : Flag) (cfg : FlagConfig) (v : Option ℤ) (ro : Option Rollout) (reason : Reason)
      → resolve rt (undescribed f) cfg v ro ctx reason ≡ resolve rt f cfg v ro ctx reason
  unfolding resolve variation_result
  resolve-bare f cfg (some v) ro reason = refl
  resolve-bare f cfg none none reason = refl
  resolve-bare f cfg none (some ro) reason = rollout_result-bare f cfg ro ro.variations reason

  off_from-bare :
      (f : Flag) (v : Option ℤ) (reason : Reason)
      → off_from rt (undescribed f) v reason ≡ off_from rt f v reason
  unfolding off_from variation_result
  off_from-bare f none reason = refl
  off_from-bare f (some v) reason = refl

  off_result-bare :
      (f : Flag) (cfg : FlagConfig) (reason : Reason)
      → off_result rt (undescribed f) cfg reason ≡ off_result rt f cfg reason
  unfolding off_result
  off_result-bare f cfg reason = off_from-bare f cfg.off_variation reason

  module _ (fuel : ℕ) where
    after_rules-bare :
        (f : Flag) (cfg : FlagConfig) (r : Option (ℕ × Rule))
        → after_rules rt bare ctx fuel (undescribed f) cfg r ≡ after_rules rt store ctx fuel f cfg r
    unfolding after_rules resolve_variation_or_rollout
    after_rules-bare f cfg none = resolve-bare f cfg _ _ _
    after_rules-bare f cfg (some (i, rule)) = resolve-bare f cfg _ _ _

    after_targets-bare :
        (f : Flag) (cfg : FlagConfig) (v : Option ℤ)
        → after_targets rt bare ctx fuel (undescribed f) cfg v
          ≡ after_targets rt store ctx fuel f cfg v
    unfolding after_targets variation_result
    after_targets-bare f cfg (some v) = refl
    after_targets-bare f cfg none =
        ap
          (λ m. first_rule m 0 cfg.rules >>= λ r.
            some (after_rules rt bare ctx fuel (undescribed f) cfg r))
          (rule_matches-bare fuel)
        ∙ ap (λ g. first_rule (rule_matches rt store ctx fuel) 0 cfg.rules >>= g)
            (fun_ext λ r. ap some (after_rules-bare f cfg r))

    after_prerequisites-bare :
        (f : Flag) (cfg : FlagConfig) (k : Option String)
        → after_prerequisites rt bare ctx fuel (undescribed f) cfg k
          ≡ after_prerequisites rt store ctx fuel f cfg k
    unfolding after_prerequisites
    after_prerequisites-bare f cfg (some key) = ap some (off_result-bare f cfg _)
    after_prerequisites-bare f cfg none = after_targets-bare f cfg _

    module _ (eval eval' : Flag → FlagConfig → Option (Outcome rt.Float))
        (h : (f : Flag) (cfg : FlagConfig) → eval' (undescribed f) cfg ≡ eval f cfg) where
      prerequisite_met-bare :
          (p : Prerequisite) (answer : Option (Flag × FlagConfig))
          → prerequisite_met rt bare ctx fuel eval' p (undescribed_answer answer)
            ≡ prerequisite_met rt store ctx fuel eval p answer
      unfolding prerequisite_met
      prerequisite_met-bare p none = refl
      prerequisite_met-bare p (some (f, cfg)) = rw (h f cfg) refl

      failed_prerequisite-bare :
          (ps : List Prerequisite)
          → failed_prerequisite rt bare ctx fuel eval' ps
            ≡ failed_prerequisite rt store ctx fuel eval ps
      unfolding failed_prerequisite
      failed_prerequisite-bare [] = refl
      failed_prerequisite-bare (p ∷ ps) =
          rw (prerequisite_met-bare p (store.get_flag p.flag_key), failed_prerequisite-bare ps) refl

    evaluate_with_depth-bare :
        (n depth : ℕ) (visited : List String) (f : Flag) (cfg : FlagConfig)
        → evaluate_with_depth rt bare ctx fuel n depth visited (undescribed f) cfg
          ≡ evaluate_with_depth rt store ctx fuel n depth visited f cfg
    unfolding evaluate_with_depth evaluate_step
    evaluate_with_depth-bare zero depth visited f cfg = refl
    evaluate_with_depth-bare (suc n) depth visited f cfg =
        rw
          (
            off_result-bare f cfg (plain reason_off),
            off_result-bare f cfg (error_reason err_prereq_cycle),
            failed_prerequisite-bare
                (evaluate_with_depth rt store ctx fuel n (suc depth) (f.key ∷ visited))
                (evaluate_with_depth rt bare ctx fuel n (suc depth) (f.key ∷ visited))
                (evaluate_with_depth-bare n (suc depth) (f.key ∷ visited)) cfg.prerequisites,
          )
          (ap
            (λ g.
              if not cfg.on
              then some (off_result rt f cfg (plain reason_off))
              else if ltb max_prerequisite_depth depth || member f.key visited
              then some (off_result rt f cfg (error_reason err_prereq_cycle))
              else failed_prerequisite rt store ctx fuel
                  (evaluate_with_depth rt store ctx fuel n (suc depth) (f.key ∷ visited))
                  cfg.prerequisites
                >>= g)
            (fun_ext (after_prerequisites-bare f cfg)))

    -- A flag evaluates in the same way without its description, in a store whose flags have none either.
    pub evaluate-undescribed :
        (f : Flag) (cfg : FlagConfig)
        → evaluate rt (undescribed_store store) ctx fuel (undescribed f) cfg
          ≡ evaluate rt store ctx fuel f cfg
    unfolding evaluate
    evaluate-undescribed f cfg = evaluate_with_depth-bare 22 0 [] f cfg
