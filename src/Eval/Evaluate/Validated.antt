-- ===== src/Eval/Evaluate/Validated.antt =====
-- Configurations that internal/model/flag.go validates, under internal/eval/evaluate.go: what validation
-- guarantees of an evaluation, and what it leaves to the caller.
use pennant.Prelude.{
  ℕ, zero, suc, ◌<◌, String, Option, none, some, List, [], ◌∷◌, Bool, ◌≡◌, refl, ◌≢◌, ◌⊎◌, inl, inr,
  arith, or_else, length, get_elem?, member, All, Bool-cases, bind-eq-some, if-cases,
  some_injective, subst,
}
use pennant.Prelude.Ensures.{Ensures, Ensures-pure, Ensures-bind}
use pennant.Prelude.Int.{ℤ, pos, negsuc}
use pennant.Model.Types.{
  Variation, WeightedVariation, Rollout, VariationOrRollout, Rule, Target, FlagConfig, Flag, Reason,
}
use pennant.Model.Validate.{validate_flag_config}
use pennant.Model.Validate.Laws.{
  InRange, OptInRange, IsValidRollout, OptValidRollout, AreValidRules, IsValidConfig,
  validate_flag_config_iff,
}
use pennant.Eval.Runtime.{Runtime, Context, EvalStore}
use pennant.Eval.Bucket.{default_key, compute_bucket}
use pennant.Eval.Clauses.{rule_matches}
use pennant.Eval.Evaluate.Rules.{evaluate_step_rule}
use pennant.Eval.Evaluate.{
  Outcome, nth_variation, walk, last_variation, variation_result, off_from, off_result,
  rollout_result, resolve, resolve_variation_or_rollout, first_target, first_rule, after_rules,
  after_targets, after_prerequisites, evaluate_with_depth, evaluate,
}

-- Something to serve: `Validate` lets a rule or a fallthrough pass that has neither of the two.
abbrev pub IsPresent : VariationOrRollout → Type 0
IsPresent vr = (vr.variation ≢ none) ⊎ (vr.rollout ≢ none)

-- A variation or a rollout that is there and in range.
abbrev pub IsServable : ℕ → VariationOrRollout → Type 0
IsServable n vr = IsPresent vr × OptInRange n vr.variation × OptValidRollout n vr.rollout

elem_in_range :
    (vs : List Variation) (i : ℕ) → i < length vs → (v : Variation) × (get_elem? vs i ≡ some v)
elem_in_range [] i h = absurd (omega arith)
elem_in_range (v ∷ vs) zero h = (v, refl)
elem_in_range (v ∷ vs) (suc i) h = elem_in_range vs i (omega arith)

nth_variation_lem :
    (vs : List Variation) (idx : ℤ)
    → InRange (length vs) idx
    → (v : Variation) × (nth_variation vs idx ≡ some v)
unfolding nth_variation
nth_variation_lem vs (pos i) h = elem_in_range vs i h
nth_variation_lem vs (negsuc i) h = elim h [ ]

valid_rules_All :
    (n : ℕ) (seen : List String) (rs : List Rule)
    → AreValidRules n seen rs
    → All (λ (r : Rule). IsPresent r.serve) rs
    → All (λ (r : Rule). IsServable n r.serve) rs
valid_rules_All n seen [] h present = tt
valid_rules_All n seen (r ∷ rs) h present =
    ((present.0, h.2, h.3), valid_rules_All n (r.id ∷ seen) rs h.4 present.1)

first_rule-All :
    (P : Rule → Type 0) (f : Rule → Option Bool) (i : ℕ) (rs : List Rule) {j : ℕ} {r : Rule}
    → All P rs
    → first_rule f i rs ≡ some (some (j, r))
    → P r
unfolding first_rule
first_rule-All P f i [] h e = cc
first_rule-All P f i (q ∷ rs) {j} {r} h e =
    let (b, _, e1) = bind-eq-some (f q) _ e in
    elim (if-cases b (some (some (i, q))) (first_rule f (suc i) rs) e1) [
      | inl (_, here) ↦ subst P (ground arith) (h.0)
      | inr (_, later) ↦ first_rule-All P f (suc i) rs h.1 later
    ]

first_target-All :
    (P : ℤ → Type 0) (key : String) (ts : List Target) {v : ℤ}
    → All (λ (t : Target). P t.variation) ts
    → first_target key ts ≡ some v
    → P v
unfolding first_target
first_target-All P key [] h e = cc
first_target-All P key (t ∷ ts) {v} h e = elim (Bool-cases (member key t.context_keys)) [
  | inl hit ↦ subst P (some_injective (simp hit at e)) (h.0)
  | inr miss ↦ first_target-All P key ts h.1 (simp miss at e)
]

last-All :
    (P : ℤ → Type 0) (wv : WeightedVariation) (wvs : List WeightedVariation)
    → All (λ (w : WeightedVariation). P w.variation) (wv ∷ wvs)
    → P (last_variation wv wvs)
unfolding last_variation
last-All P wv [] h = h.0
last-All P wv (next ∷ wvs) h = last-All P next wvs h.1

module _ (rt : Runtime) where
  open rt use {Float, of_int, add, div, lt}

  walk-All :
      (P : ℤ → Type 0) (bucket sum : Float) (wvs : List WeightedVariation) {v : ℤ}
      → All (λ (wv : WeightedVariation). P wv.variation) wvs
      → walk rt bucket sum wvs ≡ some v
      → P v
  unfolding walk
  walk-All P bucket sum [] h e = cc
  walk-All P bucket sum (wv ∷ wvs) h e =
      let sum' = add sum (div (of_int wv.weight) (of_int (pos 100000))) in
      elim (if-cases (lt bucket sum') (some wv.variation) (walk rt bucket sum' wvs) e) [
        | inl (_, here) ↦ subst P (some_injective here) (h.0)
        | inr (_, later) ↦ walk-All P bucket sum' wvs h.1 later
      ]

  -- The reason names no error.
  abbrev pub IsServed : Outcome Float → Type 0
  IsServed out = out.reason.error_kind ≡ none

  variation_result-IsServed :
      (flag : Flag) (idx : ℤ) (reason : Reason)
      → InRange (length flag.variations) idx
      → reason.error_kind ≡ none
      → IsServed (variation_result rt flag idx reason)
  unfolding variation_result
  variation_result-IsServed flag idx reason h e =
      let (v, ev) = nth_variation_lem flag.variations idx h in simp ev e

  off_from-IsServed :
      (flag : Flag) (o : Option ℤ) (reason : Reason)
      → OptInRange (length flag.variations) o
      → reason.error_kind ≡ none
      → IsServed (off_from rt flag o reason)
  unfolding off_from
  off_from-IsServed flag none reason h e = e
  off_from-IsServed flag (some idx) reason h e = variation_result-IsServed flag idx reason h e

  pick_InRange :
      (n : ℕ) (o : Option ℤ) (last : ℤ)
      → ((v : ℤ) → o ≡ some v → InRange n v)
      → InRange n last
      → InRange n (or_else o last)
  pick_InRange n none last h l = l
  pick_InRange n (some v) last h l = h v refl

  rollout_result-IsServed :
      (flag : Flag) (cfg : FlagConfig) (ro : Rollout) (wvs : List WeightedVariation)
      (ctx : Context Float) (reason : Reason)
      → All (λ (wv : WeightedVariation). InRange (length flag.variations) wv.variation) wvs
      → wvs ≢ []
      → reason.error_kind ≡ none
      → IsServed (rollout_result rt flag cfg ro wvs ctx reason)
  unfolding rollout_result
  rollout_result-IsServed flag cfg ro [] ctx reason h some_left e = absurd (some_left refl)
  rollout_result-IsServed flag cfg ro (wv ∷ wvs) ctx reason h some_left e =
      let bucket = compute_bucket rt ctx (default_key ro.bucket_by) flag.key cfg.salt ro.seed in
      let n = length flag.variations in
      variation_result-IsServed flag _ _
        (pick_InRange n (walk rt bucket (of_int (pos 0)) (wv ∷ wvs)) _
          (λ v ev. walk-All (InRange n) bucket (of_int (pos 0)) (wv ∷ wvs) h ev)
          (last-All (InRange n) wv wvs h))
        e

  -- An empty rollout is not valid: its weights add up to 0.
  valid_not_empty : (n : ℕ) (ro : Rollout) → IsValidRollout n ro → ro.variations ≢ []
  valid_not_empty n ro h empty = ground (arith, rw empty at (h.1))

  resolve-IsServed :
      (flag : Flag) (cfg : FlagConfig) (v : Option ℤ) (ro : Option Rollout) (ctx : Context Float)
      (reason : Reason)
      → (v ≢ none) ⊎ (ro ≢ none)
      → OptInRange (length flag.variations) v
      → OptValidRollout (length flag.variations) ro
      → reason.error_kind ≡ none
      → IsServed (resolve rt flag cfg v ro ctx reason)
  unfolding resolve
  resolve-IsServed flag cfg (some v) ro ctx reason present h hr e =
      variation_result-IsServed flag v reason h e
  resolve-IsServed flag cfg none (some ro) ctx reason present h hr e =
      rollout_result-IsServed flag cfg ro ro.variations ctx reason hr.0
        (valid_not_empty (length flag.variations) ro hr) e
  resolve-IsServed flag cfg none none ctx reason (inl p) h hr e = absurd (p refl)
  resolve-IsServed flag cfg none none ctx reason (inr p) h hr e = absurd (p refl)

  module _ (store : EvalStore) (ctx : Context Float) (fuel : ℕ) where
    -- What validation leaves open: targets and a fixed fallthrough in range, and something to serve in
    -- each rule and in the fallthrough.
    abbrev pub IsComplete : Flag → FlagConfig → Type 0
    IsComplete flag cfg =
        All (λ (t : Target). InRange (length flag.variations) t.variation) cfg.targets
        × OptInRange (length flag.variations) cfg.fallthrough.variation
        × IsPresent cfg.fallthrough
        × All (λ (r : Rule). IsPresent r.serve) cfg.rules

    after_rules-IsServed :
        (flag : Flag) (cfg : FlagConfig) (r : Option (ℕ × Rule))
        → IsValidConfig (length flag.variations) cfg
        → IsComplete flag cfg
        → first_rule (rule_matches rt store ctx fuel) 0 cfg.rules ≡ some r
        → IsServed (after_rules rt store ctx fuel flag cfg r)
    unfolding after_rules resolve_variation_or_rollout
    after_rules-IsServed flag cfg none valid full e =
        resolve-IsServed flag cfg _ _ ctx _ full.2 full.1 valid.2 refl
    after_rules-IsServed flag cfg (some (i, r)) valid full e =
        let (present, v, ro) =
          first_rule-All (λ (r : Rule). IsServable (length flag.variations) r.serve)
            (rule_matches rt store ctx fuel) 0 cfg.rules
            (valid_rules_All (length flag.variations) [] cfg.rules valid.1 full.3) e in
        resolve-IsServed flag cfg _ _ ctx _ present v ro refl

    after_targets-IsServed :
        (flag : Flag) (cfg : FlagConfig) (o : Option ℤ)
        → IsValidConfig (length flag.variations) cfg
        → IsComplete flag cfg
        → first_target ctx.key cfg.targets ≡ o
        → Ensures IsServed (after_targets rt store ctx fuel flag cfg o)
    unfolding after_targets
    after_targets-IsServed flag cfg none valid full e =
        Ensures-bind (first_rule (rule_matches rt store ctx fuel) 0 cfg.rules)
          (λ r. some (after_rules rt store ctx fuel flag cfg r))
          (λ r er.
            Ensures-pure (after_rules rt store ctx fuel flag cfg r)
              (after_rules-IsServed flag cfg r valid full er))
    after_targets-IsServed flag cfg (some v) valid full e =
        Ensures-pure (variation_result rt flag v _) (
          variation_result-IsServed flag v _
            (first_target-All (InRange (length flag.variations)) ctx.key cfg.targets full.0 e) refl)

    after_prerequisites-IsServed :
        (flag : Flag) (cfg : FlagConfig) (o : Option String)
        → IsValidConfig (length flag.variations) cfg
        → IsComplete flag cfg
        → Ensures IsServed (after_prerequisites rt store ctx fuel flag cfg o)
    unfolding after_prerequisites off_result
    after_prerequisites-IsServed flag cfg none valid full =
        after_targets-IsServed flag cfg _ valid full refl
    after_prerequisites-IsServed flag cfg (some key) valid full =
        Ensures-pure (off_result rt flag cfg _) (off_from-IsServed flag _ _ valid.0 refl)

    -- A configuration that passes `Validate` is never reported as malformed (nor as any other error), if
    -- moreover its targets and its fixed fallthrough variation are in range and each rule and the
    -- fallthrough name a variation or a rollout. `Validate` does not check these.
    pub evaluate-IsServed :
        (flag : Flag) (cfg : FlagConfig) (env : String) {out : Outcome Float}
        → validate_flag_config (length flag.variations) env cfg ≡ none
        → IsComplete flag cfg
        → evaluate rt store ctx fuel flag cfg ≡ some out
        → IsServed out
    unfolding evaluate evaluate_with_depth off_result
    evaluate-IsServed flag cfg env ok full e =
        let valid = (validate_flag_config_iff (length flag.variations) env cfg).0 ok in
        (evaluate_step_rule rt store ctx fuel IsServed _ 0 [] flag cfg
            (λ reason early. off_from-IsServed flag cfg.off_variation reason valid.0 (ground arith))
            (λ o _. after_prerequisites-IsServed flag cfg o valid full)).at
          _ e
