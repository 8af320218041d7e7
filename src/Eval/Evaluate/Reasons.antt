-- ===== src/Eval/Evaluate/Reasons.antt =====
-- The index of a rule in the reason of internal/eval/evaluate.go, and the rule that it names.
use pennant.Prelude.{
  ℕ, Option, none, some, List, [], ◌∷◌, ◌++◌, true, ◌≡◌, refl, sym, ap, ◌∙◌, length, get_elem?,
  some_injective,
}
use pennant.Prelude.Int.{ℤ}
use pennant.Model.Types.{Variation, Rollout, WeightedVariation, Rule, FlagConfig, Flag, Reason}
use pennant.Eval.Runtime.{Runtime, Context, EvalStore}
use pennant.Eval.Clauses.{rule_matches}
use pennant.Eval.Evaluate.{
  Outcome, served, variation_result, off_from, off_result, rollout_result, resolve,
  resolve_variation_or_rollout, evaluate,
}
use pennant.Eval.Evaluate.Pipeline.{
  Decided, switched_off, unmet, targeted, ruled, fell_through, evaluate-Decided,
}

pub elem_behind : (rs qs : List Rule) (r : Rule) → get_elem? (rs ++ r ∷ qs) (length rs) ≡ some r
elem_behind [] qs r = refl
elem_behind (q ∷ rs) qs r = elem_behind rs qs r

module _ (rt : Runtime) where
  open rt use {Float}

  -- The index of a rule in an outcome's reason is the one of the reason that was given for it.
  served_index :
      (idx : ℤ) (reason : Reason) (o : Option Variation) {k : ℕ}
      → (served rt idx reason o).reason.rule_index ≡ some k
      → reason.rule_index ≡ some k
  served_index idx reason none e = cc
  served_index idx reason (some v) e = e

  variation_index :
      (flag : Flag) (idx : ℤ) (reason : Reason) {k : ℕ}
      → (variation_result rt flag idx reason).reason.rule_index ≡ some k
      → reason.rule_index ≡ some k
  unfolding variation_result
  variation_index flag idx reason e = served_index idx reason _ e

  off_from_index :
      (flag : Flag) (o : Option ℤ) (reason : Reason) {k : ℕ}
      → (off_from rt flag o reason).reason.rule_index ≡ some k
      → reason.rule_index ≡ some k
  unfolding off_from
  off_from_index flag none reason e = e
  off_from_index flag (some idx) reason e = variation_index flag idx reason e

  rollout_index :
      (flag : Flag) (cfg : FlagConfig) (ro : Rollout) (wvs : List WeightedVariation)
      (ctx : Context Float) (reason : Reason) {k : ℕ}
      → (rollout_result rt flag cfg ro wvs ctx reason).reason.rule_index ≡ some k
      → reason.rule_index ≡ some k
  unfolding rollout_result
  rollout_index flag cfg ro [] ctx reason e = cc
  rollout_index flag cfg ro (wv ∷ wvs) ctx reason e = variation_index flag _ _ e

  resolve_index :
      (flag : Flag) (cfg : FlagConfig) (v : Option ℤ) (ro : Option Rollout) (ctx : Context Float)
      (reason : Reason) {k : ℕ}
      → (resolve rt flag cfg v ro ctx reason).reason.rule_index ≡ some k
      → reason.rule_index ≡ some k
  unfolding resolve
  resolve_index flag cfg (some v) ro ctx reason e = variation_index flag v reason e
  resolve_index flag cfg none none ctx reason e = cc
  resolve_index flag cfg none (some ro) ctx reason e =
      rollout_index flag cfg ro ro.variations ctx reason e

  module _ (store : EvalStore) (ctx : Context Float) (fuel : ℕ) where
    -- The rule at an index matches.
    abbrev pub MatchesAt : FlagConfig → ℕ → Type 0
    MatchesAt cfg k =
        (r : Rule) × (get_elem? cfg.rules k ≡ some r)
        × (rule_matches rt store ctx fuel r ≡ some true)

    no_index : {k : ℕ} {A : Type 0} → none ≡ some k → A
    no_index h = cc

    named :
        {out x : Outcome Float} {k : ℕ}
        → out ≡ x
        → out.reason.rule_index ≡ some k
        → x.reason.rule_index ≡ some k
    named e h = ap (λ (o : Outcome Float). o.reason.rule_index) (sym e) ∙ h

    decided_index :
        (flag : Flag) (cfg : FlagConfig) (out : Outcome Float) {k : ℕ}
        → Decided rt store ctx fuel flag cfg out
        → out.reason.rule_index ≡ some k
        → MatchesAt cfg k
    unfolding resolve_variation_or_rollout off_result
    decided_index flag cfg out (switched_off off e) h =
        no_index (off_from_index flag cfg.off_variation _ (named e h))
    decided_index flag cfg out (unmet on w e) h =
        no_index (off_from_index flag cfg.off_variation _ (named e h))
    decided_index flag cfg out (targeted entered w e) h =
        no_index (variation_index flag _ _ (named e h))
    decided_index flag cfg out (fell_through entered u all e) h =
        no_index (resolve_index flag cfg _ _ ctx _ (named e h))
    decided_index flag cfg out (ruled entered u w e) h =
        let at : some (length w.before) ≡ some _ = resolve_index flag cfg _ _ ctx _ (named e h) in
        (
          w.here,
          rw (w.split) (rw (← some_injective at) (elem_behind w.before w.behind w.here)),
          w.found,
        )

    -- If Evaluate names the index of a rule, that rule matches.
    pub evaluate-rule_index :
        (flag : Flag) (cfg : FlagConfig) {out : Outcome Float} {k : ℕ}
        → evaluate rt store ctx fuel flag cfg ≡ some out
        → out.reason.rule_index ≡ some k
        → MatchesAt cfg k
    evaluate-rule_index flag cfg {out = out} e h =
        decided_index flag cfg out ((evaluate-Decided rt store ctx fuel flag cfg out).0 e) h
