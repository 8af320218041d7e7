-- ===== src/Eval/Explain/EmptyRules.antt =====
-- Rules without clauses in internal/eval/explain.go and evaluate.go.
use pennant.Prelude.{
  ℕ, suc, ◌+◌, String, Option, none, some, List, [], ◌∷◌, ◌++◌, Bool, true, false, ◌≡◌, ◌≢◌, refl,
  sym, ap, ◌∙◌, arith, All, length, bind-eq-some, some_injective,
}
use pennant.Prelude.Int.{ℤ}
use pennant.Model.Types.{Variation, Clause, Rule, FlagConfig, Flag}
use pennant.Eval.Runtime.{Runtime, Context, EvalStore}
use pennant.Eval.Clauses.{rule_clauses, clause_matches, rule_matches}
use pennant.Eval.Evaluate.{
  Outcome, nth_variation, variation_result, rule_match, after_rules, resolve,
  resolve_variation_or_rollout, evaluate,
}
use pennant.Eval.Evaluate.Prerequisites.{failed_prerequisite-none}
use pennant.Eval.Evaluate.Order.{IsEntered, IsUntargeted, first_target-none}
use pennant.Eval.Evaluate.Reasons.{elem_behind, MatchesAt, evaluate-rule_index}
use pennant.Eval.Explain.{
  TraceStep, Trace, explain_clauses, explain_prerequisites, explain_rules, explain_targets,
  explain_entered, explain,
}
use pennant.Eval.Explain.Agreement.{
  explain_clauses_nonempty, explain_prerequisites_lem, serve_lem, HasLeaves,
}

empty_clauses :
    (f : Clause → Option Bool) (cs : List Clause) → cs ≡ [] → rule_clauses f cs ≡ some true → ⊥
unfolding rule_clauses
empty_clauses f [] e h = cc
empty_clauses f (c ∷ cs) e h = cc

no_clauses :
    (f : Clause → Option Bool) (cs : List Clause) → cs ≡ [] → explain_clauses f cs ≡ some (true, [])
unfolding explain_clauses
no_clauses f [] e = refl
no_clauses f (c ∷ cs) e = cc

module _ (rt : Runtime) (store : EvalStore) (ctx : Context rt.Float) (fuel : ℕ) where
  open rt use {Float}

  empty_unmatched : (r : Rule) → r.clauses ≡ [] → rule_matches rt store ctx fuel r ≡ some true → ⊥
  unfolding rule_matches
  empty_unmatched r e h = empty_clauses (clause_matches rt store ctx fuel) r.clauses e h

  explain_rules_empty :
      (i : ℕ) (rs qs : List Rule) (r : Rule) {t : List TraceStep × Option (ℕ × Rule)}
      → All (λ (q : Rule). q.clauses ≢ []) rs
      → All (λ q. rule_matches rt store ctx fuel q ≡ some false) rs
      → r.clauses ≡ []
      → explain_rules (clause_matches rt store ctx fuel) i (rs ++ r ∷ qs) ≡ some t
      → t.1 ≡ some (i + length rs, r)
  unfolding explain_rules rule_matches
  explain_rules_empty i [] qs r full apart empty e =
      let found : explain_clauses (clause_matches rt store ctx fuel) r.clauses ≡ some (true, []) =
        no_clauses (clause_matches rt store ctx fuel) r.clauses empty in
      sym (ap (λ (x : List TraceStep × Option (ℕ × Rule)). x.1) (some_injective (simp found at e)))
      ∙ ap (λ k. some (k, r)) (omega arith)
  explain_rules_empty i (q ∷ rs) qs r full apart empty e =
      let (res, er, e1) =
        bind-eq-some (explain_clauses (clause_matches rt store ctx fuel) q.clauses) _ e in
      let no : res.0 ≡ false = some_injective (
        sym (explain_clauses_nonempty (clause_matches rt store ctx fuel) q.clauses full.0 er)
        ∙ apart.0) in
      let (x, ex, e2) =
        bind-eq-some (explain_rules (clause_matches rt store ctx fuel) (suc i) (rs ++ r ∷ qs)) _
          (simp no at e1) in
      sym (ap (λ (y : List TraceStep × Option (ℕ × Rule)). y.1) (some_injective e2))
      ∙ explain_rules_empty (suc i) rs qs r full.1 apart.1 empty ex
      ∙ ap (λ k. some (k, r)) (omega arith)

  -- What Explain returns from the rules on.
  explain_targets_empty :
      (steps : List TraceStep) (flag : Flag) (cfg : FlagConfig) (rs qs : List Rule) (r : Rule)
      {t : Trace Float}
      → cfg.rules ≡ rs ++ r ∷ qs
      → All (λ (q : Rule). q.clauses ≢ []) rs
      → All (λ q. rule_matches rt store ctx fuel q ≡ some false) rs
      → r.clauses ≡ []
      → explain_targets rt store ctx fuel steps flag cfg none ≡ some t
      → t.outcome ≡ resolve_variation_or_rollout rt flag cfg r.serve ctx (rule_match (length rs) r)
  unfolding explain_targets
  explain_targets_empty steps flag cfg rs qs r split full apart empty e =
      let (x, ex, e1) =
        bind-eq-some (explain_rules (clause_matches rt store ctx fuel) 0 cfg.rules) _ e in
      let at : x.1 ≡ some (length rs, r) =
        explain_rules_empty 0 rs qs r full apart empty (rw split at ex)
        ∙ ap (λ k. some (k, r)) (omega arith) in
      sym (ap (λ (y : Trace Float). y.outcome) (some_injective e1))
      ∙ serve_lem rt store ctx fuel _ flag cfg x.1
      ∙ ap (λ o. after_rules rt store ctx fuel flag cfg o) at
      ∙ (unfold after_rules in refl)

  explain_entered_empty :
      (flag : Flag) (cfg : FlagConfig) (rs qs : List Rule) (r : Rule) {t : Trace Float}
      → IsEntered rt store ctx fuel flag cfg
      → HasLeaves rt store ctx fuel flag cfg
      → IsUntargeted rt store ctx fuel cfg
      → cfg.rules ≡ rs ++ r ∷ qs
      → All (λ (q : Rule). q.clauses ≢ []) rs
      → All (λ q. rule_matches rt store ctx fuel q ≡ some false) rs
      → r.clauses ≡ []
      → explain rt store ctx fuel flag cfg ≡ some t
      → t.outcome ≡ resolve_variation_or_rollout rt flag cfg r.serve ctx (rule_match (length rs) r)
  unfolding explain explain_entered
  explain_entered_empty flag cfg rs qs r {t = t} (on, met) leaves untargeted split full apart empty
        e =
      let (x, ex, e1) =
        bind-eq-some (explain_prerequisites rt store ctx fuel cfg.prerequisites) _ (simp on at e) in
      let none_failed : x.1 ≡ none = some_injective (
        sym (explain_prerequisites_lem rt store ctx fuel flag.key cfg.prerequisites leaves ex)
        ∙ failed_prerequisite-none rt store ctx fuel _ cfg.prerequisites met) in
      entered x none_failed e1
    where
      entered :
          (x : List TraceStep × Option String)
          → x.1 ≡ none
          → explain_entered rt store ctx fuel flag cfg x ≡ some t
          → t.outcome
            ≡ resolve_variation_or_rollout rt flag cfg r.serve ctx (rule_match (length rs) r)
      entered (steps, some key) h e = cc
      entered (steps, none) h e =
          explain_targets_empty _ flag cfg rs qs r split full apart empty
            (rw (first_target-none ctx.key cfg.targets untargeted) at e)

  rule_match_served :
      (flag : Flag) (cfg : FlagConfig) (r : Rule) (k : ℕ) {v : ℤ} {variation : Variation}
      → r.serve.variation ≡ some v
      → nth_variation flag.variations v ≡ some variation
      → (resolve_variation_or_rollout rt flag cfg r.serve ctx (rule_match k r)).reason.rule_index
        ≡ some k
  unfolding resolve_variation_or_rollout resolve variation_result
  rule_match_served flag cfg r k serves there = simp (serves, there) refl

  -- On a flag that is on, with its prerequisites met by flags without prerequisites of their own and no target
  -- for the context, take the first rule that has no clause, where no rule before it matches, and let it serve
  -- a variation of the flag. Then Explain gives this rule's index as the reason, and Evaluate does not.
  pub explain_empty_rule :
      (flag : Flag) (cfg : FlagConfig) (rs qs : List Rule) (r : Rule) {v : ℤ}
      {variation : Variation} {out : Outcome Float} {t : Trace Float}
      → IsEntered rt store ctx fuel flag cfg
      → HasLeaves rt store ctx fuel flag cfg
      → IsUntargeted rt store ctx fuel cfg
      → cfg.rules ≡ rs ++ r ∷ qs
      → All (λ (q : Rule). q.clauses ≢ []) rs
      → All (λ q. rule_matches rt store ctx fuel q ≡ some false) rs
      → r.clauses ≡ []
      → r.serve.variation ≡ some v
      → nth_variation flag.variations v ≡ some variation
      → evaluate rt store ctx fuel flag cfg ≡ some out
      → explain rt store ctx fuel flag cfg ≡ some t
      → (t.outcome.reason.rule_index ≡ some (length rs))
        × (out.reason.rule_index ≢ some (length rs))
  explain_empty_rule flag cfg rs qs r h leaves untargeted split full apart empty serves there
        evaluated explained =
      (
        ap (λ (o : Outcome Float). o.reason.rule_index)
              (explain_entered_empty flag cfg rs qs r h leaves untargeted split full apart empty
                explained)
            ∙ rule_match_served flag cfg r (length rs) serves there,
        λ named. unmatched (evaluate-rule_index rt store ctx fuel flag cfg evaluated named),
      )
    where
      unmatched : MatchesAt rt store ctx fuel cfg (length rs) → ⊥
      unmatched (r', at, matches) = empty_unmatched r empty (
          ap (λ q. rule_matches rt store ctx fuel q)
            (some_injective (sym (elem_behind rs qs r) ∙ (rw split at at)))
          ∙ matches)
