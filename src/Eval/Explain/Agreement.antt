-- ===== src/Eval/Explain/Agreement.antt =====
-- When `Explain` of internal/eval/explain.go reports what `Evaluate` returns.
use pennant.Prelude.{
  ℕ, suc, String, Option, none, some, List, [], ◌∷◌, Bool, true, false, ◌&&◌, ◌≡◌, refl, ◌∙◌, ◌≢◌,
  inl, inr, sym, ap, ◌>>=◌, bind-eq-some, some_injective, member, All, Bool-cases, if◌then◌else◌,
}
use pennant.Prelude.Int.{ℤ}
use pennant.Model.Types.{Clause, Rule, Prerequisite, FlagConfig, Flag}
use pennant.Eval.Runtime.{Runtime, Context, EvalStore}
use pennant.Eval.Clauses.{all_match, rule_clauses, clause_matches, rule_matches}
use pennant.Eval.Evaluate.{
  Outcome, first_rule, after_rules, after_targets, after_prerequisites, prerequisite_met,
  failed_prerequisite, evaluate_step, evaluate_with_depth, evaluate,
}
use pennant.Eval.Explain.{
  ClauseResult, TraceStep, Trace, rule_step, prereq_step, explain_clauses, explain_rules,
  explain_prerequisites, explain_serve, explain_targets, explain_entered, explain,
}

explain_clauses_lem :
    (f : Clause → Option Bool) (cs : List Clause) {res : Bool × List ClauseResult}
    → explain_clauses f cs ≡ some res
    → all_match f cs ≡ some res.0
unfolding explain_clauses all_match
explain_clauses_lem f [] e = ap (λ o. o >>= λ (r : Bool × List ClauseResult). some r.0) e
explain_clauses_lem f (c ∷ cs) e =
    let (m, em, e1) = bind-eq-some (f c) _ e in
    let (r, er, e2) = bind-eq-some (explain_clauses f cs) _ e1 in
    let ih = explain_clauses_lem f cs er in simp (em, ih, ← some_injective e2) (both m r.0)
  where
    both : (m b : Bool) → (if m then some b else some false) ≡ some (m && b)
    both true b = refl
    both false b = refl

pub explain_clauses_nonempty :
    (f : Clause → Option Bool) (cs : List Clause) {res : Bool × List ClauseResult}
    → cs ≢ []
    → explain_clauses f cs ≡ some res
    → rule_clauses f cs ≡ some res.0
unfolding rule_clauses
explain_clauses_nonempty f [] h e = absurd (h refl)
explain_clauses_nonempty f (c ∷ cs) h e = explain_clauses_lem f (c ∷ cs) e

-- One round of the two loops over rules.
rules_round :
    (i : ℕ) (r : Rule) (res : Bool × List ClauseResult)
    (r1 : Option (List TraceStep × Option (ℕ × Rule))) (r2 : Option (Option (ℕ × Rule)))
    {t : List TraceStep × Option (ℕ × Rule)}
    → ((t : List TraceStep × Option (ℕ × Rule)) → r1 ≡ some t → r2 ≡ some t.1)
    → (if res.0
        then some (rule_step i r true res.1 ∷ [], some (i, r))
        else (r1 >>= λ t. some (rule_step i r false res.1 ∷ t.0, t.1)))
      ≡ some t
    → (if res.0 then some (some (i, r)) else r2) ≡ some t.1
rules_round i r (true, l) r1 r2 h e =
    ap (λ o. o >>= λ (x : List TraceStep × Option (ℕ × Rule)). some x.1) e
rules_round i r (false, l) r1 r2 h e =
    let (x, ex, e1) = bind-eq-some r1 _ e in
    h x ex ∙ ap (λ o. o >>= λ (x : List TraceStep × Option (ℕ × Rule)). some x.1) e1

explain_rules_lem :
    (f : Clause → Option Bool) (i : ℕ) (rs : List Rule) {t : List TraceStep × Option (ℕ × Rule)}
    → All (λ (r : Rule). r.clauses ≢ []) rs
    → explain_rules f i rs ≡ some t
    → first_rule (λ r. rule_clauses f r.clauses) i rs ≡ some t.1
unfolding explain_rules first_rule
explain_rules_lem f i [] h e =
    ap (λ o. o >>= λ (r : List TraceStep × Option (ℕ × Rule)). some r.1) e
explain_rules_lem f i (r ∷ rs) h e =
    let (res, er, e1) = bind-eq-some (explain_clauses f r.clauses) _ e in
    rw (explain_clauses_nonempty f r.clauses h.0 er) (
      rules_round i r res (explain_rules f (suc i) rs)
        (first_rule (λ r. rule_clauses f r.clauses) (suc i) rs)
        (λ t et. explain_rules_lem f (suc i) rs h.1 et) e1)

module _ (rt : Runtime) (store : EvalStore) (ctx : Context rt.Float) (fuel : ℕ) where
  open rt use {Float}

  -- The prerequisite's flag has no prerequisites of its own, and is not the flag at the top.
  abbrev pub IsLeaf : String → Option (Flag × FlagConfig) → Type 0
  IsLeaf key none = Unit
  IsLeaf key (some (pf, pcfg)) = (pcfg.prerequisites ≡ []) × (member pf.key (key ∷ []) ≡ false)

  leaf_met :
      (key : String) (p : Prerequisite) (o : Option (Flag × FlagConfig))
      → IsLeaf key o
      → prerequisite_met rt store ctx fuel (evaluate rt store ctx fuel) p o
        ≡ prerequisite_met rt store ctx fuel
            (evaluate_with_depth rt store ctx fuel 21 1 (key ∷ []))
            p
            o
  unfolding prerequisite_met evaluate evaluate_with_depth evaluate_step failed_prerequisite
  leaf_met key p none h = refl
  leaf_met key p (some (pf, pcfg)) h = simp (h.0, h.1)

  -- Every prerequisite of the configuration is such a leaf.
  abbrev pub HasLeaves : Flag → FlagConfig → Type 0
  HasLeaves flag cfg =
      All (λ (p : Prerequisite). IsLeaf flag.key (store.get_flag p.flag_key)) cfg.prerequisites

  prerequisites_round :
      (p : Prerequisite) (met : Option Bool) (r1 : Option (List TraceStep × Option String))
      (r2 : Option (Option String)) {t : List TraceStep × Option String}
      → ((t : List TraceStep × Option String) → r1 ≡ some t → r2 ≡ some t.1)
      → (met >>= λ b.
          if b
          then (r1 >>= λ t. some (prereq_step p.flag_key false ∷ t.0, t.1))
          else some (prereq_step p.flag_key true ∷ [], some p.flag_key))
        ≡ some t
      → (met >>= λ b. if b then r2 else some (some p.flag_key)) ≡ some t.1
  prerequisites_round p none r1 r2 h e = cc
  prerequisites_round p (some true) r1 r2 h e =
      let (x, ex, e1) = bind-eq-some r1 _ e in
      h x ex ∙ ap (λ o. o >>= λ (x : List TraceStep × Option String). some x.1) e1
  prerequisites_round p (some false) r1 r2 h e =
      ap (λ o. o >>= λ (x : List TraceStep × Option String). some x.1) e

  pub explain_prerequisites_lem :
      (key : String) (ps : List Prerequisite) {t : List TraceStep × Option String}
      → All (λ (p : Prerequisite). IsLeaf key (store.get_flag p.flag_key)) ps
      → explain_prerequisites rt store ctx fuel ps ≡ some t
      → failed_prerequisite rt store ctx fuel
          (evaluate_with_depth rt store ctx fuel 21 1 (key ∷ []))
          ps
        ≡ some t.1
  unfolding explain_prerequisites failed_prerequisite
  explain_prerequisites_lem key [] h e =
      ap (λ o. o >>= λ (x : List TraceStep × Option String). some x.1) e
  explain_prerequisites_lem key (p ∷ ps) h e =
      rw (← leaf_met key p (store.get_flag p.flag_key) h.0) (
        prerequisites_round p _ (explain_prerequisites rt store ctx fuel ps) _
          (λ t et. explain_prerequisites_lem key ps h.1 et) e)

  abbrev pub outcome_of : Option (Trace Float) → Option (Outcome Float)
  outcome_of o = o >>= λ t. some t.outcome

  pub serve_lem :
      (steps : List TraceStep) (flag : Flag) (cfg : FlagConfig) (r : Option (ℕ × Rule))
      → (explain_serve rt store ctx fuel steps flag cfg r).outcome
        ≡ after_rules rt store ctx fuel flag cfg r
  unfolding explain_serve after_rules
  serve_lem steps flag cfg none = refl
  serve_lem steps flag cfg (some (i, r)) = refl

  targets_lem :
      (steps : List TraceStep) (flag : Flag) (cfg : FlagConfig) (o : Option ℤ) {t : Trace Float}
      → All (λ (r : Rule). r.clauses ≢ []) cfg.rules
      → explain_targets rt store ctx fuel steps flag cfg o ≡ some t
      → after_targets rt store ctx fuel flag cfg o ≡ some t.outcome
  unfolding explain_targets after_targets rule_matches
  targets_lem steps flag cfg (some v) h e = ap outcome_of e
  targets_lem steps flag cfg none h e =
      let (x, ex, e1) =
        bind-eq-some (explain_rules (clause_matches rt store ctx fuel) 0 cfg.rules) _ e in
      rw (explain_rules_lem (clause_matches rt store ctx fuel) 0 cfg.rules h ex)
        (ap some (sym (serve_lem _ flag cfg x.1)) ∙ ap outcome_of e1)

  entered_lem :
      (flag : Flag) (cfg : FlagConfig) (x : List TraceStep × Option String) {t : Trace Float}
      → All (λ (r : Rule). r.clauses ≢ []) cfg.rules
      → explain_entered rt store ctx fuel flag cfg x ≡ some t
      → after_prerequisites rt store ctx fuel flag cfg x.1 ≡ some t.outcome
  unfolding explain_entered after_prerequisites
  entered_lem flag cfg (steps, some key) h e = ap outcome_of e
  entered_lem flag cfg (steps, none) h e = targets_lem _ flag cfg _ h e

  -- If every rule has a clause and each prerequisite is a flag without prerequisites of its own, other
  -- than the flag at hand, the variation, value and reason of a trace are those that `Evaluate` returns.
  pub explain-eq-evaluate :
      (flag : Flag) (cfg : FlagConfig) {t : Trace Float}
      → All (λ (r : Rule). r.clauses ≢ []) cfg.rules
      → HasLeaves flag cfg
      → explain rt store ctx fuel flag cfg ≡ some t
      → evaluate rt store ctx fuel flag cfg ≡ some t.outcome
  unfolding explain evaluate evaluate_with_depth evaluate_step
  explain-eq-evaluate flag cfg h leaves e = elim (Bool-cases cfg.on) [
    | inl on ↦
        let (x, ex, e1) =
          bind-eq-some (explain_prerequisites rt store ctx fuel cfg.prerequisites) _
            (simp on at e) in
        simp on (
          rw (explain_prerequisites_lem flag.key cfg.prerequisites leaves ex)
            (entered_lem flag cfg x h e1))
    | inr off ↦ simp off (ap outcome_of (simp off at e))
  ]
