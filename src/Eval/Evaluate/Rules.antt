-- ===== src/Eval/Evaluate/Rules.antt =====
-- `evaluateWithDepth` of internal/eval/evaluate.go in one rule: a property of its results holds if it
-- holds of the two early returns and of what follows the prerequisites.
use pennant.Prelude.{
  ℕ, String, Option, some, List, ◌∷◌, Bool, true, false, not, ◌||◌, ◌≡◌, refl, arith, ◌⊎◌, inl, inr,
  ◌>>=◌, ltb, member, if◌then◌else◌,
}
use pennant.Prelude.Ensures.{Ensures, Ensures-pure, Ensures-bind, Ensures-if}
use pennant.Model.Types.{FlagConfig, Flag, Reason, reason_off, err_prereq_cycle}
use pennant.Eval.Runtime.{Runtime, Context, EvalStore}
use pennant.Eval.Evaluate.{
  Outcome, max_prerequisite_depth, plain, error_reason, off_result, after_prerequisites,
  failed_prerequisite, evaluate_step,
}

-- The early returns: the flag is off, or it is entered too deep or again.
abbrev pub IsEarly : ℕ → List String → Flag → FlagConfig → Reason → Type 0
IsEarly depth visited flag cfg reason =
    (reason ≡ plain reason_off) × (cfg.on ≡ false)
    ⊎ (reason ≡ error_reason err_prereq_cycle)
      × ((ltb max_prerequisite_depth depth || member flag.key visited) ≡ true)

module _ (rt : Runtime) (store : EvalStore) (ctx : Context rt.Float) (fuel : ℕ) where
  open rt use {Float}

  pub evaluate_step_rule :
      (P : Outcome Float → Type 0) (eval : List String → Flag → FlagConfig → Option (Outcome Float))
      (depth : ℕ) (visited : List String) (flag : Flag) (cfg : FlagConfig)
      → ((reason : Reason)
          → IsEarly depth visited flag cfg reason
          → P (off_result rt flag cfg reason))
      → ((o : Option String)
          → failed_prerequisite rt store ctx fuel (eval (flag.key ∷ visited)) cfg.prerequisites
            ≡ some o
          → Ensures P (after_prerequisites rt store ctx fuel flag cfg o))
      → Ensures P (evaluate_step rt store ctx fuel eval depth visited flag cfg)
  unfolding evaluate_step
  evaluate_step_rule P eval depth visited flag cfg early next =
      Ensures-if (not cfg.on) off entered (λ e. Ensures-pure _ (early _ (inl (refl, ground arith))))
        (λ _.
          Ensures-if blocked cycle go (λ e. Ensures-pure _ (early _ (inr (refl, e))))
            (λ _.
              Ensures-bind
                (failed_prerequisite rt store ctx fuel (eval (flag.key ∷ visited))
                  cfg.prerequisites)
                (after_prerequisites rt store ctx fuel flag cfg) next))
    where
      off : Option (Outcome Float)
      off = some (off_result rt flag cfg (plain reason_off))

      blocked : Bool
      blocked = ltb max_prerequisite_depth depth || member flag.key visited

      cycle : Option (Outcome Float)
      cycle = some (off_result rt flag cfg (error_reason err_prereq_cycle))

      go : Option (Outcome Float)
      go =
          failed_prerequisite rt store ctx fuel (eval (flag.key ∷ visited)) cfg.prerequisites
          >>= after_prerequisites rt store ctx fuel flag cfg

      entered : Option (Outcome Float)
      entered = if blocked then cycle else go
