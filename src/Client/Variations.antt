-- ===== src/Client/Variations.antt =====
-- The typed methods of sdk/go/pennant/client.go next to EvaluateDetail, which has its own copy of the lookups.
use pennant.Prelude.{
  ℕ, String, Option, none, some, Bool, not, ◌≡◌, refl, ap, true, false, ◌>>=◌, is_some,
  if◌then◌else◌,
}
use pennant.Model.Types.{Flag, FlagConfig}
use pennant.Snapshot.Types.{Snapshot}
use pennant.Eval.Runtime.{Runtime, Value, Context, EvalStore}
use pennant.Eval.Evaluate.{Outcome, evaluate}
use pennant.Client.{
  Client, EvalResult, snapshot_store, eval_found, eval_from, eval_flag, detail_found, detail_from,
  evaluate_detail, is_missing, bool_or, string_or, float_or, bool_variation, string_variation,
  float64_variation, evaluated,
}

if-not {ℓ} : {A : Type ℓ} (b : Bool) (x y : A) → (if not b then x else y) ≡ (if b then y else x)
if-not true x y = refl
if-not false x y = refl

module _ (rt : Runtime) (fuel : ℕ) where
  open rt use {Float}

  -- A value of the detailed result as a typed one: the default unless a variation was served.
  abbrev pub typed {ℓ} : {A : Type ℓ} → (Value Float → A) → A → Outcome Float → A
  typed read d out = if is_some out.index then read out.value else d

  abbrev typed_result {ℓ} : {A : Type ℓ} → (Value Float → A) → A → EvalResult Float → A
  typed_result read d r = if is_missing rt fuel r then d else read r.value

  typed-evaluated {ℓ} :
      {A : Type ℓ} (read : Value Float → A) (d : A) (o : Option (Outcome Float))
      → ((o >>= λ out. some (evaluated rt fuel out)) >>= λ r. some (typed_result read d r))
        ≡ (o >>= λ out. some (typed read d out))
  typed-evaluated read d none = refl
  typed-evaluated read d (some out) = ap some (if-not (is_some out.index) d (read out.value))

  typed_found {ℓ} :
      {A : Type ℓ} (read : Value Float → A) (d : A) (store : EvalStore) (ctx : Context Float)
      (found : Option (Flag × FlagConfig))
      → (eval_found rt fuel store ctx found >>= λ r. some (typed_result read d r))
        ≡ (detail_found rt fuel store ctx found >>= λ out. some (typed read d out))
  typed_found read d store ctx none = refl
  typed_found read d store ctx (some (flag, cfg)) =
      typed-evaluated read d (evaluate rt store ctx fuel flag cfg)

  typed_from {ℓ} :
      {A : Type ℓ} (read : Value Float → A) (d : A) (key : String) (ctx : Context Float)
      (snap : Option Snapshot)
      → (eval_from rt fuel key ctx snap >>= λ r. some (typed_result read d r))
        ≡ (detail_from rt fuel key ctx snap >>= λ out. some (typed read d out))
  typed_from read d key ctx none = refl
  typed_from read d key ctx (some snap) =
      typed_found read d (snapshot_store snap) ctx ((snapshot_store snap).get_flag key)

  -- The Boolean, text and number methods give the value of the variation that EvaluateDetail serves, where it has
  -- their type, and the caller's default in all other cases: no snapshot, no such flag, no variation, another type.
  pub variations-evaluate_detail :
      (c : Client) (key : String) (ctx : Context Float) (b : Bool) (s : String) (x : Float)
      → (bool_variation rt fuel c key ctx b
          ≡ (evaluate_detail rt fuel c key ctx >>= λ out. some (typed (bool_or rt fuel b) b out)))
        × (string_variation rt fuel c key ctx s ≡ (
            evaluate_detail rt fuel c key ctx >>= λ out. some (typed (string_or rt fuel s) s out)))
        × (float64_variation rt fuel c key ctx x ≡ (
            evaluate_detail rt fuel c key ctx >>= λ out. some (typed (float_or rt fuel x) x out)))
  unfolding bool_variation string_variation float64_variation eval_flag evaluate_detail
  variations-evaluate_detail c key ctx b s x = (
    typed_from (bool_or rt fuel b) b key ctx c.snap,
    typed_from (string_or rt fuel s) s key ctx c.snap,
    typed_from (float_or rt fuel x) x key ctx c.snap,
  )
