-- ===== src/Eval/Evaluate/Rollouts.antt =====
-- Rollouts of internal/eval/{evaluate,bucket}.go: who keeps a variation when contexts or weights change.
use pennant.Prelude.{
  String, Option, none, some, List, [], ◌∷◌, true, inl, inr, ◌==◌, Bool-cases, ◌≡◌, refl,
}
use pennant.Prelude.Int.{ℤ, pos, ◌≤ℤ◌}
use pennant.Model.Types.{WeightedVariation, Rollout, FlagConfig, Flag, Reason}
use pennant.Eval.Runtime.{Runtime, Context, get_attribute}
use pennant.Eval.Bucket.{default_key, compute_bucket}
use pennant.Eval.Evaluate.{walk, rollout_result, resolve}

module _ (rt : Runtime) where
  open rt use {Float, of_int, add, div, lt, le}

  -- `if bucketBy == ""` twice is the same as once.
  default_key_idem : (by : String) → default_key (default_key by) ≡ default_key by
  default_key_idem by = elim (Bool-cases (by == "")) [
    | inl empty ↦ simp empty
    | inr set ↦ simp (set, set)
  ]

  compute_bucket_sticky :
      (ctx ctx' : Context Float) (by key salt : String) (seed : Option ℤ)
      → get_attribute ctx (default_key by) ≡ get_attribute ctx' (default_key by)
      → compute_bucket rt ctx (default_key by) key salt seed
        ≡ compute_bucket rt ctx' (default_key by) key salt seed
  unfolding compute_bucket
  compute_bucket_sticky ctx ctx' by key salt seed h = rw (default_key_idem, h)

  -- A rollout sees nothing of a context but the attribute that it buckets by: contexts with the same
  -- value there get the same result, whatever their other attributes.
  pub resolve_sticky :
      (flag : Flag) (cfg : FlagConfig) (ro : Rollout) (ctx ctx' : Context Float) (reason : Reason)
      → get_attribute ctx (default_key ro.bucket_by) ≡ get_attribute ctx' (default_key ro.bucket_by)
      → resolve rt flag cfg none (some ro) ctx reason
        ≡ resolve rt flag cfg none (some ro) ctx' reason
  unfolding resolve
  resolve_sticky flag cfg ro ctx ctx' reason h = by_list ro.variations
    where
      by_list :
          (wvs : List WeightedVariation)
          → rollout_result rt flag cfg ro wvs ctx reason
            ≡ rollout_result rt flag cfg ro wvs ctx' reason
      by_list [] = unfold rollout_result in refl
      by_list (wv ∷ wvs) =
          unfold rollout_result in
          rw (compute_bucket_sticky ctx ctx' ro.bucket_by flag.key cfg.salt ro.seed h)

  -- What IEEE arithmetic gives: rounding is monotone, of sums that start at zero too. No comparison holds of a
  -- NaN, so a and b are none here, and zero added to them leaves their order.
  pub record IsMonotone : Type 0 where
    pub lt_le : (a b c : Float) → lt a b ≡ true → le b c ≡ true → lt a c ≡ true
    pub of_int_mono : (i j : ℤ) → i ≤ℤ j → le (of_int i) (of_int j) ≡ true
    pub div_mono :
        (a b : Float)
        → le a b ≡ true
        → le (div a (of_int (pos 100000))) (div b (of_int (pos 100000))) ≡ true
    pub add_mono :
        (a b : Float) → le a b ≡ true → le (add (of_int (pos 0)) a) (add (of_int (pos 0)) b) ≡ true

  -- The upper end of the first variation's share.
  abbrev pub share : ℤ → Float
  share w = add (of_int (pos 0)) (div (of_int w) (of_int (pos 100000)))

  -- Raising the weight of the first variation, with any weights behind it, takes nobody out of it: a
  -- context whose bucket lies below the old share has the result that it had.
  pub rollout_growth :
      IsMonotone
      → (flag : Flag) (cfg : FlagConfig) (ro : Rollout) (wv : WeightedVariation) (w' : ℤ)
        (wvs wvs' : List WeightedVariation) (ctx : Context Float) (reason : Reason)
      → wv.weight ≤ℤ w'
      → lt
          (compute_bucket rt ctx (default_key ro.bucket_by) flag.key cfg.salt ro.seed)
          (share wv.weight)
        ≡ true
      → rollout_result rt flag cfg ro (record wv { weight = w' } ∷ wvs') ctx reason
        ≡ rollout_result rt flag cfg ro (wv ∷ wvs) ctx reason
  unfolding rollout_result walk
  rollout_growth mono flag cfg ro wv w' wvs wvs' ctx reason grow inside =
      let wider =
        mono.lt_le _ (share wv.weight) (share w') inside
          (mono.add_mono _ _ (mono.div_mono _ _ (mono.of_int_mono wv.weight w' grow))) in
      simp (inside, wider)
