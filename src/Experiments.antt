-- ===== src/Experiments.antt =====
-- internal/experiment/{types,store}.go: experiments, their results, and the in-memory store of both. The
-- statistics that fill the results are not here. Floats are any type; `time.Now` is an argument.
pub mod Results
use pennant.Prelude.{
  String, Option, none, some, List, [], ◌∷◌, ◌++◌, Bool, true, false, ◌&&◌, ◌==◌, if◌then◌else◌,
}
use pennant.Prelude.Int.{ℤ}
use pennant.Prelude.Dict.{Dict, get, put, delete}
use pennant.Model.Types.{Time}

pub data Status : Type 0 where
  status_draft status_running status_paused status_stopped status_archived : Status
  status_other : String → Status

pub record Metric (F : Type 0) : Type 0 where
  pub key : String
  pub name : String
  pub event_name : String
  pub kind : String
  pub is_guardrail : Bool
  pub mde : F

pub record ExperimentVariation : Type 0 where
  pub variation_index : ℤ
  pub name : String
  pub is_control : Bool
  pub weight : ℤ

pub record Experiment (F : Type 0) : Type 0 where
  pub key : String
  pub name : String
  pub description : String
  pub flag_key : String
  pub environment_key : String
  pub project_key : String
  pub variations : List ExperimentVariation
  pub metrics : List (Metric F)
  pub status : Status
  pub alpha : F
  pub power : F
  pub started_at : Option Time
  pub stopped_at : Option Time
  pub created_at : Time
  pub updated_at : Time

pub record SrmSummary (F : Type 0) : Type 0 where
  pub chi_square : F
  pub p_value : F
  pub mismatch : Bool

pub record VariantMetric (F : Type 0) : Type 0 where
  pub variation_index : ℤ
  pub name : String
  pub control_n : ℤ
  pub control_conv : ℤ
  pub treatment_n : ℤ
  pub treatment_conv : ℤ
  pub control_rate : F
  pub treatment_rate : F
  pub absolute_effect : F
  pub relative_effect : F
  pub z_score : F
  pub p_value : F
  pub ci_lower : F
  pub ci_upper : F
  pub significant : Bool
  pub always_valid_p_value : F
  pub seq_decision : String
  pub samples_required : ℤ

pub record MetricResult (F : Type 0) : Type 0 where
  pub metric_key : String
  pub metric_name : String
  pub variants : List (VariantMetric F)

pub record ExperimentResults (F : Type 0) : Type 0 where
  pub experiment_key : String
  pub computed_at : Time
  pub total_samples : ℤ
  pub srm_result : Option (SrmSummary F)
  pub metric_results : List (MetricResult F)

-- The errors, with the key that each prints.
pub data ExperimentError : Type 0 where
  experiment_exists experiment_not_found no_results : String → ExperimentError

pub record ExperimentStore (F : Type 0) : Type 0 where
  pub experiments : Dict (Experiment F)
  pub results : Dict (List (ExperimentResults F))

-- A value, or an error.
pub data Answer (A : Type 0) : Type 0 where
  error : ExperimentError → Answer A
  value : A → Answer A

module _ {F : Type 0} where
  abbrev pub new_mem_experiment_store : ExperimentStore F
  new_mem_experiment_store = record { experiments = []; results = [] }

  -- The two times are those of the two calls of `time.Now`.
  unfoldable pub create_experiment :
      Time → Time → ExperimentStore F → Experiment F → Answer (ExperimentStore F)
  create_experiment created updated s exp = elim (get exp.key s.experiments) [
    | some e ↦ error (experiment_exists exp.key)
    | none ↦ value (record s {
      experiments =
          put exp.key (record exp { created_at = created; updated_at = updated }) s.experiments;
    })
  ]

  unfoldable pub get_experiment : ExperimentStore F → String → Answer (Experiment F)
  get_experiment s key = elim (get key s.experiments) [
    | none ↦ error (experiment_not_found key)
    | some exp ↦ value exp
  ]

  -- `for _, exp := range s.experiments`
  unfoldable pub of_environment : String → String → Dict (Experiment F) → List (Experiment F)
  of_environment project_key env_key [] = []
  of_environment project_key env_key ((k, exp) ∷ m) =
      let rest = of_environment project_key env_key m in
      if exp.project_key == project_key && exp.environment_key == env_key then exp ∷ rest else rest

  unfoldable pub list_experiments :
      ExperimentStore F → String → String → Answer (List (Experiment F))
  list_experiments s project_key env_key = value (of_environment project_key env_key s.experiments)

  unfoldable pub update_experiment :
      Time → ExperimentStore F → Experiment F → Answer (ExperimentStore F)
  update_experiment now s exp = elim (get exp.key s.experiments) [
    | none ↦ error (experiment_not_found exp.key)
    | some e ↦
        value
          (record s { experiments = put exp.key (record exp { updated_at = now }) s.experiments })
  ]

  unfoldable pub delete_experiment : ExperimentStore F → String → Answer (ExperimentStore F)
  delete_experiment s key = value (record s { experiments = delete key s.experiments })

  -- A missing entry is the nil slice.
  abbrev pub results_of : Option (List (ExperimentResults F)) → List (ExperimentResults F)
  results_of none = []
  results_of (some rs) = rs

  unfoldable pub record_results :
      ExperimentStore F → ExperimentResults F → Answer (ExperimentStore F)
  record_results s rs = value (record s {
    results =
        put rs.experiment_key (results_of (get rs.experiment_key s.results) ++ rs ∷ []) s.results;
  })

  -- `rs[len(rs)-1]`, with `none` for an empty slice
  unfoldable pub last : List (ExperimentResults F) → Option (ExperimentResults F)
  last [] = none
  last (r ∷ rs) = let rest = last rs in elim rest [ none ↦ some r | some q ↦ some q ]

  unfoldable pub get_latest_results : ExperimentStore F → String → Answer (ExperimentResults F)
  get_latest_results s key = elim (last (results_of (get key s.results))) [
    | none ↦ error (no_results key)
    | some r ↦ value r
  ]
