-- ===== src/Experiments/Results.antt =====
-- The latest results of internal/experiment/store.go.
use pennant.Prelude.{
  String, Option, none, some, List, [], ◌∷◌, ◌++◌, ◌≡◌, refl, ap, ◌∙◌, ◌==◌, if◌then◌else◌,
  Bool-cases, inl, inr,
}
use pennant.Prelude.Dict.{get, get-put}
use pennant.Experiments.{
  ExperimentStore, ExperimentResults, Answer, value, error, no_results, results_of, record_results,
  last, get_latest_results,
}

module _ {F : Type 0} where
  last-snoc :
      (rs : List (ExperimentResults F)) (r : ExperimentResults F) → last (rs ++ r ∷ []) ≡ some r
  unfolding last
  last-snoc [] r = refl
  last-snoc (q ∷ rs) r = rw (last-snoc rs r) refl

  abbrev reply_last : String → Option (ExperimentResults F) → Answer (ExperimentResults F)
  reply_last key o = elim o [ none ↦ error (no_results key) | some r ↦ value r ]

  -- The lookup, from what the map has for the key.
  abbrev reply : String → Option (List (ExperimentResults F)) → Answer (ExperimentResults F)
  reply key o = reply_last key (last (results_of o))

  -- The store after `record_results`, which never fails.
  abbrev pub recorded : ExperimentStore F → Answer (ExperimentStore F) → ExperimentStore F
  recorded s (error e) = s
  recorded s (value t) = t

  -- After results are recorded, they are the latest of their experiment, and every other experiment has the latest
  -- results, or the error, that it had.
  pub get_latest_results-record_results :
      (s : ExperimentStore F) (rs : ExperimentResults F) (key : String)
      → get_latest_results (recorded s (record_results s rs)) key
        ≡ (if rs.experiment_key == key then value rs else get_latest_results s key)
  unfolding record_results get_latest_results
  get_latest_results-record_results s rs key =
      ap (reply key) (
        get-put rs.experiment_key key (results_of (get rs.experiment_key s.results) ++ rs ∷ [])
          s.results)
      ∙ elim (Bool-cases (rs.experiment_key == key)) [
        | inl same ↦
            simp (same)
              (ap (reply_last key) (last-snoc (results_of (get rs.experiment_key s.results)) rs))
        | inr other ↦ simp (other) refl
      ]
