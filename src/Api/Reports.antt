-- ===== src/Api/Reports.antt =====
-- The handlers of internal/api/server.go for experiments, the audit log and the probes.
use pennant.Prelude.{ℕ, String, Option, none, some, [], ◌==◌, ltb, if◌then◌else◌}
use pennant.Prelude.Int.{pos}
use pennant.Store.Types.{Reply, failed, ok}
use pennant.Store.Memory.{list_projects}
use pennant.Store.Memory.Counters.{list_audit}
use pennant.Experiments.{
  Experiment, ExperimentStore, create_experiment, list_experiments, get_latest_results,
}
use pennant.Api.Types.{
  Server, Wire, Call, Handled, respond, decoded, checked, answered, problem, status_body,
  healthy_body, degraded_body, experiment_body, experiments_body, results_body, audit_body,
}
use pennant.Api.Pages.{positive_or}

module _ {F : Type 0} (wire : Wire F) (call : Call) where
  abbrev pub listed_experiments : String → Server F → Option (ExperimentStore F) → Handled F
  listed_experiments project_key s none = respond s 200 (experiments_body [])
  listed_experiments project_key s (some store) =
      answered s 500 (list_experiments store project_key call.env)
        λ exps. respond s 200 (experiments_body exps)

  unfoldable pub handle_list_experiments : String → Server F → Handled F
  handle_list_experiments project_key s = listed_experiments project_key s s.experiments

  -- The two readings of the clock are the same here.
  abbrev pub created : String → Server F → Option (ExperimentStore F) → Handled F
  created project_key s none = respond s 503 (problem "experiment store not configured")
  created project_key s (some store) = decoded s (wire.decode_experiment call.body) λ body.
      let exp : Experiment F = record body { project_key = project_key } in
      answered s 409 (create_experiment call.now call.now store exp) λ store'.
        respond (record s { experiments = some store' }) 201
          (experiment_body (record exp { created_at = call.now; updated_at = call.now }))

  unfoldable pub handle_create_experiment : String → Server F → Handled F
  handle_create_experiment project_key s = created project_key s s.experiments

  abbrev pub latest : String → Server F → Option (ExperimentStore F) → Handled F
  latest exp_key s none = respond s 503 (problem "experiment store not configured")
  latest exp_key s (some store) =
      answered s 404 (get_latest_results store exp_key)
        λ results. respond s 200 (results_body results)

  unfoldable pub handle_get_experiment_results : String → Server F → Handled F
  handle_get_experiment_results exp_key s = latest exp_key s s.experiments

  -- The limit of an audit query: 100, or the positive number that is asked for, at most 1000.
  unfoldable pub audit_limit : String → ℕ
  audit_limit limit_text =
      let limit = if limit_text == "" then 100 else positive_or 100 (wire.atoi limit_text) in
      if ltb 1000 limit then 1000 else limit

  unfoldable pub handle_list_audit_log : String → Server F → Handled F
  handle_list_audit_log project_key s =
      checked s 500 (list_audit s.store project_key (pos (audit_limit call.limit)))
        λ entries. respond s 200 (audit_body entries)

module _ {F : Type 0} where
  -- The body names the version "1.0.0" and the store's state, "ok" or its error.
  abbrev pub health_of : {A : Type 0} → Server F → Reply A → Handled F
  health_of s (failed e) = respond s 503 (degraded_body e)
  health_of s (ok a) = respond s 200 (healthy_body)

  unfoldable pub health : Server F → Handled F
  health s = health_of s (list_projects s.store)

  abbrev pub ready_of : {A : Type 0} → Server F → Reply A → Handled F
  ready_of s (failed e) = respond s 503 (problem "store unavailable")
  ready_of s (ok a) = respond s 200 (status_body "ready")

  unfoldable pub ready : Server F → Handled F
  ready s = ready_of s (list_projects s.store)
