-- ===== src/Checks/State.antt =====
-- internal/store/memory.go, internal/sdkauth/auth.go and internal/analytics/ingestor.go at short runs.
use pennant.Prelude.{ℕ, String, none, List, [], ◌∷◌, ◌++◌, false, ◌≡◌, refl}
use pennant.Prelude.Int.{ℤ, pos}
use pennant.Model.Types.{Project, Environment}
use pennant.Store.Memory.{Memory, new_memory_store}
use pennant.Store.Memory.WellFormed.{IsWellFormed}
use pennant.Store.Memory.Operations.{
  Operation, creating_project, creating_flag, upserting_config, incrementing_version,
  deleting_environment, deleting_flag, perform, Reached, started, performed, Reached-IsWellFormed,
}
use pennant.SdkAuth.{SdkKeyRecord, revoke, validate_sdk_key, is_client_key}
use pennant.SdkAuth.Revocation
use pennant.SdkAuth.Revocation.{registering, revoking, revoked_stays_out}
use pennant.Analytics.{Event, custom_event, new_ingestor, flush}
use pennant.Analytics.NoLoss
use pennant.Analytics.NoLoss.{tracking, flushing, concat, tracked, run_keeps_events}
use pennant.Checks.Fixtures.{flag, gate_config}

abbrev live : Environment
live = record {
  key = "live";
  name = "Live";
  color = "";
  project_key = "p";
  sdk_keys = [];
  version = pos 0;
}

abbrev shop : Project
shop = record { key = "p"; name = "Shop"; description = ""; environments = live ∷ [] }

abbrev audit_id : ℤ → String
audit_id n = "audit"

abbrev calls : List Operation
calls =
    creating_project shop
    ∷ creating_flag 7 "p" (flag "f")
    ∷ creating_flag 8 "p" (flag "f")
    ∷ upserting_config "p" "live" "f" gate_config
    ∷ incrementing_version "p" "live"
    ∷ deleting_environment "p" "live"
    ∷ deleting_flag "q" "f"
    ∷ []

abbrev perform_all : Memory → List Operation → Memory
perform_all s [] = s
perform_all s (op ∷ ops) = perform_all (perform audit_id s op) ops

all-Reached :
    (s : Memory) (ops : List Operation) → Reached audit_id s → Reached audit_id (perform_all s ops)
all-Reached s [] r = r
all-Reached s (op ∷ ops) r = all-Reached (perform audit_id s op) ops (performed r op)

-- A project is made, a flag twice, its configuration stored, the version raised; the environment goes,
-- and a flag of a project that does not exist.
Reached-IsWellFormed_example : IsWellFormed (perform_all new_memory_store calls)
Reached-IsWellFormed_example =
    Reached-IsWellFormed audit_id (perform_all new_memory_store calls)
      (all-Reached new_memory_store calls started)

abbrev sdk_key : String → SdkKeyRecord
sdk_key value = record {
  value = value;
  project_key = "p";
  env_key = "live";
  kind = "client";
  revoked = false;
}

-- After the revocation another key is registered, and revoked in its turn.
revoked_stays_out_example :
    (validate_sdk_key
        (Revocation.run
          (revoke (("k", sdk_key "k") ∷ []) "k")
          (registering (sdk_key "j") ∷ revoking "j" ∷ []))
        "k"
        "live"
      ≡ false)
    × (is_client_key
          (Revocation.run
            (revoke (("k", sdk_key "k") ∷ []) "k")
            (registering (sdk_key "j") ∷ revoking "j" ∷ []))
          "k"
        ≡ false)
revoked_stays_out_example =
    revoked_stays_out (("k", sdk_key "k") ∷ []) "k" "live"
      (registering (sdk_key "j") ∷ revoking "j" ∷ []) (refl, (refl, tt))

abbrev purchase : ℤ → Event ℕ
purchase timestamp = record {
  kind = custom_event;
  flag_key = "";
  environment_key = "live";
  project_key = "p";
  context_key = "eve";
  context_kind = "user";
  variation_index = none;
  reason_kind = "";
  metric_name = "purchase";
  metric_value = 1;
  experiment_key = "";
  timestamp = timestamp;
  properties = "";
}

-- Batches of two: the second event fills one, the third waits for a flush.
abbrev day : List (NoLoss.Happening ℕ)
day =
    tracking (pos 5) (purchase (pos 0))
    ∷ tracking (pos 6) (purchase (pos 3))
    ∷ tracking (pos 7) (purchase (pos 0))
    ∷ flushing
    ∷ []

run_keeps_events_example :
    (concat (NoLoss.run (new_ingestor (pos 2)) day).inserted
        ++ (NoLoss.run (new_ingestor (pos 2)) day).buf
      ≡ tracked day)
    × (concat (flush (NoLoss.run (new_ingestor (pos 2)) day)).inserted ≡ tracked day)
run_keeps_events_example = run_keeps_events (pos 2) day
