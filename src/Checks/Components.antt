-- ===== src/Checks/Components.antt =====
-- internal/model/{flag,segment}.go, the regex cache of internal/eval/operators.go, internal/snapshot/delta.go
-- and internal/stream/ring.go at small inputs.
use Prim.Native.String.{◌++◌}
use pennant.Prelude.{ℕ, String, some, List, [], ◌∷◌, true, false, ◌≡◌, refl, ◌↔◌, arith}
use pennant.Prelude.Int.{pos, ◌+ℤ◌}
use pennant.Prelude.Dict
use pennant.Prelude.Dict.{Dict}
use pennant.Model.Types.{Flag, Segment, type_boolean}
use pennant.Model.Validate.{valid, validate_flag}
use pennant.Model.Validate.Laws.{IsValidFlag, validate_flag_iff}
use pennant.Snapshot.Types.{ResolvedFlag, Snapshot}
use pennant.Snapshot.Delta.{Codec, full_delta, too_large, compute_delta, apply_delta}
use pennant.Snapshot.Delta.RoundTrip.{IsConsistent, SameContent, apply-compute_delta}
use pennant.Stream.Types.{Message}
use pennant.Stream.Ring.{new_event_ring, append, newer, since}
use pennant.Stream.Ring.Tracks.{given}
use pennant.Stream.Ring.Replay.{since_complete}
use pennant.Checks.Fixtures.{flag, guarded, gate_config, beta, variation}

-- A flag with a configuration in two environments.
abbrev configured : Flag
configured = record (flag "f") {
  environments = ("live", some guarded) ∷ ("test", some gate_config) ∷ [];
}

validate_flag_iff_example : (validate_flag configured ≡ valid) ↔ IsValidFlag configured
validate_flag_iff_example = validate_flag_iff configured

-- A flag is encoded as its key and its name, a snapshot as a text ten times as long as that of a delta.
abbrev codec : Codec
codec = record {
  marshal_flag = λ f. f.key ++ f.name;
  marshal_segment = λ s. s.key;
  marshal_delta = λ d. "d";
  marshal_snapshot = λ s. "0123456789";
}

abbrev resolved : String → String → ResolvedFlag
resolved key name = record {
  key = key;
  name = name;
  description = "";
  kind = type_boolean;
  variations = variation "true" ∷ variation "false" ∷ [];
  tags = [];
  temporary = false;
  archived = false;
  config = gate_config;
}

abbrev snapshot_of : ℕ → Dict ResolvedFlag → Dict Segment → Snapshot
snapshot_of version flags segments = record {
  environment_key = "live";
  project_key = "p";
  version = pos version;
  flags = flags;
  segments = segments;
  checksum = "";
  published_at = 0;
}

-- Between them "f" gets another name, "g" goes, and "h" and the segment come.
abbrev older : Snapshot
older = snapshot_of 1 (("f", resolved "f" "old") ∷ ("g", resolved "g" "g") ∷ []) []

abbrev newer_one : Snapshot
newer_one =
    snapshot_of 2 (("f", resolved "f" "new") ∷ ("h", resolved "h" "h") ∷ []) (("beta", beta) ∷ [])

newer_one-IsConsistent : IsConsistent newer_one
newer_one-IsConsistent = record {
  flags_distinct = unfold Dict.get in (refl, (refl, tt));
  flags_keyed = (refl, (refl, tt));
  segments_distinct = unfold Dict.get in (refl, tt);
  segments_keyed = (refl, tt);
}

delta_computed : compute_delta codec older newer_one ≡ some (full_delta codec older newer_one)
unfolding compute_delta too_large
delta_computed = refl

apply-compute_delta_example :
    SameContent codec (apply_delta older (full_delta codec older newer_one)) newer_one
apply-compute_delta_example =
    apply-compute_delta codec older newer_one (full_delta codec older newer_one)
      newer_one-IsConsistent delta_computed

abbrev message : ℕ → Message String
message v = record { event = "patch"; version = pos v; payload = some "data" }

-- Four messages into a ring of three: the first is evicted.
abbrev four : List (Message String)
four = message 1 ∷ message 2 ∷ message 4 ∷ message 5 ∷ []

since_answers : (since (given (new_event_ring 3) four) (pos 2)).1 ≡ true
unfolding since given new_event_ring append ◌+ℤ◌ newer
since_answers = refl

since_complete_example : (since (given (new_event_ring 3) four) (pos 2)).0 ≡ newer (pos 2) four
since_complete_example =
    since_complete 3 four (pos 2) (omega arith)
      (
        (omega arith, (omega arith, (omega arith, tt))),
        ((omega arith, (omega arith, tt)), ((omega arith, tt), (tt, tt))),
      )
      since_answers
