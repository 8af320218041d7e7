-- ===== src/Checks/Clients.antt =====
-- A client of sdk/go/pennant/client.go, the limiters of internal/ratelimit and the queries of
-- internal/analytics/memstore.go at small inputs.
use Prim.Native.String.{◌++◌}
use pennant.Prelude.{
  ℕ, zero, suc, String, none, some, List, [], ◌∷◌, true, false, ◌≡◌, refl, arith, ltb, keep, ◌>>=◌,
  if◌then◌else◌,
}
use pennant.Prelude.Int.{ℤ, pos, ◌+ℤ◌, wrap64}
use pennant.Prelude.Dict.{get, put}
use pennant.Prelude.Texts.{trim_space, trim_left, trim_right, is_space}
use pennant.Analytics.{Event, eval_event}
use pennant.Analytics.EventStore.{query_flag_insights}
use pennant.Analytics.EventStore.Totals.{total_of, number, evaluations, query_flag_insights_total}
use pennant.Eval.Evaluate.{evaluate}
use pennant.RateLimit.{Limiter}
use pennant.RateLimit.Isolation.{Operation, request, tick, answers, concerns, answers_isolated}
use pennant.SdkAuth
use pennant.SdkAuth.{lookup}
use pennant.Snapshot.Types.{Snapshot}
use pennant.Snapshot.Builder.{build, resolve_flag, resolve_flags, segment_map, default_config}
use pennant.Store.Memory.Entries.{get_flag_config, list_flags, list_segments}
use pennant.Store.Memory.Counters.{get_env_version}
use pennant.Stream.Hub.{send}
use pennant.Api.Frames.{Frame, stream_lines}
use pennant.Api.Types.{Server}
use pennant.Api.Changes.{put_message}
use pennant.Api.Delivery.{Connection, admitted, authenticate_sdk, forward, sdk_evaluate}
use pennant.Api.Delivery.Connections.{Delivered}
use pennant.Client.{
  Decoder, new_client, received, parse_sse, evaluate_detail, flag_of, snapshot_store,
  bool_variation, string_variation, float64_variation, bool_or, string_or, float_or,
}
use pennant.Client.Reading.{Fits, handle_all, parse_sse-stream_lines, parse_sse_too_long}
use pennant.Client.Variations.{typed, variations-evaluate_detail}
use pennant.Client.Agreement.{response_for, sdk_evaluate-evaluate_detail}
use pennant.Client.EndToEnd.{evaluate_detail-forward}
use pennant.Checks.Fixtures.{fixed_point, flag, gate_config, user}
use pennant.Checks.Requests.{wire, server, hub, sub, call, ask, old_record}

-- The snapshot that the server of `Requests` builds, before and after a configuration of "f" is stored.
abbrev pub snapshot : Snapshot
snapshot = record {
  environment_key = "prod";
  project_key = "shop";
  version = pos 4;
  flags = ("f", resolve_flag (flag "f") gate_config) ∷ [];
  segments = [];
  checksum = "sum";
  published_at = 5;
}

-- All JSON is this snapshot's.
abbrev pub decoder : Decoder
decoder = record { unmarshal_snapshot = λ text. some snapshot; unmarshal_delta = λ text. none }

abbrev pub digits : ℤ → String
digits i = "7"

abbrev pub put_frame : Frame
put_frame = record { id = pos 4; event = "put"; text = "prod" }

pub fits : Fits decoder digits put_frame
unfolding trim_space trim_left trim_right is_space
fits = record {
  event_there = refl;
  text_there = refl;
  event_trimmed = refl;
  text_trimmed = refl;
  id_fits = omega arith;
  event_fits = omega arith;
  data_fits = omega arith;
}

parse_sse-stream_lines_example :
    parse_sse decoder (stream_lines digits (put_frame ∷ put_frame ∷ [])) new_client
    ≡ (handle_all decoder digits (put_frame ∷ put_frame ∷ []) new_client, false)
parse_sse-stream_lines_example =
    parse_sse-stream_lines decoder digits (put_frame ∷ put_frame ∷ []) new_client (fits, (fits, tt))

-- 2^n letters
abbrev letters : ℕ → String
letters zero = "x"
letters (suc n) = letters n ++ letters n

abbrev long_frame : Frame
long_frame = record { id = pos 1; event = "put"; text = letters 16 }

parse_sse_too_long_example :
    parse_sse decoder (stream_lines digits (long_frame ∷ [])) new_client ≡ (new_client, true)
parse_sse_too_long_example =
    parse_sse_too_long decoder digits long_frame [] new_client (omega arith) (omega arith)
      (omega arith)

-- The server's answer and the client's.
old_snapshot_built :
    build wire.checksum 5 server.store "shop" "prod"
    ≡ some (record snapshot {
      version = pos 3;
      flags = ("f", resolve_flag (flag "f") default_config) ∷ [];
    })
unfolding build resolve_flags segment_map get_env_version list_flags list_segments get_flag_config
    get put
old_snapshot_built = refl

admitted_key : authenticate_sdk wire (call "Bearer old") server ≡ admitted old_record
unfolding authenticate_sdk SdkAuth.extract_bearer lookup get
admitted_key = refl

sdk_evaluate-evaluate_detail_example :
    sdk_evaluate fixed_point 2 wire (call "Bearer old") server ≡ (
      evaluate_detail fixed_point 2
        (received (record snapshot {
          version = pos 3;
          flags = ("f", resolve_flag (flag "f") default_config) ∷ [];
        }))
        "f"
        ask.context
      >>= λ out. some (
          response_for fixed_point 2 wire
            (call "Bearer old")
            server
            ask
            (get "f" (("f", resolve_flag (flag "f") default_config) ∷ []))
            out))
sdk_evaluate-evaluate_detail_example =
    sdk_evaluate-evaluate_detail fixed_point 2 wire (call "Bearer old") server old_record ask
      (record snapshot {
        version = pos 3;
        flags = ("f", resolve_flag (flag "f") default_config) ∷ [];
      })
      admitted_key refl old_snapshot_built

-- A stream that was opened at version 3, and the message of version 4.
abbrev after_put : Server ℕ
after_put = record server {
  hub = record hub {
    by_env = ("prod", ("sub", send (put_message (pos 4) snapshot) sub) ∷ []) ∷ [];
  };
}

delivered_message : Delivered after_put "shop" "prod" "sub" "f" (pos 3) (flag "f") gate_config sub
unfolding get ◌+ℤ◌ wrap64
delivered_message = record {
  snap = snapshot;
  project = refl;
  version = refl;
  flag_there = refl;
  sent = refl;
}

abbrev connection : Connection
connection = record {
  env_key = "prod";
  sub_id = "sub";
  sent_version = pos 3;
  written = record put_frame { id = pos 3 } ∷ [];
  closed = false;
}

evaluate_detail-forward_example :
    (parse_sse decoder
        (stream_lines digits
          (forward wire (call "") true (put_message (pos 4) snapshot) connection).written)
        new_client
      ≡ (received snapshot, false))
    × (evaluate_detail fixed_point 2 (received snapshot) "f" (user "eve")
        ≡ evaluate fixed_point
            (snapshot_store snapshot)
            (user "eve")
            2
            (flag_of (resolve_flag (flag "f") gate_config))
            gate_config)
unfolding delivered_message
evaluate_detail-forward_example =
    evaluate_detail-forward fixed_point 2 wire (call "") decoder digits after_put "shop" "prod"
      "sub" "f" (pos 3) (flag "f") gate_config sub delivered_message connection new_client
      (user "eve") refl refl (fits_old, tt) fits
  where
    fits_old : Fits decoder digits (record put_frame { id = pos 3 })
    fits_old = record {
      event_there = refl;
      text_there = refl;
      event_trimmed = fits.event_trimmed;
      text_trimmed = fits.text_trimmed;
      id_fits = omega arith;
      event_fits = omega arith;
      data_fits = omega arith;
    }

-- A text flag asked for as each of the types.
variations-evaluate_detail_example :
    let c = received snapshot in
    let out = evaluate_detail fixed_point 2 c "f" (user "eve") in
    (bool_variation fixed_point 2 c "f" (user "eve") true
      ≡ (out >>= λ o. some (typed fixed_point 2 (bool_or fixed_point 2 true) true o)))
    × (string_variation fixed_point 2 c "f" (user "eve") "d"
        ≡ (out >>= λ o. some (typed fixed_point 2 (string_or fixed_point 2 "d") "d" o)))
    × (float64_variation fixed_point 2 c "f" (user "eve") 9
        ≡ (out >>= λ o. some (typed fixed_point 2 (float_or fixed_point 2 9) 9 o)))
variations-evaluate_detail_example =
    variations-evaluate_detail fixed_point 2 (received snapshot) "f" (user "eve") true "d" 9

-- Two requests for each key.
abbrev two_each : Limiter
two_each = record {
  State = ℕ;
  new_limiter = 0;
  allow = λ now n. (if ltb n 2 then true else false, suc n);
}

abbrev requests : List Operation
requests =
    request 1 "a" ∷ request 2 "b" ∷ request 3 "a" ∷ tick 4 ∷ request 5 "b" ∷ request 6 "a" ∷ []

answers_isolated_example :
    answers two_each "a" [] requests ≡ answers two_each "a" [] (keep (concerns "a") requests)
answers_isolated_example = answers_isolated two_each "a" requests [] tt

abbrev seen : String → ℤ → Event ℕ
seen key at = record {
  kind = eval_event;
  flag_key = key;
  environment_key = "prod";
  project_key = "shop";
  context_key = "eve";
  context_kind = "user";
  variation_index = some (pos 1);
  reason_kind = "OFF";
  metric_name = "";
  metric_value = 0;
  experiment_key = "";
  timestamp = at;
  properties = "";
}

abbrev three_events : List (Event ℕ)
three_events = seen "f" (pos 5) ∷ seen "g" (pos 6) ∷ seen "f" (pos 7) ∷ []

query_flag_insights_total_example :
    total_of (get "f" (query_flag_insights digits three_events "shop" "prod" (pos 1)))
    ≡ number (evaluations "shop" "prod" (pos 1) "f" three_events)
query_flag_insights_total_example =
    query_flag_insights_total digits three_events "shop" "prod" (pos 1) "f" (omega arith)
