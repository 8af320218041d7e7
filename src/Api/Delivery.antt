-- ===== src/Api/Delivery.antt =====
-- The handlers of internal/api/server.go under /sdk/v1. The response writer can flush, and metrics are left out.
-- A stream is a connection with the frames that were written to it: it is opened, and then takes one message at
-- a time from its channel until the client goes or a write of the loop fails. The errors of the
-- writes before the loop are dropped, and the frames count as written.
pub mod Connections
use pennant.Prelude.{
  ℕ, ◌/◌, ◌^◌, String, Option, none, some, List, [], ◌∷◌, ◌++◌, not, ◌==◌, ◌>>=◌, ◌&&◌, Bool, true,
  false, if◌then◌else◌,
}
use pennant.Prelude.Int.{ℤ, pos, ltb_ℤ}
use pennant.Prelude.Dict
use pennant.Prelude.Dict.{Dict}
use pennant.Model.Types.{Flag, FlagConfig}
use pennant.Eval.Runtime.{Runtime, Context, EvalStore}
use pennant.Eval.Evaluate.{Outcome, evaluate}
use pennant.Snapshot.Types.{Snapshot, ResolvedFlag}
use pennant.Snapshot.Builder.{build, value_of}
use pennant.Stream.Types.{Message, Subscriber}
use pennant.Stream.Hub.{Hub, subscribers, subscribe, unsubscribe, replay}
use pennant.Store.Types.{Reply, failed, ok}
use pennant.Store.Memory.Counters.{get_env_version}
use pennant.SdkAuth.{SdkKeyRecord, extract_bearer, lookup}
use pennant.Analytics.{Ingestor, Event, track}
use pennant.Api.Frames.{Frame}
use pennant.Api.Types.{
  Server, Wire, Call, EvaluateRequest, Handled, Response, respond, decoded, no_body, problem,
  build_problem, flag_missing, snapshot_body, evaluation_body,
}

-- What `authenticateSDK` returns: the record, or the text of its 401.
pub data Admission : Type 0 where
  rejected : String → Admission
  admitted : SdkKeyRecord → Admission

abbrev pub admission_of : Option SdkKeyRecord → Admission
admission_of none = rejected "invalid or revoked SDK key"
admission_of (some rec) = admitted rec

-- `&model.Flag{…}` of `sdkEvaluate` and of `GetFlag`, which leave the description out.
abbrev pub bare_flag : ResolvedFlag → Flag
bare_flag rf = record {
  key = rf.key;
  name = rf.name;
  description = "";
  kind = rf.kind;
  variations = rf.variations;
  tags = rf.tags;
  temporary = rf.temporary;
  archived = rf.archived;
  created_at = 0;
  updated_at = 0;
  environments = [];
}

abbrev pub bare_flag_and_config : Option ResolvedFlag → Option (Flag × FlagConfig)
bare_flag_and_config none = none
bare_flag_and_config (some rf) = some (bare_flag rf, rf.config)

-- The methods of the server's `snapshotStore`.
abbrev pub server_store : Snapshot → EvalStore
server_store snap = record {
  get_flag = λ key. bare_flag_and_config (Dict.get key snap.flags);
  get_segment = λ key. Dict.get key snap.segments;
}

-- A stream; it is closed when its handler has returned.
pub record Connection : Type 0 where
  pub env_key : String
  pub sub_id : String
  pub sent_version : ℤ
  pub written : List Frame
  pub closed : Bool

pub data Opened (F : Type 0) : Type 0 where
  refused : Response F → Opened F
  open_stream : Connection → Opened F

module _ {F : Type 0} (wire : Wire F) (call : Call) where
  unfoldable pub authenticate_sdk : Server F → Admission
  authenticate_sdk s =
      let key_value = extract_bearer call.authorization in
      if key_value == "" then rejected "missing SDK key" else admission_of (lookup s.keys key_value)

  -- `if rec == nil { return }`
  abbrev pub admit : Admission → Server F → (SdkKeyRecord → Handled F) → Handled F
  admit (rejected message) s next = respond s 401 (problem message)
  admit (admitted rec) s next = next rec

  -- `if err != nil { writeError(w, http.StatusInternalServerError, err.Error()); return }`
  abbrev pub built_snapshot : Option Snapshot → Server F → (Snapshot → Handled F) → Handled F
  built_snapshot none s next = respond s 500 build_problem
  built_snapshot (some snap) s next = next snap

  abbrev pub build_for : Server F → SdkKeyRecord → Option Snapshot
  build_for s rec = build wire.checksum call.now s.store rec.project_key rec.env_key

  unfoldable pub sdk_snapshot : Server F → Handled F
  sdk_snapshot s =
      admit (authenticate_sdk s) s
        λ rec. built_snapshot (build_for s rec) s λ snap. respond s 200 (snapshot_body snap)

  -- The loop over the events.
  unfoldable pub track_all : SdkKeyRecord → Ingestor F → List (Event F) → Ingestor F
  track_all rec ing [] = ing
  track_all rec ing (e ∷ es) =
      track_all rec
        (track (pos (call.now / 10 ^ 6)) ing
          (record e { project_key = rec.project_key; environment_key = rec.env_key }))
        es

  abbrev pub track_into : SdkKeyRecord → Option (Ingestor F) → Server F → Handled F
  track_into rec none s = respond s 204 no_body
  track_into rec (some ing) s =
      decoded s (wire.decode_events call.body)
        λ events. respond (record s { ingestor = some (track_all rec ing events) }) 204 no_body

  unfoldable pub sdk_track : Server F → Handled F
  sdk_track s = admit (authenticate_sdk s) s λ rec. track_into rec s.ingestor s

  -- `json.Marshal(msg.Data)`
  abbrev pub payload_text : Option Snapshot → String
  payload_text none = "null"
  payload_text (some snap) = wire.encode_snapshot snap

  abbrev pub frame_of : Message Snapshot → Frame
  frame_of msg = record { id = msg.version; event = msg.event; text = payload_text msg.payload }

  -- `for _, msg := range msgs`
  unfoldable pub replay_all : List (Message Snapshot) → Connection → Connection
  replay_all [] c = c
  replay_all (msg ∷ msgs) c =
      replay_all msgs
        (record c { sent_version = msg.version; written = c.written ++ frame_of msg ∷ [] })

  -- `version, _ :=`
  abbrev pub version_of : Reply ℤ → ℤ
  version_of (failed e) = pos 0
  version_of (ok v) = v

  -- "Send full snapshot", from what the builder returned
  abbrev pub write_snapshot : ℤ → Option Snapshot → Connection → Connection
  write_snapshot version none c = c
  write_snapshot version (some snap) c = record c {
    sent_version = version;
    written =
        c.written ++ record { id = version; event = "put"; text = wire.encode_snapshot snap } ∷ [];
  }

  unfoldable pub start_stream :
      SdkKeyRecord → Server F → List (Message Snapshot) × Bool → Connection → Connection
  start_stream rec s (msg ∷ msgs, true) c = replay_all (msg ∷ msgs) c
  start_stream rec s (msgs, found) c =
      write_snapshot (version_of (get_env_version s.store rec.project_key rec.env_key))
        (build_for s rec) c

  -- `if leid := …; leid != "" { fmt.Sscanf(leid, "%d", &fromVersion) }`
  abbrev pub last_seen_version : ℤ
  last_seen_version =
      if call.last_event_id == "" then pos 0 else wire.scan_version call.last_event_id

  abbrev pub subscribed : SdkKeyRecord → Server F → Server F × Connection
  subscribed rec s =
      let joined =
        subscribe wire.sub_id call.now s.hub rec.env_key rec.project_key rec.value
          call.user_agent in
      let s' : Server F = record s { hub = joined.1 } in
      (
        s',
        start_stream rec s' (replay joined.1 rec.env_key last_seen_version) (record {
          env_key = rec.env_key;
          sub_id = joined.0.id;
          sent_version = pos 0;
          written = [];
          closed = false;
        }),
      )

  abbrev pub open_for : Admission → Server F → Server F × Opened F
  open_for (rejected message) s = (s, refused (record { status = 401; body = problem message }))
  open_for (admitted rec) s = ((subscribed rec s).0, open_stream (subscribed rec s).1)

  -- `sdkStream` up to its loop
  unfoldable pub sdk_stream : Server F → Server F × Opened F
  sdk_stream s = open_for (authenticate_sdk s) s

  -- The loop's message: skipped if its version is not above that of the first frames, or written. `sends` is
  -- whether `Fprintf` has no error; an error ends the handler.
  unfoldable pub forward : Bool → Message Snapshot → Connection → Connection
  forward sends msg c =
      if not (ltb_ℤ c.sent_version msg.version)
      then c
      else if sends
      then record c { written = c.written ++ frame_of msg ∷ [] }
      else record c { closed = true }

-- `defer s.hub.Unsubscribe(…)`
unfoldable pub close_stream : {F : Type 0} → Connection → Server F → Server F
close_stream c s = record s { hub = unsubscribe s.hub c.env_key c.sub_id }

-- The oldest message of a subscriber's channel, and the subscriber without it.
abbrev pub received_from : {P : Type 0} → Option (Subscriber P) → Option (Message P × Subscriber P)
received_from none = none
received_from (some sub) = elim (sub.ch) [
  | [] ↦ none
  | msg ∷ msgs ↦ some (msg, record sub { ch = msgs })
]

-- A handler that returned has unsubscribed.
abbrev pub ended : {F : Type 0} → Connection → Server F → Server F × Connection
ended c s = (if c.closed then close_stream c s else s, c)

-- One turn of the loop, on a message and what is left in the channel; without one it waits.
abbrev pub received :
    {F : Type 0}
    → Wire F
    → Call
    → Bool
    → Connection
    → Server F
    → Option (Message Snapshot × Subscriber Snapshot)
    → Server F × Connection
received wire call sends c s none = (s, c)
received wire call sends c s (some (msg, sub)) = ended (forward wire call sends msg c) (record s {
  hub = record s.hub {
    by_env = Dict.put c.env_key (Dict.put c.sub_id sub (subscribers s.hub c.env_key)) s.hub.by_env;
  };
})

unfoldable pub receive :
    {F : Type 0} → Wire F → Call → Bool → Connection → Server F → Server F × Connection
receive wire call sends c s =
    if c.closed
    then (s, c)
    else received wire call sends c s
        (received_from (Dict.get c.sub_id (subscribers s.hub c.env_key)))

-- `fuel` is that of the segments.
module _ (rt : Runtime) (fuel : ℕ) where
  -- `evalFlag` of the server
  unfoldable pub eval_in :
      Snapshot → Flag → FlagConfig → Context rt.Float → Option (Outcome rt.Float)
  eval_in snap flag cfg ctx = evaluate rt (server_store snap) ctx fuel flag cfg

module _ (rt : Runtime) (fuel : ℕ) (wire : Wire rt.Float) (call : Call) where
  abbrev pub evaluate_found :
      Server rt.Float
      → EvaluateRequest rt.Float
      → Snapshot
      → Option ResolvedFlag
      → Option (Handled rt.Float)
  evaluate_found s req snap none = some (respond s 404 (flag_missing req.flag_key))
  evaluate_found s req snap (some rf) =
      eval_in rt fuel snap (bare_flag rf) rf.config req.context >>= λ out. some (
        respond s 200 (
          evaluation_body (record {
            flag_key = req.flag_key;
            variation_index = out.index;
            value = out.value;
            reason = out.reason;
          })))

  abbrev pub evaluate_built :
      Server rt.Float → EvaluateRequest rt.Float → Option Snapshot → Option (Handled rt.Float)
  evaluate_built s req none = some (respond s 500 (problem "could not build snapshot"))
  evaluate_built s req (some snap) = evaluate_found s req snap (Dict.get req.flag_key snap.flags)

  abbrev pub evaluate_decoded :
      Server rt.Float → SdkKeyRecord → Option (EvaluateRequest rt.Float) → Option (Handled rt.Float)
  evaluate_decoded s rec none = some (respond s 400 (problem "invalid request body"))
  evaluate_decoded s rec (some req) = evaluate_built s req (build_for wire call s rec)

  abbrev pub evaluate_admitted : Server rt.Float → Admission → Option (Handled rt.Float)
  evaluate_admitted s (rejected message) = some (respond s 401 (problem message))
  evaluate_admitted s (admitted rec) = evaluate_decoded s rec (wire.decode_evaluate call.body)

  unfoldable pub sdk_evaluate : Server rt.Float → Option (Handled rt.Float)
  sdk_evaluate s = evaluate_admitted s (authenticate_sdk wire call s)
