-- ===== src/Client.antt =====
-- sdk/go/pennant/client.go: the SDK client. Its snapshot is replaced by the events of a server's stream, and
-- flags are evaluated from it. The stream is the list of its lines up to its end or its cancellation;
-- the connections are in Connecting; HTTP and `json.Unmarshal` are not here: the decoders are arguments.
pub mod Reading
pub mod Variations
pub mod Agreement
pub mod EndToEnd
pub mod Connecting
pub mod Recovery
use Prim.Native.String.{len}
use pennant.Prelude.{
  ℕ, ◌*◌, String, Option, none, some, List, [], ◌∷◌, Bool, true, false, not, ◌||◌, ◌==◌, ◌>>=◌, leb,
  is_some, if◌then◌else◌,
}
use pennant.Prelude.Int.{ℤ}
use pennant.Prelude.Dict
use pennant.Prelude.Texts.{has_prefix, trim_prefix, trim_space}
use pennant.Model.Types.{Flag, FlagConfig, err_client_not_ready, err_flag_not_found}
use pennant.Snapshot.Types.{Snapshot, Delta, ResolvedFlag}
use pennant.Snapshot.Delta.{apply_delta}
use pennant.Eval.Runtime.{Runtime, Value, Context, EvalStore}
use pennant.Eval.Evaluate.{Outcome, error_reason, evaluate}

-- The pointer to the snapshot, and whether `ready` is closed.
pub record Client : Type 0 where
  pub snap : Option Snapshot
  pub ready : Bool

-- The client that `New` makes, before its stream.
abbrev pub new_client : Client
new_client = record { snap = none; ready = false }

abbrev pub is_ready : Client → Bool
is_ready c = c.ready

-- `json.Unmarshal` into a snapshot and into a delta.
pub record Decoder : Type 0 where
  pub unmarshal_snapshot : String → Option Snapshot
  pub unmarshal_delta : String → Option Delta

-- The variables of `parseSSE`, with the client that it changes.
pub record Reader : Type 0 where
  pub event : String
  pub text : String
  pub client : Client

-- `bufio.MaxScanTokenSize`: a line that fills the scanner's buffer ends the scan with an error.
abbrev pub max_scan_token_size : ℕ
max_scan_token_size = 64 * 1024

-- `c.snap.Store(snap)`, and `ready` is closed.
abbrev pub received : Snapshot → Client
received snap = record { snap = some snap; ready = true }

unfoldable pub handle_put : Option Snapshot → Client → Client
handle_put none c = c
handle_put (some snap) c = received snap

unfoldable pub handle_patch : Option Delta → Option Snapshot → Client → Client
handle_patch none current c = c
handle_patch (some delta) none c = c
handle_patch (some delta) (some current) c = received (apply_delta current delta)

module _ (decoder : Decoder) where
  open decoder use {unmarshal_snapshot, unmarshal_delta}

  unfoldable pub handle_event : String → String → Client → Client
  handle_event event text c =
      if event == "put"
      then handle_put (unmarshal_snapshot text) c
      else if event == "patch"
      then handle_patch (unmarshal_delta text) c.snap c
      else c

  -- `if event != "" && data != ""`
  unfoldable pub dispatch : String → String → Client → Client
  dispatch event text c = if event == "" || text == "" then c else handle_event event text c

  -- One line of the scanner's loop.
  unfoldable pub read_line : String → Reader → Reader
  read_line line r =
      if line == ""
      then record { event = ""; text = ""; client = dispatch r.event r.text r.client }
      else if has_prefix line "event:"
      then record r { event = trim_space (trim_prefix line "event:") }
      else if has_prefix line "data:"
      then record r { text = trim_space (trim_prefix line "data:") }
      else r

  -- The reader after the loop, and whether the scanner has an error.
  unfoldable pub read_lines : List String → Reader → Reader × Bool
  read_lines [] r = (r, false)
  read_lines (line ∷ lines) r =
      let rest = read_lines lines (read_line line r) in
      if leb max_scan_token_size (len line) then (r, true) else rest

  -- The client after the loop, and whether the scanner has an error.
  unfoldable pub parse_sse : List String → Client → Client × Bool
  parse_sse lines c =
      let out = read_lines lines (record { event = ""; text = ""; client = c }) in
      (out.0.client, out.1)

-- `&model.Flag{…}` of a resolved flag, the other fields zero.
abbrev pub flag_of : ResolvedFlag → Flag
flag_of rf = record {
  key = rf.key;
  name = rf.name;
  description = rf.description;
  kind = rf.kind;
  variations = rf.variations;
  tags = rf.tags;
  temporary = rf.temporary;
  archived = rf.archived;
  created_at = 0;
  updated_at = 0;
  environments = [];
}

abbrev pub flag_and_config : Option ResolvedFlag → Option (Flag × FlagConfig)
flag_and_config none = none
flag_and_config (some rf) = some (flag_of rf, rf.config)

-- The methods of `snapshotStore`.
abbrev pub snapshot_store : Snapshot → EvalStore
snapshot_store snap = record {
  get_flag = λ key. flag_and_config (Dict.get key snap.flags);
  get_segment = λ key. Dict.get key snap.segments;
}

-- `evalResult`
pub record EvalResult (F : Type 0) : Type 0 where
  pub idx : Option ℤ
  pub value : Value F
  pub ready : Bool

-- What `JSONVariation` returns: the target's value, or the error.
pub data JsonResult {ℓ} (A : Type ℓ) : Type ℓ where
  unavailable marshal_error unmarshal_error : JsonResult A
  json_value : A → JsonResult A

-- `fuel` is that of the segments.
module _ (rt : Runtime) (fuel : ℕ) where
  open rt use {Float}

  abbrev pub not_evaluated : EvalResult Float
  not_evaluated = record { idx = none; value = Value.null; ready = false }

  abbrev pub evaluated : Outcome Float → EvalResult Float
  evaluated out = record { idx = out.index; value = out.value; ready = true }

  abbrev pub eval_found :
      EvalStore → Context Float → Option (Flag × FlagConfig) → Option (EvalResult Float)
  eval_found store ctx none = some not_evaluated
  eval_found store ctx (some (flag, cfg)) =
      evaluate rt store ctx fuel flag cfg >>= λ out. some (evaluated out)

  abbrev pub eval_from : String → Context Float → Option Snapshot → Option (EvalResult Float)
  eval_from key ctx none = some not_evaluated
  eval_from key ctx (some snap) =
      let store = snapshot_store snap in eval_found store ctx (store.get_flag key)

  unfoldable pub eval_flag : Client → String → Context Float → Option (EvalResult Float)
  eval_flag c key ctx = eval_from key ctx c.snap

  -- `nil, nil, model.Reason{Kind: model.ReasonError, …}`
  abbrev pub client_not_ready : Outcome Float
  client_not_ready = record {
    index = none;
    value = Value.null;
    reason = error_reason err_client_not_ready;
  }

  abbrev pub flag_not_found : Outcome Float
  flag_not_found = record {
    index = none;
    value = Value.null;
    reason = error_reason err_flag_not_found;
  }

  abbrev pub detail_found :
      EvalStore → Context Float → Option (Flag × FlagConfig) → Option (Outcome Float)
  detail_found store ctx none = some flag_not_found
  detail_found store ctx (some (flag, cfg)) = evaluate rt store ctx fuel flag cfg

  abbrev pub detail_from : String → Context Float → Option Snapshot → Option (Outcome Float)
  detail_from key ctx none = some client_not_ready
  detail_from key ctx (some snap) =
      let store = snapshot_store snap in detail_found store ctx (store.get_flag key)

  -- `evaluate`, and so `EvaluateDetail`
  unfoldable pub evaluate_detail : Client → String → Context Float → Option (Outcome Float)
  evaluate_detail c key ctx = detail_from key ctx c.snap

  -- `!r.ready || r.idx == nil`
  abbrev pub is_missing : EvalResult Float → Bool
  is_missing r = not r.ready || not (is_some r.idx)

  -- The type assertions of the variation methods.
  abbrev pub bool_or : Bool → Value Float → Bool
  bool_or d (Value.bool b) = b
  bool_or d v = d

  abbrev pub string_or : String → Value Float → String
  string_or d (Value.text s) = s
  string_or d v = d

  -- JSON decoded into an `any` has no `json.Number`.
  abbrev pub float_or : Float → Value Float → Float
  float_or d (Value.float x) = x
  float_or d v = d

  unfoldable pub bool_variation : Client → String → Context Float → Bool → Option Bool
  bool_variation c key ctx d =
      eval_flag c key ctx >>= λ r. some (if is_missing r then d else bool_or d r.value)

  unfoldable pub string_variation : Client → String → Context Float → String → Option String
  string_variation c key ctx d =
      eval_flag c key ctx >>= λ r. some (if is_missing r then d else string_or d r.value)

  unfoldable pub float64_variation : Client → String → Context Float → Float → Option Float
  float64_variation c key ctx d =
      eval_flag c key ctx >>= λ r. some (if is_missing r then d else float_or d r.value)

  abbrev pub unmarshalled {ℓ} : {A : Type ℓ} → (String → Option A) → Option String → JsonResult A
  unmarshalled unmarshal none = marshal_error
  unmarshalled unmarshal (some b) = elim (unmarshal b) [
    | none ↦ unmarshal_error
    | some a ↦ json_value a
  ]

  unfoldable pub json_variation {ℓ} :
      {A : Type ℓ}
      → (Value Float → Option String)
      → (String → Option A)
      → Client
      → String
      → Context Float
      → Option (JsonResult A)
  json_variation marshal unmarshal c key ctx = eval_flag c key ctx >>= λ r.
      some (if is_missing r then unavailable else unmarshalled unmarshal (marshal r.value))
