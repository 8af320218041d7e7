-- ===== src/Checks/Fixtures.antt =====
-- A runtime for concrete runs, and a small project: a boolean flag behind a gate, and a segment.
use pennant.Prelude.{
  ℕ, ◌+◌, ◌*◌, ◌/◌, ◌^◌, String, none, some, List, [], ◌∷◌, true, false, ◌==◌, leb, ltb, eqb,
  if◌then◌else◌,
}
use Prim.Native.String.{len}
use pennant.Prelude.Int.{ℤ, pos, ltb_ℤ, pos_part}
use pennant.Model.Types.{
  Clause, op_in, op_segment_match, Variation, Rollout, VariationOrRollout, Rule, Prerequisite,
  Target, FlagConfig, Flag, type_boolean, Segment, SegmentRule,
}
use pennant.Eval.Runtime.{Runtime, Value, Context, EvalStore}

-- Floats are natural numbers of hundred-thousandths, a text is its own JSON and its own hash.
abbrev pub fixed_point : Runtime
fixed_point = record {
  Float = ℕ;
  of_int = λ i. pos_part i * 100000;
  to_int64 = λ f. pos (f / 100000);
  add = λ a b. a + b;
  div = λ a b. a * 100000 / b;
  trunc = λ f. f / 100000 * 100000;
  abs = λ f. f;
  lt = ltb;
  le = leb;
  eq = eqb;
  parse_float = λ s. none;
  format_int = λ i. if ltb_ℤ i (pos 0) then "-" else "+";
  parse_hex = λ s. some (pos (len s * 2 ^ 56));
  unmarshal_any = λ raw. some (Value.text raw);
  unmarshal_string = λ raw. some raw;
  unmarshal_float = λ raw. none;
  has_prefix = λ s p. s == p;
  has_suffix = λ s p. s == p;
  contains = λ s p. s == p;
  Regexp = String;
  compile = λ s. some s;
  match_string = λ re s. re == s;
  Instant = ℤ;
  parse_rfc3339 = λ s. none;
  unix_milli = λ i. i;
  before = ltb_ℤ;
  after = λ a b. ltb_ℤ b a;
  SemVer = String;
  new_version = λ s. some s;
  equal = λ a b. a == b;
  less_than = λ a b. false;
  greater_than = λ a b. false;
  sha1_hex = λ s. s;
}

abbrev pub user : String → Context ℕ
user key = record {
  kind = "user";
  key = key;
  anonymous = false;
  attributes = ("plan", Value.text "pro") ∷ [];
  private_attributes = [];
}

abbrev pub variation : String → Variation
variation value = record { id = value; name = value; description = ""; value = value }

abbrev pub serve_fixed : ℤ → VariationOrRollout
serve_fixed i = record { variation = some i; rollout = none }

abbrev pub halves : Rollout
halves = record {
  variations =
      record { variation = pos 0; weight = pos 50000 }
      ∷ record { variation = pos 1; weight = pos 50000 }
      ∷ [];
  bucket_by = "";
  seed = none;
  is_experiment = true;
}

abbrev pub serve_rollout : Rollout → VariationOrRollout
serve_rollout ro = record { variation = none; rollout = some ro }

abbrev pub plan_is : String → Clause
plan_is value = record { attribute = "plan"; op = op_in; values = value ∷ []; negate = false }

abbrev pub in_segment : String → Clause
in_segment key = record { attribute = ""; op = op_segment_match; values = key ∷ []; negate = false }

abbrev pub rule : String → List Clause → VariationOrRollout → Rule
rule id clauses serve = record { id = id; description = ""; clauses = clauses; serve = serve }

abbrev pub target : ℤ → List String → Target
target v keys = record { variation = v; context_keys = keys }

abbrev pub config : List Prerequisite → List Target → List Rule → VariationOrRollout → FlagConfig
config ps ts rs ft = record {
  on = true;
  prerequisites = ps;
  targets = ts;
  rules = rs;
  fallthrough = ft;
  off_variation = some (pos 1);
  salt = "s";
  track_events = false;
  version = pos 1;
}

abbrev pub flag : String → Flag
flag key = record {
  key = key;
  name = key;
  description = "";
  kind = type_boolean;
  variations = variation "true" ∷ variation "false" ∷ [];
  tags = [];
  temporary = false;
  archived = false;
  created_at = 0;
  updated_at = 0;
  environments = [];
}

abbrev pub needs : String → ℤ → Prerequisite
needs key v = record { flag_key = key; variation = v }

abbrev pub segment : String → List String → List String → List SegmentRule → Segment
segment key included excluded rules = record {
  key = key;
  name = key;
  description = "";
  included = included;
  excluded = excluded;
  rules = rules;
  salt = "t";
  version = pos 1;
}

abbrev pub beta : Segment
beta = segment "beta" ("ann" ∷ []) ("bob" ∷ []) []

-- A segment whose only rule asks for the segment itself.
abbrev pub loop_rule : SegmentRule
loop_rule = record { id = "r"; clauses = in_segment "loop" ∷ []; weight = none; bucket_by = "" }

abbrev pub loop : Segment
loop = segment "loop" [] [] (loop_rule ∷ [])

-- The gate serves its first variation to all.
abbrev pub gate_config : FlagConfig
gate_config = config [] [] [] (serve_fixed (pos 0))

-- The flag "gate", and the segment "beta".
abbrev pub project : EvalStore
project = record {
  get_flag = λ key. if key == "gate" then some (flag "gate", gate_config) else none;
  get_segment = λ key. if key == "beta" then some beta else none;
}

-- The store of the segment that asks for itself.
abbrev pub looping : EvalStore
looping = record { get_flag = λ key. none; get_segment = λ key. some loop }

-- Behind the gate: "dan" is targeted, members of the segment and then the plan "pro" have rules.
abbrev pub member_rule : Rule
member_rule = rule "members" (in_segment "beta" ∷ []) (serve_fixed (pos 0))

abbrev pub pro_rule : Rule
pro_rule = rule "pro" (plan_is "pro" ∷ []) (serve_rollout halves)

abbrev pub guarded : FlagConfig
guarded =
    config (needs "gate" (pos 0) ∷ []) (target (pos 1) ("dan" ∷ []) ∷ [])
      (member_rule ∷ pro_rule ∷ []) (serve_fixed (pos 1))
