-- ===== src/Eval/Clauses.antt =====
-- internal/eval/clause.go: clauses, rules and segments. A clause can ask for a segment, whose rules
-- hold clauses: the code recurs without a guard, so the model takes fuel for the nesting of segments,
-- and `none` means that it ran out.
pub mod Fuel
pub mod Laws
use pennant.Prelude.{
  ℕ, zero, suc, String, Option, none, some, List, [], ◌∷◌, Bool, true, false, not, ◌==◌, ◌>>=◌,
  member, if◌then◌else◌,
}
use pennant.Prelude.Int.{ℤ, pos}
use pennant.Model.Types.{RawMessage, Operator, op_segment_match, Clause, Rule, Segment, SegmentRule}
use pennant.Eval.Runtime.{Runtime, Value, Items, Context, get_attribute, EvalStore}
use pennant.Eval.Operators.{match_operator}
use pennant.Eval.Bucket.{default_key, compute_bucket}

-- `c.Op == model.OpSegmentMatch`
abbrev pub is_segment_match : Operator → Bool
is_segment_match op_segment_match = true
is_segment_match _ = false

-- `return !c.Negate` on a hit, `return c.Negate` after the loop
abbrev pub negated : Clause → Bool → Bool
negated c hit = if hit then not c.negate else c.negate

-- A loop of calls that leaves at the first `false`.
unfoldable pub all_match : {A : Type 0} → (A → Option Bool) → List A → Option Bool
all_match f [] = some true
all_match f (x ∷ xs) = let rest = all_match f xs in f x >>= λ b. if b then rest else some false

-- A rule with no clause matches nothing.
unfoldable pub rule_clauses : (Clause → Option Bool) → List Clause → Option Bool
rule_clauses f [] = some false
rule_clauses f (c ∷ cs) = all_match f (c ∷ cs)

-- `if seg, ok := store.GetSegment(segKey); ok && segmentMatches(seg, ctx, store)`
unfoldable pub segment_hit : (Segment → Option Bool) → Option Segment → Option Bool
segment_hit m none = some false
segment_hit m (some seg) = m seg

module _ (rt : Runtime) where
  open rt use {Float, of_int, div, lt, unmarshal_string}

  -- `for _, v := range c.Values`
  unfoldable pub any_value : Operator → Value Float → List RawMessage → Bool
  any_value op v [] = false
  any_value op v (raw ∷ raws) = if match_operator rt op v raw then true else any_value op v raws

  unfoldable pub any_element : Operator → Items Float → List RawMessage → Bool
  any_element op Items.nil raws = false
  any_element op (Items.cons name v vs) raws =
      if any_value op v raws then true else any_element op vs raws

  unfoldable pub value_matches : Operator → Value Float → List RawMessage → Bool
  value_matches op (Value.arr items) raws = any_element op items raws
  value_matches op v raws = any_value op v raws

  -- A missing attribute never matches, even when negated.
  unfoldable pub attribute_matches : Clause → Option (Value Float) → Bool
  attribute_matches c none = false
  attribute_matches c (some v) = negated c (value_matches c.op v c.values)

  module _ (store : EvalStore) (ctx : Context Float) where
    -- A value that is no JSON string is skipped.
    unfoldable pub any_segment : (Segment → Option Bool) → List RawMessage → Option Bool
    any_segment m [] = some false
    any_segment m (raw ∷ raws) =
        let rest = any_segment m raws in
        segment_hit m (unmarshal_string raw >>= store.get_segment) >>= λ hit.
        if hit then some true else rest

    -- `clauseMatches`, with the call of `segmentMatches` as an argument
    unfoldable pub clause_body : (Segment → Option Bool) → Clause → Option Bool
    clause_body m c =
        if is_segment_match c.op
        then (any_segment m c.values >>= λ hit. some (negated c hit))
        else some (attribute_matches c (get_attribute ctx c.attribute))

    -- A rule of a segment whose clauses match: no weight is a match, a weight is a share of buckets.
    unfoldable pub weight_matches : Segment → SegmentRule → Option ℤ → Bool
    weight_matches seg r none = true
    weight_matches seg r (some w) =
        lt (compute_bucket rt ctx (default_key r.bucket_by) seg.key seg.salt none)
          (div (of_int w) (of_int (pos 100000)))

    unfoldable pub segment_rules :
        (Segment → Option Bool) → Segment → List SegmentRule → Option Bool
    segment_rules m seg [] = some false
    segment_rules m seg (r ∷ rs) =
        let rest = segment_rules m seg rs in
        all_match (clause_body m) r.clauses >>= λ ok.
        if ok then some (weight_matches seg r r.weight) else rest

    unfoldable pub segment_body : (Segment → Option Bool) → Segment → Option Bool
    segment_body m seg =
        if member ctx.key seg.excluded
        then some false
        else if member ctx.key seg.included
        then some true
        else segment_rules m seg seg.rules

    unfoldable pub segment_matches : ℕ → Segment → Option Bool
    segment_matches zero seg = none
    segment_matches (suc n) seg = segment_body (segment_matches n) seg

    unfoldable pub clause_matches : ℕ → Clause → Option Bool
    clause_matches n c = clause_body (segment_matches n) c

    unfoldable pub rule_matches : ℕ → Rule → Option Bool
    rule_matches n r = rule_clauses (clause_matches n) r.clauses
