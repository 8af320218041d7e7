-- ===== src/Eval/Clauses/Fuel.antt =====
-- Nested segments of internal/eval/clause.go: how much fuel the model needs, and when none is enough.
use pennant.Prelude.{
  ℕ, zero, suc, ◌≤◌, ◌<◌, Option, none, some, List, [], ◌∷◌, Bool, true, false, ◌≡◌, refl, inl, inr,
  arith, ◌>>=◌, member, Some, Returns, bind-Returns, if-Returns, if◌then◌else◌,
}
use pennant.Model.Types.{RawMessage, Clause, Rule, Segment, SegmentRule}
use pennant.Eval.Runtime.{Runtime, Context, get_attribute, EvalStore}
use pennant.Eval.Clauses.{
  is_segment_match, negated, attribute_matches, all_match, segment_hit, any_segment, clause_body,
  segment_rules, segment_body, segment_matches, clause_matches, rule_clauses, rule_matches,
}

-- Where `f` has a result, `g` has the same.
abbrev pub Extends : {A : Type 0} → (A → Option Bool) → (A → Option Bool) → Type 0
Extends {A} f g = (x : A) (b : Bool) → f x ≡ some b → g x ≡ some b

all_match-Extends :
    {A : Type 0} (f g : A → Option Bool)
    → Extends f g
    → (xs : List A) (b : Bool) → all_match f xs ≡ some b
    → all_match g xs ≡ some b
unfolding all_match
all_match-Extends f g h [] b e = e
all_match-Extends f g h (x ∷ xs) b e =
    ground (arith, h x true, h x false, all_match-Extends f g h xs b)

rule_clauses-Extends :
    (f g : Clause → Option Bool)
    → Extends f g
    → (cs : List Clause) (b : Bool) → rule_clauses f cs ≡ some b
    → rule_clauses g cs ≡ some b
unfolding rule_clauses
rule_clauses-Extends f g h [] b e = e
rule_clauses-Extends f g h (c ∷ cs) b e = all_match-Extends f g h (c ∷ cs) b e

module _ (rt : Runtime) (store : EvalStore) (ctx : Context rt.Float) where
  open rt use {unmarshal_string}

  -- The segment that a clause value names.
  abbrev pub named_segment : RawMessage → Option Segment
  named_segment raw = unmarshal_string raw >>= store.get_segment

  segment_hit-Extends :
      (f g : Segment → Option Bool) → Extends f g → Extends (segment_hit f) (segment_hit g)
  unfolding segment_hit
  segment_hit-Extends f g h none b e = e
  segment_hit-Extends f g h (some seg) b e = h seg b e

  any_segment-Extends :
      (f g : Segment → Option Bool)
      → Extends f g
      → Extends (any_segment rt store ctx f) (any_segment rt store ctx g)
  unfolding any_segment
  any_segment-Extends f g h [] b e = e
  any_segment-Extends f g h (raw ∷ raws) b e = ground (
    arith,
    segment_hit-Extends f g h (named_segment raw) true,
    segment_hit-Extends f g h (named_segment raw) false,
    any_segment-Extends f g h raws b,
  )

  clause_body-Extends :
      (f g : Segment → Option Bool)
      → Extends f g
      → Extends (clause_body rt store ctx f) (clause_body rt store ctx g)
  unfolding clause_body
  clause_body-Extends f g h c b e =
      ground
        (arith, any_segment-Extends f g h c.values true, any_segment-Extends f g h c.values false)

  segment_rules-Extends :
      (f g : Segment → Option Bool)
      → Extends f g
      → (seg : Segment)
      → Extends (segment_rules rt store ctx f seg) (segment_rules rt store ctx g seg)
  unfolding segment_rules
  segment_rules-Extends f g h seg [] b e = e
  segment_rules-Extends f g h seg (r ∷ rs) b e = ground (
    arith,
    all_match-Extends _ _ (clause_body-Extends f g h) r.clauses true,
    all_match-Extends _ _ (clause_body-Extends f g h) r.clauses false,
    segment_rules-Extends f g h seg rs b,
  )

  segment_body-Extends :
      (f g : Segment → Option Bool)
      → Extends f g
      → Extends (segment_body rt store ctx f) (segment_body rt store ctx g)
  unfolding segment_body
  segment_body-Extends f g h seg b e = ground (arith, segment_rules-Extends f g h seg seg.rules b)

  pub segment_matches-Extends :
      (n m : ℕ) → n ≤ m → Extends (segment_matches rt store ctx n) (segment_matches rt store ctx m)
  unfolding segment_matches
  segment_matches-Extends zero m h seg b e = cc
  segment_matches-Extends (suc n) zero h seg b e = absurd (omega arith)
  segment_matches-Extends (suc n) (suc m) h seg b e =
      segment_body-Extends _ _ (segment_matches-Extends n m (omega arith)) seg b e

  -- More fuel never changes the result of a rule: what one amount finds, each larger amount finds.
  pub rule_matches_stable :
      (n m : ℕ) (r : Rule) (b : Bool)
      → n ≤ m
      → rule_matches rt store ctx n r ≡ some b
      → rule_matches rt store ctx m r ≡ some b
  unfolding rule_matches clause_matches
  rule_matches_stable n m r b h e =
      rule_clauses-Extends _ _ (clause_body-Extends _ _ (segment_matches-Extends n m h)) r.clauses b
        e

  -- A clause that asks for a segment, and one of whose values names it.
  abbrev pub Asks : Segment → Clause → Type 0
  Asks seg c = (is_segment_match c.op ≡ true) × Some (λ raw. named_segment raw ≡ some seg) c.values

  -- A rule of the segment holds such a clause.
  abbrev pub Refers : Segment → Segment → Type 0
  Refers seg target =
      Some (λ (r : SegmentRule). Some (λ (c : Clause). Asks target c) r.clauses) seg.rules

  module _ (m : Segment → Option Bool) where
    any_segment_total :
        (raws : List RawMessage)
        → ((seg : Segment) → Some (λ raw. named_segment raw ≡ some seg) raws → Returns (m seg))
        → Returns (any_segment rt store ctx m raws)
    unfolding any_segment
    any_segment_total [] h = (false, refl)
    any_segment_total (raw ∷ raws) h =
        bind-Returns _ _ (hit (named_segment raw) refl)
          (λ b. if-Returns b _ _ (true, refl) (any_segment_total raws (λ seg s. h seg (inr s))))
      where
        hit : (o : Option Segment) → named_segment raw ≡ o → Returns (segment_hit m o)
        hit none e = (false, unfold segment_hit in refl)
        hit (some seg) e = unfold segment_hit in h seg (inl e)

    clause_body_total :
        (c : Clause)
        → ((seg : Segment) → Asks seg c → Returns (m seg))
        → Returns (clause_body rt store ctx m c)
    unfolding clause_body
    clause_body_total c h = by_op (is_segment_match c.op) refl
      where
        by_op :
            (b : Bool)
            → is_segment_match c.op ≡ b
            → Returns (
                if b
                then (any_segment rt store ctx m c.values >>= λ hit. some (negated c hit))
                else some (attribute_matches rt c (get_attribute ctx c.attribute)))
        by_op true e =
            bind-Returns _ _ (any_segment_total c.values (λ seg s. h seg (e, s))) (λ hit. (_, refl))
        by_op false e = (_, refl)

    all_match_total :
        (cs : List Clause)
        → ((seg : Segment) → Some (Asks seg) cs → Returns (m seg))
        → Returns (all_match (clause_body rt store ctx m) cs)
    unfolding all_match
    all_match_total [] h = (true, refl)
    all_match_total (c ∷ cs) h =
        bind-Returns _ _ (clause_body_total c (λ seg s. h seg (inl s)))
          (λ b. if-Returns b _ _ (all_match_total cs (λ seg s. h seg (inr s))) (false, refl))

    rule_clauses_total :
        (cs : List Clause)
        → ((seg : Segment) → Some (Asks seg) cs → Returns (m seg))
        → Returns (rule_clauses (clause_body rt store ctx m) cs)
    unfolding rule_clauses
    rule_clauses_total [] h = (false, refl)
    rule_clauses_total (c ∷ cs) h = all_match_total (c ∷ cs) h

    segment_rules_total :
        (seg : Segment) (rs : List SegmentRule)
        → ((target : Segment)
            → Some (λ (r : SegmentRule). Some (λ (c : Clause). Asks target c) r.clauses) rs
            → Returns (m target))
        → Returns (segment_rules rt store ctx m seg rs)
    unfolding segment_rules
    segment_rules_total seg [] h = (false, refl)
    segment_rules_total seg (r ∷ rs) h =
        bind-Returns _ _ (all_match_total r.clauses (λ t s. h t (inl s)))
          (λ b. if-Returns b _ _ (_, refl) (segment_rules_total seg rs (λ t s. h t (inr s))))

    segment_body_total :
        (seg : Segment)
        → ((target : Segment) → Refers seg target → Returns (m target))
        → Returns (segment_body rt store ctx m seg)
    unfolding segment_body
    segment_body_total seg h =
        if-Returns (member ctx.key seg.excluded) _ _ (false, refl)
          (if-Returns (member ctx.key seg.included) _ _ (true, refl)
            (segment_rules_total seg seg.rules h))

  -- If no chain of references between segments comes back, that is if a segment refers only to
  -- segments of smaller rank, then fuel above the rank gives a result.
  pub segment_matches_total :
      (rank : Segment → ℕ)
      → ((seg target : Segment) → Refers seg target → rank target < rank seg)
      → (n : ℕ) (seg : Segment) → rank seg < n
      → Returns (segment_matches rt store ctx n seg)
  unfolding segment_matches
  segment_matches_total rank down zero seg h = absurd (omega arith)
  segment_matches_total rank down (suc n) seg h =
      segment_body_total (segment_matches rt store ctx n) seg
        (λ target r. segment_matches_total rank down n target (omega (arith, down seg target r)))

  -- If segments refer only to segments of smaller rank and no rank passes `top`, then fuel above
  -- `top` decides whether a rule matches.
  pub rule_matches_total :
      (rank : Segment → ℕ) (top : ℕ)
      → ((seg target : Segment) → Refers seg target → rank target < rank seg)
      → ((seg : Segment) → rank seg ≤ top)
      → (n : ℕ) (r : Rule) → top < n
      → Returns (rule_matches rt store ctx n r)
  unfolding rule_matches clause_matches
  rule_matches_total rank top down bounded n r h =
      rule_clauses_total _ r.clauses
        (λ seg _. segment_matches_total rank down n seg (omega (arith, bounded seg)))

  -- A segment whose first rule asks, in its first clause and by its first value, for the segment
  -- itself: unless the context is excluded or included by key, no fuel gives a result.
  pub segment_matches_diverges :
      (seg : Segment) (r : SegmentRule) (rs : List SegmentRule) (c : Clause) (cs : List Clause)
      (raw : RawMessage) (raws : List RawMessage)
      → member ctx.key seg.excluded ≡ false
      → member ctx.key seg.included ≡ false
      → seg.rules ≡ r ∷ rs
      → r.clauses ≡ c ∷ cs
      → c.values ≡ raw ∷ raws
      → is_segment_match c.op ≡ true
      → named_segment raw ≡ some seg
      → (n : ℕ) → segment_matches rt store ctx n seg ≡ none
  unfolding segment_matches segment_body segment_rules all_match clause_body any_segment segment_hit
  segment_matches_diverges seg r rs c cs raw raws ex inc er ec ev op self zero = refl
  segment_matches_diverges seg r rs c cs raw raws ex inc er ec ev op self (suc n) =
      let ih = segment_matches_diverges seg r rs c cs raw raws ex inc er ec ev op self n in
      simp (ex, inc, er, ec, op, ev, self, ih)
