-- ===== src/Checks/Segments.antt =====
-- internal/eval/clause.go at the segments of the project, and at one that asks for itself.
use pennant.Prelude.{
  ℕ, ◌≤◌, ◌<◌, String, none, some, List, [], ◌∷◌, ◌≡◌, refl, inl, inr, arith, Returns, Some, ap,
  sym, if-cases, some_injective, ◌==◌,
}
use pennant.Model.Types.{RawMessage, Clause, Segment, SegmentRule}
use pennant.Eval.Runtime.{Context}
use pennant.Eval.Clauses.{segment_matches}
use pennant.Eval.Clauses.Fuel.{
  Asks, Refers, named_segment, segment_matches_total, segment_matches_diverges,
}
use pennant.Eval.Evaluate.{evaluate}
use pennant.Eval.Evaluate.Prerequisites.{evaluate_total}
use pennant.Checks.Fixtures.{
  fixed_point, user, beta, loop, loop_rule, looping, project, in_segment, flag, guarded,
}

abbrev eve : Context ℕ
eve = user "eve"

-- Only segments with rules ask for segments, and the one of the project has none.
abbrev rules_rank : List SegmentRule → ℕ
rules_rank [] = 0
rules_rank (r ∷ rs) = 1

rules_rank_le : (rs : List SegmentRule) → rules_rank rs ≤ 1
rules_rank_le [] = omega arith
rules_rank_le (r ∷ rs) = omega arith

-- What the project's segments refer to has no rules.
found_rank :
    (key : String) (seg : Segment) → project.get_segment key ≡ some seg → rules_rank seg.rules ≡ 0
found_rank key seg e = elim (if-cases (key == "beta") (some beta) none e) [
  | inl (_, e') ↦ ap (λ s. rules_rank s.rules) (sym (some_injective e'))
  | inr (_, e') ↦ cc
]

asked_rank :
    (target : Segment) (cs : List Clause)
    → Some (λ (c : Clause). Asks fixed_point project eve target c) cs
    → rules_rank target.rules ≡ 0
asked_rank target [] h = elim h [ ]
asked_rank target (c ∷ cs) (inr h) = asked_rank target cs h
asked_rank target (c ∷ cs) (inl h) = by_values c.values h.1
  where
    by_values :
        (raws : List RawMessage)
        → Some (λ raw. named_segment fixed_point project eve raw ≡ some target) raws
        → rules_rank target.rules ≡ 0
    by_values [] h = elim h [ ]
    by_values (raw ∷ raws) (inl e) = found_rank raw target e
    by_values (raw ∷ raws) (inr h) = by_values raws h

Refers-down :
    (seg target : Segment)
    → Refers fixed_point project eve seg target
    → rules_rank target.rules < rules_rank seg.rules
Refers-down seg target h = by_rules seg.rules h
  where
    by_rules :
        (rs : List SegmentRule)
        → Some
            (λ (r : SegmentRule).
              Some (λ (c : Clause). Asks fixed_point project eve target c) r.clauses)
            rs
        → rules_rank target.rules < rules_rank rs
    by_rules [] h = elim h [ ]
    by_rules (r ∷ rs) (inl h) = omega (arith, asked_rank target r.clauses h)
    by_rules (r ∷ rs) (inr h) = found_below rs h
      where
        found_below :
            (rs : List SegmentRule)
            → Some
                (λ (r : SegmentRule).
                  Some (λ (c : Clause). Asks fixed_point project eve target c) r.clauses)
                rs
            → rules_rank target.rules < 1
        found_below [] h = elim h [ ]
        found_below (r ∷ rs) (inl h) = omega (arith, asked_rank target r.clauses h)
        found_below (r ∷ rs) (inr h) = found_below rs h

evaluate_total_example : Returns (evaluate fixed_point project eve 2 (flag "f") guarded)
evaluate_total_example =
    evaluate_total fixed_point project eve 2 (λ seg. rules_rank seg.rules) 1 Refers-down
      (λ seg. rules_rank_le seg.rules) (omega arith) (flag "f") guarded

segment_matches_total_example : Returns (segment_matches fixed_point project eve 1 beta)
segment_matches_total_example =
    segment_matches_total fixed_point project eve (λ seg. rules_rank seg.rules) Refers-down 1 beta
      (omega arith)

segment_matches_diverges_example : segment_matches fixed_point looping eve 1000 loop ≡ none
segment_matches_diverges_example =
    segment_matches_diverges fixed_point looping eve loop loop_rule [] (in_segment "loop") [] "loop"
      [] refl refl refl refl refl refl refl 1000
