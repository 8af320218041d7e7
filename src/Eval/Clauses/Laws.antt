-- ===== src/Eval/Clauses/Laws.antt =====
-- What clauses, rules and segments of internal/eval/clause.go match.
use pennant.Prelude.{
  ℕ, suc, String, Option, none, some, List, [], ◌∷◌, Bool, true, false, not, ◌≡◌, refl, ◌≢◌, ◌↔◌,
  inl, inr, arith, ◌>>=◌, member, member_iff, ◌||◌, All, Some, is_some, if◌then◌else◌,
}
use pennant.Model.Types.{Clause, Rule, Segment}
use pennant.Model.Validate.{validate_segment}
use pennant.Model.Validate.Laws.{validate_segment_iff}
use pennant.Eval.Runtime.{Runtime, Context, get_attribute, EvalStore}
use pennant.Eval.Clauses.{
  is_segment_match, all_match, attribute_matches, clause_body, segment_body, segment_matches,
  clause_matches, rule_clauses, rule_matches,
}

all_match_iff :
    {A : Type 0} (f : A → Option Bool) (xs : List A)
    → (all_match f xs ≡ some true) ↔ All (λ x. f x ≡ some true) xs
unfolding all_match
all_match_iff f [] = ground arith
all_match_iff f (x ∷ xs) = ground (arith, all_match_iff f xs)

rule_clauses_iff :
    (f : Clause → Option Bool) (cs : List Clause)
    → (rule_clauses f cs ≡ some true) ↔ ((cs ≢ []) × All (λ c. f c ≡ some true) cs)
unfolding rule_clauses
rule_clauses_iff f [] = ((λ h. cc), λ h. absurd (h.0 refl))
rule_clauses_iff f (c ∷ cs) =
    ((λ h. ((λ e. cc), (all_match_iff f (c ∷ cs)).0 h)), λ h. (all_match_iff f (c ∷ cs)).1 h.1)

-- A key that `Validate` lets stand among the included ones is not excluded.
included_not_excluded :
    (k : String) (excluded included : List String)
    → All (λ x. member x excluded ≡ false) included
    → Some (λ x. x ≡ k) included
    → member k excluded ≡ false
included_not_excluded k excluded (x ∷ xs) h (inl e) = rw e at (h.0)
included_not_excluded k excluded (x ∷ xs) h (inr s) = included_not_excluded k excluded xs h.1 s
included_not_excluded k excluded [] h s = elim s [ ]

-- The clause with the opposite `Negate` flag.
abbrev pub flip : Clause → Clause
flip c = record c { negate = not c.negate }

abbrev pub invert : Option Bool → Option Bool
invert o = o >>= λ b. some (not b)

module _ (rt : Runtime) (store : EvalStore) (ctx : Context rt.Float) where
  open rt use {Float}

  -- A rule matches exactly when it has a clause and all its clauses match.
  pub rule_matches_iff :
      (n : ℕ) (r : Rule)
      → (rule_matches rt store ctx n r ≡ some true)
        ↔ ((r.clauses ≢ []) × All (λ c. clause_matches rt store ctx n c ≡ some true) r.clauses)
  unfolding rule_matches
  rule_matches_iff n r = rule_clauses_iff (clause_matches rt store ctx n) r.clauses

  -- The attribute that the clause reads is there, or the clause asks for segments and reads none.
  abbrev pub reads : Clause → Bool
  reads c = is_segment_match c.op || is_some (get_attribute ctx c.attribute)

  -- Negating a clause inverts its result if it reads an attribute that the context has, or segments;
  -- with the attribute missing the negated clause does not match.
  pub clause_matches-flip :
      (n : ℕ) (c : Clause)
      → clause_matches rt store ctx n (flip c)
        ≡ (if reads c then invert (clause_matches rt store ctx n c) else some false)
  unfolding clause_matches clause_body attribute_matches
  clause_matches-flip n c = ground arith

  -- If the segment is one that `Validate` lets pass and it lists the context's key, the rules do not
  -- matter: the context matches exactly when the key stands among the included ones.
  pub segment_matches_keys :
      (n : ℕ) (seg : Segment)
      → validate_segment seg ≡ none
      → (member ctx.key seg.included || member ctx.key seg.excluded) ≡ true
      → segment_matches rt store ctx (suc n) seg ≡ some (member ctx.key seg.included)
  unfolding segment_matches segment_body
  segment_matches_keys n seg valid listed = ground (
    arith,
    member_iff ctx.key seg.included,
    included_not_excluded ctx.key seg.excluded seg.included ((validate_segment_iff seg).0 valid),
  )
