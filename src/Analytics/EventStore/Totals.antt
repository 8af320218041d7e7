-- ===== src/Analytics/EventStore/Totals.antt =====
-- QueryFlagInsights of internal/analytics/memstore.go counts each evaluation of a flag once.
use pennant.Prelude.{
  ℕ, zero, suc, ◌+◌, ◌^◌, ◌<◌, String, Option, none, some, List, [], ◌∷◌, ◌&&◌, ◌≡◌, refl, ap, ◌∙◌,
  arith, ◌==◌, eq_iff, length, or_else, if◌then◌else◌, Bool-cases, inl, inr,
}
use pennant.Prelude.Int.{ℤ, pos, ◌+ℤ◌, wrap64, wrap64_small}
use pennant.Prelude.Dict.{get, get-put}
use pennant.Analytics.{Event}
use pennant.Analytics.EventStore.{
  FlagInsight, Tally, increment, new_insight, counts, count_event, tally, query_flag_insights,
}

-- How many evaluations of a flag the query is about.
abbrev pub evaluations : {F : Type 0} → String → String → ℤ → String → List (Event F) → ℕ
evaluations p env since k [] = 0
evaluations p env since k (e ∷ es) =
    let rest = evaluations p env since k es in
    if counts p env since e && e.flag_key == k then suc rest else rest

-- The total of an insight that is there.
abbrev pub total_of : Option FlagInsight → Option ℤ
total_of none = none
total_of (some fi) = some fi.total_evals

-- No insight for nothing, and else the number.
abbrev pub number : ℕ → Option ℤ
number zero = none
number (suc n) = some (pos (suc n))

increment_pos : (n : ℕ) → suc n < 2 ^ 63 → increment (pos n) ≡ pos (suc n)
unfolding ◌+ℤ◌
increment_pos n h = ap wrap64 {x = pos n +ℤ pos 1} (ground arith) ∙ wrap64_small (suc n) h

module _ {F : Type 0} (format_int : ℤ → String) where
  bumped :
      (e : Event F) (o : Option FlagInsight) (n : ℕ)
      → suc n < 2 ^ 63
      → total_of o ≡ number n
      → increment (or_else o (new_insight e)).total_evals ≡ pos (suc n)
  bumped e none zero h t = increment_pos 0 h
  bumped e none (suc n) h t = cc
  bumped e (some fi) zero h t = cc
  bumped e (some fi) (suc n) h t =
      ap (λ o. increment (or_else o (pos 0))) t ∙ increment_pos (suc n) h

  total-count_event :
      (k : String) (e : Event F) (t : Tally) (n : ℕ)
      → suc n < 2 ^ 63
      → total_of (get k t.by_flag) ≡ number n
      → total_of (get k (count_event format_int e t).by_flag)
        ≡ number (if e.flag_key == k then suc n else n)
  unfolding count_event
  total-count_event k e t n h total =
      ap total_of (get-put e.flag_key k _ t.by_flag) ∙ elim (Bool-cases (e.flag_key == k)) [
        | inl same ↦ simp (same) (
            ap some (
              bumped e (get e.flag_key t.by_flag) n h
                (ap (λ j. total_of (get j t.by_flag)) ((eq_iff e.flag_key k).0 same) ∙ total)))
        | inr other ↦ simp (other) total
      ]

  total-tally :
      (p env : String) (since : ℤ) (k : String) (es : List (Event F)) (t : Tally) (n : ℕ)
      → n + length es < 2 ^ 63
      → total_of (get k t.by_flag) ≡ number n
      → total_of (get k (tally format_int p env since es t).by_flag)
        ≡ number (n + evaluations p env since k es)
  unfolding tally
  total-tally p env since k [] t n h total = total ∙ ap number (omega arith)
  total-tally p env since k (e ∷ es) t n h total = elim (Bool-cases (counts p env since e)) [
    | inl c ↦ simp (c) (
        total-tally p env since k es (count_event format_int e t)
          (if e.flag_key == k then suc n else n) (ground (arith, h))
          (total-count_event k e t n (omega (arith, h)) total)
        ∙ ap number (ground arith))
    | inr c ↦ simp (c) (total-tally p env since k es t n (omega (arith, h)) total)
  ]

  -- For fewer than 2^63 stored events, a flag has an insight exactly when some event counts for it, that is an
  -- evaluation of the flag in the environment that is not before `since`, and the insight's total is the number of these
  -- events.
  pub query_flag_insights_total :
      (s : List (Event F)) (p env : String) (since : ℤ) (k : String)
      → length s < 2 ^ 63
      → total_of (get k (query_flag_insights format_int s p env since))
        ≡ number (evaluations p env since k s)
  unfolding query_flag_insights get
  query_flag_insights_total s p env since k h =
      total-tally p env since k s (record { by_flag = []; seen = [] }) 0 (omega (arith, h)) refl
      ∙ ap number (omega arith)
