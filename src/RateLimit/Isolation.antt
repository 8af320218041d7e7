-- ===== src/RateLimit/Isolation.antt =====
-- Keys do not share a limit in internal/ratelimit/limiter.go.
use pennant.Prelude.{
  ◌+◌, String, Option, none, some, List, [], ◌∷◌, Bool, true, false, ◌≡◌, refl, sym, ap, ap₂, ◌∙◌,
  arith, ◌==◌, eq_iff, ltb, keep, if◌then◌else◌, Bool-cases, inl, inr,
}
use pennant.Prelude.Dict.{get, get-put, Distinct, Distinct-put}
use pennant.Model.Types.{Time}
use pennant.RateLimit.{Limiter, Entry, Store, limiter_of, stale_after, allow_key, cleanup}

-- What happens to a store: a request of a key, or a tick of the cleanup.
pub data Operation : Type 0 where
  request : Time → String → Operation
  tick : Time → Operation

-- The operation bears on the key.
abbrev pub concerns : String → Operation → Bool
concerns key (request now k) = k == key
concerns key (tick now) = true

module _ (lib : Limiter) where
  -- The answers that a key's requests get, in order.
  unfoldable pub answers : String → Store lib → List Operation → List Bool
  answers key s [] = []
  answers key s (request now k ∷ ops) =
      let out = allow_key lib now s k in
      let rest = answers key out.1 ops in if k == key then out.0 ∷ rest else rest
  answers key s (tick now ∷ ops) = answers key (cleanup lib now s) ops

  -- An entry, unless it is stale.
  abbrev fresh : Time → Option (Entry lib.State) → Option (Entry lib.State)
  fresh now none = none
  fresh now (some e) = if ltb (e.last_seen + stale_after) now then none else some e

  get-cleanup :
      (now : Time) (key : String) (s : Store lib)
      → Distinct s
      → get key (cleanup lib now s) ≡ fresh now (get key s)
  unfolding cleanup get
  get-cleanup now key [] d = refl
  get-cleanup now key ((k, e) ∷ s) d = elim (Bool-cases (k == key)) [
    | inl same ↦
        let gone : get key s ≡ none = ap (λ j. get j s) (sym ((eq_iff k key).0 same)) ∙ d.0 in
        simp (same) (ground (arith, same, get-cleanup now key s d.1 ∙ ap (fresh now) gone))
    | inr other ↦ simp (other) (ground (arith, other, get-cleanup now key s d.1))
  ]

  cleanup-Distinct : (now : Time) (s : Store lib) → Distinct s → Distinct (cleanup lib now s)
  unfolding cleanup
  cleanup-Distinct now [] d = tt
  cleanup-Distinct now ((k, e) ∷ s) d = elim (Bool-cases (ltb (e.last_seen + stale_after) now)) [
    | inl stale ↦ simp (stale) (cleanup-Distinct now s d.1)
    | inr live ↦
        simp (live) (get-cleanup now k s d.1 ∙ ap (fresh now) d.0, cleanup-Distinct now s d.1)
  ]

  -- The entry that a request leaves.
  abbrev after : Time → Option (Entry lib.State) → Entry lib.State
  after now o = record { limiter = (lib.allow now (limiter_of lib o)).1; last_seen = now }

  -- Two stores that agree on the key.
  record Agree (key : String) (s t : Store lib) : Type 0 where
    same : get key s ≡ get key t
    distinct_left : Distinct s
    distinct_right : Distinct t

  Agree-other :
      (now : Time) (k key : String) (s t : Store lib)
      → (k == key) ≡ false
      → Agree key s t
      → Agree key (allow_key lib now s k).1 t
  unfolding allow_key
  Agree-other now k key s t other a = record {
    same = get-put k key _ s ∙ simp (other) a.same;
    distinct_left = Distinct-put k _ s a.distinct_left;
    distinct_right = a.distinct_right;
  }

  same_at : (k key : String) (s t : Store lib) → k ≡ key → Agree key s t → get k s ≡ get k t
  same_at k key s t e a = ap (λ j. get j s) e ∙ a.same ∙ ap (λ j. get j t) (sym e)

  Agree-same :
      (now : Time) (k key : String) (s t : Store lib)
      → (k == key) ≡ true
      → Agree key s t
      → Agree key (allow_key lib now s k).1 (allow_key lib now t k).1
  unfolding allow_key
  Agree-same now k key s t e a = record {
    same =
        rw (get-put k key (after now (get k s)) s, get-put k key (after now (get k t)) t, e)
          (ap (λ o. some (after now o)) (same_at k key s t ((eq_iff k key).0 e) a));
    distinct_left = Distinct-put k _ s a.distinct_left;
    distinct_right = Distinct-put k _ t a.distinct_right;
  }

  Agree-tick :
      (now : Time) (key : String) (s t : Store lib)
      → Agree key s t
      → Agree key (cleanup lib now s) (cleanup lib now t)
  Agree-tick now key s t a = record {
    same =
        get-cleanup now key s a.distinct_left
        ∙ ap (fresh now) a.same
        ∙ sym (get-cleanup now key t a.distinct_right);
    distinct_left = cleanup-Distinct now s a.distinct_left;
    distinct_right = cleanup-Distinct now t a.distinct_right;
  }

  answer_same :
      (now : Time) (k key : String) (s t : Store lib)
      → (k == key) ≡ true
      → Agree key s t
      → (allow_key lib now s k).0 ≡ (allow_key lib now t k).0
  unfolding allow_key
  answer_same now k key s t e a =
      ap (λ o. (lib.allow now (limiter_of lib o)).0) (same_at k key s t ((eq_iff k key).0 e) a)

  module _ (key : String) (ops : List Operation) where
    -- The two stores answer the rest alike, with the other keys' requests left out on the right.
    abbrev Alike : Store lib → Store lib → Type 0
    Alike s t = answers key s ops ≡ answers key t (keep (concerns key) ops)

    request-Alike :
        (now : Time) (k : String) (s t : Store lib)
        → ((s' t' : Store lib) → Agree key s' t' → Alike s' t')
        → Agree key s t
        → (b : Bool) → (k == key) ≡ b
        → (if b
            then (allow_key lib now s k).0 ∷ answers key (allow_key lib now s k).1 ops
            else answers key (allow_key lib now s k).1 ops)
          ≡ answers key t (elim b [
            | true ↦ request now k ∷ keep (concerns key) ops
            | false ↦ keep (concerns key) ops
          ])
    unfolding answers
    request-Alike now k s t rest a true e = simp (e) (
        ap₂ (λ b bs. b ∷ bs) (answer_same now k key s t e a)
          (rest _ _ (Agree-same now k key s t e a)))
    request-Alike now k s t rest a false e = rest _ t (Agree-other now k key s t e a)

  alike :
      (key : String) (ops : List Operation) (s t : Store lib) → Agree key s t → Alike key ops s t
  unfolding answers
  alike key [] s t a = refl
  alike key (tick now ∷ ops) s t a = alike key ops _ _ (Agree-tick now key s t a)
  alike key (request now k ∷ ops) s t a =
      request-Alike key ops now k s t (alike key ops) a (k == key) refl

  -- From a store whose keys are not repeated, the answers that the requests of one key get among requests of
  -- other keys and ticks of the cleanup are those that they get with the other keys' requests left out.
  pub answers_isolated :
      (key : String) (ops : List Operation) (s : Store lib)
      → Distinct s
      → answers key s ops ≡ answers key s (keep (concerns key) ops)
  answers_isolated key ops s d =
      alike key ops s s (record { same = refl; distinct_left = d; distinct_right = d })
