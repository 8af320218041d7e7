-- ===== src/Prelude/Scans.antt =====
-- A loop that stops at the first element that a test does not pass.
use mathlib.Core.Path.{◌≡◌, refl, ap, ◌∙◌}
use mathlib.Core.Logic.{◌⊎◌, inl, inr}
use mathlib.Core.Bool.{Bool, true, false, not}
use mathlib.Core.Option.{Option, none, some}
use mathlib.Core.List.{List, [], ◌∷◌, ◌++◌}
use pennant.Prelude.Lists.{All}

-- The first element of a list that the test does not answer with `b`.
pub record FirstAt {A : Type 0} (f : A → Option Bool) (b : Bool) (o : Option Bool) (xs : List A)
    : Type 0 where
  pub before : List A
  pub here : A
  pub behind : List A
  pub split : xs ≡ before ++ here ∷ behind
  pub passed : All (λ x. f x ≡ some b) before
  pub found : f here ≡ o

same : (c b : Bool) → (c ≡ b) ⊎ (c ≡ not b)
same true true = inl refl
same true false = inr refl
same false true = inr refl
same false false = inl refl

module _ {A : Type 0} (f : A → Option Bool) (b : Bool) where
  later :
      {o : Option Bool} (x : A) (xs : List A)
      → f x ≡ some b
      → FirstAt f b o xs
      → FirstAt f b o (x ∷ xs)
  later x xs e w = record {
    before = x ∷ w.before;
    here = w.here;
    behind = w.behind;
    split = ap (λ ys. x ∷ ys) w.split;
    passed = (e, w.passed);
    found = w.found;
  }

  at_head : {o : Option Bool} (x : A) (xs : List A) → f x ≡ o → FirstAt f b o (x ∷ xs)
  at_head x xs e = record {
    before = [];
    here = x;
    behind = xs;
    split = refl;
    passed = tt;
    found = e;
  }

  -- The test answers with `b` throughout, or there is a first element where it does not, or has no answer.
  pub scan :
      (xs : List A)
      → All (λ x. f x ≡ some b) xs ⊎ (FirstAt f b (some (not b)) xs ⊎ FirstAt f b none xs)
  scan [] = inl tt
  scan (x ∷ xs) = head (f x) refl (scan xs)
    where
      kept :
          f x ≡ some b
          → All (λ x. f x ≡ some b) xs ⊎ (FirstAt f b (some (not b)) xs ⊎ FirstAt f b none xs)
          → All (λ x. f x ≡ some b) (x ∷ xs)
            ⊎ (FirstAt f b (some (not b)) (x ∷ xs) ⊎ FirstAt f b none (x ∷ xs))
      kept e (inl h) = inl (e, h)
      kept e (inr (inl w)) = inr (inl (later x xs e w))
      kept e (inr (inr w)) = inr (inr (later x xs e w))

      head :
          (o : Option Bool)
          → f x ≡ o
          → All (λ x. f x ≡ some b) xs ⊎ (FirstAt f b (some (not b)) xs ⊎ FirstAt f b none xs)
          → All (λ x. f x ≡ some b) (x ∷ xs)
            ⊎ (FirstAt f b (some (not b)) (x ∷ xs) ⊎ FirstAt f b none (x ∷ xs))
      head none e rest = inr (inr (at_head x xs e))
      head (some c) e rest = elim (same c b) [
        | inr apart ↦ inr (inl (at_head x xs (e ∙ ap some apart)))
        | inl passed ↦ kept (e ∙ ap some passed) rest
      ]
