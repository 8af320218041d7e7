-- ===== src/Store/Memory/Maps.antt =====
-- Maps of internal/store/memory.go with the same keys, and inner maps whose values stand under their keys.
use pennant.Prelude.{
  String, Option, none, some, [], true, ◌≡◌, refl, ◌∙◌, sym, ap, ◌==◌, arith, eq_iff, is_some, inl,
  inr, subst, if-cases, some_injective,
}
use pennant.Prelude.Dict.{Dict, get, put, delete, get-put, get-delete}
use pennant.Store.Memory.{delete_inner}

-- The two maps have the same keys.
abbrev pub SameKeys {ℓ κ} : {V : Type ℓ} {W : Type κ} → Dict V → Dict W → Type 0
SameKeys m n = (k : String) → is_some (get k m) ≡ is_some (get k n)

-- Each value of an inner map stands under its own key.
abbrev pub InnerKeyed : {V : Type 0} → (V → String) → Dict (Dict V) → Type 0
InnerKeyed {V} key m =
    (p k : String) (d : Dict V) (v : V) → get p m ≡ some d → get k d ≡ some v → key v ≡ k

module _ {V W : Type 0} where
  -- Both maps get an entry for the key.
  pub SameKeys-put :
      (k : String) (v : V) (w : W) (m : Dict V) (n : Dict W)
      → SameKeys m n
      → SameKeys (put k v m) (put k w n)
  SameKeys-put k v w m n h j = rw (get-put, get-put) (ground (arith, h j))

  pub SameKeys-delete :
      (k : String) (m : Dict V) (n : Dict W) → SameKeys m n → SameKeys (delete k m) (delete k n)
  SameKeys-delete k m n h j = rw (get-delete, get-delete) (ground (arith, h j))

  -- An entry is replaced.
  pub SameKeys-replace :
      (k : String) (v : V) (m : Dict V) (n : Dict W)
      → is_some (get k m) ≡ true
      → SameKeys m n
      → SameKeys (put k v m) n
  SameKeys-replace k v m n e h j = rw (get-put) (ground (arith, h j, eq_iff k j, e))

  pub SameKeys-replaced :
      (k : String) (w : W) (m : Dict V) (n : Dict W)
      → is_some (get k n) ≡ true
      → SameKeys m n
      → SameKeys m (put k w n)
  SameKeys-replaced k w m n e h j = rw (get-put) (ground (arith, h j, eq_iff k j, e))

module _ {V : Type 0} (key : V → String) where
  -- The values of one map stand under their own keys.
  abbrev pub Keyed : Dict V → Type 0
  Keyed d = (k : String) (v : V) → get k d ≡ some v → key v ≡ k

  pub InnerKeyed-replace :
      (p : String) (d : Dict V) (m : Dict (Dict V))
      → Keyed d
      → InnerKeyed key m
      → InnerKeyed key (put p d m)
  InnerKeyed-replace p d m keyed h q k d' v e e' =
      elim (if-cases (p == q) (some d) (get q m) (sym (get-put p q d m) ∙ e)) [
        | inl (_, e1) ↦ keyed k v (subst (λ x. get k x ≡ some v) (sym (some_injective e1)) e')
        | inr (_, e1) ↦ h q k d' v e1 e'
      ]

  pub InnerKeyed-delete :
      (p : String) (m : Dict (Dict V)) → InnerKeyed key m → InnerKeyed key (delete p m)
  InnerKeyed-delete p m h q k d v e e' =
      elim (if-cases (p == q) none (get q m) (sym (get-delete p q m) ∙ e)) [
        | inl (_, e1) ↦ cc
        | inr (_, e1) ↦ h q k d v e1 e'
      ]

  pub Keyed-put : (v : V) (d : Dict V) → Keyed d → Keyed (put (key v) v d)
  Keyed-put v d h k w e =
      elim (if-cases (key v == k) (some v) (get k d) (sym (get-put (key v) k v d) ∙ e)) [
        | inl (same, e1) ↦ ap key (sym (some_injective e1)) ∙ (eq_iff (key v) k).0 same
        | inr (_, e1) ↦ h k w e1
      ]

  pub Keyed-delete : (j : String) (d : Dict V) → Keyed d → Keyed (delete j d)
  Keyed-delete j d h k w e = elim (if-cases (j == k) none (get k d) (sym (get-delete j k d) ∙ e)) [
    | inl (_, e1) ↦ cc
    | inr (_, e1) ↦ h k w e1
  ]

  pub Keyed-empty : Keyed []
  Keyed-empty k v e = unfold get in cc e

-- The deletion in an inner map keeps the keys of the outer one.
pub SameKeys-delete_inner :
    {V W : Type 0} (p key : String) (m : Dict (Dict V)) (n : Dict W)
    → SameKeys m n
    → SameKeys (delete_inner p key m) n
SameKeys-delete_inner {V = V} p key m n h = by_lookup (get p m) refl
  where
    by_lookup :
        (o : Option (Dict V))
        → get p m ≡ o
        → SameKeys (elim o [ none ↦ m | some d ↦ put p (delete key d) m ]) n
    by_lookup none e = h
    by_lookup (some d) e = SameKeys-replace p _ m n (ap is_some e) h
