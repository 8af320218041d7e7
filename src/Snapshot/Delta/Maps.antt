-- ===== src/Snapshot/Delta/Maps.antt =====
-- The loops of internal/snapshot/delta.go on one map: what a lookup finds after a delta.
use pennant.Prelude.{
  String, Option, none, some, List, [], ◌∷◌, not, ◌&&◌, ◌≡◌, refl, arith, eq_iff, member, All,
  is_some, Bool-cases, inl, inr, ◌>>=◌, if◌then◌else◌, if-cases, some_injective, ap, sym, ◌∙◌, ◌==◌,
}
use pennant.Prelude.Dict
use pennant.Prelude.Dict.{Dict, Distinct, get-put, get-delete}
use pennant.Snapshot.Delta.{changed, upserted, deleted, put_all, delete_all}

module _ {V : Type 0} where
  -- Each value stands under its own key.
  abbrev pub IsKeyed : (V → String) → Dict V → Type 0
  IsKeyed key m = All (λ (e : String × V). key e.1 ≡ e.0) m

  -- So what stands under a key has it.
  pub key-get :
      (key : V → String) (k : String) (m : Dict V) (v : V)
      → IsKeyed key m
      → Dict.get k m ≡ some v
      → key v ≡ k
  unfolding Dict.get
  key-get key k [] v h e = cc
  key-get key k ((j, w) ∷ m) v h e = elim (if-cases (j == k) (some w) (Dict.get k m) e) [
    | inl (b, e') ↦ ap key (sym (some_injective e')) ∙ h.0 ∙ (eq_iff j k).0 b
    | inr (b, e') ↦ key-get key k m v h.1 e'
  ]

  get-delete_all :
      (k : String) (ks : List String) (m : Dict V)
      → Dict.get k (delete_all ks m) ≡ (if member k ks then none else Dict.get k m)
  unfolding delete_all
  get-delete_all k [] m = refl
  get-delete_all k (j ∷ ks) m =
      ground (arith, get-delete_all k ks (Dict.delete j m), get-delete j k m, eq_iff j k)

  member-deleted :
      (k : String) (from to : Dict V)
      → member k (deleted from to) ≡ (is_some (Dict.get k from) && not (is_some (Dict.get k to)))
  unfolding deleted Dict.get
  member-deleted k [] to = refl
  member-deleted k ((j, v) ∷ from) to = ground (arith, member-deleted k from to, eq_iff j k)

  -- What a lookup finds after the upserts: the new value where it is new or changed.
  abbrev updated : (V → String) → Option V → Option V → Option V → Option V
  updated enc old none base = base
  updated enc old (some v) base = if changed enc old v then some v else base

  get-put_all :
      (enc key : V → String) (k : String) (from to m : Dict V)
      → Distinct to
      → IsKeyed key to
      → Dict.get k (put_all key (upserted enc from to) m)
        ≡ updated enc (Dict.get k from) (Dict.get k to) (Dict.get k m)
  unfolding put_all upserted Dict.get
  get-put_all enc key k from [] m d h = refl
  get-put_all enc key k from ((j, v) ∷ to) m d h =
      elim (Bool-cases (changed enc (Dict.get j from) v)) [
        | inl new ↦ simp new (
            ground (
              arith,
              get-put_all enc key k from to (Dict.put (key v) v m) d.1 h.1,
              get-put (key v) k v m,
              h.0,
              d.0,
              eq_iff j k,
            ))
        | inr old ↦
            simp old (ground (arith, get-put_all enc key k from to m d.1 h.1, h.0, d.0, eq_iff j k))
      ]

  -- What remains of an old map after a delta to `to`, up to the encoding.
  pub get-patched :
      (enc key : V → String) (k : String) (from to : Dict V)
      → Distinct to
      → IsKeyed key to
      → (Dict.get k (delete_all (deleted from to) (put_all key (upserted enc from to) from))
          >>= λ v. some (enc v))
        ≡ (Dict.get k to >>= λ v. some (enc v))
  get-patched enc key k from to d h =
      rw
        (
          get-delete_all k (deleted from to) (put_all key (upserted enc from to) from),
          member-deleted k from to,
          get-put_all enc key k from to from d h,
        )
        (by_lookups (Dict.get k from) (Dict.get k to))
    where
      by_lookups :
          (old new : Option V)
          → ((if is_some old && not (is_some new) then none else updated enc old new old) >>= λ v.
              some (enc v))
            ≡ (new >>= λ v. some (enc v))
      by_lookups none none = refl
      by_lookups none (some v) = refl
      by_lookups (some w) none = refl
      by_lookups (some w) (some v) = ground (arith, eq_iff (enc w) (enc v))
