-- ===== src/Snapshot/Delta/RoundTrip.antt =====
-- A client that applies the delta of internal/snapshot/delta.go has the target snapshot.
use pennant.Prelude.{
  String, none, some, ◌≡◌, refl, ◌>>=◌, if-cases, inl, inr, some_injective, subst,
}
use pennant.Prelude.Dict
use pennant.Prelude.Dict.{Dict, Distinct}
use pennant.Snapshot.Types.{Snapshot, Delta}
use pennant.Snapshot.Delta.{
  Codec, flag_key, segment_key, full_delta, too_large, compute_delta, apply_delta,
}
use pennant.Snapshot.Delta.Maps.{IsKeyed, get-patched}

-- The maps of a snapshot hold no key twice, and hold each flag and segment under its own key.
pub record IsConsistent (s : Snapshot) : Type 0 where
  pub flags_distinct : Distinct s.flags
  pub flags_keyed : IsKeyed flag_key s.flags
  pub segments_distinct : Distinct s.segments
  pub segments_keyed : IsKeyed segment_key s.segments

module _ (codec : Codec) where
  open codec use {marshal_flag, marshal_segment}

  -- The same version, checksum, flags and segments, a flag or segment counting as the same if it is
  -- encoded in the same way.
  pub record SameContent (s t : Snapshot) : Type 0 where
    pub version : s.version ≡ t.version
    pub checksum : s.checksum ≡ t.checksum
    pub flags :
        (k : String)
        → (Dict.get k s.flags >>= λ v. some (marshal_flag v))
          ≡ (Dict.get k t.flags >>= λ v. some (marshal_flag v))
    pub segments :
        (k : String)
        → (Dict.get k s.segments >>= λ v. some (marshal_segment v))
          ≡ (Dict.get k t.segments >>= λ v. some (marshal_segment v))

  full_delta_round_trip :
      (from to : Snapshot)
      → IsConsistent to
      → SameContent (apply_delta from (full_delta codec from to)) to
  unfolding apply_delta full_delta
  full_delta_round_trip from to c = record {
    version = refl;
    checksum = refl;
    flags =
        λ k. get-patched marshal_flag flag_key k from.flags to.flags c.flags_distinct c.flags_keyed;
    segments = λ k.
        get-patched marshal_segment segment_key k from.segments to.segments c.segments_distinct
          c.segments_keyed;
  }

  -- Whatever snapshot a client holds, applying the delta that was computed from it to a consistent
  -- snapshot gives it that one's version, checksum, flags and segments.
  pub apply-compute_delta :
      (from to : Snapshot) (delta : Delta)
      → IsConsistent to
      → compute_delta codec from to ≡ some delta
      → SameContent (apply_delta from delta) to
  unfolding compute_delta
  apply-compute_delta from to delta c e =
      elim (if-cases (too_large codec (full_delta codec from to) to) none
        (some (full_delta codec from to)) e) [
          | inl (_, e') ↦ cc
          | inr (_, e') ↦
              subst (λ d. SameContent (apply_delta from d) to) (some_injective e')
                (full_delta_round_trip from to c)
        ]
