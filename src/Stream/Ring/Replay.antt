-- ===== src/Stream/Ring/Replay.antt =====
-- What `Since` of internal/stream/ring.go replays, against the messages that the ring was ever given.
use native.Mathlib.Decide.{ℕ_discrete}
use pennant.Prelude.{
  ◌⊎◌, inl, inr, ℕ, ◌<◌, List, [], ◌∷◌, ◌++◌, true, false, ◌≡◌, refl, ◌≢◌, ◌∙◌, sym, ap, ap₂, arith,
  subst, eqb, eqb_iff, Bool-cases, length, length-append, suc, ◌≤◌, ◌+◌,
}
use pennant.Prelude.Int.{below_pred, ℤ, negsuc, ◌+ℤ◌, ◌≤ℤ◌, ◌<ℤ◌, ltb_ℤ}
use pennant.Stream.Types.{Message}
use pennant.Stream.Ring.{EventRing, new_event_ring, append, contents, newer, since, start}
use pennant.Stream.Ring.Window.{length-window}
use pennant.Stream.Ring.Tracks.{
  given, Below, Increasing, newer-append, newer_none, StartsAt, Tracks, All-map, given-Tracks,
  new-Tracks, Increasing-Below, contents_empty,
}

module _ {P : Type 0} where
  -- An empty ring has seen nothing.
  empty_history :
      (r : EventRing P) (history : List (Message P)) → Tracks r history → r.count ≡ 0 → history ≡ []
  empty_history r history t z =
      t.split
      ∙ ap₂ (λ xs ys. xs ++ ys) (t.nothing_lost (omega (arith, z, t.valid.room))) (no_contents r z)
    where
      no_contents : (r : EventRing P) → r.count ≡ 0 → contents r ≡ []
      no_contents r z = rw z refl

  -- What was evicted is older than what is held.
  evicted-Below :
      (r : EventRing P) (history : List (Message P)) (t : Tracks r history)
      → Increasing history
      → r.count ≢ 0
      → Below r.min_ver t.evicted
  evicted-Below r history t inc nz = by_contents (contents r) refl
    where
      by_contents : (ms : List (Message P)) → contents r ≡ ms → Below r.min_ver t.evicted
      by_contents [] e = absurd (nz (contents_empty r e))
      by_contents (m ∷ ms) e =
          subst (λ v. Below v t.evicted) (sym (subst (StartsAt r.min_ver) e t.least))
            (Increasing-Below t.evicted m ms
              (subst Increasing (t.split ∙ ap (λ ms. t.evicted ++ ms) e) inc))

  -- Of a ring that holds something, a complete answer is what is held and newer.
  since_held :
      (r : EventRing P) (v : ℤ)
      → r.count ≢ 0
      → (since r v).1 ≡ true
      → (r.max_ver ≤ℤ v × ((since r v).0 ≡ []))
        ⊎ ((ltb_ℤ v (r.min_ver +ℤ negsuc 0) ≡ false) × ((since r v).0 ≡ newer v (contents r)))
  unfolding since
  since_held r v nz ok = elim (Bool-cases (ltb_ℤ v (r.min_ver +ℤ negsuc 0))) [
    | inl early ↦ absurd (refused early)
    | inr late ↦ elim (Bool-cases (ltb_ℤ v r.max_ver)) [
      | inl before ↦ inr (late, simp (some_held, late, before) refl)
      | inr after ↦ inl (ground (arith, after), simp (some_held, late, after) refl)
    ]
  ]
    where
      some_held : eqb r.count 0 ≡ false
      some_held = ground (arith, eqb_iff r.count 0, nz)

      refused : ltb_ℤ v (r.min_ver +ℤ negsuc 0) ≡ true → ⊥
      refused early =
          let no : (since r v).1 ≡ false = unfold since in simp (some_held, early) refl in
          cc (no, ok)

  since-Tracks :
      (r : EventRing P) (history : List (Message P)) (v : ℤ)
      → Tracks r history
      → Increasing history
      → (since r v).1 ≡ true
      → (since r v).0 ≡ newer v history
  since-Tracks r history v t inc ok = elim (ℕ_discrete r.count 0) [
    | yes z ↦
        rw (empty_history r history t z) (unfold since newer in rw ((eqb_iff r.count 0).1 z) refl)
    | no nz ↦ elim (since_held r v nz ok) [
      | inl h ↦
          h.1
          ∙ sym (
              newer_none v history (
                All-map (λ (m : Message P). m.version ≤ℤ r.max_ver)
                  (λ (m : Message P). m.version ≤ℤ v) history (λ m l. omega (arith, h.0))
                  t.greatest))
      | inr h ↦
          h.1
          ∙ sym (
              ap (newer v) t.split
              ∙ newer-append v t.evicted (contents r)
              ∙ ap (λ ms. ms ++ newer v (contents r))
                  (newer_none v t.evicted (
                    All-map (λ (m : Message P). m.version <ℤ r.min_ver)
                      (λ (m : Message P). m.version ≤ℤ v) t.evicted
                      (λ m l. below_pred r.min_ver v m.version h.0 l)
                      (evicted-Below r history t inc nz))))
    ]
  ]

-- A new ring of a positive capacity is given messages of increasing versions. When it answers a
-- question for the messages after a version, it answers with all of those it was ever given, in order:
-- none of them has been evicted.
pub since_complete :
    {P : Type 0} (capacity : ℕ) (history : List (Message P)) (version : ℤ)
    → 0 < capacity
    → Increasing history
    → (since (given (new_event_ring capacity) history) version).1 ≡ true
    → (since (given (new_event_ring capacity) history) version).0 ≡ newer version history
since_complete capacity history version room inc ok =
    since-Tracks (given (new_event_ring capacity) history) history version
      (given-Tracks (new_event_ring capacity) [] history (new-Tracks capacity room)) inc ok

module _ {P : Type 0} where
  given_capacity : (r : EventRing P) (ms : List (Message P)) → (given r ms).capacity ≡ r.capacity
  unfolding given append
  given_capacity r [] = refl
  given_capacity r (m ∷ ms) = given_capacity (append r m) ms

  since_in_time :
      (r : EventRing P) (v : ℤ) → ltb_ℤ v (r.min_ver +ℤ negsuc 0) ≡ false → (since r v).1 ≡ true
  unfolding since
  since_in_time r v late = elim (Bool-cases (eqb r.count 0)) [
    | inl none_held ↦ simp none_held refl
    | inr some_held ↦ elim (Bool-cases (ltb_ℤ v r.max_ver)) [
      | inl before ↦ simp (some_held, late, before) refl
      | inr after ↦ simp (some_held, late, after) refl
    ]
  ]

  -- A history that fits in the ring is held whole.
  nothing_evicted :
      (r : EventRing P) (history : List (Message P))
      → Tracks r history
      → length history ≤ r.capacity
      → 0 < length history
      → contents r ≡ history
  nothing_evicted r history t fits some_given = by_evicted t.evicted t.split t.nothing_lost
    where
      sizes :
          (es : List (Message P))
          → history ≡ es ++ contents r
          → length history ≡ length es + r.count
      sizes es e =
          ap length e
          ∙ length-append es (contents r)
          ∙ ap (λ n. length es + n) (length-window r.buf r.capacity (start r) 0 r.count)

      by_evicted :
          (es : List (Message P))
          → history ≡ es ++ contents r
          → (r.count < r.capacity → es ≡ [])
          → contents r ≡ history
      by_evicted [] e lost = sym e
      by_evicted (x ∷ es) e lost =
          let total : length history ≡ suc (length es) + r.count = sizes (x ∷ es) e in
          cc (lost (omega (arith, total, fits)))

-- A new ring that was given at most as many messages as its capacity, of any versions, answers every question
-- for a version not below the one before that of the first message.
pub since_answers_early :
    {P : Type 0} (capacity : ℕ) (m : Message P) (ms : List (Message P)) (version : ℤ)
    → length (m ∷ ms) ≤ capacity
    → ltb_ℤ version (m.version +ℤ negsuc 0) ≡ false
    → (since (given (new_event_ring capacity) (m ∷ ms)) version).1 ≡ true
since_answers_early {P} capacity m ms version fits late =
    let r : EventRing P = given (new_event_ring capacity) (m ∷ ms) in
    let t : Tracks r (m ∷ ms) =
      given-Tracks (new_event_ring capacity) [] (m ∷ ms)
        (new-Tracks capacity (omega (arith, fits))) in
    let whole : contents r ≡ m ∷ ms =
      nothing_evicted r (m ∷ ms) t (size (given_capacity (new_event_ring capacity) (m ∷ ms)))
        (omega arith) in
    let least : r.min_ver ≡ m.version = subst (StartsAt r.min_ver) whole t.least in
    since_in_time r version (subst (λ v. ltb_ℤ version (v +ℤ negsuc 0) ≡ false) (sym least) late)
  where
    size :
        (given (new_event_ring capacity) (m ∷ ms)).capacity
          ≡ (new_event_ring {P = P} capacity).capacity
        → length (m ∷ ms) ≤ (given (new_event_ring capacity) (m ∷ ms)).capacity
    size e = subst (λ n. length (m ∷ ms) ≤ n) (sym e) (unfold new_event_ring in fits)
