-- ===== src/Stream/Ring/Tracks.antt =====
-- internal/stream/ring.go: how the ring of `Append` relates to all the messages it was ever given.
use native.Mathlib.Nat.{mod-eq_of_lt}
use mathlib.Core.List.{append-nil, append_assoc}
use native.Mathlib.Decide.{ℕ_discrete, dec_lt}
use pennant.Prelude.{
  ℕ, suc, ◌+◌, ◌<◌, List, [], ◌∷◌, ◌++◌, true, false, ◌≡◌, refl, ◌≢◌, ◌∙◌, sym, ap, ap₂, arith,
  subst, ◌-◌, ◌%◌, get_or, set, eqb_iff, eqb, length, All, if◌then◌else◌,
}
use pennant.Prelude.Int.{ℤ, ◌≤ℤ◌, ◌<ℤ◌, ltb_ℤ_iff}
use pennant.Stream.Types.{Message}
use pennant.Stream.Ring.{
  EventRing, new_event_ring, append, contents, next_count, newer, window, start, zero_message,
}
use pennant.Stream.Ring.Window.{
  IsValid, append-IsValid, new_event_ring-IsValid, contents-append_filling, contents-append_full,
  length-window, next_count_filling, next_count_full,
}

module _ {P : Type 0} where
  -- A ring of the given capacity that was given these messages, oldest first.
  unfoldable pub given : EventRing P → List (Message P) → EventRing P
  given r [] = r
  given r (m ∷ ms) = given (append r m) ms

  abbrev pub Below : ℤ → List (Message P) → Type 0
  Below v ms = All (λ (m : Message P). m.version <ℤ v) ms

  -- Each message has a larger version than those before it.
  abbrev pub Increasing : List (Message P) → Type 0
  Increasing [] = Unit
  Increasing (m ∷ ms) = All (λ (n : Message P). m.version <ℤ n.version) ms × Increasing ms

  pub newer-append :
      (v : ℤ) (xs ys : List (Message P)) → newer v (xs ++ ys) ≡ newer v xs ++ newer v ys
  unfolding newer
  newer-append v [] ys = refl
  newer-append v (x ∷ xs) ys = ground (arith, newer-append v xs ys)

  -- Nothing is newer than a version that no message passes.
  pub newer_none :
      (v : ℤ) (ms : List (Message P)) → All (λ (m : Message P). m.version ≤ℤ v) ms → newer v ms ≡ []
  unfolding newer
  newer_none v [] h = refl
  newer_none v (m ∷ ms) h = ground (arith, newer_none v ms h.1, ltb_ℤ_iff v m.version)

  -- The first message has the version `v`.
  abbrev pub StartsAt : ℤ → List (Message P) → Type 0
  StartsAt v [] = Unit
  StartsAt v (m ∷ ms) = v ≡ m.version

  -- The ring holds the newest part of the history, evicted messages have versions below its least, and
  -- no version passes its greatest.
  pub record Tracks (r : EventRing P) (history : List (Message P)) : Type 0 where
    pub valid : IsValid r
    pub evicted : List (Message P)
    pub split : history ≡ evicted ++ contents r
    pub least : StartsAt r.min_ver (contents r)
    pub greatest : All (λ (m : Message P). m.version ≤ℤ r.max_ver) history
    pub nothing_lost : r.count < r.capacity → evicted ≡ []

  All-snoc :
      (Q : Message P → Type 0) (ms : List (Message P)) (m : Message P)
      → All Q ms
      → Q m
      → All Q (ms ++ m ∷ [])
  All-snoc Q [] m h q = (q, tt)
  All-snoc Q (x ∷ ms) m h q = (h.0, All-snoc Q ms m h.1 q)

  pub All-map :
      (Q R : Message P → Type 0) (ms : List (Message P))
      → ((m : Message P) → Q m → R m)
      → All Q ms
      → All R ms
  All-map Q R [] f h = tt
  All-map Q R (x ∷ ms) f h = (f x h.0, All-map Q R ms f h.1)

  StartsAt-snoc :
      (v : ℤ) (ms : List (Message P)) (m : Message P)
      → (ms ≡ [] → v ≡ m.version)
      → StartsAt v ms
      → StartsAt v (ms ++ m ∷ [])
  StartsAt-snoc v [] m h s = h refl
  StartsAt-snoc v (x ∷ ms) m h s = s

  pub contents_empty : (r : EventRing P) → contents r ≡ [] → r.count ≡ 0
  contents_empty r e = sym (length-window r.buf r.capacity (start r) 0 r.count) ∙ ap length e

  min_full :
      (r : EventRing P) (m : Message P)
      → next_count r ≡ r.capacity
      → (append r m).min_ver
        ≡ (get_or (set r.buf r.head m) ((r.head + 1) % r.capacity) zero_message).version
  unfolding append
  min_full r m e = simp ((eqb_iff (next_count r) r.capacity).1 e)

  -- A full ring starts at its head.
  contents_full :
      (r : EventRing P)
      → IsValid r
      → r.count ≡ r.capacity
      → (rest : List (Message P)) × (contents r ≡ get_or r.buf r.head zero_message ∷ rest)
  contents_full r v h = (
    _,
    ap₂ (λ s n. window r.buf r.capacity s 0 n) at_head (h ∙ size)
        ∙ ap
            (λ k.
              get_or r.buf k zero_message ∷ window r.buf r.capacity r.head (0 + 1) (r.capacity - 1))
            first,
  )
    where
      size : r.capacity ≡ suc (r.capacity - 1)
      size = omega (arith, v.room)

      at_head : start r ≡ r.head
      at_head = ap (λ n. n % r.capacity) (omega (arith, h)) ∙ mod-eq_of_lt v.head_in

      first : (r.head + 0) % r.capacity ≡ r.head
      first = ap (λ n. n % r.capacity) (omega arith) ∙ mod-eq_of_lt v.head_in

  least_full :
      (r : EventRing P) (m : Message P)
      → IsValid r
      → next_count r ≡ r.capacity
      → StartsAt (append r m).min_ver (contents (append r m))
  least_full r m v e =
      let (rest, er) = contents_full (append r m) (append-IsValid m v) (unfold append in e) in
      subst (StartsAt (append r m).min_ver) (sym er) (min_full r m e ∙ unfold append in refl)

  min_filling :
      (r : EventRing P) (m : Message P)
      → next_count r ≢ r.capacity
      → (append r m).min_ver ≡ (if eqb (next_count r) 1 then m.version else r.min_ver)
  unfolding append
  min_filling r m e = ground (arith, eqb_iff (next_count r) r.capacity)

  least_filling :
      (r : EventRing P) (m : Message P)
      → IsValid r
      → next_count r ≢ r.capacity
      → r.count < r.capacity
      → StartsAt r.min_ver (contents r)
      → StartsAt (append r m).min_ver (contents (append r m))
  least_filling r m v ne h s =
      rw (contents-append_filling r m v h, min_filling r m ne) (by_count (ℕ_discrete r.count 0))
    where
      by_count :
          Dec (r.count ≡ 0)
          → StartsAt (if eqb (next_count r) 1 then m.version else r.min_ver) (contents r ++ m ∷ [])
      by_count (yes z) =
          let one : eqb (next_count r) 1 ≡ true = ground (arith, next_count_filling r h) in
          rw (one, z) refl
      by_count (no nz) =
          let more : eqb (next_count r) 1 ≡ false = ground (arith, next_count_filling r h, nz) in
          simp more
            (StartsAt-snoc r.min_ver (contents r) m (λ e. absurd (nz (contents_empty r e))) s)

  greatest-append :
      (r : EventRing P) (m : Message P) (history : List (Message P))
      → All (λ (n : Message P). n.version ≤ℤ r.max_ver) history
      → All (λ (n : Message P). n.version ≤ℤ (append r m).max_ver) (history ++ m ∷ [])
  greatest-append r m history h =
      All-snoc (λ (n : Message P). n.version ≤ℤ (append r m).max_ver) history m
        (All-map (λ (n : Message P). n.version ≤ℤ r.max_ver)
          (λ (n : Message P). n.version ≤ℤ (append r m).max_ver) history
          (λ n l. unfold append in ground (arith, ltb_ℤ_iff r.max_ver m.version)) h)
        (unfold append in ground (arith, ltb_ℤ_iff r.max_ver m.version))

  append-Tracks :
      (r : EventRing P) (history : List (Message P)) (m : Message P)
      → Tracks r history
      → Tracks (append r m) (history ++ m ∷ [])
  append-Tracks r history m t = elim (dec_lt r.count r.capacity) [
    | yes l ↦ record {
      valid = append-IsValid m t.valid;
      evicted = t.evicted;
      split =
          ap (λ ms. ms ++ m ∷ []) t.split
          ∙ append_assoc t.evicted (contents r) (m ∷ [])
          ∙ ap (λ ms. t.evicted ++ ms) (sym (contents-append_filling r m t.valid l));
      least = elim (ℕ_discrete (next_count r) r.capacity) [
        | yes full ↦ least_full r m t.valid full
        | no ne ↦ least_filling r m t.valid ne l t.least
      ];
      greatest = greatest-append r m history t.greatest;
      nothing_lost = λ _. t.nothing_lost l;
    }
    | no nl ↦
        let full : r.count ≡ r.capacity = omega (arith, t.valid.count_in) in
        let (oldest, rest, e0, e1) = contents-append_full r m t.valid full in
        record {
          valid = append-IsValid m t.valid;
          evicted = t.evicted ++ oldest ∷ [];
          split =
              ap (λ ms. ms ++ m ∷ []) (t.split ∙ ap (λ ms. t.evicted ++ ms) e0)
              ∙ append_assoc t.evicted (oldest ∷ rest) (m ∷ [])
              ∙ sym (append_assoc t.evicted (oldest ∷ []) (rest ++ m ∷ []))
              ∙ ap (λ ms. (t.evicted ++ oldest ∷ []) ++ ms) (sym e1);
          least = least_full r m t.valid (next_count_full r full ∙ full);
          greatest = greatest-append r m history t.greatest;
          nothing_lost = λ l. absurd (still_full r full l);
        }
  ]
    where
      still_full :
          (r : EventRing P) → r.count ≡ r.capacity → (append r m).count < (append r m).capacity → ⊥
      still_full r full l = let e = next_count_full r full in unfold append in omega (arith, e)

  pub given-Tracks :
      (r : EventRing P) (history ms : List (Message P))
      → Tracks r history
      → Tracks (given r ms) (history ++ ms)
  unfolding given
  given-Tracks r history [] t = subst (Tracks r) (sym (append-nil history)) t
  given-Tracks r history (m ∷ ms) t =
      subst (Tracks (given (append r m) ms)) (append_assoc history (m ∷ []) ms)
        (given-Tracks (append r m) (history ++ m ∷ []) ms (append-Tracks r history m t))

  pub new-Tracks : (c : ℕ) → 0 < c → Tracks (new_event_ring {P = P} c) []
  new-Tracks c h = record {
    valid = new_event_ring-IsValid c h;
    evicted = [];
    split = unfold new_event_ring in refl;
    least = unfold new_event_ring in tt;
    greatest = tt;
    nothing_lost = λ _. refl;
  }

  -- In an increasing history all that comes before a message has a smaller version.
  pub Increasing-Below :
      (xs : List (Message P)) (m : Message P) (ys : List (Message P))
      → Increasing (xs ++ m ∷ ys)
      → Below m.version xs
  Increasing-Below [] m ys h = tt
  Increasing-Below (x ∷ xs) m ys h = (head_of xs h.0, Increasing-Below xs m ys h.1)
    where
      head_of :
          (xs : List (Message P))
          → All (λ (n : Message P). x.version <ℤ n.version) (xs ++ m ∷ ys)
          → x.version <ℤ m.version
      head_of [] h = h.0
      head_of (y ∷ xs) h = head_of xs h.1
