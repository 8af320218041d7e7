-- ===== src/Stream/Ring/Window.antt =====
-- The invariant of the ring of internal/stream/ring.go, and what one `Append` does to its contents.
use native.Mathlib.Nat.{mod-add-mod, mod-eq_of_lt, mod-eq-sub-mod, mod-lt}
use native.Mathlib.Decide.{dec_lt}
use native.Mathlib.Numerals.{add-one}
use pennant.Prelude.{
  ℕ, zero, suc, ◌+◌, ◌-◌, ◌%◌, ◌≤◌, ◌<◌, List, [], ◌∷◌, ◌++◌, ◌≡◌, refl, ◌≢◌, ◌∙◌, sym, ap, ap₂,
  arith, length, get_or, set, get_or-set_self, get_or-set_ne, length-set, length-replicate,
}
use pennant.Stream.Types.{Message}
use pennant.Stream.Ring.{
  EventRing, new_event_ring, append, window, contents, zero_message, start, next_count,
}

-- The slots are as many as the capacity, and until the ring is full they fill from the first on.
pub record IsValid {P : Type 0} (r : EventRing P) : Type 0 where
  pub slots : length r.buf ≡ r.capacity
  pub room : 0 < r.capacity
  pub head_in : r.head < r.capacity
  pub count_in : r.count ≤ r.capacity
  pub filling : r.count < r.capacity → r.head ≡ r.count

-- Going on by fewer steps than there are slots does not come back.
step_ne : (a k c : ℕ) → 0 < k → k < c → (a + k) % c ≢ a % c
step_ne a k c hk hc e = elim (dec_lt (a % c + k) c) [
  | yes p ↦ omega (arith, mod-add-mod a c k, mod-eq_of_lt p)
  | no p ↦ omega (
    arith,
    mod-add-mod a c k,
    mod-lt a {m = c} (omega arith),
    mod-eq-sub-mod {n = a % c + k} {m = c} (omega arith),
    mod-eq_of_lt {n = a % c + k - c} {m = c} (omega (arith, mod-lt a {m = c} (omega arith))),
  )
]

mod_self : (c : ℕ) → 0 < c → c % c ≡ 0
mod_self c h =
    mod-eq-sub-mod {n = c} {m = c} (omega arith) ∙ ap (λ k. k % c) (omega arith) ∙ mod-eq_of_lt h

module _ {P : Type 0} where
  -- Writing the slot just past a window extends it.
  window-set :
      (buf : List (Message P)) (c s i n p : ℕ) (x : Message P)
      → c ≤ length buf
      → n < c
      → p ≡ (s + (i + n)) % c
      → window (set buf p x) c s i (suc n) ≡ window buf c s i n ++ x ∷ []
  window-set buf c s i zero p x slots room e =
      let here : (s + i) % c ≡ p = ap (λ k. (s + k) % c) (omega arith) ∙ sym e in
      let low : p < c = rw e (mod-lt (s + (i + 0)) {m = c} room) in
      ap (λ y. y ∷ []) (rw here (get_or-set_self buf p x zero_message (omega arith)))
  window-set buf c s i (suc n) p x slots room e =
      ap₂ ◌∷◌
        (get_or-set_ne buf x zero_message (λ h.
          step_ne (s + i) (suc n) c (omega arith) room (ap (λ k. k % c) (omega arith) ∙ sym e ∙ h)))
        (window-set buf c s (i + 1) n p x slots (omega arith)
          (e ∙ ap (λ k. (s + k) % c) (omega arith)))

  -- A window that starts one slot on.
  window_shift :
      (buf : List (Message P)) (c s i n : ℕ)
      → window buf c ((s + 1) % c) i n ≡ window buf c s (i + 1) n
  window_shift buf c s i zero = refl
  window_shift buf c s i (suc n) =
      ap₂ (λ k ms. get_or buf k zero_message ∷ ms)
        (mod-add-mod (s + 1) c i ∙ ap (λ k. k % c) (omega arith)) (window_shift buf c s (i + 1) n)

  pub length-window : (buf : List (Message P)) (c s i n : ℕ) → length (window buf c s i n) ≡ n
  length-window buf c s i zero = refl
  length-window buf c s i (suc n) = ap suc (length-window buf c s (i + 1) n)

  pub next_count_filling : (r : EventRing P) → r.count < r.capacity → next_count r ≡ r.count + 1
  next_count_filling r h = ground arith

  pub next_count_full : (r : EventRing P) → r.count ≡ r.capacity → next_count r ≡ r.count
  next_count_full r h = ground arith

  pub append-IsValid : {r : EventRing P} (m : Message P) → IsValid r → IsValid (append r m)
  unfolding append
  append-IsValid {r} m v = record {
    slots = length-set r.buf r.head m ∙ v.slots;
    room = v.room;
    head_in = mod-lt (r.head + 1) {m = r.capacity} v.room;
    count_in = ground (arith, v.count_in);
    filling = λ h. filled (dec_lt r.count r.capacity) h;
  }
    where
      filled :
          Dec (r.count < r.capacity)
          → next_count r < r.capacity
          → (r.head + 1) % r.capacity ≡ next_count r
      filled (yes l) h =
          let e = next_count_filling r l in
          mod-eq_of_lt {n = r.head + 1} {m = r.capacity} (omega (arith, e, v.filling l))
          ∙ omega (arith, e, v.filling l)
      filled (no l) h =
          let e = next_count_full r (omega (arith, v.count_in)) in absurd (omega (arith, e))

  pub new_event_ring-IsValid : (c : ℕ) → 0 < c → IsValid (new_event_ring {P = P} c)
  unfolding new_event_ring
  new_event_ring-IsValid c h = record {
    slots = length-replicate c zero_message;
    room = h;
    head_in = h;
    count_in = omega arith;
    filling = λ _. refl;
  }

  start_filling : (r : EventRing P) → IsValid r → r.count < r.capacity → start r ≡ 0
  start_filling r v h =
      ap (λ k. k % r.capacity) (omega (arith, v.filling h)) ∙ mod_self r.capacity v.room

  -- Where the ring starts after a message.
  start_next :
      (r : EventRing P)
      → IsValid r
      → r.count < r.capacity
      → ((r.head + 1) % r.capacity + r.capacity - (r.count + 1)) % r.capacity ≡ 0
  start_next r v h = elim (dec_lt (r.count + 1) r.capacity) [
    | yes l ↦
        ap (λ k. k % r.capacity)
          (omega (
            arith,
            v.filling h,
            mod-eq_of_lt {n = r.head + 1} {m = r.capacity} (omega (arith, v.filling h)),
          ))
        ∙ mod_self r.capacity v.room
    | no l ↦
        let full : (r.head + 1) % r.capacity ≡ 0 =
          ap (λ k. k % r.capacity) (omega (arith, v.filling h)) ∙ mod_self r.capacity v.room in
        ap (λ k. k % r.capacity) (omega (arith, full)) ∙ mod-eq_of_lt {n = 0} v.room
  ]

  -- Until the ring is full, `Append` adds the message behind the others.
  pub contents-append_filling :
      (r : EventRing P) (m : Message P)
      → IsValid r
      → r.count < r.capacity
      → contents (append r m) ≡ contents r ++ m ∷ []
  unfolding append
  contents-append_filling r m v h =
      ap
        (λ n.
          window (set r.buf r.head m) r.capacity
            (((r.head + 1) % r.capacity + r.capacity - n) % r.capacity) 0 n)
        (next_count_filling r h ∙ add-one r.count)
      ∙ ap (λ s. window (set r.buf r.head m) r.capacity s 0 (suc r.count))
          (ap (λ k. ((r.head + 1) % r.capacity + r.capacity - k) % r.capacity)
              (sym (add-one r.count))
            ∙ start_next r v h)
      ∙ window-set r.buf r.capacity 0 0 r.count r.head m (omega (arith, v.slots)) h
          (v.filling h ∙ sym (mod-eq_of_lt h) ∙ ap (λ k. k % r.capacity) (omega arith))
      ∙ ap (λ s. window r.buf r.capacity s 0 r.count ++ m ∷ []) (sym (start_filling r v h))

  -- Once it is full, the oldest message goes.
  pub contents-append_full :
      (r : EventRing P) (m : Message P)
      → IsValid r
      → r.count ≡ r.capacity
      → (oldest : Message P) × (rest : List (Message P)) × (contents r ≡ oldest ∷ rest)
        × (contents (append r m) ≡ rest ++ m ∷ [])
  unfolding append
  contents-append_full r m v h = (
    _,
    window buf capacity head (0 + 1) k,
    ap₂ (λ s n. window buf capacity s 0 n) at_head (h ∙ size),
    ap₂ (λ s n. window (set buf head m) capacity s 0 n) at_next (next_count_full r h ∙ h ∙ size)
        ∙ window-set buf capacity ((head + 1) % capacity) 0 k head m (omega (arith, v.slots))
            (omega (arith, v.room)) round
        ∙ ap (λ ms. ms ++ m ∷ []) (window_shift buf capacity head 0 k),
  )
    where
      open r use {buf, capacity, head}

      k : ℕ
      k = capacity - 1

      size : capacity ≡ suc k
      size = omega (arith, v.room)

      at_head : start r ≡ head
      at_head = ap (λ n. n % capacity) (omega (arith, h)) ∙ mod-eq_of_lt v.head_in

      at_next : ((head + 1) % capacity + capacity - next_count r) % capacity ≡ (head + 1) % capacity
      at_next =
          ap (λ n. n % capacity) (omega (arith, next_count_full r h, h))
          ∙ mod-eq_of_lt (mod-lt (head + 1) {m = capacity} v.room)

      round : head ≡ ((head + 1) % capacity + (0 + k)) % capacity
      round = sym (
          mod-add-mod (head + 1) capacity (0 + k)
          ∙ ap (λ n. n % capacity) (omega (arith, size))
          ∙ mod-eq-sub-mod {n = head + capacity} {m = capacity} (omega arith)
          ∙ ap (λ n. n % capacity) (omega arith)
          ∙ mod-eq_of_lt v.head_in)
