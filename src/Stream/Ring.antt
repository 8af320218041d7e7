-- ===== src/Stream/Ring.antt =====
-- internal/stream/ring.go: the last messages of an environment in a circular buffer. A write out of
-- range, which panics in Go, changes nothing here; `IsValid` of `Ring/Window` rules it out.
pub mod Window
pub mod Tracks
pub mod Replay
use pennant.Prelude.{
  ℕ, zero, suc, ◌+◌, ◌-◌, ◌%◌, Option, none, some, List, [], ◌∷◌, Bool, true, false, not, ltb, eqb,
  get_or, set, replicate, if◌then◌else◌,
}
use pennant.Prelude.Int.{ℤ, pos, negsuc, ◌+ℤ◌, ltb_ℤ}
use pennant.Stream.Types.{Message}

pub record EventRing (P : Type 0) : Type 0 where
  pub buf : List (Message P)
  pub capacity : ℕ
  pub head : ℕ
  pub count : ℕ
  pub min_ver : ℤ
  pub max_ver : ℤ

module _ {P : Type 0} where
  -- The zero value of the struct.
  abbrev pub zero_message : Message P
  zero_message = record { event = ""; version = pos 0; payload = none }

  unfoldable pub new_event_ring : ℕ → EventRing P
  new_event_ring capacity = record {
    buf = replicate capacity zero_message;
    capacity = capacity;
    head = 0;
    count = 0;
    min_ver = pos 0;
    max_ver = pos 0;
  }

  -- `if r.count < r.capacity { r.count++ }`
  abbrev pub next_count : EventRing P → ℕ
  next_count r = if ltb r.count r.capacity then r.count + 1 else r.count

  unfoldable pub append : EventRing P → Message P → EventRing P
  append r msg =
      let buf' = set r.buf r.head msg in
      let head' = (r.head + 1) % r.capacity in
      let count' = next_count r in
      record {
        buf = buf';
        capacity = r.capacity;
        head = head';
        count = count';
        max_ver = if ltb_ℤ r.max_ver msg.version then msg.version else r.max_ver;
        min_ver =
            if eqb count' r.capacity
            then (get_or buf' head' zero_message).version
            else if eqb count' 1
            then msg.version
            else r.min_ver;
      }

  -- The messages at `(start + i) % capacity`, for `n` values of `i`.
  abbrev pub window : List (Message P) → ℕ → ℕ → ℕ → ℕ → List (Message P)
  window buf capacity start i zero = []
  window buf capacity start i (suc n) =
      get_or buf ((start + i) % capacity) zero_message ∷ window buf capacity start (i + 1) n

  -- `(r.head - r.count + r.capacity) % r.capacity`, with the sum first, since ℕ has no negative numbers.
  abbrev pub start : EventRing P → ℕ
  start r = (r.head + r.capacity - r.count) % r.capacity

  -- The messages that the ring holds, oldest first.
  abbrev pub contents : EventRing P → List (Message P)
  contents r = window r.buf r.capacity (start r) 0 r.count

  -- `if msg.Version > version { out = append(out, msg) }`
  unfoldable pub newer : ℤ → List (Message P) → List (Message P)
  newer version [] = []
  newer version (m ∷ ms) =
      let rest = newer version ms in if ltb_ℤ version m.version then m ∷ rest else rest

  -- `r.minVer-1` is not wrapped: it would be at the least `int64` only, which no version is.
  unfoldable pub since : EventRing P → ℤ → List (Message P) × Bool
  since r version =
      if eqb r.count 0
      then ([], true)
      else if ltb_ℤ version (r.min_ver +ℤ negsuc 0)
      then ([], false)
      else if not (ltb_ℤ version r.max_ver)
      then ([], true)
      else (newer version (contents r), true)
