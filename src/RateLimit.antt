-- ===== src/RateLimit.antt =====
-- internal/ratelimit/limiter.go: a limiter for each key, and the middlewares that ask it. `rate.Limiter` of
-- golang.org/x/time/rate is a parameter, and so are `net.SplitHostPort` and the clock, in nanoseconds. The ticker's
-- cleanup is one step.
pub mod Isolation
use Prim.Native.String.{len, slice}
use pennant.Prelude.{
  ℕ, ◌+◌, ◌*◌, ◌^◌, String, Option, none, some, [], ◌∷◌, Bool, true, false, not, ◌&&◌, ◌==◌, ltb,
  or_else, if◌then◌else◌,
}
use pennant.Prelude.Texts.{has_prefix}
use pennant.Prelude.Dict.{Dict, get, put}
use pennant.Model.Types.{Time}

-- `rate.NewLimiter(rps, burst)` and `Allow` at a time: the answer, and the limiter after it.
pub record Limiter : Type 1 where
  pub State : Type 0
  pub new_limiter : State
  pub allow : Time → State → Bool × State

pub record Entry (L : Type 0) : Type 0 where
  pub limiter : L
  pub last_seen : Time

-- `5*time.Minute`
abbrev pub stale_after : ℕ
stale_after = 5 * 60 * 10 ^ 9

-- What a limited request is answered: the body's error, and Retry-After.
pub data Verdict : Type 0 where
  passed : Verdict
  too_many_requests : String → String → Verdict

abbrev pub verdict : String → String → Bool → Verdict
verdict message retry true = passed
verdict message retry false = too_many_requests message retry

-- The client's address: X-Real-IP, or else the host of the remote address.
unfoldable pub client_ip : (String → Option String) → String → String → String
client_ip split_host remote_addr real_ip =
    if not (real_ip == "") then real_ip else or_else (split_host remote_addr) remote_addr

-- `query` is the value of `sdkKey` in the URL.
unfoldable pub extract_sdk_key : String → String → String
extract_sdk_key header query =
    if ltb 7 (len header) && has_prefix header "Bearer " then slice header 7 (len header) else query

module _ (lib : Limiter) where
  open lib use {State, new_limiter, allow}

  -- The store's map; its rate and burst are the limiter's.
  abbrev pub Store : Type 0
  Store = Dict (Entry State)

  abbrev pub limiter_of : Option (Entry State) → State
  limiter_of none = new_limiter
  limiter_of (some e) = e.limiter

  -- `getLimiter` and `Allow`: the limiter is changed through its pointer.
  unfoldable pub allow_key : Time → Store → String → Bool × Store
  allow_key now s key =
      let out = allow now (limiter_of (get key s)) in
      (out.0, put key (record { limiter = out.1; last_seen = now }) s)

  -- One tick of `cleanup`.
  unfoldable pub cleanup : Time → Store → Store
  cleanup now [] = []
  cleanup now ((key, e) ∷ s) =
      let rest = cleanup now s in
      if ltb (e.last_seen + stale_after) now then rest else (key, e) ∷ rest

  module _ (split_host : String → Option String) (now : Time) (s : Store) where
    unfoldable pub ip_middleware : String → String → String → Verdict × Store
    ip_middleware path remote_addr real_ip =
        if path == "/sdk/v1/stream"
        then (passed, s)
        else let out = allow_key now s (client_ip split_host remote_addr real_ip) in
          (verdict "rate limit exceeded" "1" out.0, out.1)

    unfoldable pub sdk_key_middleware : String → String → String → Verdict × Store
    sdk_key_middleware path header query =
        let key = extract_sdk_key header query in
        if path == "/sdk/v1/stream"
        then (passed, s)
        else if key == ""
        then (passed, s)
        else let out = allow_key now s key in
          (verdict "SDK key rate limit exceeded" "1" out.0, out.1)

    unfoldable pub login_middleware : String → String → Verdict × Store
    login_middleware remote_addr real_ip =
        let out = allow_key now s (client_ip split_host remote_addr real_ip) in
        (verdict "too many login attempts, try again in 60 seconds" "60" out.0, out.1)
