-- ===== src/Client/Connecting.antt =====
-- The stream loop of sdk/go/pennant/client.go: `connect` and `streamLoop`, its waits in nanoseconds. The network is
-- an argument: what it answers to the Last-Event-ID that the client sends. The loop runs over the
-- connections up to the cancellation.
use pennant.Prelude.{
  ℕ, ◌*◌, ◌^◌, String, Option, some, List, [], ◌∷◌, Bool, true, ltb, eqb, ◌>>=◌, if◌then◌else◌,
}
use pennant.Prelude.Int.{ℤ}
use pennant.Client.{Client, Decoder, parse_sse}

-- What a request meets: an error of the transport, or a status and the lines of the body.
pub data Attempt : Type 0 where
  unreachable : Attempt
  reply : ℕ → List String → Attempt

-- `time.Second`
abbrev pub second : ℕ
second = 10 ^ 9

-- `30*time.Second`
abbrev pub max_backoff : ℕ
max_backoff = 30 * second

-- `math.Min(float64(backoff*2), float64(30*time.Second))`, exact at these sizes.
unfoldable pub next_backoff : ℕ → ℕ
next_backoff backoff = if ltb (backoff * 2) max_backoff then backoff * 2 else max_backoff

-- The header Last-Event-ID, where the client has a snapshot.
abbrev pub resume_from : Client → Option ℤ
resume_from c = c.snap >>= λ snap. some snap.version

module _ (decoder : Decoder) where
  -- The client after the answer, and whether `connect` returns an error.
  abbrev pub read_answer : Attempt → Client → Client × Bool
  read_answer unreachable c = (c, true)
  read_answer (reply status lines) c =
      if eqb status 200 then parse_sse decoder lines c else (c, true)

  unfoldable pub connect : (Option ℤ → Attempt) → Client → Client × Bool
  connect network c = read_answer (network (resume_from c)) c

  -- The client after these connections, and the waits between them.
  unfoldable pub stream_loop : List (Option ℤ → Attempt) → ℕ → Client → Client × List ℕ
  stream_loop [] backoff c = (c, [])
  stream_loop (network ∷ rest) backoff c =
      let out = connect network c in
      let wait = if out.1 then backoff else second in
      let later = stream_loop rest (next_backoff wait) out.0 in (later.0, wait ∷ later.1)
