-- ===== src/Client/Recovery.antt =====
-- What the stream loop of sdk/go/pennant/client.go recovers from, and how long it waits.
use pennant.Prelude.{
  ℕ, String, ◌≤◌, some, List, [], ◌∷◌, ◌++◌, Bool, true, false, ◌≡◌, ap, ◌∙◌, arith, All, Option,
  if◌then◌else◌,
}
use pennant.Prelude.Int.{ℤ}
use pennant.Snapshot.Types.{Snapshot}
use pennant.Api.Frames.{Frame, stream_lines}
use pennant.Client.{Client, Decoder, received, handle_event}
use pennant.Client.Reading.{Fits, handle_all, parse_sse-stream_lines}
use pennant.Client.EndToEnd.{handle_event-put}
use pennant.Client.Connecting.{
  Attempt, reply, second, max_backoff, next_backoff, resume_from, read_answer, connect, stream_loop,
}

-- From one second to thirty.
abbrev pub InBounds : ℕ → Type 0
InBounds wait = (second ≤ wait) × (wait ≤ max_backoff)

next_backoff-InBounds : (b : ℕ) → InBounds b → InBounds (next_backoff b)
unfolding next_backoff
next_backoff-InBounds b h = ground arith

wait-InBounds : (failed : Bool) (b : ℕ) → InBounds b → InBounds (if failed then b else second)
wait-InBounds true b h = h
wait-InBounds false b h = (omega arith, omega arith)

module _ (decoder : Decoder) where
  -- Whatever the network answers to the connections of a client that starts with a wait between one second and
  -- thirty, each wait of its stream loop is between one second and thirty.
  pub stream_loop_waits :
      (attempts : List (Option ℤ → Attempt)) (backoff : ℕ) (c : Client)
      → (second ≤ backoff) × (backoff ≤ max_backoff)
      → All InBounds (stream_loop decoder attempts backoff c).1
  unfolding stream_loop
  stream_loop_waits [] b c h = tt
  stream_loop_waits (network ∷ rest) b c h =
      let out : Client × Bool = connect decoder network c in
      let waited : InBounds (if out.1 then b else second) = wait-InBounds out.1 b h in
      (
        waited,
        stream_loop_waits rest (next_backoff (if out.1 then b else second)) out.0
            (next_backoff-InBounds _ waited),
      )

  module _ (format_int : ℤ → String) where
    connect_put :
        (network : Option ℤ → Attempt) (f : Frame) (fs : List Frame) (snap : Snapshot) (c : Client)
        → ((id : Option ℤ) → network id ≡ reply 200 (stream_lines format_int (f ∷ fs)))
        → f.event ≡ "put"
        → decoder.unmarshal_snapshot f.text ≡ some snap
        → All (Fits decoder format_int) (f ∷ fs)
        → connect decoder network c ≡ (handle_all decoder format_int fs (received snap), false)
    unfolding connect
    connect_put network f fs snap c answers put json fits =
        ap (λ a. read_answer decoder a c) (answers (resume_from c))
        ∙ parse_sse-stream_lines decoder format_int (f ∷ fs) c fits
        ∙ ap (λ e. (handle_all decoder format_int fs (handle_event decoder e f.text c), false)) put
        ∙ ap (λ x. (handle_all decoder format_int fs x, false))
            (handle_event-put decoder f.text snap c json)

    -- After any connections, whatever they failed with and whatever they left the client with, a connection that is
    -- answered with status 200 and a stream of fitting messages that starts with a put of a snapshot that
    -- JSON decodes, brings the client to this snapshot and the events after it, and the loop waits one
    -- second for the next.
    pub stream_loop_recovers :
        (attempts : List (Option ℤ → Attempt)) (backoff : ℕ) (c : Client)
        (network : Option ℤ → Attempt) (f : Frame) (fs : List Frame) (snap : Snapshot)
        → ((id : Option ℤ) → network id ≡ reply 200 (stream_lines format_int (f ∷ fs)))
        → f.event ≡ "put"
        → decoder.unmarshal_snapshot f.text ≡ some snap
        → All (Fits decoder format_int) (f ∷ fs)
        → stream_loop decoder (attempts ++ network ∷ []) backoff c ≡ (
          handle_all decoder format_int fs (received snap),
          (stream_loop decoder attempts backoff c).1 ++ second ∷ [],
        )
    unfolding stream_loop
    stream_loop_recovers [] b c network f fs snap answers put json fits =
        ap (λ (out : Client × Bool). (out.0, (if out.1 then b else second) ∷ []))
          (connect_put network f fs snap c answers put json fits)
    stream_loop_recovers (a ∷ rest) b c network f fs snap answers put json fits =
        let out : Client × Bool = connect decoder a c in
        let wait : ℕ = if out.1 then b else second in
        ap (λ (later : Client × List ℕ). (later.0, wait ∷ later.1))
          (stream_loop_recovers rest (next_backoff wait) out.0 network f fs snap answers put json
            fits)
