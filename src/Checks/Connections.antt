-- ===== src/Checks/Connections.antt =====
-- A client's connections at small inputs: one that fails, one that is refused, and one that is answered.
use pennant.Prelude.{Option, List, [], ◌∷◌, ◌++◌, ◌≡◌, refl}
use pennant.Prelude.Int.{ℤ}
use pennant.Api.Frames.{stream_lines}
use pennant.Client.{new_client, received}
use pennant.Client.Reading.{handle_all}
use pennant.Client.Connecting.{Attempt, unreachable, reply, second, stream_loop}
use pennant.Client.Recovery.{stream_loop_recovers}
use pennant.Checks.Clients.{snapshot, decoder, digits, put_frame, fits}

abbrev broken : List (Option ℤ → Attempt)
broken = (λ id. unreachable) ∷ (λ id. reply 503 []) ∷ (λ id. unreachable) ∷ []

abbrev serving : Option ℤ → Attempt
serving id = reply 200 (stream_lines digits (put_frame ∷ put_frame ∷ []))

stream_loop_recovers_example : stream_loop decoder (broken ++ serving ∷ []) second new_client ≡ (
  handle_all decoder digits (put_frame ∷ []) (received snapshot),
  (stream_loop decoder broken second new_client).1 ++ second ∷ [],
)
stream_loop_recovers_example =
    stream_loop_recovers decoder digits broken second new_client serving put_frame (put_frame ∷ [])
      snapshot (λ id. refl) refl refl (fits, (fits, tt))
