-- ===== src/Api/Frames.antt =====
-- The text that `sdkStream` of internal/api/server.go writes for one message, as the lines that a reader
-- finds in it. The payload is JSON, which has no line break. `%d` is an argument.
use Prim.Native.String
use pennant.Prelude.{String, List, [], ◌∷◌, ◌++◌}
use pennant.Prelude.Int.{ℤ}

-- The arguments of the `Fprintf`.
pub record Frame : Type 0 where
  pub id : ℤ
  pub event : String
  pub text : String

module _ (format_int : ℤ → String) where
  abbrev pub id_line : Frame → String
  id_line f = String.◌++◌ "id: " (format_int f.id)

  abbrev pub event_line : Frame → String
  event_line f = String.◌++◌ "event: " f.event

  abbrev pub data_line : Frame → String
  data_line f = String.◌++◌ "data: " f.text

  abbrev pub frame_lines : Frame → List String
  frame_lines f = id_line f ∷ event_line f ∷ data_line f ∷ "" ∷ []

  -- What is written for one message after the other.
  abbrev pub stream_lines : List Frame → List String
  stream_lines [] = []
  stream_lines (f ∷ fs) = frame_lines f ++ stream_lines fs
