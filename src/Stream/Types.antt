-- ===== src/Stream/Types.antt =====
-- internal/stream/types.go. The payload of a message is never read: it is any type. A channel of a
-- subscriber is the list of the messages in its buffer, oldest first.
use pennant.Prelude.{String, Option, List}
use pennant.Prelude.Int.{ℤ}
use pennant.Model.Types.{Time}

pub record Message (P : Type 0) : Type 0 where
  pub event : String
  pub version : ℤ
  pub payload : Option P

pub record Subscriber (P : Type 0) : Type 0 where
  pub id : String
  pub env_key : String
  pub project_key : String
  pub sdk_key : String
  pub ch : List (Message P)
  pub last_sent : ℤ
  pub connected_at : Time
  pub user_agent : String
  pub sdk_version : String
