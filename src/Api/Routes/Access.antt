-- ===== src/Api/Routes/Access.antt =====
-- Who may change what: the role table of internal/api/server.go, buildRouter, with the handlers behind it.
use pennant.Prelude.{ℕ, ◌≡◌, refl, Bool, false}
use pennant.Store.Types.{Reply, failed, ok}
use pennant.Experiments.{Answer, error, value}
use pennant.Auth.{can_write}
use pennant.Auth.Middleware.{Identity, missing_token, invalid_token, known}
use pennant.Api.Types.{Server, Handled, Body, respond, checked, answered}
use pennant.Api.Routes.{Endpoint, min_role}

module _ {F : Type 0} where
  -- The server is as it was.
  record Same (s : Server F) (out : Handled F) : Type 0 where
    unchanged : out.0 ≡ s

  same : (s : Server F) (status : ℕ) (body : Body F) → Same s (respond s status body)
  same s status body = record { unchanged = refl }

  checked-Same :
      {A : Type 0} (s : Server F) (status : ℕ) (r : Reply A) (next : A → Handled F)
      → ((a : A) → Same s (next a))
      → Same s (checked s status r next)
  checked-Same s status (failed e) next h = same s _ _
  checked-Same s status (ok a) next h = h a

  answered-Same :
      {A : Type 0} (s : Server F) (status : ℕ) (r : Answer A) (next : A → Handled F)
      → ((a : A) → Same s (next a))
      → Same s (answered s status r next)
  answered-Same s status (error e) next h = same s _ _
  answered-Same s status (value a) next h = h a

ruleset sames = (same, checked-Same, answered-Same)

-- Not below an editor.
abbrev needs_writer : Endpoint → Bool
needs_writer e = can_write (min_role e)

-- The identity may change something: its role is editor or above.
abbrev pub is_writer : Identity → Bool
is_writer missing_token = false
is_writer invalid_token = false
is_writer (known claims) = can_write claims.role
