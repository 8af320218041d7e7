-- ===== src/Auth/Tokens.antt =====
-- Refresh tokens of internal/auth/store.go are valid for seven days, and once.
use pennant.Prelude.{
  ◌+◌, String, none, some, List, [], ◌∷◌, Bool, false, ◌≡◌, ◌∙◌, ap, ◌==◌, eq_iff, arith, All, ltb,
  if◌then◌else◌,
}
use pennant.Prelude.Dict.{get, get-put, get-delete}
use pennant.Model.Types.{Time}
use pennant.Auth.{
  UserStore, RefreshEntry, token_life, issue_refresh_token, user_of, validate_refresh_token,
}

-- What can happen to the tokens: one is issued to a user, or one is shown.
pub data Operation : Type 0 where
  issuing : String → Time → String → Operation
  showing : String → Time → Operation

unfoldable pub run : UserStore → List Operation → UserStore
run s [] = s
run s (issuing token now user ∷ ops) = run (issue_refresh_token token now s user) ops
run s (showing token now ∷ ops) = run (validate_refresh_token now s token).1 ops

-- The operation issues the token.
abbrev pub issues : String → Operation → Bool
issues token (issuing t now user) = t == token
issues token (showing t now) = false

-- The operation issues or shows the token.
abbrev pub uses : String → Operation → Bool
uses token (issuing t now user) = t == token
uses token (showing t now) = t == token

stays_spent :
    (s : UserStore) (token : String) (ops : List Operation)
    → get token s.refresh_tokens ≡ none
    → All (λ op. issues token op ≡ false) ops
    → get token (run s ops).refresh_tokens ≡ none
unfolding run issue_refresh_token validate_refresh_token
stays_spent s token [] spent h = spent
stays_spent s token (issuing t now user ∷ ops) spent h =
    stays_spent (issue_refresh_token t now s user) token ops
      (get-put t token _ s.refresh_tokens ∙ simp (h.0) spent) h.1
stays_spent s token (showing t now ∷ ops) spent h =
    stays_spent (validate_refresh_token now s t).1 token ops
      (get-delete t token s.refresh_tokens ∙ ground (arith, spent)) h.1

-- A token that was shown, whether it was valid or not, is never valid again, whatever other tokens are issued
-- and shown in between: it can be redeemed once.
pub validate_refresh_token_once :
    (s : UserStore) (token : String) (now later : Time) (ops : List Operation)
    → All (λ op. issues token op ≡ false) ops
    → (validate_refresh_token later (run (validate_refresh_token now s token).1 ops) token).0 ≡ none
unfolding validate_refresh_token
validate_refresh_token_once s token now later ops h = ap (user_of later) (
    stays_spent (validate_refresh_token now s token).1 token ops
      (get-delete token token s.refresh_tokens ∙ ground (arith, eq_iff token token)) h)

stays_issued :
    (s : UserStore) (token : String) (e : RefreshEntry) (ops : List Operation)
    → get token s.refresh_tokens ≡ some e
    → All (λ op. uses token op ≡ false) ops
    → get token (run s ops).refresh_tokens ≡ some e
unfolding run issue_refresh_token validate_refresh_token
stays_issued s token e [] there h = there
stays_issued s token e (issuing t now user ∷ ops) there h =
    stays_issued (issue_refresh_token t now s user) token e ops
      (get-put t token _ s.refresh_tokens ∙ simp (h.0) there) h.1
stays_issued s token e (showing t now ∷ ops) there h =
    stays_issued (validate_refresh_token now s t).1 token e ops
      (get-delete t token s.refresh_tokens ∙ simp (h.0) there) h.1

-- A token that was issued to a user gives that user when it is first shown, up to seven days later, whatever
-- other tokens are issued and shown in between; after that it gives nobody.
pub validate-issue_refresh_token :
    (s : UserStore) (token user : String) (now later : Time) (ops : List Operation)
    → All (λ op. uses token op ≡ false) ops
    → (validate_refresh_token later (run (issue_refresh_token token now s user) ops) token).0
      ≡ (if ltb (now + token_life) later then none else some user)
unfolding validate_refresh_token
validate-issue_refresh_token s token user now later ops h =
    ap (user_of later)
      (stays_issued (issue_refresh_token token now s user) token _ ops (issued token) h)
  where
    issued :
        (token : String)
        → get token (issue_refresh_token token now s user).refresh_tokens
          ≡ some (record { user_id = user; expires_at = now + token_life })
    issued token =
        unfold issue_refresh_token in
        get-put token token _ s.refresh_tokens ∙ ground (arith, eq_iff token token)
