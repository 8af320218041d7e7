-- ===== src/Checks/Sessions.antt =====
-- internal/auth/store.go: one token issued and shown between others.
use pennant.Prelude.{none, some, [], ◌∷◌, ◌≡◌, refl}
use pennant.Auth.{new_user_store, issue_refresh_token, validate_refresh_token}
use pennant.Auth.Tokens
use pennant.Auth.Tokens.{
  issuing, showing, validate_refresh_token_once, validate-issue_refresh_token,
}

-- The token is shown twice, with another one issued and shown in between.
validate_refresh_token_once_example :
    (validate_refresh_token 9
      (Tokens.run
        (validate_refresh_token 5 (issue_refresh_token "t" 3 new_user_store "ann") "t").1
        (issuing "u" 6 "bob" ∷ showing "u" 7 ∷ showing "t" 8 ∷ []))
      "t").0
    ≡ none
validate_refresh_token_once_example =
    validate_refresh_token_once (issue_refresh_token "t" 3 new_user_store "ann") "t" 5 9
      (issuing "u" 6 "bob" ∷ showing "u" 7 ∷ showing "t" 8 ∷ []) (refl, (refl, (refl, tt)))

validate-issue_refresh_token_example :
    (validate_refresh_token 9
      (Tokens.run
        (issue_refresh_token "t" 3 new_user_store "ann")
        (issuing "u" 6 "bob" ∷ showing "u" 7 ∷ []))
      "t").0
    ≡ some "ann"
validate-issue_refresh_token_example =
    validate-issue_refresh_token new_user_store "t" "ann" 3 9
      (issuing "u" 6 "bob" ∷ showing "u" 7 ∷ []) (refl, (refl, tt))
