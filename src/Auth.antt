-- ===== src/Auth.antt =====
-- internal/auth/{types,store}.go: roles, and users with their refresh tokens in memory. A time is a number of
-- nanoseconds; `time.Now` and the texts of `randomHex` are arguments. JWT and passwords are not here.
pub mod Tokens
pub mod Middleware
use pennant.Prelude.{
  ℕ, ◌+◌, ◌*◌, ◌^◌, String, Option, none, some, [], Bool, true, false, not, ◌==◌, ltb, leb,
  if◌then◌else◌,
}
use pennant.Prelude.Dict.{Dict, get, put, delete}
use pennant.Model.Types.{Time}

pub data Role : Type 0 where
  owner admin editor viewer : Role
  role_other : String → Role

-- `roleLevel`, 0 for a role that the map does not have
unfoldable pub role_level : Role → ℕ
role_level viewer = 1
role_level editor = 2
role_level admin = 3
role_level owner = 4
role_level (role_other s) = 0

unfoldable pub can_write : Role → Bool
can_write r = leb (role_level editor) (role_level r)

unfoldable pub can_admin : Role → Bool
can_admin r = leb (role_level admin) (role_level r)

unfoldable pub is_owner : Role → Bool
is_owner owner = true
is_owner r = false

pub record User : Type 0 where
  pub id : String
  pub email : String
  pub name : String
  pub role : Role
  pub password_hash : String
  pub created_at : Time

pub record RefreshEntry : Type 0 where
  pub user_id : String
  pub expires_at : Time

pub record UserStore : Type 0 where
  pub users : Dict User
  pub by_email : Dict User
  pub refresh_tokens : Dict RefreshEntry

abbrev pub new_user_store : UserStore
new_user_store = record { users = []; by_email = []; refresh_tokens = [] }

-- The user as it is stored: an id if it had none, and the time.
abbrev pub enrolled : String → Time → User → User
enrolled random now u = record u { id = if u.id == "" then random else u.id; created_at = now }

-- `none` is the error that the email exists.
unfoldable pub create_user : String → Time → UserStore → User → Option UserStore
create_user random now s u = elim (get u.email s.by_email) [
  | some v ↦ none
  | none ↦
      let u' : User = enrolled random now u in
      some (record s { users = put u'.id u' s.users; by_email = put u'.email u' s.by_email })
]

unfoldable pub get_by_email : UserStore → String → Option User
get_by_email s email = get email s.by_email

unfoldable pub get_by_id : UserStore → String → Option User
get_by_id s id = get id s.users

-- `7 * 24 * time.Hour`
abbrev pub token_life : ℕ
token_life = 7 * 24 * 3600 * 10 ^ 9

-- The token is the text that `randomHex` gives.
unfoldable pub issue_refresh_token : String → Time → UserStore → String → UserStore
issue_refresh_token token now s user_id = record s {
  refresh_tokens =
      put token (record { user_id = user_id; expires_at = now + token_life }) s.refresh_tokens;
}

-- The user of an entry that is there and has not passed its time.
abbrev pub user_of : Time → Option RefreshEntry → Option String
user_of now none = none
user_of now (some entry) = if ltb entry.expires_at now then none else some entry.user_id

-- The token is deleted on every path.
unfoldable pub validate_refresh_token : Time → UserStore → String → Option String × UserStore
validate_refresh_token now s token = (
  user_of now (get token s.refresh_tokens),
  record s { refresh_tokens = delete token s.refresh_tokens },
)
