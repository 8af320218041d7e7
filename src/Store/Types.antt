-- ===== src/Store/Types.antt =====
-- internal/store/store.go: audit entries, and the errors of a store. An error keeps the key that its
-- message prints.
use pennant.Prelude.{String, ◌≡◌, ap}
use pennant.Prelude.Int.{ℤ}

-- `before` and `after` hold the bytes as text.
pub record AuditEntry : Type 0 where
  pub id : String
  pub project_key : String
  pub actor : String
  pub action : String
  pub resource : String
  pub resource_id : String
  pub before : String
  pub after : String
  pub at : ℤ

pub data StoreError : Type 0 where
  project_not_found project_exists : String → StoreError
  environment_not_found environment_exists : String → String → StoreError
  flag_not_found flag_exists : String → String → StoreError
  config_not_found : String → String → StoreError
  segment_not_found segment_exists : String → String → StoreError

-- A value, or the error that the operation returns.
pub data Reply {ℓ} (A : Type ℓ) : Type ℓ where
  failed : StoreError → Reply A
  ok : A → Reply A

module _ {ℓ} {A : Type ℓ} where
  -- The result of an operation that changes the store, and the store after it: the old one on an error.
  abbrev pub after : Reply A → A → A
  after (failed e) a = a
  after (ok b) a = b

abbrev or_failed {ℓ} : {A : Type ℓ} → A → Reply A → A
or_failed d (failed e) = d
or_failed d (ok a) = a

pub ok_injective {ℓ} : {A : Type ℓ} {x y : A} → ok x ≡ ok y → x ≡ y
ok_injective {x = x} e = ap (or_failed x) e
