-- ===== src/SdkAuth/Revocation.antt =====
-- internal/sdkauth/auth.go: a key that is revoked stays out until it is registered again.
use pennant.Prelude.{
  String, Option, none, some, List, [], ◌∷◌, Bool, true, false, ◌==◌, ◌≡◌, refl, ◌∙◌, ap, arith,
  eq_iff, All, if◌then◌else◌,
}
use pennant.Prelude.Dict.{get, put, get-put}
use pennant.SdkAuth.{
  SdkKeyRecord, Authenticator, register, revoke, live, lookup, is_for, validate_sdk_key, is_client,
  is_client_key,
}

pub data Operation : Type 0 where
  registering : SdkKeyRecord → Operation
  revoking : String → Operation

unfoldable pub run : Authenticator → List Operation → Authenticator
run a [] = a
run a (registering rec ∷ ops) = run (register a rec) ops
run a (revoking key ∷ ops) = run (revoke a key) ops

-- The operation registers the key.
abbrev pub registers : String → Operation → Bool
registers key (registering rec) = rec.value == key
registers key (revoking k) = false

lookup-register :
    (a : Authenticator) (rec : SdkKeyRecord) (key : String)
    → lookup (register a rec) key ≡ (if rec.value == key then live (some rec) else lookup a key)
unfolding lookup register
lookup-register a rec key = ground (arith, get-put rec.value key rec a, eq_iff rec.value key)

-- After a revocation the key is not found, and every other key is found as before.
pub lookup-revoke :
    (a : Authenticator) (revoked key : String)
    → lookup (revoke a revoked) key ≡ (if revoked == key then none else lookup a key)
unfolding lookup revoke
lookup-revoke a revoked key = by_lookup (get revoked a) refl
  where
    by_lookup :
        (o : Option SdkKeyRecord)
        → get revoked a ≡ o
        → live (
            get key
              (elim o [ none ↦ a | some rec ↦ put revoked (record rec { revoked = true }) a ]))
          ≡ (if revoked == key then none else live (get key a))
    by_lookup none e = ground (arith, eq_iff revoked key, e)
    by_lookup (some rec) e =
        ground (arith, eq_iff revoked key, get-put revoked key (record rec { revoked = true }) a)

stays_out :
    (a : Authenticator) (key : String) (ops : List Operation)
    → lookup a key ≡ none
    → All (λ op. registers key op ≡ false) ops
    → lookup (run a ops) key ≡ none
unfolding run
stays_out a key [] out h = out
stays_out a key (registering rec ∷ ops) out h =
    stays_out (register a rec) key ops (lookup-register a rec key ∙ simp (h.0) out) h.1
stays_out a key (revoking k ∷ ops) out h =
    stays_out (revoke a k) key ops (lookup-revoke a k key ∙ ground (arith, out)) h.1

-- Once a key is revoked, no sequence of registrations of other keys and of revocations makes it valid for
-- any environment, or a client key.
pub revoked_stays_out :
    (a : Authenticator) (key env : String) (ops : List Operation)
    → All (λ op. registers key op ≡ false) ops
    → (validate_sdk_key (run (revoke a key) ops) key env ≡ false)
      × (is_client_key (run (revoke a key) ops) key ≡ false)
unfolding validate_sdk_key is_client_key
revoked_stays_out a key env ops h =
    let out =
      stays_out (revoke a key) key ops (lookup-revoke a key key ∙ ground (arith, eq_iff key key))
        h in
    let dead : live (get key (run (revoke a key) ops)) ≡ none = unfold lookup in out in
    (ap (is_for env) dead, ap is_client out)
