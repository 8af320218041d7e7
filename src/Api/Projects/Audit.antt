-- ===== src/Api/Projects/Audit.antt =====
-- Where createProject of internal/api/server.go files its audit entry.
use pennant.Prelude.{
  ◌-◌, ◌&&◌, ltb, length, drop, String, Option, none, some, List, [], false, ◌≡◌, refl, ap, ◌∙◌,
  ◌==◌, arith, eq_iff, if◌then◌else◌,
}
use pennant.Prelude.Int.{ℤ, pos, pos_part, ltb_ℤ}
use pennant.Prelude.Dict.{get, get-put}
use pennant.Model.Types.{Project}
use pennant.Store.Types.{Reply, ok, AuditEntry}
use pennant.Store.Memory.{Memory, create_project}
use pennant.Store.Memory.Counters.{append_audit, list_audit}
use pennant.Api.Types.{Server, Wire, Call}
use pennant.Api.Changes.{audit}
use pennant.Api.Projects.{handle_create_project, with_store}

-- `list_audit`, from what the map has for the project.
abbrev listing : ℤ → Option (List AuditEntry) → Reply (List AuditEntry)
listing limit o =
    let es : List AuditEntry = elim o [ none ↦ [] | some es ↦ es ] in
    ok (
      if ltb_ℤ (pos 0) limit && ltb (pos_part limit) (length es)
      then drop (length es - pos_part limit) es
      else es)

module _ {F : Type 0} (wire : Wire F) (call : Call) where
  created :
      (s : Server F) (p : Project) (m : Memory)
      → wire.decode_project call.body ≡ some p
      → (p.key == "") ≡ false
      → create_project s.store p ≡ ok m
      → (handle_create_project wire call s).0
        ≡ audit wire call "" "create" "project" p.key "" (wire.encode_project p) (with_store m s)
  unfolding handle_create_project
  created s p m e1 e2 e3 = rw (e1) (rw (e2) (rw (e3) refl))

  list_audit-audit :
      (s : Server F) (action resource id before after key : String) (limit : ℤ)
      → (key == "") ≡ false
      → list_audit (audit wire call "" action resource id before after s).store key limit
        ≡ list_audit s.store key limit
  unfolding audit append_audit list_audit
  list_audit-audit s action resource id before after key limit h =
      ap (listing limit) {y = get key s.store.audits}
        (get-put "" key _ s.store.audits ∙ ground (arith, eq_iff "" key, eq_iff key "", h))

  -- A project that createProject stores leaves no entry in the project's own audit log, or in that of any key but the
  -- empty one: the handler files its entry under the project key of a path that has none.
  pub create_project-list_audit :
      (s : Server F) (p : Project) (m : Memory) (key : String) (limit : ℤ)
      → wire.decode_project call.body ≡ some p
      → (p.key == "") ≡ false
      → create_project s.store p ≡ ok m
      → (key == "") ≡ false
      → list_audit (handle_create_project wire call s).0.store key limit ≡ list_audit m key limit
  create_project-list_audit s p m key limit e1 e2 e3 h =
      ap (λ (t : Server F). list_audit t.store key limit) (created s p m e1 e2 e3)
      ∙ list_audit-audit (with_store m s) "create" "project" p.key "" (wire.encode_project p) key
          limit h
