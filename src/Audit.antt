-- ===== src/Audit.antt =====
-- application/audit.py and the `AuditLog` row of infrastructure/db/models/system.py, without the
-- columns that only describe the call (address, request id, label, details).
use visi_on_route.Prelude.{ℕ, String, Option, or_else}
use visi_on_route.Access.Context.{RequestContext}

pub record AuditLog : Type 0 where
  pub organization_id : Option ℕ
  pub actor_user_id : Option ℕ
  pub action : String
  pub resource_id : ℕ

-- The row that `record_audit` adds; `organization_id` overrides the tenant of the context.
abbrev pub record_audit : RequestContext → Option ℕ → String → ℕ → AuditLog
record_audit ctx organization_id action resource_id = record {
  organization_id = or_else organization_id ctx.organization_id;
  actor_user_id = ctx.user_id;
  action = action;
  resource_id = resource_id;
}
