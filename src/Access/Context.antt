-- ===== src/Access/Context.antt =====
-- application/context.py: who is acting, and in which tenant. Identifiers are only compared, so
-- they are numbers; the fields that only the audit trail shows are left out.
use visi_on_route.Prelude.{ℕ, Bool, true, false, Option, none, some, if◌then◌else◌}
use Prim.Native.String.{String}
use visi_on_route.Access.Permissions.{Permission, RoleKey, role_has}

pub record RequestContext : Type 0 where
  pub user_id : Option ℕ
  pub organization_id : Option ℕ
  pub role : Option RoleKey
  pub is_platform_admin : Bool
  pub user_agent : Option String

unfoldable pub has_permission : RequestContext → Permission → Bool
unfolding role_has
has_permission ctx permission =
    if ctx.is_platform_admin
    then true
    else elim ctx.role [ none ↦ false | some role ↦ role_has role permission ]
