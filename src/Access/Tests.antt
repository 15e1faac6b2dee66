-- ===== src/Access/Tests.antt =====
-- Runs of the catalog of permissions.
use visi_on_route.Prelude.{refl, true, ◌≡◌, ◌⊎◌}
use visi_on_route.Access.Permissions.{Permission, RoleKey, role_has}
use visi_on_route.Access.Laws.{role_ceiling, auditor_reads_only, reads}

role_ceiling_example :
    (role_has RoleKey.owner Permission.coaching_manage ≡ true)
    × ((role_has RoleKey.admin Permission.coaching_manage ≡ true)
        ⊎ ((RoleKey.coach ≡ RoleKey.owner)
            × (Permission.coaching_manage ≡ Permission.subscription_manage)))
unfolding role_has
role_ceiling_example = role_ceiling RoleKey.coach Permission.coaching_manage refl

auditor_reads_only_example : reads Permission.audit_read ≡ true
unfolding role_has
auditor_reads_only_example = auditor_reads_only Permission.audit_read refl
