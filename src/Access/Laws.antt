-- ===== src/Access/Laws.antt =====
-- What the catalog of domain/permissions.py guarantees, whatever the role and the permission.
use visi_on_route.Prelude.{◌≡◌, ◌≢◌, ◌⊎◌, ◌||◌, inl, inr, Bool, Bool-cases, true, false, arith}
use visi_on_route.Access.Permissions.{Permission, RoleKey, role_has}

-- The owner may do everything.
owner_unrestricted : (p : Permission) → role_has RoleKey.owner p ≡ true
unfolding role_has
owner_unrestricted Permission.org_read = ground arith
owner_unrestricted _ = ground arith

-- Nobody but the owner manages the subscription.
subscription_owner :
    (r : RoleKey) → role_has r Permission.subscription_manage ≡ true → r ≡ RoleKey.owner
unfolding role_has
subscription_owner r h = ground arith

-- The administrator lacks nothing but the subscription.
admin_exact :
    (p : Permission) → role_has RoleKey.admin p ≡ false → p ≡ Permission.subscription_manage
unfolding role_has
admin_exact Permission.org_read h = ground arith
admin_exact _ h = ground arith

-- A role other than the owner's has nothing that the administrator lacks.
admin_above :
    (r : RoleKey) (p : Permission)
    → r ≢ RoleKey.owner
    → role_has r p ≡ true
    → role_has RoleKey.admin p ≡ true
unfolding role_has
admin_above RoleKey.owner p n h = absurd (n (ground arith))
admin_above RoleKey.admin p n h = h
admin_above RoleKey.safety_manager p n h = ground arith
admin_above _ p n h = ground arith

-- The permissions whose key ends in `.read`.
abbrev pub reads : Permission → Bool
reads Permission.org_read = true
reads Permission.org_members_read = true
reads Permission.fleet_read = true
reads Permission.trips_read = true
reads Permission.telemetry_read = true
reads Permission.events_read = true
reads Permission.evidence_read = true
reads Permission.risks_read = true
reads Permission.coaching_read = true
reads Permission.analytics_read = true
reads Permission.reports_read = true
reads Permission.integrations_read = true
reads Permission.subscription_read = true
reads Permission.audit_read = true
reads _ = false

-- The auditor and the self-service driver hold read permissions only.
pub auditor_reads_only :
    (p : Permission)
    → role_has RoleKey.auditor p || role_has RoleKey.driver p ≡ true
    → reads p ≡ true
unfolding role_has
auditor_reads_only Permission.org_read h = ground arith
auditor_reads_only _ h = ground arith

-- Every right of every role is one of the owner, and one of the administrator unless it is the
-- right of the owner to manage the subscription.
pub role_ceiling :
    (r : RoleKey) (p : Permission)
    → role_has r p ≡ true
    → (role_has RoleKey.owner p ≡ true)
      × ((role_has RoleKey.admin p ≡ true)
          ⊎ ((r ≡ RoleKey.owner) × (p ≡ Permission.subscription_manage)))
role_ceiling r p h = (
  owner_unrestricted p,
  elim (Bool-cases (role_has RoleKey.admin p)) [
    | inl has ↦ inl has
    | inr lacks ↦ inr (subscription_owner r (rw (admin_exact p lacks) at h), admin_exact p lacks)
  ],
)
