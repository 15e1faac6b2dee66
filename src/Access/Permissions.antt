-- ===== src/Access/Permissions.antt =====
-- domain/permissions.py: the permission catalog, the system roles, and who may do what. A Python
-- set of permissions is the list of its members; labels for display are left out.
use visi_on_route.Prelude.{ℕ, Bool, not, List, [], ◌∷◌, ◌==◌, any, select}

pub data Permission : Type 0 where
  org_read org_update org_members_read org_members_manage : Permission
  org_invitations_manage org_retention_manage fleet_read fleet_manage : Permission
  trips_read telemetry_read events_read events_review : Permission
  evidence_read evidence_raw_media risks_read risks_manage : Permission
  geofences_manage coaching_read coaching_manage analytics_read : Permission
  reports_read reports_manage notifications_manage integrations_read : Permission
  integrations_manage subscription_read subscription_manage audit_read : Permission

pub data RoleKey : Type 0 where
  owner admin safety_manager fleet_manager event_reviewer : RoleKey
  coach analyst auditor integration_manager driver : RoleKey

-- The place of a permission in the enumeration: two members are equal when their places are.
abbrev pub position : Permission → ℕ
position org_read = 0
position org_update = 1
position org_members_read = 2
position org_members_manage = 3
position org_invitations_manage = 4
position org_retention_manage = 5
position fleet_read = 6
position fleet_manage = 7
position trips_read = 8
position telemetry_read = 9
position events_read = 10
position events_review = 11
position evidence_read = 12
position evidence_raw_media = 13
position risks_read = 14
position risks_manage = 15
position geofences_manage = 16
position coaching_read = 17
position coaching_manage = 18
position analytics_read = 19
position reports_read = 20
position reports_manage = 21
position notifications_manage = 22
position integrations_read = 23
position integrations_manage = 24
position subscription_read = 25
position subscription_manage = 26
position audit_read = 27

-- `p in permissions`
abbrev pub contains : Permission → List Permission → Bool
contains p = any (λ q. position p == position q)

-- `_ALL = set(Permission)`
abbrev pub all_permissions : List Permission
all_permissions =
    org_read ∷ org_update ∷ org_members_read ∷ org_members_manage ∷ org_invitations_manage
    ∷ org_retention_manage ∷ fleet_read ∷ fleet_manage ∷ trips_read ∷ telemetry_read ∷ events_read
    ∷ events_review ∷ evidence_read ∷ evidence_raw_media ∷ risks_read ∷ risks_manage
    ∷ geofences_manage ∷ coaching_read ∷ coaching_manage ∷ analytics_read ∷ reports_read
    ∷ reports_manage ∷ notifications_manage ∷ integrations_read ∷ integrations_manage
    ∷ subscription_read ∷ subscription_manage ∷ audit_read ∷ []

-- `_READ_ONLY_AUDIT`
abbrev pub read_only_audit : List Permission
read_only_audit =
    org_read ∷ org_members_read ∷ fleet_read ∷ trips_read ∷ events_read ∷ risks_read ∷ coaching_read
    ∷ analytics_read ∷ reports_read ∷ subscription_read ∷ audit_read ∷ []

-- `ROLE_PERMISSIONS`
unfoldable pub role_permissions : RoleKey → List Permission
role_permissions owner = all_permissions
role_permissions admin =
    select (λ p. not (position p == position subscription_manage)) all_permissions
role_permissions safety_manager =
    org_read ∷ org_members_read ∷ fleet_read ∷ trips_read ∷ telemetry_read ∷ events_read
    ∷ events_review ∷ evidence_read ∷ evidence_raw_media ∷ risks_read ∷ risks_manage
    ∷ geofences_manage ∷ coaching_read ∷ coaching_manage ∷ analytics_read ∷ reports_read
    ∷ reports_manage ∷ notifications_manage ∷ []
role_permissions fleet_manager =
    org_read ∷ org_members_read ∷ fleet_read ∷ fleet_manage ∷ trips_read ∷ telemetry_read
    ∷ events_read ∷ risks_read ∷ analytics_read ∷ reports_read ∷ []
role_permissions event_reviewer =
    org_read ∷ fleet_read ∷ trips_read ∷ events_read ∷ events_review ∷ evidence_read ∷ risks_read
    ∷ []
role_permissions coach =
    org_read ∷ fleet_read ∷ events_read ∷ evidence_read ∷ coaching_read ∷ coaching_manage
    ∷ analytics_read ∷ []
role_permissions analyst =
    org_read ∷ fleet_read ∷ trips_read ∷ events_read ∷ risks_read ∷ analytics_read ∷ reports_read
    ∷ reports_manage ∷ []
role_permissions auditor = read_only_audit
role_permissions integration_manager =
    org_read ∷ fleet_read ∷ integrations_read ∷ integrations_manage ∷ notifications_manage ∷ []
role_permissions driver = coaching_read ∷ []

unfoldable pub role_has : RoleKey → Permission → Bool
unfolding role_permissions
role_has role permission = contains permission (role_permissions role)
