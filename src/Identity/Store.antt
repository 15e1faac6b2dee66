-- ===== src/Identity/Store.antt =====
-- The rows of infrastructure/db/models/identity.py that the account services read and write.
-- Digests are compared only, so they are numbers.
use visi_on_route.Prelude.{Bool, List, Option, String, Time, ℕ, ◌∷◌}
use visi_on_route.Audit.{AuditLog}
use visi_on_route.Saas.Plans.{Store as SaasStore}
use visi_on_route.Access.Permissions.{RoleKey}

-- `Session`: one refresh token of a rotation family.
pub record Session : Type 0 where
  pub id : ℕ
  pub user_id : ℕ
  pub organization_id : Option ℕ
  pub family_id : ℕ
  pub refresh_token_hash : ℕ
  pub user_agent : Option String
  pub expires_at : Time
  pub revoked_at : Option Time
  pub reuse_detected_at : Option Time
  pub last_used_at : Option Time
  pub replaced_by_id : Option ℕ

-- `User`, without the columns that only describe the person.
pub record User : Type 0 where
  pub id : ℕ
  pub email : String
  pub password_hash : ℕ
  pub is_active : Bool
  pub failed_login_count : ℕ
  pub locked_until : Option Time
  pub email_verified_at : Option Time
  pub mfa_totp_secret_enc : Option ℕ
  pub mfa_pending_secret_enc : Option ℕ
  pub mfa_enabled_at : Option Time
  pub mfa_last_used_step : Option ℕ
  pub password_changed_at : Option Time
  pub sessions_revoked_at : Option Time

pub record Membership : Type 0 where
  pub id : ℕ
  pub user_id : ℕ
  pub organization_id : ℕ
  pub role_key : RoleKey
  pub is_active : Bool
  pub created_at : Time

-- `UserToken`: a single-use token for a password reset or the verification of an e-mail.
pub data Purpose : Type 0 where
  password_reset email_verification : Purpose

pub record UserToken : Type 0 where
  pub id : ℕ
  pub user_id : ℕ
  pub purpose : Purpose
  pub token_hash : ℕ
  pub expires_at : Time
  pub used_at : Option Time

pub record MfaRecoveryCode : Type 0 where
  pub id : ℕ
  pub user_id : ℕ
  pub code_hash : ℕ
  pub used_at : Option Time

pub record MfaChallenge : Type 0 where
  pub id : ℕ
  pub user_id : ℕ
  pub token_hash : ℕ
  pub expires_at : Time
  pub attempts : ℕ
  pub consumed_at : Option Time

pub record Invitation : Type 0 where
  pub id : ℕ
  pub organization_id : ℕ
  pub email : String
  pub role_key : RoleKey
  pub token_hash : ℕ
  pub expires_at : Time
  pub accepted_at : Option Time
  pub revoked_at : Option Time
  pub last_sent_at : Option Time

-- A queued e-mail: what the services decide of it. `secret` is the one-time token that it carries.
pub record Message : Type 0 where
  pub template : String
  pub recipient : String
  pub secret : Option ℕ
  pub related_id : ℕ
  pub idempotency_key : Option (ℕ × ℕ)

pub record Store : Type 0 where
  pub sessions : List Session
  pub users : List User
  pub memberships : List Membership
  pub audits : List AuditLog
  pub tokens : List UserToken
  pub recovery_codes : List MfaRecoveryCode
  pub challenges : List MfaChallenge
  pub invitations : List Invitation
  pub messages : List Message
  pub saas : SaasStore

abbrev pub add_audit : AuditLog → Store → Store
add_audit entry s = record s { audits = entry ∷ s.audits }
