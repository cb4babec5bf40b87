-- ===== src/Permissions/Level.antt =====
-- `PermissionLevel` of src/elke27_lib/permissions.py and the functions on it.
use elke.Base.{◌≡◌, ◌↔◌, refl, Bool, true, false}

pub data PermissionLevel : Type 0 where
  plt_encryption_key : PermissionLevel
  plt_any_user : PermissionLevel
  plt_master_user : PermissionLevel
  plt_installer_user : PermissionLevel
  plt_encryption_key_disarmed : PermissionLevel
  plt_any_user_disarmed : PermissionLevel
  plt_master_user_disarmed : PermissionLevel
  plt_installer_user_disarmed : PermissionLevel

-- `_DISARMED_TO_BASE.get(level, level)`
unfoldable pub strip_disarmed : PermissionLevel → PermissionLevel
strip_disarmed plt_encryption_key_disarmed = plt_encryption_key
strip_disarmed plt_any_user_disarmed = plt_any_user
strip_disarmed plt_master_user_disarmed = plt_master_user
strip_disarmed plt_installer_user_disarmed = plt_installer_user
strip_disarmed level = level

unfoldable pub requires_pin : PermissionLevel → Bool
requires_pin plt_encryption_key = false
requires_pin plt_encryption_key_disarmed = false
requires_pin _ = true

-- `level.name.endswith("_DISARMED")`
unfoldable pub requires_disarmed : PermissionLevel → Bool
requires_disarmed plt_encryption_key_disarmed = true
requires_disarmed plt_any_user_disarmed = true
requires_disarmed plt_master_user_disarmed = true
requires_disarmed plt_installer_user_disarmed = true
requires_disarmed _ = false

pub data Role : Type 0 where
  encryption_key any_user master installer : Role

-- The role of a base level; the levels that are not one never reach it.
base_role : PermissionLevel → Role
base_role plt_encryption_key = encryption_key
base_role plt_any_user = any_user
base_role plt_master_user = master
base_role _ = installer

unfoldable pub required_role : PermissionLevel → Role
unfolding strip_disarmed base_role
required_role level = base_role (strip_disarmed level)

-- The user that a level asks for, in the order of the roles.
abbrev pub rank : Role → PermissionLevel
rank encryption_key = plt_encryption_key
rank any_user = plt_any_user
rank master = plt_master_user
rank installer = plt_installer_user

-- A level is its role and its panel-state gate: stripping the gate takes just that away, keeps the
-- role and the PIN, and a PIN is asked for exactly where the role is a user's.
pub strip_disarmed-required_role :
    (level : PermissionLevel)
    → (strip_disarmed level ≡ rank (required_role level))
      × (requires_disarmed (strip_disarmed level) ≡ false)
      × (requires_pin (strip_disarmed level) ≡ requires_pin level)
      × ((requires_disarmed level ≡ false) ↔ (strip_disarmed level ≡ level))
      × ((requires_pin level ≡ false) ↔ (required_role level ≡ encryption_key))
unfolding strip_disarmed requires_pin requires_disarmed required_role base_role
strip_disarmed-required_role plt_encryption_key =
    (refl, refl, refl, (λ _. refl, λ _. refl), (λ _. refl, λ _. refl))
strip_disarmed-required_role plt_any_user =
    (refl, refl, refl, (λ _. refl, λ _. refl), (λ h. cc, λ h. cc))
strip_disarmed-required_role plt_master_user =
    (refl, refl, refl, (λ _. refl, λ _. refl), (λ h. cc, λ h. cc))
strip_disarmed-required_role plt_installer_user =
    (refl, refl, refl, (λ _. refl, λ _. refl), (λ h. cc, λ h. cc))
strip_disarmed-required_role plt_encryption_key_disarmed =
    (refl, refl, refl, (λ h. cc, λ h. cc), (λ _. refl, λ _. refl))
strip_disarmed-required_role plt_any_user_disarmed =
    (refl, refl, refl, (λ h. cc, λ h. cc), (λ h. cc, λ h. cc))
strip_disarmed-required_role plt_master_user_disarmed =
    (refl, refl, refl, (λ h. cc, λ h. cc), (λ h. cc, λ h. cc))
strip_disarmed-required_role plt_installer_user_disarmed =
    (refl, refl, refl, (λ h. cc, λ h. cc), (λ h. cc, λ h. cc))
