-- ===== src/Identity.antt =====
-- server/apps/identity/models.py, server/apps/identity/auth.py and
-- server/apps/admin_rbac/permissions.py: accounts as far as the other apps read them, the staff
-- privilege ladder and the identity-verification gate. The fields for log-in are left out.
use assen_platform.Common.{ℕ, Bool, true, false, Option, none, some, leb}
use assen_platform.Common.Table.{Row}

pub data Role : Type 0 where
  fan cast operator manager admin system : Role

pub data KycStatus : Type 0 where
  unverified pending verified failed : KycStatus

pub record Account : Type 0 where
  pub id : ℕ
  pub role : Role
  pub is_active : Bool
  pub adult_verified : Bool
  pub kyc_status : KycStatus

instance abbrev pub account_row : Row Account
account_row = record { key = λ a. a.id }

-- `_STAFF_RANK.get(role, 0)`
abbrev pub role_rank : Role → ℕ
role_rank Role.operator = 1
role_rank Role.manager = 2
role_rank Role.admin = 3
role_rank _ = 0

abbrev is_staff_role : Role → Bool
is_staff_role Role.operator = true
is_staff_role Role.manager = true
is_staff_role Role.admin = true
is_staff_role _ = false

-- `none` is the `ValueError` for a minimum that is no staff role.
unfoldable pub has_min_role : Account → Role → Option Bool
has_min_role account minimum = elim (is_staff_role minimum) [
  | true ↦ some (leb (role_rank minimum) (role_rank account.role))
  | false ↦ none
]

abbrev role_is_operator_account : Role → Bool
role_is_operator_account Role.operator = true
role_is_operator_account Role.manager = true
role_is_operator_account Role.admin = true
role_is_operator_account Role.system = true
role_is_operator_account _ = false

unfoldable pub is_operator_account : Account → Bool
is_operator_account account = role_is_operator_account account.role

abbrev kyc_is_verified : KycStatus → Bool
kyc_is_verified verified = true
kyc_is_verified _ = false

-- `require_kyc_verified` raises exactly when this is false.
unfoldable pub kyc_verified : Account → Bool
kyc_verified account = kyc_is_verified account.kyc_status

-- `has_min_role(account, minimum=Role.OPERATOR.value)`, the operator guard.
unfoldable pub is_operator : Account → Bool
is_operator account = leb (role_rank Role.operator) (role_rank account.role)
