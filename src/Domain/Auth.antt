-- ===== src/Domain/Auth.antt =====
-- backend/src/security_review/domain/auth/models.py. A UUID is its 128-bit number and a time is a
-- number of microseconds: the program only compares them, and `str(uuid)` keeps the order.
use security_review_ai.Prelude.{ℕ, String, Bool, true, false, Option}
use security_review_ai.Domain.Billing.{PlanTier}

-- UUID("00000000-0000-0000-0000-000000000000")
abbrev pub nil_organization_id : ℕ
nil_organization_id = 0

pub data UserRole : Type 0 where
  owner admin member : UserRole

abbrev pub role_eq : UserRole → UserRole → Bool
role_eq UserRole.owner UserRole.owner = true
role_eq UserRole.admin UserRole.admin = true
role_eq UserRole.member UserRole.member = true
role_eq _ _ = false

pub record Organization : Type 0 where
  pub id : ℕ
  pub name : String
  pub plan : PlanTier
  pub stripe_customer_id : Option String
  pub stripe_subscription_id : Option String
  pub created_at : ℕ

pub record User : Type 0 where
  pub id : ℕ
  pub email : String
  pub hashed_password : String
  pub organization_id : ℕ
  pub role : UserRole
  pub created_at : ℕ

pub record SignupRequest : Type 0 where
  pub organization_name : String
  pub email : String
  pub password : String

pub record LoginRequest : Type 0 where
  pub email : String
  pub password : String

pub record ResetPasswordRequest : Type 0 where
  pub token : String
  pub new_password : String

pub record UserResponse : Type 0 where
  pub id : ℕ
  pub email : String
  pub organization_id : ℕ
  pub role : UserRole
  pub created_at : ℕ

pub record TokenResponse : Type 0 where
  pub access_token : String
  pub user : UserResponse

-- `member.role == UserRole.OWNER`
abbrev pub is_owner : User → Bool
is_owner u = role_eq u.role UserRole.owner
