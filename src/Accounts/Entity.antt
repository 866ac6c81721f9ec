-- ===== src/Accounts/Entity.antt =====
-- src/database/user/user.entity.ts, and the objects of src/auth and src/dto.
use exchange_backend.Base.{
  ℕ, String, Bool, ◌&&◌, Option, none, some, is_named, is_numbered, is_text,
}
use exchange_backend.Custody.Entity.{YesNo, AccountStatus}

pub record User : Type 0 where
  pub id : ℕ
  pub email : String
  pub name : String
  pub uuid : String
  pub referral_id : Option String
  pub password : String
  pub zasper_id : String
  pub phone_number : Option String
  pub refresh_token : Option String
  pub twofa_secret : Option String
  pub status : AccountStatus
  pub email_verified : YesNo
  pub is_two_fa_enabled : YesNo
  pub id_verified : YesNo
  pub spot_wallet : ℕ
  pub fund_wallet : ℕ
  pub ip_address : Option String
  pub logged_in_at : Option ℕ
  pub created_at : ℕ

abbrev pub user_key : User → ℕ
user_key u = u.id

abbrev pub user_keyed : ℕ → ℕ → User → User
user_keyed n time u = record u { id = n; created_at = time }

-- The `Partial<User>` by which `existUserData` looks: what is undefined is no condition.
pub record UserQuery : Type 0 where
  pub id : Option ℕ
  pub uuid : Option String
  pub email : Option String
  pub phone_number : Option String

abbrev is_named_column : Option String → Option String → Bool
is_named_column none column = Bool.true
is_named_column (some t) column = is_text column t

abbrev pub fits : UserQuery → User → Bool
fits q u =
    is_numbered q.id u.id
    && (is_named q.uuid u.uuid
        && (is_named q.email u.email && is_named_column q.phone_number u.phone_number))

pub record SignUpDto : Type 0 where
  pub name : String
  pub email : String
  pub password : String
  pub referral_id : Option String
  pub phone_number : Option String

-- What a token carries.
pub record Payload : Type 0 where
  pub sub : Option ℕ
  pub uuid : Option String

-- `req.user`, as the strategies make it; it has no field `id`.
pub record Authenticated : Type 0 where
  pub user_id : Option ℕ
  pub uuid : Option String

-- `validate` of src/auth/jwtStrategy.ts.
abbrev pub validate : Payload → Authenticated
validate payload = record { user_id = payload.sub; uuid = payload.uuid }

-- `validate` of src/auth/jwtRefreshStrategy.ts, which reads its second argument.
abbrev pub validate_refresh : Payload → Payload → Authenticated
validate_refresh request payload = record { user_id = payload.sub; uuid = payload.uuid }
