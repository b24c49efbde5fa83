-- ===== src/Auth/Types.antt =====
-- The rows of src/auth/auth.entities.ts, what the service of src/auth/auth.service.ts is given, and
-- what it throws. `created_at` of users, sessions, identities, attempts and grants, and `updated_at`,
-- are set by the ORM, and nothing reads them.
use jagalchi_api.Base.{ℕ, String, Bool, true, false, Option, List, Result, str_eq, ◌&&◌}
use jagalchi_api.Tickets.Types.{Tickets}
use jagalchi_api.Tickets.Types

pub data UserStatus : Type 0 where
  active suspended : UserStatus

pub record User : Type 0 where
  pub id : String
  pub email : String
  pub name : String
  pub bio : Option String
  pub profile_image_url : Option String
  pub external_links : List (String × String)
  pub password_hash : Option String
  pub roles : List String
  pub status : UserStatus

pub data OauthProvider : Type 0 where
  google github apple : OauthProvider

pub record OauthIdentity : Type 0 where
  pub id : String
  pub user_id : String
  pub provider : OauthProvider
  pub provider_user_id : String
  pub email : String

pub record RefreshSession : Type 0 where
  pub id : String
  pub user_id : String
  pub family_id : String
  pub token_hash : String
  pub expires_at : ℕ
  pub revoked_at : Option ℕ
  pub replaced_by_id : Option String

pub record OauthAttempt : Type 0 where
  pub id : String
  pub state : String
  pub provider : OauthProvider
  pub code_verifier : String
  pub nonce : String
  pub return_url : String
  pub expires_at : ℕ
  pub consumed_at : Option ℕ

pub record OauthLoginGrant : Type 0 where
  pub id : String
  pub user_id : String
  pub code_hash : String
  pub expires_at : ℕ
  pub consumed_at : Option ℕ

pub data ChallengePurpose : Type 0 where
  registration password_reset : ChallengePurpose

pub record EmailChallenge : Type 0 where
  pub id : String
  pub email : String
  pub purpose : ChallengePurpose
  pub code_hash : String
  pub attempts : ℕ
  pub expires_at : ℕ
  pub consumed_at : Option ℕ
  pub proof_used_at : Option ℕ
  pub created_at : ℕ

-- The tables that the service writes; `openAccount` writes those of the tickets.
pub record Auth : Type 0 where
  pub users : List User
  pub identities : List OauthIdentity
  pub sessions : List RefreshSession
  pub attempts : List OauthAttempt
  pub grants : List OauthLoginGrant
  pub challenges : List EmailChallenge
  pub tickets : Tickets

-- What a signed token carries.
pub record Claims : Type 0 where
  pub sub : Option String
  pub kind : Option String
  pub jti : Option String
  pub email : Option String
  pub roles : Option (List String)

-- What the parser of addresses gives: the members that the service reads, and the address written
-- again.
pub record Url : Type 0 where
  pub protocol : String
  pub hostname : String
  pub pathname : String
  pub origin : String
  pub href : String

-- The functions of the platform and of its libraries, and the secret of the verification codes.
-- `sign` is given the claims, the lifetime and the time, `verify` the token and the time.
pub record Runtime : Type 0 where
  pub trim : String → String
  pub to_lower : String → String
  pub sha256 : String → String
  pub hmac : String → String → String
  pub from_hex : String → List ℕ
  pub sign : Claims → ℕ → ℕ → String
  pub verify : String → ℕ → Option Claims
  pub scrypt : String → List ℕ → List ℕ
  pub base64url : List ℕ → String
  pub from_base64url : String → List ℕ
  pub parse_url : String → Option Url
  pub code_secret : String

-- The time of a call, and the identifiers and random values that it draws.
pub record Draws : Type 0 where
  pub now : ℕ
  pub id : String
  pub signup_id : String
  pub grant_id : String
  pub session_id : String
  pub family_id : String
  pub token : String
  pub salt : List ℕ

pub record PublicUser : Type 0 where
  pub id : String
  pub email : String
  pub name : String
  pub roles : List String

pub record AuthResult : Type 0 where
  pub access_token : String
  pub refresh_token : String
  pub user : PublicUser

pub data Error : Type 0 where
  registration_proof_not_valid registration_proof_mismatch email_registered : Error
  reset_proof_not_valid reset_proof_mismatch reset_proof_used : Error
  wait_for_code email_not_sent code_unavailable code_not_correct : Error
  invalid_credentials bad_password user_not_active : Error
  too_many_links link_not_valid link_not_web : Error
  session_not_valid reuse_detected : Error
  oauth_disabled provider_disabled not_configured config_missing : Error
  url_not_valid return_url_not_allowed state_not_valid account_not_available code_not_valid : Error
  bad_gateway profile_not_verified : Error
  ticket_error : Types.Error → Error

abbrev pub Outcome : Type 0 → Type 0
Outcome A = Result Error A

abbrev pub is_active : UserStatus → Bool
is_active active = true
is_active suspended = false

abbrev pub same_provider : OauthProvider → OauthProvider → Bool
same_provider google google = true
same_provider github github = true
same_provider apple apple = true
same_provider _ _ = false

abbrev pub same_purpose : ChallengePurpose → ChallengePurpose → Bool
same_purpose registration registration = true
same_purpose password_reset password_reset = true
same_purpose _ _ = false

abbrev pub user_id : User → String
user_id u = u.id

abbrev pub session_id : RefreshSession → String
session_id r = r.id

abbrev pub challenge_id : EmailChallenge → String
challenge_id c = c.id

abbrev pub identity_id : OauthIdentity → String
identity_id i = i.id

abbrev pub attempt_id : OauthAttempt → String
attempt_id a = a.id

abbrev pub grant_id : OauthLoginGrant → String
grant_id g = g.id

-- `{ id, status: Active }`
abbrev pub is_active_user : String → User → Bool
is_active_user id u = str_eq u.id id && is_active u.status
