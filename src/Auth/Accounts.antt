-- ===== src/Auth/Accounts.antt =====
-- Accounts: registration, login, the reset of a password, the profile and the deletion of
-- `AuthService` (src/auth/auth.service.ts). The clock is read once in a call. The deletion is that of
-- the tables of src/auth; what it redacts for src/career and src/github is left out.
use Prim.Native.String.{◌++◌}
use jagalchi_api.Base.{
  ℕ, String, Bool, false, Option, none, some, [], ◌∷◌, ◌&&◌, ◌||◌, not, str_eq, is_some, is_text,
  if◌then◌else◌, find_by, find_where, save, keep, any, ok, err, and_then,
}
use jagalchi_api.Tickets.Types
use jagalchi_api.Tickets.Service.{Balance, open_account}
use jagalchi_api.Auth.Types.{
  Auth, Runtime, Draws, User, active, suspended, AuthResult, Claims, EmailChallenge, password_reset,
  same_purpose, Outcome, user_id, challenge_id, is_active, registration_proof_not_valid,
  registration_proof_mismatch, email_registered, bad_password, reset_proof_not_valid,
  reset_proof_mismatch, reset_proof_used, invalid_credentials, ticket_error,
}
use jagalchi_api.Auth.Passwords.{hash_password, verify_password, is_empty}
use jagalchi_api.Auth.Sessions.{issue_session, revoke_where}
use jagalchi_api.Auth.Challenges.{normalize_email}

-- `RegisterDto`, `LoginDto` and `ResetPasswordDto`
pub record Registration : Type 0 where
  pub email : String
  pub name : String
  pub password : String
  pub registration_proof : String

pub record Login : Type 0 where
  pub email : String
  pub password : String

pub record PasswordReset : Type 0 where
  pub email : String
  pub reset_proof : String
  pub new_password : String

-- A proof of another kind, or for another address.
abbrev pub mismatched : String → String → Claims → Bool
mismatched kind email proof = not (is_text proof.kind kind) || not (is_text proof.sub email)

abbrev pub has_email : String → User → Bool
has_email email u = str_eq u.email email

abbrev pub new_user : String → String → String → Option String → User
new_user id email name password_hash = record {
  id = id;
  email = email;
  name = name;
  bio = none;
  profile_image_url = none;
  external_links = [];
  password_hash = password_hash;
  roles = "USER" ∷ [];
  status = active;
}

unfoldable pub tickets_answer : Types.Outcome Balance → Auth → Outcome (Unit {0}) × Auth
tickets_answer (Types.ok _) s = (ok tt, s)
tickets_answer (Types.err e) s = (err (ticket_error e), s)

-- `tickets.openAccount` for a new user, in its own transaction.
unfoldable pub open_tickets : String → Draws → Auth → Outcome (Unit {0}) × Auth
unfolding open_account tickets_answer
open_tickets user f s =
    let out = open_account user f.signup_id f.grant_id f.now s.tickets in
    tickets_answer out.0 (record s { tickets = out.1 })

module _ (rt : Runtime) where
  -- The end of `register`: the user is saved before the tickets are opened, and stays saved where
  -- that fails.
  unfoldable pub new_account : User → Draws → Auth → Outcome AuthResult × Auth
  unfolding open_tickets issue_session save and_then
  new_account user f s =
      let saved = record s { users = save user_id user s.users } in
      and_then (open_tickets user.id f saved) λ _ s'. issue_session rt user f s'

  unfoldable pub register : Registration → Draws → Auth → Outcome AuthResult × Auth
  unfolding normalize_email hash_password new_account any
  register dto f s =
      let email = normalize_email rt dto.email in
      elim (rt.verify dto.registration_proof f.now) [
        | none ↦ (err registration_proof_not_valid, s)
        | some proof ↦
            if mismatched "registration-proof" email proof
            then (err registration_proof_mismatch, s)
            else if any (has_email email) s.users
            then (err email_registered, s)
            else elim (hash_password rt dto.password f.salt) [
              | none ↦ (err bad_password, s)
              | some hash ↦ new_account (new_user f.id email (rt.trim dto.name) (some hash)) f s
            ]
      ]

  -- The test of `login` on the stored hash, of which an empty one is falsy.
  abbrev pub accepts : String → Option String → Bool
  accepts password none = false
  accepts password (some hash) = not (is_empty hash) && verify_password rt password hash

  unfoldable pub login : Login → Draws → Auth → Outcome AuthResult × Auth
  unfolding normalize_email verify_password issue_session find_where
  login dto f s = elim (find_where (has_email (normalize_email rt dto.email)) s.users) [
    | none ↦ (err invalid_credentials, s)
    | some user ↦
        if is_active user.status && accepts dto.password user.password_hash
        then issue_session rt user f s
        else (err invalid_credentials, s)
  ]

  -- The query of `resetPassword`.
  abbrev pub is_unused_proof : String → String → EmailChallenge → Bool
  is_unused_proof id email c =
      str_eq c.id id
      && str_eq c.email email
      && same_purpose c.purpose password_reset
      && not (is_some c.proof_used_at)

  -- What the transaction of `resetPassword` writes.
  unfoldable pub write_password : String → User → EmailChallenge → ℕ → Auth → Auth
  unfolding revoke_where save
  write_password hash user challenge now s = record s {
    users = save user_id (record user { password_hash = some hash }) s.users;
    challenges = save challenge_id (record challenge { proof_used_at = some now }) s.challenges;
    sessions = revoke_where (λ r. str_eq r.user_id user.id) now s.sessions;
  }

  -- The transaction of `resetPassword`.
  unfoldable pub use_proof : String → String → String → Draws → Auth → Outcome (Unit {0}) × Auth
  unfolding find_where hash_password write_password
  use_proof jti email new_password f s =
      elim (find_where (is_unused_proof jti email) s.challenges) [
        | none ↦ (err reset_proof_used, s)
        | some challenge ↦
            if not (is_some challenge.consumed_at)
            then (err reset_proof_used, s)
            else elim (find_where (has_email email) s.users) [
              | none ↦ (err reset_proof_not_valid, s)
              | some user ↦ elim (hash_password rt new_password f.salt) [
                | none ↦ (err bad_password, s)
                | some hash ↦ (ok tt, write_password hash user challenge f.now s)
              ]
            ]
      ]

  unfoldable pub reset_password : PasswordReset → Draws → Auth → Outcome (Unit {0}) × Auth
  unfolding normalize_email use_proof
  reset_password dto f s =
      let email = normalize_email rt dto.email in
      elim (rt.verify dto.reset_proof f.now) [
        | none ↦ (err reset_proof_not_valid, s)
        | some proof ↦
            if mismatched "password-reset-proof" email proof
            then (err reset_proof_mismatch, s)
            else elim proof.jti [
              | none ↦ (err reset_proof_mismatch, s)
              | some jti ↦ use_proof jti email dto.new_password f s
            ]
      ]

-- `deleteAccount`
abbrev pub closed_user : User → User
closed_user u = record u {
  status = suspended;
  email = u.id ++ "@deleted.invalid";
  name = "탈퇴한 사용자";
  password_hash = none;
  bio = none;
  profile_image_url = none;
  external_links = [];
}

unfoldable pub delete_account : String → ℕ → Auth → Auth
unfolding find_by save keep revoke_where
delete_account user now s = elim (find_by user_id user s.users) [
  | none ↦ s
  | some u ↦ record s {
    users = save user_id (closed_user u) s.users;
    identities = keep (λ i. not (str_eq i.user_id user)) s.identities;
    sessions = revoke_where (λ r. str_eq r.user_id user) now s.sessions;
  }
]
