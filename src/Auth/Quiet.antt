-- ===== src/Auth/Quiet.antt =====
-- The methods that leave the table of challenges alone (src/auth/auth.service.ts).
use jagalchi_api.Base.{
  ℕ, String, Option, none, some, ◌≡◌, refl, ◌∙◌, inl, inr, if◌then◌else◌, Option-cases,
  Result-cases, find_where, save, arith, ok, and_then_ind,
}
use jagalchi_api.Tickets.Types
use jagalchi_api.Tickets.Service.{Balance, open_account}
use jagalchi_api.Auth.Types.{
  Auth, Runtime, Draws, User, Outcome, OauthProvider, OauthAttempt, AuthResult, RefreshSession,
  user_id, identity_id,
}
use jagalchi_api.Auth.Passwords.{hash_password, is_empty}
use jagalchi_api.Auth.Sessions.{issue_session, rotate, refresh_session, refresh, revoke}
use jagalchi_api.Auth.Challenges.{normalize_email}
use jagalchi_api.Auth.Accounts.{
  Registration, Login, register, new_account, login, open_tickets, tickets_answer, new_user,
  has_email, delete_account,
}
use jagalchi_api.Auth.Profiles.{ProfileUpdate, update_profile}
use jagalchi_api.Auth.Oauth.{
  OauthConfig, Web, ProviderProfile, AttemptDraws, start_oauth, complete_oauth,
  exchange_oauth_grant, consume_grant, consume_attempt, assert_oauth_enabled,
  find_or_create_oauth_user, user_of_email, is_identity, new_identity,
}
use jagalchi_api.Auth.Moves.{refresh_ind}

-- The challenges are what they were.
abbrev pub Keeps : {A : Type 0} → Auth → Outcome A × Auth → Type 0
Keeps s out = out.1.challenges ≡ s.challenges

module _ (rt : Runtime) where
  tickets_answer-Keeps : (o : Types.Outcome Balance) (s : Auth) → Keeps s (tickets_answer o s)
  unfolding tickets_answer
  tickets_answer-Keeps (Types.ok _) s = refl
  tickets_answer-Keeps (Types.err e) s = refl

  open_tickets-Keeps : (user : String) (f : Draws) (s : Auth) → Keeps s (open_tickets user f s)
  unfolding open_tickets
  open_tickets-Keeps user f s =
      let out = open_account user f.signup_id f.grant_id f.now s.tickets in
      tickets_answer-Keeps out.0 (record s { tickets = out.1 })

  issue_session-Keeps : (user : User) (f : Draws) (s : Auth) → Keeps s (issue_session rt user f s)
  unfolding issue_session
  issue_session-Keeps user f s = refl

  refresh_session-Keeps :
      (t : RefreshSession) (f : Draws) (s : Auth) → Keeps s (refresh_session rt t f s)
  unfolding refresh_session rotate
  refresh_session-Keeps t f s = ground arith

  pub refresh-Keeps : (raw : String) (f : Draws) (s : Auth) → Keeps s (refresh rt raw f s)
  refresh-Keeps raw f s =
      refresh_ind rt f (Keeps {A = AuthResult} s) raw s refl
        (λ _ _ t _ _ _ _. refresh_session-Keeps t f s)

  pub login-Keeps : (dto : Login) (f : Draws) (s : Auth) → Keeps s (login rt dto f s)
  unfolding login issue_session
  login-Keeps dto f s = ground arith

  new_account-Keeps : (user : User) (f : Draws) (s : Auth) → Keeps s (new_account rt user f s)
  unfolding new_account issue_session
  new_account-Keeps user f s =
      let saved = record s { users = save user_id user s.users } in
      let same = open_tickets-Keeps user.id f saved in
      and_then_ind (Keeps {A = AuthResult} s) (open_tickets user.id f saved)
        (λ _ s'. issue_session rt user f s') (λ _ _. same) (λ _ _. same)

  pub register-Keeps : (dto : Registration) (f : Draws) (s : Auth) → Keeps s (register rt dto f s)
  unfolding register
  register-Keeps dto f s = elim (Option-cases (hash_password rt dto.password f.salt)) [
    | inl h ↦ ground arith
    | inr (hash, h) ↦ ground (
      arith,
      new_account-Keeps
          (new_user f.id (normalize_email rt dto.email) (rt.trim dto.name) (some hash)) f s,
    )
  ]

  pub revoke-Keeps :
      (raw : Option String) (now : ℕ) (s : Auth) → (revoke rt raw now s).challenges ≡ s.challenges
  unfolding revoke
  revoke-Keeps none now s = refl
  revoke-Keeps (some raw) now s = ground arith

  pub update_profile-Keeps :
      (id : String) (dto : ProfileUpdate) (s : Auth) → Keeps s (update_profile rt id dto s)
  unfolding update_profile
  update_profile-Keeps id dto s = ground arith

pub delete_account-Keeps :
    (id : String) (now : ℕ) (s : Auth) → (delete_account id now s).challenges ≡ s.challenges
unfolding delete_account
delete_account-Keeps id now s = ground arith

module _ (rt : Runtime) (c : OauthConfig) (web : Web) where
  pub start_oauth-Keeps :
      (provider : OauthProvider) (requested : Option String) (f : AttemptDraws) (s : Auth)
      → Keeps s (start_oauth rt c web provider requested f s)
  unfolding start_oauth
  start_oauth-Keeps provider requested f s = ground arith

  consume_attempt-Keeps :
      (provider : OauthProvider) (state : String) (now : ℕ) (s : Auth)
      → Keeps s (consume_attempt rt c web provider state now s)
  unfolding consume_attempt
  consume_attempt-Keeps provider state now s = ground arith

  user_of_email-Keeps :
      (email name : String) (f : Draws) (s : Auth) → Keeps s (user_of_email rt c web email name f s)
  unfolding user_of_email
  user_of_email-Keeps email name f s = elim (Option-cases (find_where (has_email email) s.users)) [
    | inr (user, h) ↦ rw (h, user_of_email) refl
    | inl h ↦
        let short = web.first_60 name in
        let user = new_user f.id email (if is_empty short then "자갈치 사용자" else short) none in
        let saved = record s { users = save user_id user s.users } in
        let same = open_tickets-Keeps rt user.id f saved in
        rw (h, user_of_email)
          (and_then_ind (Keeps {A = User} s) (open_tickets user.id f saved) (λ _ s'. (ok user, s'))
            (λ _ _. same) (λ _ _. same))
  ]

  find_or_create_oauth_user-Keeps :
      (provider : OauthProvider) (profile : ProviderProfile) (id : String) (f : Draws) (s : Auth)
      → Keeps s (find_or_create_oauth_user rt c web provider profile id f s)
  unfolding find_or_create_oauth_user
  find_or_create_oauth_user-Keeps provider profile id f s =
      elim (Option-cases (find_where (is_identity rt c web provider profile.id) s.identities)) [
        | inr (known, h) ↦ ground arith
        | inl h ↦
            let email = normalize_email rt profile.email in
            let same = user_of_email-Keeps email profile.name f s in
            rw (h, find_or_create_oauth_user)
              (and_then_ind (Keeps {A = User} s) (user_of_email rt c web email profile.name f s)
                (λ user s'.
                  let linked = new_identity rt c web id user.id provider profile.id email in
                  (ok user, record s' { identities = save identity_id linked s'.identities }))
                (λ _ _. same) (λ _ _. same))
      ]

  pub complete_oauth-Keeps :
      (fetch : OauthProvider → String → OauthAttempt → Outcome ProviderProfile)
      (provider : OauthProvider) (code state identity grant : String) (f : Draws) (s : Auth)
      → Keeps s (complete_oauth rt c web fetch provider code state identity grant f s)
  unfolding complete_oauth
  complete_oauth-Keeps fetch provider code state identity grant f s =
      elim (Result-cases (assert_oauth_enabled c (some provider))) [
        | inr (e, h) ↦ rw (h, complete_oauth) refl
        | inl (_, h) ↦
            let used = consume_attempt rt c web provider state f.now s in
            let same = consume_attempt-Keeps provider state f.now s in
            rw (h, complete_oauth)
              (and_then_ind (Keeps {A = String} s) used _ (λ _ _. same)
                (λ attempt _.
                  and_then_ind (Keeps {A = String} s) (fetch provider code attempt, used.1) _
                    (λ _ _. same)
                    (λ profile _.
                      let same' =
                        find_or_create_oauth_user-Keeps provider profile identity f used.1 ∙ same in
                      and_then_ind (Keeps {A = String} s)
                        (find_or_create_oauth_user rt c web provider profile identity f used.1) _
                        (λ _ _. same') (λ _ _. same'))))
      ]

  consume_grant-Keeps :
      (raw : String) (now : ℕ) (s : Auth) → Keeps s (consume_grant rt c web raw now s)
  unfolding consume_grant
  consume_grant-Keeps raw now s = ground arith

  pub exchange_oauth_grant-Keeps :
      (raw : String) (f : Draws) (s : Auth) → Keeps s (exchange_oauth_grant rt c web raw f s)
  unfolding exchange_oauth_grant issue_session
  exchange_oauth_grant-Keeps raw f s = elim (Result-cases (assert_oauth_enabled c none)) [
    | inr (e, h) ↦ rw (h, exchange_oauth_grant) refl
    | inl (_, h) ↦
        let same = consume_grant-Keeps raw f.now s in
        rw (h, exchange_oauth_grant)
          (and_then_ind (Keeps {A = AuthResult} s) (consume_grant rt c web raw f.now s)
            (λ user s'. issue_session rt user f s') (λ _ _. same) (λ _ _. same))
  ]
