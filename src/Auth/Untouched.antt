-- ===== src/Auth/Untouched.antt =====
-- The methods of src/auth/auth.service.ts that leave the table of refresh sessions alone.
use jagalchi_api.Base.{
  ℕ, String, Option, none, some, ◌≡◌, refl, ◌∙◌, inl, inr, Option-cases, Result-cases, find_where,
  find_by, and_then_ind, arith, ok, if◌then◌else◌, save,
}
use jagalchi_api.Auth.Types.{
  Auth, Runtime, Draws, User, ChallengePurpose, registration, password_reset, OauthProvider,
  OauthAttempt, Outcome, user_id, identity_id,
}
use jagalchi_api.Auth.Passwords.{is_empty}
use jagalchi_api.Auth.Challenges.{
  MailService, EmailTemplate, registration_code, password_reset_code, verify_email,
  verify_password_reset, normalize_email, post_code, send_email_challenge, send_email_verification,
  send_password_reset, verify_email_challenge,
}
use jagalchi_api.Auth.Profiles.{ProfileUpdate, update_profile}
use jagalchi_api.Auth.Accounts.{has_email, new_user, open_tickets}
use jagalchi_api.Auth.Oauth.{
  OauthConfig, Web, ProviderProfile, AttemptDraws, start_oauth, assert_oauth_enabled,
  consume_attempt, user_of_email, find_or_create_oauth_user, is_identity, new_identity,
  complete_oauth,
}
use jagalchi_api.Auth.Moves.{open_tickets-sessions}

-- The sessions are what they were.
abbrev pub Spares : {A : Type 0} → Auth → Outcome A × Auth → Type 0
Spares s out = out.1.sessions ≡ s.sessions

module _ (rt : Runtime) (s : Auth) where
  post_code-Spares :
      (ms : MailService) (email : String) (purpose : ChallengePurpose) (template : EmailTemplate)
      (id : String) (draw now : ℕ)
      → Spares s (post_code rt ms email purpose template id draw now s)
  unfolding post_code
  post_code-Spares ms email purpose template id draw now = ground arith

  send_email_challenge-Spares :
      (ms : MailService) (email : String) (purpose : ChallengePurpose) (template : EmailTemplate)
      (id : String) (draw now : ℕ)
      → Spares s (send_email_challenge rt ms email purpose template id draw now s)
  unfolding send_email_challenge
  send_email_challenge-Spares ms email purpose template id draw now =
      ground (arith, post_code-Spares ms (normalize_email rt email) purpose template id draw now)

  pub send_password_reset-Spares :
      (ms : MailService) (email id : String) (draw now : ℕ)
      → Spares s (send_password_reset rt ms email id draw now s)
  unfolding send_password_reset
  send_password_reset-Spares ms email id draw now = ground (
    arith,
    send_email_challenge-Spares ms (normalize_email rt email) password_reset password_reset_code id
        draw now,
  )

  verify_email_challenge-Spares :
      (email code : String) (purpose : ChallengePurpose) (kind : String) (now : ℕ)
      → Spares s (verify_email_challenge rt email code purpose kind now s)
  unfolding verify_email_challenge
  verify_email_challenge-Spares email code purpose kind now = ground arith

  pub send_email_verification-Spares :
      (ms : MailService) (email id : String) (draw now : ℕ)
      → Spares s (send_email_verification rt ms email id draw now s)
  unfolding send_email_verification
  send_email_verification-Spares ms email id draw now =
      send_email_challenge-Spares ms email registration registration_code id draw now

  pub verify_email-Spares :
      (email code : String) (now : ℕ) → Spares s (verify_email rt email code now s)
  unfolding verify_email
  verify_email-Spares email code now =
      verify_email_challenge-Spares email code registration "registration-proof" now

  pub verify_password_reset-Spares :
      (email code : String) (now : ℕ) → Spares s (verify_password_reset rt email code now s)
  unfolding verify_password_reset
  verify_password_reset-Spares email code now =
      verify_email_challenge-Spares email code password_reset "password-reset-proof" now

  pub update_profile-Spares :
      (id : String) (dto : ProfileUpdate) → Spares s (update_profile rt id dto s)
  unfolding update_profile
  update_profile-Spares id dto = ground arith

module _ (rt : Runtime) (c : OauthConfig) (web : Web) where
  pub start_oauth-Spares :
      (provider : OauthProvider) (requested : Option String) (f : AttemptDraws) (s : Auth)
      → Spares s (start_oauth rt c web provider requested f s)
  unfolding start_oauth
  start_oauth-Spares provider requested f s = ground arith

  consume_attempt-Spares :
      (provider : OauthProvider) (state : String) (now : ℕ) (s : Auth)
      → Spares s (consume_attempt rt c web provider state now s)
  unfolding consume_attempt
  consume_attempt-Spares provider state now s = ground arith

  user_of_email-Spares :
      (email name : String) (f : Draws) (s : Auth)
      → Spares s (user_of_email rt c web email name f s)
  unfolding user_of_email
  user_of_email-Spares email name f s = elim (Option-cases (find_where (has_email email) s.users)) [
    | inr (user, h) ↦ rw (h, user_of_email) refl
    | inl h ↦
        let short = web.first_60 name in
        let user = new_user f.id email (if is_empty short then "자갈치 사용자" else short) none in
        let saved = record s { users = save user_id user s.users } in
        let same = open_tickets-sessions rt f user.id saved in
        rw (h, user_of_email)
          (and_then_ind (Spares {A = User} s) (open_tickets user.id f saved) (λ _ s'. (ok user, s'))
            (λ _ _. same) (λ _ _. same))
  ]

  find_or_create_oauth_user-Spares :
      (provider : OauthProvider) (profile : ProviderProfile) (id : String) (f : Draws) (s : Auth)
      → Spares s (find_or_create_oauth_user rt c web provider profile id f s)
  unfolding find_or_create_oauth_user
  find_or_create_oauth_user-Spares provider profile id f s =
      elim (Option-cases (find_where (is_identity rt c web provider profile.id) s.identities)) [
        | inr (known, h) ↦ elim (Option-cases (find_by user_id known.user_id s.users)) [
          | inl k ↦ rw (h, find_or_create_oauth_user, k) refl
          | inr (user, k) ↦ rw (h, find_or_create_oauth_user, k) refl
        ]
        | inl h ↦
            let email = normalize_email rt profile.email in
            let same = user_of_email-Spares email profile.name f s in
            rw (h, find_or_create_oauth_user)
              (and_then_ind (Spares {A = User} s) (user_of_email rt c web email profile.name f s)
                (λ user s'.
                  let linked = new_identity rt c web id user.id provider profile.id email in
                  (ok user, record s' { identities = save identity_id linked s'.identities }))
                (λ _ _. same) (λ _ _. same))
      ]

  pub complete_oauth-Spares :
      (fetch : OauthProvider → String → OauthAttempt → Outcome ProviderProfile)
      (provider : OauthProvider) (code state identity grant : String) (f : Draws) (s : Auth)
      → Spares s (complete_oauth rt c web fetch provider code state identity grant f s)
  unfolding complete_oauth
  complete_oauth-Spares fetch provider code state identity grant f s =
      elim (Result-cases (assert_oauth_enabled c (some provider))) [
        | inr (e, h) ↦ rw (h, complete_oauth) refl
        | inl (_, h) ↦
            let used = consume_attempt rt c web provider state f.now s in
            let same = consume_attempt-Spares provider state f.now s in
            rw (h, complete_oauth)
              (and_then_ind (Spares {A = String} s) used _ (λ _ _. same)
                (λ attempt _.
                  and_then_ind (Spares {A = String} s) (fetch provider code attempt, used.1) _
                    (λ _ _. same)
                    (λ profile _.
                      let same' =
                        find_or_create_oauth_user-Spares provider profile identity f used.1
                        ∙ same in
                      and_then_ind (Spares {A = String} s)
                        (find_or_create_oauth_user rt c web provider profile identity f used.1) _
                        (λ _ _. same') (λ _ _. same'))))
      ]
