-- ===== src/Auth/Oauth.antt =====
-- Logins through a provider: the OAuth methods of `AuthService` (src/auth/auth.service.ts). The
-- provider's answer is a parameter; the clock is read once in a call.
use Prim.Native.String.{◌++◌ as ◌<>◌}
use mathlib.Core.List.{◌++◌}
use jagalchi_api.Base.{
  ℕ, String, Bool, false, Option, none, some, List, [], ◌∷◌, ◌+◌, ◌*◌, ◌&&◌, ◌||◌, not, str_eq,
  is_some, is_text, ltb, if◌then◌else◌, find_by, find_where, save, ok, err, and_then,
}
use jagalchi_api.Auth.Types.{
  Auth, Runtime, Draws, User, OauthProvider, google, github, apple, OauthIdentity, OauthAttempt,
  OauthLoginGrant, AuthResult, Outcome, Url, user_id, attempt_id, grant_id, identity_id,
  same_provider, is_active_user, oauth_disabled, provider_disabled, not_configured, config_missing,
  url_not_valid, return_url_not_allowed, state_not_valid, account_not_available, code_not_valid,
  user_not_active,
}
use jagalchi_api.Auth.Passwords.{is_empty}
use jagalchi_api.Auth.Sessions.{issue_session}
use jagalchi_api.Auth.Challenges.{normalize_email}
use jagalchi_api.Auth.Accounts.{has_email, new_user, open_tickets}

-- The settings that the methods read.
pub record OauthConfig : Type 0 where
  pub oauth_enabled : Option String
  pub apple_enabled : Option String
  pub google_client_id : Option String
  pub github_client_id : Option String
  pub apple_client_id : Option String
  pub public_api_url : Option String
  pub web_app_url : Option String

-- What the platform does with addresses and texts: `new URL(path, base)`, written again, the query of
-- some parameters, the address with a search parameter set, the base64url text of the SHA-256
-- digest, and the first 60 units of a text.
pub record Web : Type 0 where
  pub resolve : String → String → Option String
  pub query : List (String × String) → String
  pub with_param : String → String → String → String
  pub code_challenge : String → String
  pub first_60 : String → String

pub record ProviderProfile : Type 0 where
  pub id : String
  pub email : String
  pub name : String

-- The random values and the identifier of an attempt.
pub record AttemptDraws : Type 0 where
  pub now : ℕ
  pub id : String
  pub state : String
  pub nonce : String
  pub code_verifier : String

abbrev pub provider_name : OauthProvider → String
provider_name google = "google"
provider_name github = "github"
provider_name apple = "apple"

abbrev is_apple : Option OauthProvider → Bool
is_apple none = false
is_apple (some p) = same_provider p apple

-- `assertOAuthEnabled`
unfoldable pub assert_oauth_enabled : OauthConfig → Option OauthProvider → Outcome (Unit {0})
assert_oauth_enabled c provider =
    if not (is_text c.oauth_enabled "true")
    then err oauth_disabled
    else if is_apple provider && not (is_text c.apple_enabled "true")
    then err provider_disabled
    else ok tt

-- `providerClientId`
unfoldable pub provider_client_id : OauthConfig → OauthProvider → Outcome String
provider_client_id c provider =
    let id : Option String = elim provider [
      | google ↦ c.google_client_id
      | github ↦ c.github_client_id
      | apple ↦ c.apple_client_id
    ] in
    elim id [ none ↦ err not_configured | some i ↦ ok i ]

-- `oauthCallbackUrl`
unfoldable pub oauth_callback_url : OauthConfig → Web → OauthProvider → Outcome String
oauth_callback_url c web provider = elim c.public_api_url [
  | none ↦ err config_missing
  | some base ↦ elim (web.resolve ("/api/users/auth/callback/" <> provider_name provider) base) [
    | none ↦ err url_not_valid
    | some url ↦ ok url
  ]
]

module _ (rt : Runtime) (c : OauthConfig) (web : Web) where
  -- The test of `validateReturnUrl` on the parsed address.
  unfoldable pub is_allowed : Url → String → Bool
  is_allowed candidate web_origin =
      (str_eq candidate.protocol "jagalchi:"
        && str_eq candidate.hostname "oauth"
        && str_eq candidate.pathname "/callback")
      || str_eq candidate.origin web_origin

  -- `validateReturnUrl` of an address that is given.
  unfoldable pub check_return_url : String → String → Outcome String
  unfolding is_allowed
  check_return_url requested web_app = elim (rt.parse_url requested) [
    | none ↦ err url_not_valid
    | some candidate ↦ elim (rt.parse_url web_app) [
      | none ↦ err url_not_valid
      | some app ↦
          if is_allowed candidate app.origin then ok candidate.href else err return_url_not_allowed
    ]
  ]

  -- `validateReturnUrl`, in which an empty address counts as none.
  unfoldable pub validate_return_url : Option String → Outcome String
  unfolding check_return_url
  validate_return_url requested = elim c.web_app_url [
    | none ↦ err config_missing
    | some web_app ↦ elim (web.resolve "/auth/callback" web_app) [
      | none ↦ err url_not_valid
      | some fallback ↦ elim requested [
        | none ↦ ok fallback
        | some r ↦ if is_empty r then ok fallback else check_return_url r web_app
      ]
    ]
  ]

  -- The address of the provider's page.
  unfoldable pub authorize_url : OauthProvider → String → String → String → String → String → String
  authorize_url provider client_id redirect_uri state nonce challenge =
      let base =
        ("client_id", client_id)
        ∷ ("redirect_uri", redirect_uri)
        ∷ ("response_type", "code")
        ∷ ("state", state)
        ∷ [] in
      let pkce = ("code_challenge", challenge) ∷ ("code_challenge_method", "S256") ∷ [] in
      elim provider [
        | google ↦
            "https://accounts.google.com/o/oauth2/v2/auth?"
            <> web.query
                (base ++ (("nonce", nonce) ∷ pkce) ++ (("scope", "openid email profile") ∷ []))
        | github ↦
            "https://github.com/login/oauth/authorize?"
            <> web.query (base ++ pkce ++ (("scope", "read:user user:email") ∷ []))
        | apple ↦
            "https://appleid.apple.com/auth/authorize?"
            <> web.query (
                base
                ++ (("nonce", nonce) ∷ pkce)
                ++ (("scope", "name email") ∷ ("response_mode", "form_post") ∷ []))
      ]

  abbrev pub new_attempt : OauthProvider → String → AttemptDraws → OauthAttempt
  new_attempt provider return_url f = record {
    id = f.id;
    state = f.state;
    provider = provider;
    code_verifier = f.code_verifier;
    nonce = f.nonce;
    return_url = return_url;
    expires_at = f.now + 10 * 60000;
    consumed_at = none;
  }

  -- `startOAuth`: the attempt is saved before the settings of the provider are read.
  unfoldable pub start_oauth :
      OauthProvider → Option String → AttemptDraws → Auth → Outcome String × Auth
  unfolding assert_oauth_enabled validate_return_url oauth_callback_url provider_client_id
      authorize_url save
  start_oauth provider requested f s = elim (assert_oauth_enabled c (some provider)) [
    | err e ↦ (err e, s)
    | ok _ ↦ elim (validate_return_url requested) [
      | err e ↦ (err e, s)
      | ok return_url ↦
          let s' = record s {
            attempts = save attempt_id (new_attempt provider return_url f) s.attempts;
          } in
          elim (oauth_callback_url c web provider) [
            | err e ↦ (err e, s')
            | ok redirect_uri ↦ elim (provider_client_id c provider) [
              | err e ↦ (err e, s')
              | ok client_id ↦ (
                ok (
                    authorize_url provider client_id redirect_uri f.state f.nonce
                      (web.code_challenge f.code_verifier)),
                s',
              )
            ]
          ]
    ]
  ]

  -- The query and the transaction of `completeOAuth`.
  unfoldable pub is_open_attempt : String → OauthProvider → ℕ → OauthAttempt → Bool
  is_open_attempt state provider now a =
      str_eq a.state state
      && same_provider a.provider provider
      && not (is_some a.consumed_at)
      && ltb now a.expires_at

  unfoldable pub consume_attempt : OauthProvider → String → ℕ → Auth → Outcome OauthAttempt × Auth
  unfolding is_open_attempt find_where save
  consume_attempt provider state now s =
      elim (find_where (is_open_attempt state provider now) s.attempts) [
        | none ↦ (err state_not_valid, s)
        | some current ↦
            let used = record current { consumed_at = some now } in
            (ok used, record s { attempts = save attempt_id used s.attempts })
      ]

  -- The user of a profile whose identity is new: one of the same address, or a new one.
  unfoldable pub user_of_email : String → String → Draws → Auth → Outcome User × Auth
  unfolding open_tickets find_where save and_then
  user_of_email email name f s = elim (find_where (has_email email) s.users) [
    | some user ↦ (ok user, s)
    | none ↦
        let short = web.first_60 name in
        let user = new_user f.id email (if is_empty short then "자갈치 사용자" else short) none in
        let saved = record s { users = save user_id user s.users } in
        and_then (open_tickets user.id f saved) λ _ s'. (ok user, s')
  ]

  abbrev pub is_identity : OauthProvider → String → OauthIdentity → Bool
  is_identity provider id i = same_provider i.provider provider && str_eq i.provider_user_id id

  abbrev pub new_identity : String → String → OauthProvider → String → String → OauthIdentity
  new_identity id user provider provider_user_id email = record {
    id = id;
    user_id = user;
    provider = provider;
    provider_user_id = provider_user_id;
    email = email;
  }

  -- `findOrCreateOAuthUser`; `identity` is the identifier of the new identity.
  unfoldable pub find_or_create_oauth_user :
      OauthProvider → ProviderProfile → String → Draws → Auth → Outcome User × Auth
  unfolding user_of_email normalize_email find_where find_by save and_then
  find_or_create_oauth_user provider profile identity f s =
      elim (find_where (is_identity provider profile.id) s.identities) [
        | some known ↦ elim (find_by user_id known.user_id s.users) [
          | none ↦ (err account_not_available, s)
          | some user ↦ (ok user, s)
        ]
        | none ↦
            let email = normalize_email rt profile.email in
            and_then (user_of_email email profile.name f s) λ user s'.
              let linked = new_identity identity user.id provider profile.id email in
              (ok user, record s' { identities = save identity_id linked s'.identities })
      ]

  abbrev pub new_grant : User → String → String → ℕ → OauthLoginGrant
  new_grant user id raw now = record {
    id = id;
    user_id = user.id;
    code_hash = rt.sha256 raw;
    expires_at = now + 2 * 60000;
    consumed_at = none;
  }

  -- `completeOAuth`; `fetch` stands for `fetchProviderProfile`. The attempt stays consumed where what
  -- follows throws.
  unfoldable pub complete_oauth :
      (OauthProvider → String → OauthAttempt → Outcome ProviderProfile)
      → OauthProvider
      → String
      → String
      → String
      → String
      → Draws
      → Auth
      → Outcome String × Auth
  unfolding assert_oauth_enabled consume_attempt find_or_create_oauth_user save and_then
  complete_oauth fetch provider code state identity grant f s =
      elim (assert_oauth_enabled c (some provider)) [
        | err e ↦ (err e, s)
        | ok _ ↦ and_then (consume_attempt provider state f.now s) λ attempt s₁.
            and_then (fetch provider code attempt, s₁)
              λ profile s₂.
                and_then (find_or_create_oauth_user provider profile identity f s₂) λ user s₃.
                  let made = new_grant user grant f.token f.now in
                  (
                    ok (web.with_param attempt.return_url "code" f.token),
                    record s₃ { grants = save grant_id made s₃.grants },
                  )
      ]

  unfoldable pub is_open_grant : String → ℕ → OauthLoginGrant → Bool
  is_open_grant raw now g =
      str_eq g.code_hash (rt.sha256 raw) && not (is_some g.consumed_at) && ltb now g.expires_at

  -- The transaction of `exchangeOAuthGrant`: a grant of a user who is not active stays as it was.
  unfoldable pub consume_grant : String → ℕ → Auth → Outcome User × Auth
  unfolding is_open_grant find_where save
  consume_grant raw now s = elim (find_where (is_open_grant raw now) s.grants) [
    | none ↦ (err code_not_valid, s)
    | some grant ↦ elim (find_where (is_active_user grant.user_id) s.users) [
      | none ↦ (err user_not_active, s)
      | some user ↦ (
        ok user,
        record s { grants = save grant_id (record grant { consumed_at = some now }) s.grants },
      )
    ]
  ]

  -- `exchangeOAuthGrant`
  unfoldable pub exchange_oauth_grant : String → Draws → Auth → Outcome AuthResult × Auth
  unfolding assert_oauth_enabled consume_grant issue_session and_then
  exchange_oauth_grant raw f s = elim (assert_oauth_enabled c none) [
    | err e ↦ (err e, s)
    | ok _ ↦ and_then (consume_grant raw f.now s) λ user s'. issue_session rt user f s'
  ]
