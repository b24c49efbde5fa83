-- ===== src/Auth/Run.antt =====
-- Sequences of calls of `AuthService` (src/auth/auth.service.ts), and what they keep of the sessions.
use jagalchi_api.Base.{ℕ, String, Option, List, [], ◌∷◌, ◌≡◌, ◌≢◌, sym, subst, All}
use jagalchi_api.Auth.Types.{
  Auth, Runtime, Draws, OauthProvider, OauthAttempt, Outcome, RefreshSession,
}
use jagalchi_api.Auth.Sessions.{refresh, revoke}
use jagalchi_api.Auth.Challenges.{
  MailService, send_email_verification, send_password_reset, verify_email, verify_password_reset,
}
use jagalchi_api.Auth.Accounts.{
  Registration, Login, PasswordReset, register, login, reset_password, delete_account,
}
use jagalchi_api.Auth.Profiles.{ProfileUpdate, update_profile}
use jagalchi_api.Auth.Oauth.{
  OauthConfig, Web, ProviderProfile, AttemptDraws, start_oauth, complete_oauth,
  exchange_oauth_grant,
}
use jagalchi_api.Auth.Moves.{
  Move, kept, refresh-Moves, revoke-Moves, register-Moves, login-Moves, reset_password-Moves,
  delete_account-Moves, exchange_oauth_grant-Moves,
}
use jagalchi_api.Auth.Families.{
  HasOneLive, IsNew, IsClosed, IsEnded, Move-HasOneLive, Move-IsClosed, Move-IsEnded,
}
use jagalchi_api.Auth.Untouched.{
  send_email_verification-Spares, send_password_reset-Spares, verify_email-Spares,
  verify_password_reset-Spares, update_profile-Spares, start_oauth-Spares, complete_oauth-Spares,
}

-- What the service is built with.
pub record Platform : Type 0 where
  pub rt : Runtime
  pub mail : MailService
  pub config : OauthConfig
  pub web : Web
  pub fetch : OauthProvider → String → OauthAttempt → Outcome ProviderProfile

-- The public methods that write.
pub data Request : Type 0 where
  send_email_verification_of send_password_reset_of : String → ℕ → Request
  verify_email_of verify_password_reset_of : String → String → Request
  register_of : Registration → Request
  login_of : Login → Request
  reset_password_of : PasswordReset → Request
  update_profile_of : String → ProfileUpdate → Request
  delete_account_of : String → Request
  refresh_of : String → Request
  revoke_of : Option String → Request
  start_oauth_of : OauthProvider → Option String → AttemptDraws → Request
  complete_oauth_of : OauthProvider → String → String → String → String → Request
  exchange_oauth_grant_of : String → Request

unfoldable pub perform : Platform → Request → Draws → Auth → Auth
perform p (send_email_verification_of email draw) f s =
    (send_email_verification p.rt p.mail email f.id draw f.now s).1
perform p (send_password_reset_of email draw) f s =
    (send_password_reset p.rt p.mail email f.id draw f.now s).1
perform p (verify_email_of email code) f s = (verify_email p.rt email code f.now s).1
perform p (verify_password_reset_of email code) f s =
    (verify_password_reset p.rt email code f.now s).1
perform p (register_of dto) f s = (register p.rt dto f s).1
perform p (login_of dto) f s = (login p.rt dto f s).1
perform p (reset_password_of dto) f s = (reset_password p.rt dto f s).1
perform p (update_profile_of user dto) f s = (update_profile p.rt user dto s).1
perform p (delete_account_of user) f s = delete_account user f.now s
perform p (refresh_of raw) f s = (refresh p.rt raw f s).1
perform p (revoke_of raw) f s = revoke p.rt raw f.now s
perform p (start_oauth_of provider requested a) f s =
    (start_oauth p.rt p.config p.web provider requested a s).1
perform p (complete_oauth_of provider code state identity grant) f s =
    (complete_oauth p.rt p.config p.web p.fetch provider code state identity grant f s).1
perform p (exchange_oauth_grant_of raw) f s = (exchange_oauth_grant p.rt p.config p.web raw f s).1

unfoldable pub run : Platform → List (Request × Draws) → Auth → Auth
unfolding perform
run p [] s = s
run p ((r, f) ∷ rest) s = run p rest (perform p r f s)

-- Whatever is drawn for a session is new when it is drawn.
unfoldable pub IsNewRun : Platform → List (Request × Draws) → Auth → Type 0
unfolding perform
IsNewRun p [] s = Unit
IsNewRun p ((r, f) ∷ rest) s = All (IsNew p.rt f) s.sessions × IsNewRun p rest (perform p r f s)

-- No call draws the token of that hash.
abbrev pub NeverDrawn : Platform → String → List (Request × Draws) → Type 0
NeverDrawn p hash [] = Unit
NeverDrawn p hash ((r, f) ∷ rest) = (p.rt.sha256 f.token ≢ hash) × NeverDrawn p hash rest

-- No call draws that family.
abbrev pub NeverOpened : String → List (Request × Draws) → Type 0
NeverOpened family [] = Unit
NeverOpened family ((r, f) ∷ rest) = (f.family_id ≢ family) × NeverOpened family rest

spared : {rt : Runtime} {f : Draws} {xs ys : List RefreshSession} → ys ≡ xs → Move rt f xs ys
spared {rt} {f} {xs} e = subst (λ zs. Move rt f xs zs) (sym e) kept

-- Every request changes the sessions by one move of its own draws.
pub perform-Move :
    (p : Platform) (r : Request) (f : Draws) (s : Auth)
    → Move p.rt f s.sessions (perform p r f s).sessions
unfolding perform
perform-Move p (send_email_verification_of email draw) f s =
    spared (send_email_verification-Spares p.rt s p.mail email f.id draw f.now)
perform-Move p (send_password_reset_of email draw) f s =
    spared (send_password_reset-Spares p.rt s p.mail email f.id draw f.now)
perform-Move p (verify_email_of email code) f s =
    spared (verify_email-Spares p.rt s email code f.now)
perform-Move p (verify_password_reset_of email code) f s =
    spared (verify_password_reset-Spares p.rt s email code f.now)
perform-Move p (register_of dto) f s = register-Moves p.rt f dto s
perform-Move p (login_of dto) f s = login-Moves p.rt f dto s
perform-Move p (reset_password_of dto) f s = reset_password-Moves p.rt f dto s
perform-Move p (update_profile_of user dto) f s = spared (update_profile-Spares p.rt s user dto)
perform-Move p (delete_account_of user) f s = delete_account-Moves p.rt f user f.now s
perform-Move p (refresh_of raw) f s = refresh-Moves p.rt f raw s
perform-Move p (revoke_of raw) f s = revoke-Moves p.rt f raw f.now s
perform-Move p (start_oauth_of provider requested a) f s =
    spared (start_oauth-Spares p.rt p.config p.web provider requested a s)
perform-Move p (complete_oauth_of provider code state identity grant) f s =
    spared
      (complete_oauth-Spares p.rt p.config p.web p.fetch provider code state identity grant f s)
perform-Move p (exchange_oauth_grant_of raw) f s =
    exchange_oauth_grant-Moves p.rt p.config p.web f raw s

-- In every state that a sequence of calls reaches, session identifiers and tokens are distinct and
-- no family has two live sessions, where this held at first and what each call draws is new.
pub run-HasOneLive :
    (p : Platform) (calls : List (Request × Draws)) (s : Auth)
    → HasOneLive s.sessions
    → IsNewRun p calls s
    → HasOneLive (run p calls s).sessions
unfolding run IsNewRun
run-HasOneLive p [] s good new = good
run-HasOneLive p ((r, f) ∷ rest) s good new =
    run-HasOneLive p rest (perform p r f s) (Move-HasOneLive new.0 good (perform-Move p r f s))
      new.1

pub run-IsClosed :
    (p : Platform) (hash : String) (calls : List (Request × Draws)) (s : Auth)
    → NeverDrawn p hash calls
    → IsClosed hash s.sessions
    → IsClosed hash (run p calls s).sessions
unfolding run
run-IsClosed p hash [] s never h = h
run-IsClosed p hash ((r, f) ∷ rest) s never h =
    run-IsClosed p hash rest (perform p r f s) never.1
      (Move-IsClosed hash never.0 h (perform-Move p r f s))

pub run-IsEnded :
    (p : Platform) (family : String) (calls : List (Request × Draws)) (s : Auth)
    → NeverOpened family calls
    → IsEnded family s.sessions
    → IsEnded family (run p calls s).sessions
unfolding run
run-IsEnded p family [] s never h = h
run-IsEnded p family ((r, f) ∷ rest) s never h =
    run-IsEnded p family rest (perform p r f s) never.1
      (Move-IsEnded family never.0 h (perform-Move p r f s))
