-- ===== src/Auth/Codes.antt =====
-- The one-time codes over sequences of calls (src/auth/auth.service.ts).
use jagalchi_api.Base.{
  ℕ, String, Bool, true, false, some, List, [], ◌∷◌, ◌≡◌, refl, sym, subst, inl, inr, ◌+◌, ◌≤◌,
  is_some, str_eq, not, ltb, leb, if_ind, Option-cases, find_where, save, All, All-save, All-keep,
  All-find_where, any, arith,
}
use jagalchi_api.Auth.Types.{
  Auth, Runtime, Draws, EmailChallenge, ChallengePurpose, registration, password_reset, Outcome,
  challenge_id,
}
use jagalchi_api.Auth.Passwords.{hash_password, same_bytes}
use jagalchi_api.Auth.Challenges.{
  MailService, EmailTemplate, registration_code, password_reset_code, normalize_email, newest_where,
  is_open_challenge, is_challenge_of, hash_verification_code, new_challenge, verification_code,
  deliver, post_code, send_email_challenge, send_email_verification, send_password_reset,
  verify_email_challenge, verify_email, verify_password_reset,
}
use jagalchi_api.Auth.Accounts.{
  PasswordReset, has_email, mismatched, reset_password, use_proof, write_password, is_unused_proof,
}
use jagalchi_api.Auth.Recovering.{IsUnspent, All-newest_where, split_open, newest_where-holds}
use jagalchi_api.Auth.Quiet.{
  refresh-Keeps, login-Keeps, register-Keeps, revoke-Keeps, update_profile-Keeps,
  delete_account-Keeps, start_oauth-Keeps, complete_oauth-Keeps, exchange_oauth_grant-Keeps,
}
use jagalchi_api.Auth.Run.{
  Platform, Request, register_of, login_of, reset_password_of, update_profile_of, delete_account_of,
  refresh_of, revoke_of, send_email_verification_of, send_password_reset_of, verify_email_of,
  verify_password_reset_of, start_oauth_of, complete_oauth_of, exchange_oauth_grant_of, perform,
  run,
}

-- At most five attempts were made at a code, and its proof was used only once it was accepted.
abbrev pub IsFair : EmailChallenge → Type 0
IsFair c = (c.attempts ≤ 5) × IsUnspent c

abbrev pub AllFair : Auth → Type 0
AllFair s = All IsFair s.challenges

module _ (rt : Runtime) (s : Auth) (fair : AllFair s) where
  post_code-AllFair :
      (ms : MailService) (email : String) (purpose : ChallengePurpose) (template : EmailTemplate)
      (id : String) (draw now : ℕ)
      → AllFair (post_code rt ms email purpose template id draw now s).1
  unfolding post_code
  post_code-AllFair ms email purpose template id draw now =
      let code = verification_code draw in
      let new = new_challenge rt email purpose id code now in
      let saved : All IsFair (save challenge_id new s.challenges) =
        All-save challenge_id IsFair new s.challenges fair ((omega arith), (λ _. refl)) in
      if_ind (λ (out : Outcome (Unit {0}) × Auth). AllFair out.1) (deliver rt ms template new code)
        (λ _. saved) (λ _. All-keep IsFair (λ c. not (str_eq c.id new.id)) _ saved)

  send_email_challenge-AllFair :
      (ms : MailService) (email : String) (purpose : ChallengePurpose) (template : EmailTemplate)
      (id : String) (draw now : ℕ)
      → AllFair (send_email_challenge rt ms email purpose template id draw now s).1
  unfolding send_email_challenge
  send_email_challenge-AllFair ms email purpose template id draw now =
      let address = normalize_email rt email in
      let posted = post_code-AllFair ms address purpose template id draw now in
      elim (Option-cases (newest_where (is_challenge_of address purpose) s.challenges)) [
        | inl h ↦ rw (h, send_email_challenge) posted
        | inr (recent, h) ↦
            rw (h, send_email_challenge)
              (if_ind (λ (out : Outcome (Unit {0}) × Auth). AllFair out.1)
                (ltb now (recent.created_at + 60000)) (λ _. fair) (λ _. posted))
      ]

  send_password_reset-AllFair :
      (ms : MailService) (email id : String) (draw now : ℕ)
      → AllFair (send_password_reset rt ms email id draw now s).1
  unfolding send_password_reset
  send_password_reset-AllFair ms email id draw now =
      let address = normalize_email rt email in
      if_ind (λ (out : Outcome (Unit {0}) × Auth). AllFair out.1) (any (has_email address) s.users)
        (λ _.
          send_email_challenge-AllFair ms address password_reset password_reset_code id draw now)
        (λ _. fair)

  verify_email_challenge-AllFair :
      (email code : String) (purpose : ChallengePurpose) (kind : String) (now : ℕ)
      → AllFair (verify_email_challenge rt email code purpose kind now s).1
  unfolding verify_email_challenge
  verify_email_challenge-AllFair email code purpose kind now =
      let address = normalize_email rt email in
      let p = is_open_challenge rt address purpose now in
      elim (Option-cases (newest_where p s.challenges)) [
        | inl h ↦ rw (h, verify_email_challenge) fair
        | inr (c, h) ↦
            let old : IsFair c = All-newest_where IsFair p s.challenges fair h in
            let closed =
              split_open rt address purpose now c (newest_where-holds p s.challenges h) in
            let P : Outcome String × Auth → Type 0 =
              λ (out : Outcome String × Auth). AllFair out.1 in
            rw (h, verify_email_challenge)
              (if_ind P (leb 5 c.attempts) (λ _. fair)
                (λ few.
                  if_ind P
                    (not (
                      same_bytes (rt.from_hex c.code_hash)
                        (rt.from_hex (hash_verification_code rt address code))))
                    (λ _.
                      All-save challenge_id IsFair (record c { attempts = c.attempts + 1 })
                        s.challenges fair ((ground arith), old.1))
                    (λ _.
                      All-save challenge_id IsFair
                        (record c { attempts = c.attempts + 1; consumed_at = some now })
                        s.challenges fair ((ground arith), (λ k. old.1 closed.2)))))
      ]

  use_proof-AllFair :
      (jti email password : String) (f : Draws) → AllFair (use_proof rt jti email password f s).1
  unfolding use_proof write_password
  use_proof-AllFair jti email password f =
      let P : Outcome (Unit {0}) × Auth → Type 0 =
        λ (out : Outcome (Unit {0}) × Auth). AllFair out.1 in
      elim (Option-cases (find_where (is_unused_proof rt jti email) s.challenges)) [
        | inl h ↦ rw (h, use_proof) fair
        | inr (c, h) ↦ elim (Option-cases (find_where (has_email email) s.users)) [
          | inl k ↦
              rw (h, use_proof, k) (if_ind P (not (is_some c.consumed_at)) (λ _. fair) (λ _. fair))
          | inr (u, k) ↦ elim (Option-cases (hash_password rt password f.salt)) [
            | inl j ↦
                rw (h, use_proof, k, j)
                  (if_ind P (not (is_some c.consumed_at)) (λ _. fair) (λ _. fair))
            | inr (hash, j) ↦
                let old : IsFair c =
                  All-find_where IsFair (is_unused_proof rt jti email) s.challenges fair h in
                rw (h, use_proof, k, j)
                  (if_ind P (not (is_some c.consumed_at)) (λ _. fair)
                    (λ done.
                      All-save challenge_id IsFair (record c { proof_used_at = some f.now })
                        s.challenges fair (old.0, (λ q. clash _ done q))))
          ]
        ]
      ]
    where
      clash : (b : Bool) → not b ≡ false → b ≡ false → true ≡ false
      clash b h k = cc

  reset_password-AllFair : (dto : PasswordReset) (f : Draws) → AllFair (reset_password rt dto f s).1
  unfolding reset_password
  reset_password-AllFair dto f =
      let email = normalize_email rt dto.email in
      let P : Outcome (Unit {0}) × Auth → Type 0 =
        λ (out : Outcome (Unit {0}) × Auth). AllFair out.1 in
      elim (Option-cases (rt.verify dto.reset_proof f.now)) [
        | inl h ↦ rw (h, reset_password) fair
        | inr (proof, h) ↦ elim (Option-cases proof.jti) [
          | inl k ↦
              rw (h, reset_password, k)
                (if_ind P (mismatched "password-reset-proof" email proof) (λ _. fair) (λ _. fair))
          | inr (jti, k) ↦
              rw (h, reset_password, k)
                (if_ind P (mismatched "password-reset-proof" email proof) (λ _. fair)
                  (λ _. use_proof-AllFair jti email dto.new_password f))
        ]
      ]

kept : {xs ys : List EmailChallenge} → All IsFair xs → ys ≡ xs → All IsFair ys
kept fair e = subst (λ cs. All IsFair cs) (sym e) fair

pub perform-AllFair :
    (p : Platform) (r : Request) (f : Draws) (s : Auth) → AllFair s → AllFair (perform p r f s)
unfolding perform send_email_verification verify_email verify_password_reset
perform-AllFair p (send_email_verification_of email draw) f s h =
    send_email_challenge-AllFair p.rt s h p.mail email registration registration_code f.id draw
      f.now
perform-AllFair p (send_password_reset_of email draw) f s h =
    send_password_reset-AllFair p.rt s h p.mail email f.id draw f.now
perform-AllFair p (verify_email_of email code) f s h =
    verify_email_challenge-AllFair p.rt s h email code registration "registration-proof" f.now
perform-AllFair p (verify_password_reset_of email code) f s h =
    verify_email_challenge-AllFair p.rt s h email code password_reset "password-reset-proof" f.now
perform-AllFair p (register_of dto) f s h = kept h (register-Keeps p.rt dto f s)
perform-AllFair p (login_of dto) f s h = kept h (login-Keeps p.rt dto f s)
perform-AllFair p (reset_password_of dto) f s h = reset_password-AllFair p.rt s h dto f
perform-AllFair p (update_profile_of user dto) f s h = kept h (update_profile-Keeps p.rt user dto s)
perform-AllFair p (delete_account_of user) f s h = kept h (delete_account-Keeps user f.now s)
perform-AllFair p (refresh_of raw) f s h = kept h (refresh-Keeps p.rt raw f s)
perform-AllFair p (revoke_of raw) f s h = kept h (revoke-Keeps p.rt raw f.now s)
perform-AllFair p (start_oauth_of provider requested a) f s h =
    kept h (start_oauth-Keeps p.rt p.config p.web provider requested a s)
perform-AllFair p (complete_oauth_of provider code state identity grant) f s h =
    kept h (complete_oauth-Keeps p.rt p.config p.web p.fetch provider code state identity grant f s)
perform-AllFair p (exchange_oauth_grant_of raw) f s h =
    kept h (exchange_oauth_grant-Keeps p.rt p.config p.web raw f s)

-- In every state that a sequence of calls reaches, at most five attempts were made at each code, and
-- no proof was used whose code was not accepted, where this held at first.
pub run-AllFair :
    (p : Platform) (calls : List (Request × Draws)) (s : Auth) → AllFair s → AllFair (run p calls s)
unfolding run
run-AllFair p [] s h = h
run-AllFair p ((r, f) ∷ rest) s h = run-AllFair p rest (perform p r f s) (perform-AllFair p r f s h)
