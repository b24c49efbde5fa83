-- ===== src/Auth/Recovery.antt =====
-- The reset of a password, from the code to the next login (src/auth/auth.service.ts).
use jagalchi_api.Base.{
  String, true, false, some, ◌≡◌, refl, sym, ap, ◌∙◌, subst, inl, inr, is_some, str_eq, not, if_ind,
  Option-cases, find_where, find_where_holds, find_where-save, All, Distinct, eq_iff, ok, err,
  is_ok,
}
use jagalchi_api.Auth.Types.{
  Auth, Runtime, Draws, User, active, EmailChallenge, Claims, Outcome, user_id,
}
use jagalchi_api.Auth.Passwords.{
  hash_password, IsCoded, verify_password-hash_password, hash_password-full,
}
use jagalchi_api.Auth.Sessions.{is_live, issue_session}
use jagalchi_api.Auth.Challenges.{normalize_email}
use jagalchi_api.Auth.Accounts.{
  PasswordReset, Login, login, reset_password, use_proof, write_password, is_unused_proof,
  has_email, mismatched, accepts,
}
use jagalchi_api.Auth.Families.{revoke_where-IsDead}

-- What a reset that succeeds has found and written.
pub record IsReset (rt : Runtime) (dto : PasswordReset) (f : Draws) (s s' : Auth) : Type 0 where
  pub proof : Claims
  pub jti : String
  pub challenge : EmailChallenge
  pub user : User
  pub hash : String
  pub signed : rt.verify dto.reset_proof f.now ≡ some proof
  pub named : proof.jti ≡ some jti
  pub unused :
      find_where (is_unused_proof rt jti (normalize_email rt dto.email)) s.challenges
      ≡ some challenge
  pub holder : find_where (has_email (normalize_email rt dto.email)) s.users ≡ some user
  pub hashed : hash_password rt dto.new_password f.salt ≡ some hash
  pub after : s' ≡ write_password rt hash user challenge f.now s

some-eq : {x y : User} → some x ≡ some y → x ≡ y
some-eq k = cc

module _ (rt : Runtime) (dto : PasswordReset) (f : Draws) (s : Auth) where
  abbrev pub Resets : Outcome (Unit {0}) × Auth → Type 0
  Resets (ok _, s') = IsReset rt dto f s s'
  Resets (err _, s') = Unit

  use_proof-Resets :
      (proof : Claims) (jti : String)
      → rt.verify dto.reset_proof f.now ≡ some proof
      → proof.jti ≡ some jti
      → Resets (use_proof rt jti (normalize_email rt dto.email) dto.new_password f s)
  unfolding use_proof
  use_proof-Resets proof jti signed named =
      let email = normalize_email rt dto.email in
      elim (Option-cases (find_where (is_unused_proof rt jti email) s.challenges)) [
        | inl h ↦ rw (h, use_proof) tt
        | inr (c, h) ↦ elim (Option-cases (find_where (has_email email) s.users)) [
          | inl k ↦
              rw (h, use_proof, k) (if_ind Resets (not (is_some c.consumed_at)) (λ _. tt) (λ _. tt))
          | inr (u, k) ↦ elim (Option-cases (hash_password rt dto.new_password f.salt)) [
            | inl j ↦
                rw (h, use_proof, k, j)
                  (if_ind Resets (not (is_some c.consumed_at)) (λ _. tt) (λ _. tt))
            | inr (hash, j) ↦
                rw (h, use_proof, k, j)
                  (if_ind Resets (not (is_some c.consumed_at)) (λ _. tt)
                    (λ _. record {
                      proof = proof;
                      jti = jti;
                      challenge = c;
                      user = u;
                      hash = hash;
                      signed = signed;
                      named = named;
                      unused = h;
                      holder = k;
                      hashed = j;
                      after = refl;
                    }))
          ]
        ]
      ]

  pub reset_password-Resets : Resets (reset_password rt dto f s)
  unfolding reset_password
  reset_password-Resets =
      let email = normalize_email rt dto.email in
      elim (Option-cases (rt.verify dto.reset_proof f.now)) [
        | inl h ↦ rw (h, reset_password) tt
        | inr (proof, h) ↦ elim (Option-cases proof.jti) [
          | inl k ↦
              rw (h, reset_password, k)
                (if_ind Resets (mismatched "password-reset-proof" email proof) (λ _. tt) (λ _. tt))
          | inr (jti, k) ↦
              rw (h, reset_password, k)
                (if_ind Resets (mismatched "password-reset-proof" email proof) (λ _. tt)
                  (λ _. use_proof-Resets proof jti h k))
        ]
      ]

-- A reset that succeeds leaves the user of the address without a live session.
pub reset_password-signs_out :
    (rt : Runtime) (dto : PasswordReset) (f : Draws) (s s' : Auth) (user : User)
    → find_where (has_email (normalize_email rt dto.email)) s.users ≡ some user
    → reset_password rt dto f s ≡ (ok tt, s')
    → All (λ y. y.user_id ≡ user.id → is_live y ≡ false) s'.sessions
unfolding write_password
reset_password-signs_out rt dto f s s' user e h =
    let r : IsReset rt dto f s s' =
      subst (Resets rt dto f s) h (reset_password-Resets rt dto f s) in
    subst (λ (t : Auth). All (λ y. y.user_id ≡ user.id → is_live y ≡ false) t.sessions)
      (sym r.after)
      (revoke_where-IsDead (λ y. y.user_id ≡ user.id) (λ y. str_eq y.user_id r.user.id) f.now
        s.sessions
        (λ y q. (eq_iff y.user_id r.user.id).1 (q ∙ ap user_id (some-eq (sym e ∙ r.holder)))))

issues :
    (rt : Runtime) (user : User) (g : Draws) (s : Auth) → is_ok (issue_session rt user g s).0 ≡ true
unfolding issue_session
issues rt user g s = refl

login-accepted :
    (rt : Runtime) (dto : Login) (g : Draws) (s : Auth) (user : User)
    → find_where (has_email (normalize_email rt dto.email)) s.users ≡ some user
    → user.status ≡ active
    → accepts rt dto.password user.password_hash ≡ true
    → is_ok (login rt dto g s).0 ≡ true
unfolding login
login-accepted rt dto g s user e live right = rw (e, login, live, right) (issues rt user g s)

-- After a reset that succeeds its user, where active, logs in with the new password: for distinct
-- user identifiers, and where the coding of the salt and of the derived key is read back.
pub login-reset_password :
    (rt : Runtime) (dto : PasswordReset) (f g : Draws) (s s' : Auth) (user : User)
    → Distinct user_id s.users
    → find_where (has_email (normalize_email rt dto.email)) s.users ≡ some user
    → user.status ≡ active
    → IsCoded rt f.salt
    → IsCoded rt (rt.scrypt dto.new_password f.salt)
    → reset_password rt dto f s ≡ (ok tt, s')
    → is_ok (login rt (record { email = dto.email; password = dto.new_password }) g s').0 ≡ true
unfolding write_password
login-reset_password rt dto f g s s' user ids e live cs cd h =
    let r : IsReset rt dto f s s' =
      subst (Resets rt dto f s) h (reset_password-Resets rt dto f s) in
    let email = normalize_email rt dto.email in
    let same : user ≡ r.user = some-eq (sym e ∙ r.holder) in
    let changed = record r.user { password_hash = some r.hash } in
    let input : Login = record { email = dto.email; password = dto.new_password } in
    let there : find_where (has_email email)
          (write_password rt r.hash r.user r.challenge f.now s).users
        ≡ some changed =
      find_where-save user_id (has_email email) changed s.users ids r.holder refl
        (find_where_holds (has_email email) s.users r.holder) in
    let right : accepts rt dto.new_password (some r.hash) ≡ true =
      rw
        (
          hash_password-full rt dto.new_password f.salt r.hash cs cd r.hashed,
          verify_password-hash_password rt dto.new_password f.salt r.hash cs cd r.hashed,
        )
        refl in
    subst (λ t. is_ok (login rt input g t).0 ≡ true) (sym r.after)
      (login-accepted rt input g (write_password rt r.hash r.user r.challenge f.now s) changed there
        (sym (ap (λ u. u.status) same) ∙ live) right)
