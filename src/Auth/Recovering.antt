-- ===== src/Auth/Recovering.antt =====
-- From the code of an e-mail to a new password (src/auth/auth.service.ts).
use jagalchi_api.Base.{
  ℕ, String, Bool, true, false, some, List, ◌≡◌, refl, sym, ap, ◌∙◌, subst, inl, inr, ◌+◌, is_some,
  str_eq, not, ltb, leb, if_ind, Option-cases, find_where, find_where_holds, find_where-save_key,
  save, sort_by, All, All-sort_by, All-find_where, Distinct, eq_iff, eq_refl, arith, ok, err, is_ok,
}
use jagalchi_api.Auth.Types.{
  Auth, Runtime, Draws, User, active, EmailChallenge, ChallengePurpose, password_reset, Claims,
  Outcome, user_id, challenge_id, same_purpose,
}
use jagalchi_api.Auth.Passwords.{hash_password, validate_password, IsCoded, same_bytes}
use jagalchi_api.Auth.Challenges.{
  normalize_email, newest_where, is_open_challenge, hash_verification_code, verify_email_challenge,
  verify_password_reset, proof_of, proof_ttl,
}
use jagalchi_api.Auth.Accounts.{
  PasswordReset, login, reset_password, use_proof, is_unused_proof, has_email,
}
use jagalchi_api.Auth.Recovery.{login-reset_password}

-- What a code that is accepted has found and written.
pub record IsVerified (rt : Runtime) (raw_email : String) (purpose : ChallengePurpose)
    (kind : String) (now : ℕ) (s : Auth) (proof : String) (s' : Auth) : Type 0 where
  pub challenge : EmailChallenge
  pub open_now :
      newest_where (is_open_challenge rt (normalize_email rt raw_email) purpose now) s.challenges
      ≡ some challenge
  pub few : leb 5 challenge.attempts ≡ false
  pub signed :
      proof ≡ rt.sign (proof_of rt kind (normalize_email rt raw_email) challenge) (proof_ttl rt) now
  pub after : s' ≡ record s {
    challenges =
        save challenge_id
          (record challenge { attempts = challenge.attempts + 1; consumed_at = some now })
          s.challenges;
  }

module _ (rt : Runtime) (email code : String) (purpose : ChallengePurpose) (kind : String) (now : ℕ)
    (s : Auth) where
  abbrev Verifies : Outcome String × Auth → Type 0
  Verifies (ok proof, s') = IsVerified rt email purpose kind now s proof s'
  Verifies (err _, s') = Unit

  verify_email_challenge-Verifies :
      Verifies (verify_email_challenge rt email code purpose kind now s)
  unfolding verify_email_challenge
  verify_email_challenge-Verifies =
      let address = normalize_email rt email in
      elim (Option-cases (newest_where (is_open_challenge rt address purpose now) s.challenges)) [
        | inl h ↦ rw (h, verify_email_challenge) tt
        | inr (c, h) ↦
            rw (h, verify_email_challenge)
              (if_ind Verifies (leb 5 c.attempts) (λ _. tt)
                (λ few.
                  if_ind Verifies
                    (not (
                      same_bytes (rt.from_hex c.code_hash)
                        (rt.from_hex (hash_verification_code rt address code))))
                    (λ _. tt)
                    (λ _. record {
                      challenge = c;
                      open_now = h;
                      few = few;
                      signed = refl;
                      after = refl;
                    })))
      ]

-- The proof of a challenge is used only once its code was accepted.
abbrev pub IsUnspent : EmailChallenge → Type 0
IsUnspent c = is_some c.consumed_at ≡ false → is_some c.proof_used_at ≡ false

pub All-newest_where :
    (P : EmailChallenge → Type 0) (p : EmailChallenge → Bool) (cs : List EmailChallenge)
    {c : EmailChallenge}
    → All P cs
    → newest_where p cs ≡ some c
    → P c
unfolding newest_where
All-newest_where P p cs h e =
    let before : EmailChallenge → EmailChallenge → Bool = λ a b. ltb b.created_at a.created_at in
    All-find_where P p (sort_by before cs) (All-sort_by P before cs h) e

pub newest_where-holds :
    (p : EmailChallenge → Bool) (cs : List EmailChallenge) {c : EmailChallenge}
    → newest_where p cs ≡ some c
    → p c ≡ true
unfolding newest_where
newest_where-holds p cs e = find_where_holds p (sort_by (λ a b. ltb b.created_at a.created_at) cs) e

pub split_open :
    (rt : Runtime) (email : String) (purpose : ChallengePurpose) (now : ℕ) (c : EmailChallenge)
    → is_open_challenge rt email purpose now c ≡ true
    → (str_eq c.email email ≡ true)
      × (same_purpose c.purpose purpose ≡ true)
      × (is_some c.consumed_at ≡ false)
split_open rt email purpose now c h = ground arith

of_challenge :
    (rt : Runtime) (id email : String) (c : EmailChallenge)
    → is_unused_proof rt id email c ≡ true
    → c.id ≡ id
of_challenge rt id email c h = ground (arith, eq_iff c.id id)

-- With a proof that the service signed, a reset succeeds.
reset-accepted :
    (rt : Runtime) (dto : PasswordReset) (f : Draws) (s : Auth) (c : EmailChallenge) (user : User)
    → (let email = normalize_email rt dto.email in
        (rt.verify dto.reset_proof f.now ≡ some (proof_of rt "password-reset-proof" email c))
        × (find_where (is_unused_proof rt c.id email) s.challenges ≡ some c)
        × (is_some c.consumed_at ≡ true)
        × (find_where (has_email email) s.users ≡ some user))
    → validate_password dto.new_password ≡ true
    → is_ok (reset_password rt dto f s).0 ≡ true
unfolding reset_password use_proof hash_password
reset-accepted rt dto f s c user h valid =
    rw
      (
        h.0,
        reset_password,
        eq_refl (normalize_email rt dto.email),
        use_proof,
        h.1,
        h.2,
        h.3,
        valid,
        hash_password,
      )
      refl

some-eq : {x y : EmailChallenge} → some x ≡ some y → x ≡ y
some-eq h = cc

answered : (out : Outcome (Unit {0}) × Auth) → is_ok out.0 ≡ true → out ≡ (ok tt, out.1)
answered (ok tt, s) h = refl
answered (err e, s) h = cc

-- An accepted code gives a proof that a reset accepts, and the new password one that a login
-- accepts: for an active user of that address, a valid password, distinct identifiers of users, and
-- challenges whose proofs are used only after their codes. The signature of the proof for the newest
-- open challenge is taken to be verified when it is presented, and the coding of the salt and of the
-- derived key to be read back.
pub verify_password_reset-recovers :
    (rt : Runtime) (email code password proof : String) (now : ℕ) (f g : Draws) (s s' : Auth)
    (user : User) (newest : EmailChallenge)
    → newest_where (is_open_challenge rt (normalize_email rt email) password_reset now) s.challenges
      ≡ some newest
    → (let claims = proof_of rt "password-reset-proof" (normalize_email rt email) newest in
        rt.verify (rt.sign claims (proof_ttl rt) now) f.now ≡ some claims)
    → verify_password_reset rt email code now s ≡ (ok proof, s')
    → find_where (has_email (normalize_email rt email)) s.users ≡ some user
    → user.status ≡ active
    → Distinct user_id s.users
    → All IsUnspent s.challenges
    → validate_password password ≡ true
    → IsCoded rt f.salt
    → IsCoded rt (rt.scrypt password f.salt)
    → (let dto : PasswordReset = record {
      email = email;
      reset_proof = proof;
      new_password = password;
    } in
        let out = reset_password rt dto f s' in
        (is_ok out.0 ≡ true)
        × (is_ok (login rt (record { email = email; password = password }) g out.1).0 ≡ true))
unfolding verify_password_reset
verify_password_reset-recovers rt email code password proof now f g s s' user newest n jwt h e live
      ids unspent valid cs cd =
    let v : IsVerified rt email password_reset "password-reset-proof" now s proof s' =
      subst (Verifies rt email code password_reset "password-reset-proof" now s) h (
        verify_email_challenge-Verifies rt email code password_reset "password-reset-proof" now
          s) in
    let address = normalize_email rt email in
    let c = v.challenge in
    let c' = record c { attempts = c.attempts + 1; consumed_at = some now } in
    let sign_of : EmailChallenge → Claims = λ x. proof_of rt "password-reset-proof" address x in
    let jwt' : rt.verify (rt.sign (sign_of c) (proof_ttl rt) now) f.now ≡ some (sign_of c) =
      subst (λ x. rt.verify (rt.sign (sign_of x) (proof_ttl rt) now) f.now ≡ some (sign_of x))
        (some-eq (sym n ∙ v.open_now)) jwt in
    let dto : PasswordReset = record {
      email = email;
      reset_proof = proof;
      new_password = password;
    } in
    let s₁ : Auth = record s { challenges = save challenge_id c' s.challenges } in
    let tests = split_open rt address password_reset now c (
      newest_where-holds (is_open_challenge rt address password_reset now) s.challenges
        v.open_now) in
    let unused : is_some c.proof_used_at ≡ false =
      All-newest_where IsUnspent (is_open_challenge rt address password_reset now) s.challenges
        unspent v.open_now tests.2 in
    let passes : is_unused_proof rt c.id address c' ≡ true =
      rw (eq_refl c.id, tests.0, tests.1, unused) refl in
    let there : find_where (is_unused_proof rt c.id address) s₁.challenges ≡ some c' =
      find_where-save_key challenge_id (is_unused_proof rt c.id address) c' s.challenges
        (λ x k. of_challenge rt c.id address x k) passes in
    let reset : is_ok (reset_password rt dto f s₁).0 ≡ true =
      reset-accepted rt dto f s₁ c' user
        (ap (λ t. rt.verify t f.now) v.signed ∙ jwt', there, refl, e) valid in
    subst
      (λ t.
        (is_ok (reset_password rt dto f t).0 ≡ true)
        × (is_ok
              (login rt (record { email = email; password = password }) g
                (reset_password rt dto f t).1).0
            ≡ true))
      (sym v.after)
      (
        reset,
        login-reset_password rt dto f g s₁ (reset_password rt dto f s₁).1 user ids e live cs cd
            (answered (reset_password rt dto f s₁) reset),
      )
