-- ===== src/Auth/Challenges.antt =====
-- One-time codes by e-mail: the challenges of `AuthService` (src/auth/auth.service.ts). The delivery
-- is a parameter; the clock is read once in a call.
use Prim.Native.String.{◌++◌}
use jagalchi_api.Base.{
  ℕ, zero, suc, String, Bool, false, Option, none, some, List, ◌+◌, ◌-◌, ◌*◌, ◌&&◌, ◌||◌, not,
  str_eq, is_some, ltb, leb, if◌then◌else◌, find_where, save, keep, sort_by, decimal, length, units,
  any, ok, err,
}
use jagalchi_api.Auth.Types.{
  Auth, Runtime, EmailChallenge, ChallengePurpose, registration, password_reset, same_purpose,
  Claims, Outcome, challenge_id, wait_for_code, email_not_sent, code_unavailable, code_not_correct,
}
use jagalchi_api.Auth.Passwords.{same_bytes, is_empty}

-- `normalizeEmail` and `hashVerificationCode`
module _ (rt : Runtime) where
  unfoldable pub normalize_email : String → String
  normalize_email value = rt.to_lower (rt.trim value)

  unfoldable pub hash_verification_code : String → String → String
  hash_verification_code email code = rt.hmac rt.code_secret (email ++ (":" ++ code))

-- `code.toString().padStart(6, "0")`
unfoldable pub pad_zeros : ℕ → String → String
pad_zeros zero s = s
pad_zeros (suc n) s = "0" ++ pad_zeros n s

unfoldable pub verification_code : ℕ → String
unfolding pad_zeros
verification_code n = let digits = decimal n in pad_zeros (6 - length (units digits)) digits

pub data EmailTemplate : Type 0 where
  registration_code password_reset_code : EmailTemplate

pub record EmailContent : Type 0 where
  pub subject : String
  pub text : String
  pub html : String

-- `verificationEmailContent`
unfoldable pub verification_email_content : EmailTemplate → String → EmailContent
verification_email_content template code =
    let subject : String = elim template [
      | registration_code ↦ "[자갈치] 이메일 인증번호"
      | password_reset_code ↦ "[자갈치] 비밀번호 재설정 인증번호"
    ] in
    let purpose : String = elim template [
      | registration_code ↦ "회원가입"
      | password_reset_code ↦ "비밀번호 재설정"
    ] in
    record {
      subject = subject;
      text = purpose ++ (" 인증번호는 " ++ (code ++ "입니다. 인증번호는 10분 후 만료됩니다."));
      html =
          "<!doctype html><html lang=\"ko\"><body><h1>"
          ++ (purpose
              ++ (" 인증번호</h1><p>아래 인증번호를 자갈치 화면에 입력해주세요.</p><p style=\"font-size:32px;font-weight:700;letter-spacing:0.2em\">"
                  ++ (code
                      ++ "</p><p>인증번호는 10분 후 만료됩니다. 본인이 요청하지 않았다면 이 메일을 무시해주세요.</p></body></html>")));
    }

-- What is posted to the mail service.
pub record Mail : Type 0 where
  pub idempotency_key : String
  pub from_address : String
  pub to_address : String
  pub content : EmailContent

-- The settings `RESEND_API_KEY` and `EMAIL_FROM`, and whether the mail service answers a request
-- with a success; a request that fails or is too slow is no success.
pub record MailService : Type 0 where
  pub api_key : Option String
  pub email_from : Option String
  pub post : String → Mail → Bool

abbrev trimmed : Runtime → Option String → String
trimmed rt none = ""
trimmed rt (some s) = rt.trim s

-- The block in which `sendEmailChallenge` delivers the code: whether it ends without a throw.
unfoldable pub deliver : Runtime → MailService → EmailTemplate → EmailChallenge → String → Bool
unfolding verification_email_content
deliver rt ms template challenge code =
    let key = trimmed rt ms.api_key in
    let sender = trimmed rt ms.email_from in
    if is_empty key || is_empty sender
    then false
    else ms.post key (record {
      idempotency_key = "email-challenge-" ++ challenge.id;
      from_address = sender;
      to_address = challenge.email;
      content = verification_email_content template code;
    })

abbrev pub is_challenge_of : String → ChallengePurpose → EmailChallenge → Bool
is_challenge_of email purpose c = str_eq c.email email && same_purpose c.purpose purpose

-- `findOne` with the order of `createdAt` descending.
unfoldable pub newest_where : (EmailChallenge → Bool) → List EmailChallenge → Option EmailChallenge
unfolding find_where sort_by
newest_where p cs = find_where p (sort_by (λ a b. ltb b.created_at a.created_at) cs)

module _ (rt : Runtime) where
  abbrev pub new_challenge : String → ChallengePurpose → String → String → ℕ → EmailChallenge
  unfolding hash_verification_code
  new_challenge email purpose id code now = record {
    id = id;
    email = email;
    purpose = purpose;
    code_hash = hash_verification_code rt email code;
    attempts = 0;
    expires_at = now + 10 * 60000;
    consumed_at = none;
    proof_used_at = none;
    created_at = now;
  }

  -- The end of `sendEmailChallenge`: a challenge whose code is not delivered is deleted.
  unfoldable pub post_code :
      MailService
      → String
      → ChallengePurpose
      → EmailTemplate
      → String
      → ℕ
      → ℕ
      → Auth
      → Outcome (Unit {0}) × Auth
  unfolding hash_verification_code verification_code deliver save keep
  post_code ms email purpose template id draw now s =
      let code = verification_code draw in
      let challenge = new_challenge email purpose id code now in
      let saved = save challenge_id challenge s.challenges in
      if deliver rt ms template challenge code then (ok tt, record s { challenges = saved }) else (
        err email_not_sent,
        record s { challenges = keep (λ c. not (str_eq c.id challenge.id)) saved },
      )

  -- `sendEmailChallenge`; `id` is the row's, and `draw` what `randomInt` gave. A challenge of the
  -- last minute is in the way.
  unfoldable pub send_email_challenge :
      MailService
      → String
      → ChallengePurpose
      → EmailTemplate
      → String
      → ℕ
      → ℕ
      → Auth
      → Outcome (Unit {0}) × Auth
  unfolding normalize_email newest_where post_code
  send_email_challenge ms raw_email purpose template id draw now s =
      let email = normalize_email rt raw_email in
      let posted = post_code ms email purpose template id draw now s in
      elim (newest_where (is_challenge_of email purpose) s.challenges) [
        | some recent ↦
            if ltb now (recent.created_at + 60000) then (err wait_for_code, s) else posted
        | none ↦ posted
      ]

  -- `sendEmailVerification` and `sendPasswordReset`
  unfoldable pub send_email_verification :
      MailService → String → String → ℕ → ℕ → Auth → Outcome (Unit {0}) × Auth
  unfolding send_email_challenge
  send_email_verification ms email = send_email_challenge ms email registration registration_code

  unfoldable pub send_password_reset :
      MailService → String → String → ℕ → ℕ → Auth → Outcome (Unit {0}) × Auth
  unfolding send_email_challenge normalize_email any
  send_password_reset ms raw_email id draw now s =
      let email = normalize_email rt raw_email in
      let sent = send_email_challenge ms email password_reset password_reset_code id draw now s in
      if any (λ u. str_eq u.email email) s.users then sent else (ok tt, s)

  -- The query of `verifyEmailChallenge`.
  abbrev pub is_open_challenge : String → ChallengePurpose → ℕ → EmailChallenge → Bool
  is_open_challenge email purpose now c =
      is_challenge_of email purpose c && not (is_some c.consumed_at) && ltb now c.expires_at

  abbrev pub proof_of : String → String → EmailChallenge → Claims
  proof_of kind email c = record {
    sub = some email;
    kind = some kind;
    jti = some c.id;
    email = none;
    roles = none;
  }

  abbrev pub proof_ttl : ℕ
  proof_ttl = 900000

  -- `verifyEmailChallenge`, which answers with a signed proof.
  unfoldable pub verify_email_challenge :
      String → String → ChallengePurpose → String → ℕ → Auth → Outcome String × Auth
  unfolding normalize_email newest_where hash_verification_code same_bytes save
  verify_email_challenge raw_email code purpose kind now s =
      let email = normalize_email rt raw_email in
      elim (newest_where (is_open_challenge email purpose now) s.challenges) [
        | none ↦ (err code_unavailable, s)
        | some challenge ↦
            let tried = record challenge { attempts = challenge.attempts + 1 } in
            if leb 5 challenge.attempts
            then (err code_unavailable, s)
            else if not (
                same_bytes (rt.from_hex challenge.code_hash)
                  (rt.from_hex (hash_verification_code rt email code)))
            then (
              err code_not_correct,
              record s { challenges = save challenge_id tried s.challenges },
            )
            else (
              ok (rt.sign (proof_of kind email challenge) proof_ttl now),
              record s {
                challenges =
                    save challenge_id (record tried { consumed_at = some now }) s.challenges;
              },
            )
      ]

  -- `verifyEmail` and `verifyPasswordReset`
  unfoldable pub verify_email : String → String → ℕ → Auth → Outcome String × Auth
  unfolding verify_email_challenge
  verify_email email code = verify_email_challenge email code registration "registration-proof"

  unfoldable pub verify_password_reset : String → String → ℕ → Auth → Outcome String × Auth
  unfolding verify_email_challenge
  verify_password_reset email code =
      verify_email_challenge email code password_reset "password-reset-proof"
