-- ===== src/Auth/Tests.antt =====
-- Examples of accounts and sessions (src/auth/auth.service.ts).
use jagalchi_api.Base.{
  ℕ, String, true, false, none, some, List, [], ◌∷◌, ◌≡◌, ◌≢◌, refl, sym, ◌∙◌, ◌==◌, str_eq,
  or_else, if◌then◌else◌, units, lacks, eq_iff, find_where, All, arith, err, is_ok,
}
use jagalchi_api.Auth.Types.{
  Auth, Runtime, Draws, User, active, RefreshSession, EmailChallenge, password_reset, Claims,
  AuthResult, bad_gateway,
}
use jagalchi_api.Auth.Passwords.{
  hash_password, verify_password, verify_password-hash_password, validate_password,
}
use jagalchi_api.Auth.Sessions.{is_live, refresh}
use jagalchi_api.Auth.Challenges.{normalize_email, verify_password_reset, newest_where}
use jagalchi_api.Auth.Accounts.{PasswordReset, login, reset_password}
use jagalchi_api.Auth.Families.{HasOneLive, IsEnded}
use jagalchi_api.Auth.Run.{
  Platform, Request, IsNewRun, refresh_of, verify_password_reset_of, run, run-HasOneLive,
}
use jagalchi_api.Auth.Refreshing.{used_token-Refused, reuse-IsEnded}
use jagalchi_api.Auth.Recovery.{reset_password-signs_out}
use jagalchi_api.Auth.Recovering.{verify_password_reset-recovers}
use jagalchi_api.Auth.Codes.{AllFair, run-AllFair}

different : (a b : String) → str_eq a b ≡ false → a ≢ b
different a b h e = absurd (let k : false ≡ true = sym h ∙ (eq_iff a b).1 e in cc)

-- A toy platform: texts stand for their own hashes, and a proof is the identifier of its challenge.
abbrev as_text : List ℕ → String
as_text [] = ""
as_text (x ∷ _) = if x == 1 then "salt" else "key"

abbrev as_bytes : String → List ℕ
as_bytes s = if str_eq s "salt" then 1 ∷ [] else 2 ∷ []

abbrev toy_claims : String → Claims
toy_claims jti = record {
  sub = some "ada@sea.kr";
  kind = some "password-reset-proof";
  jti = some jti;
  email = none;
  roles = none;
}

abbrev toy : Runtime
toy = record {
  trim = λ s. s;
  to_lower = λ s. s;
  sha256 = λ s. s;
  hmac = λ k t. t;
  from_hex = units;
  sign = λ c ttl now. or_else c.jti "";
  verify = λ t now. some (toy_claims t);
  scrypt = λ p salt. 2 ∷ [];
  base64url = as_text;
  from_base64url = as_bytes;
  parse_url = λ s. none;
  code_secret = "";
}

abbrev port : Platform
port = record {
  rt = toy;
  mail = record { api_key = none; email_from = none; post = λ k m. false };
  config = record {
    oauth_enabled = none;
    apple_enabled = none;
    google_client_id = none;
    github_client_id = none;
    apple_client_id = none;
    public_api_url = none;
    web_app_url = none;
  };
  web = record {
    resolve = λ p b. none;
    query = λ ps. "";
    with_param = λ u k v. u;
    code_challenge = λ s. s;
    first_60 = λ s. s;
  };
  fetch = λ p c a. err bad_gateway;
}

abbrev draws : ℕ → String → Draws
draws now tag = record {
  now = now;
  id = tag;
  signup_id = tag;
  grant_id = tag;
  session_id = tag;
  family_id = tag;
  token = tag;
  salt = 1 ∷ [];
}

abbrev ada : User
ada = record {
  id = "u1";
  email = "ada@sea.kr";
  name = "Ada";
  bio = none;
  profile_image_url = none;
  external_links = [];
  password_hash = some "scrypt$salt$old";
  roles = "USER" ∷ [];
  status = active;
}

abbrev first_session : RefreshSession
first_session = record {
  id = "s1";
  user_id = "u1";
  family_id = "f1";
  token_hash = "t1";
  expires_at = 1000000;
  revoked_at = none;
  replaced_by_id = none;
}

abbrev mailed : EmailChallenge
mailed = record {
  id = "c1";
  email = "ada@sea.kr";
  purpose = password_reset;
  code_hash = "ada@sea.kr:123456";
  attempts = 4;
  expires_at = 600000;
  consumed_at = none;
  proof_used_at = none;
  created_at = 0;
}

abbrev start : Auth
start = record {
  users = ada ∷ [];
  identities = [];
  sessions = first_session ∷ [];
  attempts = [];
  grants = [];
  challenges = mailed ∷ [];
  tickets = record { accounts = []; ledger = []; purchases = [] };
}

verify_password-hash_password_example : verify_password toy "correct horse" "scrypt$salt$key" ≡ true
unfolding lacks hash_password units
verify_password-hash_password_example =
    verify_password-hash_password toy "correct horse" (1 ∷ []) "scrypt$salt$key" (refl, refl, refl)
      (refl, refl, refl) refl

abbrev two_refreshes : List (Request × Draws)
two_refreshes = (refresh_of "t1", draws 10 "x2") ∷ (refresh_of "x2", draws 20 "x3") ∷ []

run-HasOneLive_example : HasOneLive (run port two_refreshes start).sessions
unfolding IsNewRun refresh
run-HasOneLive_example =
    run-HasOneLive port two_refreshes start ((tt, tt), (tt, tt), (tt, tt))
      (
        ((different "s1" "x2" refl, different "f1" "x2" refl, different "t1" "x2" refl), tt),
        (
          (
            (different "s1" "x3" refl, different "f1" "x3" refl, different "t1" "x3" refl),
            ((different "x2" "x3" refl, different "f1" "x3" refl, different "x2" "x3" refl), tt),
          ),
          tt,
        ),
      )

abbrev answer : String → AuthResult
answer token = record {
  access_token = "";
  refresh_token = token;
  user = record { id = "u1"; email = "ada@sea.kr"; name = "Ada"; roles = "USER" ∷ [] };
}

abbrev refreshed : Auth
refreshed = (refresh toy "t1" (draws 10 "x2") start).1

used_token-Refused_example :
    is_ok
      (refresh toy "t1"
        (draws 30 "x4")
        (run port ((refresh_of "x2", draws 20 "x3") ∷ []) refreshed)).0
    ≡ false
unfolding refresh
used_token-Refused_example =
    used_token-Refused port "t1" (draws 10 "x2") (draws 30 "x4")
      ((refresh_of "x2", draws 20 "x3") ∷ []) start refreshed (answer "x2")
      ((tt, tt), (tt, tt), (tt, tt))
      ((different "s1" "x2" refl, different "f1" "x2" refl, different "t1" "x2" refl), tt) refl
      (different "x3" "t1" refl, tt)

abbrev replayed : Auth
replayed = (refresh toy "t1" (draws 30 "x4") refreshed).1

abbrev closed_session : RefreshSession
closed_session = record first_session { revoked_at = some 10; replaced_by_id = some "x2" }

reuse-IsEnded_example :
    IsEnded "f1" (run port ((refresh_of "x2", draws 40 "x5") ∷ []) replayed).sessions
unfolding find_where refresh
reuse-IsEnded_example =
    reuse-IsEnded port "t1" (draws 30 "x4") ((refresh_of "x2", draws 40 "x5") ∷ []) refreshed
      replayed closed_session refl refl (different "x5" "f1" refl, tt)

abbrev verified : Auth
verified = (verify_password_reset toy "ada@sea.kr" "123456" 1000 start).1

abbrev new_password : PasswordReset
new_password = record { email = "ada@sea.kr"; reset_proof = "c1"; new_password = "correct horse" }

abbrev recovered : Auth
recovered = (reset_password toy new_password (draws 2000 "x6") verified).1

reset_password-signs_out_example :
    All (λ y. y.user_id ≡ "u1" → is_live y ≡ false) recovered.sessions
unfolding find_where verify_password_reset units reset_password
reset_password-signs_out_example =
    reset_password-signs_out toy new_password (draws 2000 "x6") verified recovered ada refl refl

verify_password_reset-recovers_example :
    (is_ok (reset_password toy new_password (draws 2000 "x6") verified).0 ≡ true)
    × (is_ok
          (login toy
            (record { email = "ada@sea.kr"; password = "correct horse" })
            (draws 3000 "x7")
            recovered).0
        ≡ true)
unfolding newest_where normalize_email verify_password_reset units validate_password lacks
verify_password_reset-recovers_example =
    verify_password_reset-recovers toy "ada@sea.kr" "123456" "correct horse" "c1" 1000
      (draws 2000 "x6") (draws 3000 "x7") start verified ada mailed refl refl refl refl refl
      (tt, tt) ((λ _. refl), tt) refl (refl, refl, refl) (refl, refl, refl)

-- A last wrong guess.
run-AllFair_example :
    AllFair
      (run port ((verify_password_reset_of "ada@sea.kr" "000000", draws 1000 "x8") ∷ []) start)
run-AllFair_example =
    run-AllFair port ((verify_password_reset_of "ada@sea.kr" "000000", draws 1000 "x8") ∷ []) start
      (((omega arith), (λ _. refl)), tt)
