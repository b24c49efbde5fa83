-- ===== src/Auth/Moves.antt =====
-- What the methods of src/auth/auth.service.ts do to the table of refresh sessions.
use jagalchi_api.Base.{
  ℕ, String, Bool, true, false, Option, none, some, List, ◌≡◌, refl, sym, subst, inl, inr, ◌||◌,
  Option-cases, Result-cases, if_ind, is_some, leb, str_eq, find_where, find_by, find_where_holds,
  eq_iff, save, any, not, ◌&&◌, err, arith, and_then_ind,
}
use jagalchi_api.Tickets.Types
use jagalchi_api.Tickets.Service.{Balance, open_account}
use jagalchi_api.Auth.Types.{
  Auth, Runtime, Draws, User, RefreshSession, AuthResult, Outcome, session_id, user_id,
  is_active_user, session_not_valid,
}
use jagalchi_api.Auth.Passwords.{hash_password, is_empty}
use jagalchi_api.Auth.Sessions.{
  create_refresh_session, is_live, has_token, revoke_where, issue_session, rotate, refresh_session,
  refresh, revoke,
}
use jagalchi_api.Auth.Challenges.{normalize_email}
use jagalchi_api.Auth.Accounts.{
  Registration, Login, PasswordReset, register, new_account, login, mismatched, tickets_answer,
  has_email, new_user, open_tickets, reset_password, use_proof, is_unused_proof, write_password,
  delete_account,
}
use jagalchi_api.Auth.Oauth.{
  OauthConfig, Web, exchange_oauth_grant, assert_oauth_enabled, consume_grant, is_open_grant,
}

module _ (rt : Runtime) where
  -- The changes of the table, by what a call draws: nothing, a session of a new family, a session
  -- that takes the place of a live one in its family, or revocations.
  pub data Move (f : Draws) (xs : List RefreshSession) : List RefreshSession → Type 0 where
    kept : Move f xs xs
    issued :
        (user : String)
        → Move f xs (save session_id (create_refresh_session rt user f.family_id f) xs)
    rotated :
        (user : String) (p : RefreshSession → Bool) (t : RefreshSession)
        → find_where p xs ≡ some t
        → is_live t ≡ true
        → Move f xs (
            save session_id
              (record t { revoked_at = some f.now; replaced_by_id = some f.session_id })
              (save session_id (create_refresh_session rt user t.family_id f) xs))
    revoked : (p : RefreshSession → Bool) (now : ℕ) → Move f xs (revoke_where p now xs)

module _ (rt : Runtime) (f : Draws) where
  -- A call that answers and changes the sessions by one move.
  abbrev pub Moves : {A : Type 0} → Auth → Outcome A × Auth → Type 0
  Moves s out = Move rt f s.sessions out.1.sessions

  tickets_answer-sessions :
      (o : Types.Outcome Balance) (s : Auth) → (tickets_answer o s).1.sessions ≡ s.sessions
  unfolding tickets_answer
  tickets_answer-sessions (Types.ok _) s = refl
  tickets_answer-sessions (Types.err e) s = refl

  pub open_tickets-sessions :
      (user : String) (s : Auth) → (open_tickets user f s).1.sessions ≡ s.sessions
  unfolding open_tickets
  open_tickets-sessions user s =
      let out = open_account user f.signup_id f.grant_id f.now s.tickets in
      tickets_answer-sessions out.0 (record s { tickets = out.1 })

  -- A session is issued over tables that were not yet touched.
  issue_session-Moves :
      (user : User) (s s' : Auth) → s'.sessions ≡ s.sessions → Moves s (issue_session rt user f s')
  unfolding issue_session
  issue_session-Moves user s s' e =
      subst
        (λ xs.
          Move rt f s.sessions
            (save session_id (create_refresh_session rt user.id f.family_id f) xs))
        (sym e) (issued user.id)

  still : {A : Type 0} (s s' : Auth) (o : Outcome A) → s'.sessions ≡ s.sessions → Moves s (o, s')
  still s s' o e = subst (λ xs. Move rt f s.sessions xs) (sym e) kept

  rotate-Moves :
      (user : User) (p : RefreshSession → Bool) (t : RefreshSession) (s : Auth)
      → find_where p s.sessions ≡ some t
      → is_live t ≡ true
      → Moves s (rotate rt user t f s)
  unfolding rotate create_refresh_session
  rotate-Moves user p t s e l = rotated user.id p t e l

  refresh_session-Moves :
      (p : RefreshSession → Bool) (t : RefreshSession) (s : Auth)
      → find_where p s.sessions ≡ some t
      → Moves s (refresh_session rt t f s)
  unfolding refresh_session
  refresh_session-Moves p t s e =
      if_ind (Moves s) (leb t.expires_at f.now) (λ _. kept)
        (λ _.
          if_ind (Moves s) (is_some t.revoked_at || is_some t.replaced_by_id) (λ _. revoked _ f.now)
            (λ live. elim (Option-cases (find_where (is_active_user t.user_id) s.users)) [
              | inl h ↦ rw (h, find_where) kept
              | inr (user, h) ↦ rw h (rotate-Moves user p t s e (not_revoked t live))
            ]))
    where
      not_revoked :
          (t : RefreshSession)
          → (is_some t.revoked_at || is_some t.replaced_by_id) ≡ false
          → is_live t ≡ true
      not_revoked t h = ground arith

  -- What holds where no session is found, and of what is done with the one that is found, holds of
  -- the whole call. The second query finds a session of the token and of the family that the first
  -- one saw.
  pub refresh_ind :
      (Q : Outcome AuthResult × Auth → Type 0) (raw : String) (s : Auth)
      → Q (err session_not_valid, s)
      → ((q : RefreshSession → Bool) (o t : RefreshSession)
          → find_where (has_token (rt.sha256 raw)) s.sessions ≡ some o
          → find_where q s.sessions ≡ some t
          → t.token_hash ≡ rt.sha256 raw
          → t.family_id ≡ o.family_id
          → Q (refresh_session rt t f s))
      → Q (refresh rt raw f s)
  unfolding refresh
  refresh_ind Q raw s missing found =
      elim (Option-cases (find_where (has_token (rt.sha256 raw)) s.sessions)) [
        | inl h ↦ rw (h, refresh) missing
        | inr (o, h) ↦
            let q : RefreshSession → Bool =
              λ r. has_token (rt.sha256 raw) r && str_eq r.family_id o.family_id in
            elim (Option-cases (find_where q s.sessions)) [
              | inl k ↦ rw (h, refresh, k) missing
              | inr (t, k) ↦
                  let (token, family) = both _ _ (find_where_holds q s.sessions k) in
                  rw (h, refresh, k)
                    (found q o t h k ((eq_iff t.token_hash (rt.sha256 raw)).0 token)
                      ((eq_iff t.family_id o.family_id).0 family))
            ]
      ]
    where
      both : (a b : Bool) → (a && b) ≡ true → (a ≡ true) × (b ≡ true)
      both a b h = ground arith

  pub refresh-Moves : (raw : String) (s : Auth) → Moves s (refresh rt raw f s)
  refresh-Moves raw s =
      refresh_ind (Moves s) raw s kept (λ q _ t _ k _ _. refresh_session-Moves q t s k)

  pub revoke-Moves :
      (raw : Option String) (now : ℕ) (s : Auth)
      → Move rt f s.sessions (revoke rt raw now s).sessions
  unfolding revoke
  revoke-Moves none now s = kept
  revoke-Moves (some raw) now s =
      if_ind (λ (s' : Auth). Move rt f s.sessions s'.sessions) (is_empty raw) (λ _. kept)
        (λ _. revoked _ now)

  new_account-Moves : (user : User) (s : Auth) → Moves s (new_account rt user f s)
  unfolding new_account
  new_account-Moves user s =
      let saved = record s { users = save user_id user s.users } in
      let same = open_tickets-sessions user.id saved in
      and_then_ind (Moves s) (open_tickets user.id f saved) (λ _ s'. issue_session rt user f s')
        (λ e _. still {A = AuthResult} s (open_tickets user.id f saved).1 (err e) same)
        (λ _ _. issue_session-Moves user s (open_tickets user.id f saved).1 same)

  pub register-Moves : (dto : Registration) (s : Auth) → Moves s (register rt dto f s)
  unfolding register
  register-Moves dto s = elim (Option-cases (rt.verify dto.registration_proof f.now)) [
    | inl h ↦ rw (h, register) kept
    | inr (proof, h) ↦
        let email = normalize_email rt dto.email in
        let other = mismatched "registration-proof" email proof in
        let taken = any (has_email email) s.users in
        elim (Option-cases (hash_password rt dto.password f.salt)) [
          | inl k ↦
              rw (h, register, k)
                (if_ind (Moves {A = AuthResult} s) other (λ _. kept)
                  (λ _. if_ind (Moves {A = AuthResult} s) taken (λ _. kept) (λ _. kept)))
          | inr (hash, k) ↦
              rw (h, register, k)
                (if_ind (Moves {A = AuthResult} s) other (λ _. kept)
                  (λ _.
                    if_ind (Moves {A = AuthResult} s) taken (λ _. kept)
                      (λ _.
                        new_account-Moves (new_user f.id email (rt.trim dto.name) (some hash)) s)))
        ]
  ]

  pub login-Moves : (dto : Login) (s : Auth) → Moves s (login rt dto f s)
  unfolding login
  login-Moves dto s =
      elim (Option-cases (find_where (has_email (normalize_email rt dto.email)) s.users)) [
        | inl h ↦ rw (h, login) kept
        | inr (user, h) ↦
            rw (h, login) (if_ind (Moves s) _ (λ _. issue_session-Moves user s s refl) (λ _. kept))
      ]

  use_proof-Moves :
      (jti email password : String) (s : Auth) → Moves s (use_proof rt jti email password f s)
  unfolding use_proof write_password
  use_proof-Moves jti email password s =
      elim (Option-cases (find_where (is_unused_proof rt jti email) s.challenges)) [
        | inl h ↦ rw (h, use_proof) kept
        | inr (challenge, h) ↦ elim (Option-cases (find_where (has_email email) s.users)) [
          | inl k ↦ rw (h, use_proof, k) (if_ind (Moves s) _ (λ _. kept) (λ _. kept))
          | inr (user, k) ↦ elim (Option-cases (hash_password rt password f.salt)) [
            | inl j ↦ rw (h, use_proof, k, j) (if_ind (Moves s) _ (λ _. kept) (λ _. kept))
            | inr (hash, j) ↦
                rw (h, use_proof, k, j)
                  (if_ind (Moves {A = Unit {0}} s) (not (is_some challenge.consumed_at)) (λ _. kept)
                    (λ _. revoked (λ r. str_eq r.user_id user.id) f.now))
          ]
        ]
      ]

  pub reset_password-Moves : (dto : PasswordReset) (s : Auth) → Moves s (reset_password rt dto f s)
  unfolding reset_password
  reset_password-Moves dto s = elim (Option-cases (rt.verify dto.reset_proof f.now)) [
    | inl h ↦ rw (h, reset_password) kept
    | inr (proof, h) ↦ elim (Option-cases proof.jti) [
      | inl k ↦ rw (h, reset_password, k) (if_ind (Moves s) _ (λ _. kept) (λ _. kept))
      | inr (jti, k) ↦
          rw (h, reset_password, k)
            (if_ind (Moves s) _ (λ _. kept)
              (λ _. use_proof-Moves jti (normalize_email rt dto.email) dto.new_password s))
    ]
  ]

  pub delete_account-Moves :
      (user : String) (now : ℕ) (s : Auth)
      → Move rt f s.sessions (delete_account user now s).sessions
  unfolding delete_account
  delete_account-Moves user now s = elim (Option-cases (find_by user_id user s.users)) [
    | inl h ↦ rw (h, delete_account) kept
    | inr (u, h) ↦ rw (h, delete_account) (revoked _ now)
  ]

module _ (rt : Runtime) (c : OauthConfig) (web : Web) (f : Draws) where
  consume_grant-sessions :
      (raw : String) (now : ℕ) (s : Auth)
      → (consume_grant rt c web raw now s).1.sessions ≡ s.sessions
  unfolding consume_grant
  consume_grant-sessions raw now s =
      elim (Option-cases (find_where (is_open_grant rt c web raw now) s.grants)) [
        | inl h ↦ rw (h, consume_grant) refl
        | inr (g, h) ↦ elim (Option-cases (find_where (is_active_user g.user_id) s.users)) [
          | inl k ↦ rw (h, consume_grant, k) refl
          | inr (user, k) ↦ rw (h, consume_grant, k) refl
        ]
      ]

  pub exchange_oauth_grant-Moves :
      (raw : String) (s : Auth) → Moves rt f s (exchange_oauth_grant rt c web raw f s)
  unfolding exchange_oauth_grant
  exchange_oauth_grant-Moves raw s = elim (Result-cases (assert_oauth_enabled c none)) [
    | inr (e, h) ↦ rw (h, exchange_oauth_grant) kept
    | inl (_, h) ↦
        rw (h, exchange_oauth_grant)
          (let same = consume_grant-sessions raw f.now s in
            and_then_ind (Moves rt f s) (consume_grant rt c web raw f.now s)
              (λ user s'. issue_session rt user f s')
              (λ e _.
                still rt f {A = AuthResult} s (consume_grant rt c web raw f.now s).1 (err e) same)
              (λ user _.
                issue_session-Moves rt f user s (consume_grant rt c web raw f.now s).1 same))
  ]
