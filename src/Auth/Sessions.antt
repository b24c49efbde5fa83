-- ===== src/Auth/Sessions.antt =====
-- Refresh sessions of `AuthService` (src/auth/auth.service.ts): how they are issued, rotated and
-- revoked. Each method runs alone, as its transaction and the lock on the family make it; the clock
-- is read once in a call. A transaction that throws leaves the tables as they were.
use jagalchi_api.Base.{
  ℕ, String, Bool, Option, none, some, List, ◌+◌, ◌*◌, ◌&&◌, ◌||◌, not, str_eq, is_some, leb,
  if◌then◌else◌, find_where, save, update_where, ok, err,
}
use jagalchi_api.Auth.Types.{
  Auth, Runtime, Draws, User, RefreshSession, AuthResult, Claims, Outcome, session_id,
  is_active_user, session_not_valid, reuse_detected, user_not_active,
}
use jagalchi_api.Auth.Passwords.{is_empty}

abbrev pub access_token_ttl : ℕ
access_token_ttl = 900000

abbrev pub refresh_token_days : ℕ
refresh_token_days = 30

abbrev pub is_live : RefreshSession → Bool
is_live r = not (is_some r.revoked_at)

abbrev pub has_token : String → RefreshSession → Bool
has_token hash r = str_eq r.token_hash hash

abbrev pub revoked_by : ℕ → RefreshSession → RefreshSession
revoked_by now r = record r { revoked_at = some now }

-- `UPDATE … WHERE … AND revoked_at IS NULL`
unfoldable pub revoke_where :
    (RefreshSession → Bool) → ℕ → List RefreshSession → List RefreshSession
unfolding update_where
revoke_where p now = update_where (λ r. p r && is_live r) (revoked_by now)

module _ (rt : Runtime) where
  -- `createRefreshSession`
  unfoldable pub create_refresh_session : String → String → Draws → RefreshSession
  create_refresh_session user family f = record {
    id = f.session_id;
    user_id = user;
    family_id = family;
    token_hash = rt.sha256 f.token;
    expires_at = f.now + refresh_token_days * 86400000;
    revoked_at = none;
    replaced_by_id = none;
  }

  -- `buildAuthResult`
  unfoldable pub build_auth_result : User → String → ℕ → AuthResult
  build_auth_result user token now =
      let claims : Claims = record {
        sub = some user.id;
        kind = some "access";
        jti = none;
        email = some user.email;
        roles = some user.roles;
      } in
      record {
        access_token = rt.sign claims access_token_ttl now;
        refresh_token = token;
        user = record { id = user.id; email = user.email; name = user.name; roles = user.roles };
      }

  -- `issueSession`
  unfoldable pub issue_session : User → Draws → Auth → Outcome AuthResult × Auth
  unfolding create_refresh_session build_auth_result save
  issue_session user f s = (
    ok (build_auth_result user f.token f.now),
    record s {
      sessions = save session_id (create_refresh_session user.id f.family_id f) s.sessions;
    },
  )

  -- The end of `refresh`: the next session is inserted, then the presented one is closed.
  unfoldable pub rotate : User → RefreshSession → Draws → Auth → Outcome AuthResult × Auth
  unfolding create_refresh_session build_auth_result save
  rotate user session f s =
      let next = create_refresh_session user.id session.family_id f in
      let closed = record session { revoked_at = some f.now; replaced_by_id = some next.id } in
      (
        ok (build_auth_result user f.token f.now),
        record s { sessions = save session_id closed (save session_id next s.sessions) },
      )

  -- `refresh` on the session that the second query finds.
  unfoldable pub refresh_session : RefreshSession → Draws → Auth → Outcome AuthResult × Auth
  unfolding revoke_where rotate find_where
  refresh_session session f s =
      if leb session.expires_at f.now
      then (err session_not_valid, s)
      else if is_some session.revoked_at || is_some session.replaced_by_id
      then (
        err reuse_detected,
        record s {
          sessions = revoke_where (λ r. str_eq r.family_id session.family_id) f.now s.sessions;
        },
      )
      else elim (find_where (is_active_user session.user_id) s.users) [
        | none ↦ (err user_not_active, s)
        | some user ↦ rotate user session f s
      ]

  -- `refresh`
  unfoldable pub refresh : String → Draws → Auth → Outcome AuthResult × Auth
  unfolding refresh_session find_where
  refresh raw f s =
      let hash = rt.sha256 raw in
      elim (find_where (has_token hash) s.sessions) [
        | none ↦ (err session_not_valid, s)
        | some observed ↦
            elim (find_where (λ r. has_token hash r && str_eq r.family_id observed.family_id)
              s.sessions) [
                | none ↦ (err session_not_valid, s)
                | some session ↦ refresh_session session f s
              ]
      ]

  -- `revoke`
  unfoldable pub revoke : Option String → ℕ → Auth → Auth
  unfolding revoke_where
  revoke none now s = s
  revoke (some raw) now s =
      if is_empty raw
      then s
      else record s { sessions = revoke_where (has_token (rt.sha256 raw)) now s.sessions }
