-- ===== src/Auth/Refreshing.antt =====
-- Refresh tokens that are presented twice (src/auth/auth.service.ts).
use jagalchi_api.Base.{
  ℕ, String, Bool, false, some, List, ◌≡◌, ◌≢◌, refl, sym, ap, ◌∙◌, subst, inl, inr, ◌||◌, is_some,
  str_eq, leb, if_ind, Option-cases, find_where, All-find_where, found-Distinct, save, All, All-map,
  All-save, All-save_others, save-Distinct_key, eq_iff, arith, ok, err, is_ok, str_ne,
}
use jagalchi_api.Auth.Types.{
  Auth, Runtime, Draws, User, RefreshSession, AuthResult, Outcome, session_id, is_active_user,
  reuse_detected,
}
use jagalchi_api.Auth.Sessions.{
  create_refresh_session, is_live, has_token, revoke_where, rotate, refresh_session, refresh,
  revoke,
}
use jagalchi_api.Auth.Moves.{refresh_ind}
use jagalchi_api.Auth.Families.{HasOneLive, IsNew, IsClosed, IsEnded, token_of, revoke_where-IsDead}
use jagalchi_api.Auth.Run.{
  Platform, Request, run, NeverDrawn, NeverOpened, run-IsClosed, run-IsEnded,
}

module _ (rt : Runtime) (raw : String) (f : Draws) where
  -- What an answer closes: where the call answers, the token that was presented.
  abbrev Closes : Outcome AuthResult × Auth → Type 0
  Closes (ok a, s) = IsClosed (rt.sha256 raw) s.sessions
  Closes (err e, s) = Unit

  rotate-Closes :
      (user : User) (p : RefreshSession → Bool) (t : RefreshSession) (s : Auth)
      → HasOneLive s.sessions
      → All (IsNew rt f) s.sessions
      → find_where p s.sessions ≡ some t
      → t.token_hash ≡ rt.sha256 raw
      → Closes (rotate rt user t f s)
  unfolding rotate create_refresh_session
  rotate-Closes user p t s good new e same =
      let xs = s.sessions in
      let n = create_refresh_session rt user.id t.family_id f in
      let c = record t { revoked_at = some f.now; replaced_by_id = some f.session_id } in
      let P : RefreshSession → Type 0 = λ y. y.token_hash ≡ rt.sha256 raw → is_live y ≡ false in
      let fresh : IsNew rt f t = All-find_where (IsNew rt f) p xs new e in
      All-save_others session_id P c (save session_id n xs)
        (save-Distinct_key session_id n xs good.0)
        (All-save session_id (λ y. y.id ≢ t.id → P y) n xs
          (All-map _ _ xs (λ y h k q. absurd (h k (q ∙ sym same)))
            (found-Distinct session_id token_of p xs e good.1))
          (λ _ q. absurd (fresh.2 (same ∙ sym q))))
        (λ _. refl)

  refresh_session-Closes :
      (p : RefreshSession → Bool) (t : RefreshSession) (s : Auth)
      → HasOneLive s.sessions
      → All (IsNew rt f) s.sessions
      → find_where p s.sessions ≡ some t
      → t.token_hash ≡ rt.sha256 raw
      → Closes (refresh_session rt t f s)
  unfolding refresh_session
  refresh_session-Closes p t s good new e same =
      if_ind Closes (leb t.expires_at f.now) (λ _. tt)
        (λ _.
          if_ind Closes (is_some t.revoked_at || is_some t.replaced_by_id) (λ _. tt)
            (λ _. elim (Option-cases (find_where (is_active_user t.user_id) s.users)) [
              | inl h ↦ rw (h, find_where) tt
              | inr (user, h) ↦ rw h (rotate-Closes user p t s good new e same)
            ]))

  refresh-Closes :
      (s : Auth) → HasOneLive s.sessions → All (IsNew rt f) s.sessions → Closes (refresh rt raw f s)
  refresh-Closes s good new =
      refresh_ind rt f Closes raw s tt
        (λ q _ t _ k token _. refresh_session-Closes q t s good new k token)

  closed_session-Refused :
      (t : RefreshSession) (s : Auth)
      → is_live t ≡ false
      → is_ok (refresh_session rt t f s).0 ≡ false
  unfolding refresh_session
  closed_session-Refused t s h = ground arith

  -- A closed token is refused.
  pub closed_token-Refused :
      (s : Auth) → IsClosed (rt.sha256 raw) s.sessions → is_ok (refresh rt raw f s).0 ≡ false
  closed_token-Refused s h =
      refresh_ind rt f (λ out. is_ok out.0 ≡ false) raw s refl
        (λ q _ t _ k token _. closed_session-Refused t s (
          All-find_where (λ y. y.token_hash ≡ rt.sha256 raw → is_live y ≡ false) q s.sessions h k
            token))

-- A refresh token works once: where a call with it has been answered, each later call with it is
-- refused, whatever is called in between, where the sessions kept their invariant and no later call
-- draws the same token.
pub used_token-Refused :
    (p : Platform) (raw : String) (f g : Draws) (calls : List (Request × Draws)) (s s' : Auth)
    (a : AuthResult)
    → HasOneLive s.sessions
    → All (IsNew p.rt f) s.sessions
    → refresh p.rt raw f s ≡ (ok a, s')
    → NeverDrawn p (p.rt.sha256 raw) calls
    → is_ok (refresh p.rt raw g (run p calls s')).0 ≡ false
used_token-Refused p raw f g calls s s' a good new h never =
    closed_token-Refused p.rt raw g (run p calls s') (
      run-IsClosed p (p.rt.sha256 raw) calls s' never
        (subst (Closes p.rt raw f) h (refresh-Closes p.rt raw f s good new)))

-- A token that `revoke` was called with is refused ever after, where no later call draws it.
pub logged_out-Refused :
    (p : Platform) (raw : String) (now : ℕ) (g : Draws) (calls : List (Request × Draws)) (s : Auth)
    → raw ≢ ""
    → NeverDrawn p (p.rt.sha256 raw) calls
    → is_ok (refresh p.rt raw g (run p calls (revoke p.rt (some raw) now s))).0 ≡ false
unfolding revoke revoke_where
logged_out-Refused p raw now g calls s full never =
    closed_token-Refused p.rt raw g (run p calls (revoke p.rt (some raw) now s)) (
      run-IsClosed p (p.rt.sha256 raw) calls (revoke p.rt (some raw) now s) never (
        rw (str_ne full) (
          revoke_where-IsDead (λ y. y.token_hash ≡ p.rt.sha256 raw) (has_token (p.rt.sha256 raw))
            now s.sessions (λ y e. (eq_iff y.token_hash (p.rt.sha256 raw)).1 e))))

-- What a report of reuse ends: the family of the session.
abbrev Ends : String → Outcome AuthResult × Auth → Type 0
Ends family (err reuse_detected, s) = IsEnded family s.sessions
Ends family _ = Unit

some-eq : {x y : RefreshSession} → some x ≡ some y → x ≡ y
some-eq h = cc

refresh_session-Ends :
    (rt : Runtime) (family : String) (f : Draws) (t : RefreshSession) (s : Auth)
    → t.family_id ≡ family
    → Ends family (refresh_session rt t f s)
unfolding refresh_session rotate
refresh_session-Ends rt family f t s same =
    if_ind (Ends family) (leb t.expires_at f.now) (λ _. tt)
      (λ _.
        if_ind (Ends family) (is_some t.revoked_at || is_some t.replaced_by_id)
          (λ _.
            revoke_where-IsDead (λ y. y.family_id ≡ family) (λ r. str_eq r.family_id t.family_id)
              f.now s.sessions (λ y q. (eq_iff y.family_id t.family_id).1 (q ∙ sym same)))
          (λ _. elim (Option-cases (find_where (is_active_user t.user_id) s.users)) [
            | inl h ↦ rw (h, find_where) tt
            | inr (user, h) ↦ rw h tt
          ]))

refresh-Ends :
    (rt : Runtime) (raw : String) (f : Draws) (s : Auth) {o : RefreshSession}
    → find_where (has_token (rt.sha256 raw)) s.sessions ≡ some o
    → Ends o.family_id (refresh rt raw f s)
refresh-Ends rt raw f s {o} e = refresh_ind rt f (Ends o.family_id) raw s tt (λ q o' t e' _ _ same.
    refresh_session-Ends rt o.family_id f t s (same ∙ ap (λ x. x.family_id) (some-eq (sym e' ∙ e))))

-- Where the use of a token that was replaced or revoked is detected, its whole family ends: no
-- session of the family is live then, nor after any further calls, where none draws the family anew.
pub reuse-IsEnded :
    (p : Platform) (raw : String) (f : Draws) (calls : List (Request × Draws)) (s s' : Auth)
    (o : RefreshSession)
    → find_where (has_token (p.rt.sha256 raw)) s.sessions ≡ some o
    → refresh p.rt raw f s ≡ (err reuse_detected, s')
    → NeverOpened o.family_id calls
    → IsEnded o.family_id (run p calls s').sessions
reuse-IsEnded p raw f calls s s' o e h never =
    run-IsEnded p o.family_id calls s' never
      (subst (Ends o.family_id) h (refresh-Ends p.rt raw f s e))
