-- ===== src/Auth/Families.antt =====
-- The families of refresh sessions (src/auth/auth.service.ts).
use jagalchi_api.Base.{
  ℕ, String, Bool, true, false, Option, some, List, [], ◌∷◌, ◌≡◌, ◌≢◌, refl, sym, ◌∙◌, subst, ◌&&◌,
  find_where, find_by, find_by-All, save, save-Distinct, save-Distinct_key, update_where-Distinct,
  update_where-All, Pairs, save-Pairs, found-Pairs, save_comm, update_where-Pairs, All-save_others,
  Distinct, All, All-map, All-save, All-find_where, All-update_where, arith, str_ne,
}
use jagalchi_api.Auth.Types.{Runtime, Draws, RefreshSession, session_id}
use jagalchi_api.Auth.Sessions.{create_refresh_session, is_live, revoked_by, revoke_where}
use jagalchi_api.Auth.Moves.{Move, kept, issued, rotated, revoked}

abbrev pub token_of : RefreshSession → String
token_of r = r.token_hash

-- Two live sessions are of two families.
abbrev pub IsApart : RefreshSession → RefreshSession → Type 0
IsApart a b = is_live a ≡ true → is_live b ≡ true → a.family_id ≢ b.family_id

-- A table with distinct identifiers and tokens, in which no family has two live sessions.
abbrev pub HasOneLive : List RefreshSession → Type 0
HasOneLive xs = Distinct session_id xs × Distinct token_of xs × Pairs IsApart xs

-- What a call draws for a session is new: its identifier, its family and its token.
abbrev pub IsNew : Runtime → Draws → RefreshSession → Type 0
IsNew rt f r =
    (r.id ≢ f.session_id) × (r.family_id ≢ f.family_id) × (r.token_hash ≢ rt.sha256 f.token)

IsApart-swap : (a b : RefreshSession) → IsApart a b → IsApart b a
IsApart-swap a b h lb la e = h la lb (sym e)

-- A session that is revoked is not live.
dead :
    {A : Type 0} (t : RefreshSession) (now : ℕ) (next : Option String)
    → is_live (record t { revoked_at = some now; replaced_by_id = next }) ≡ true
    → A
dead t now next h = cc

insert-Distinct :
    (g : RefreshSession → String) (n : RefreshSession) (xs : List RefreshSession)
    → All (λ y. (y.id ≢ n.id) × (g y ≢ g n)) xs
    → Distinct g xs
    → Distinct g (save session_id n xs)
unfolding save
insert-Distinct g n [] h d = (tt, tt)
insert-Distinct g n (x ∷ xs) h d = rw (str_ne h.0.0) (
  All-save session_id (λ y. g y ≢ g x) n xs d.0 (λ e. h.0.1 (sym e)),
  insert-Distinct g n xs h.1 d.1,
)

module _ (rt : Runtime) (f : Draws) (xs : List RefreshSession) (good : HasOneLive xs)
    (new : All (IsNew rt f) xs) where
  issued-HasOneLive :
      (user : String)
      → HasOneLive (save session_id (create_refresh_session rt user f.family_id f) xs)
  unfolding create_refresh_session
  issued-HasOneLive user =
      let n = create_refresh_session rt user f.family_id f in
      (
        save-Distinct_key session_id n xs good.0,
        insert-Distinct token_of n xs (All-map _ _ xs (λ y h. (h.0, h.2)) new) good.1,
        save-Pairs session_id IsApart IsApart-swap n xs good.0
            (All-map _ _ xs (λ y h _ _ _ e. h.1 (sym e)) new) good.2,
      )

  rotated-HasOneLive :
      (user : String) (p : RefreshSession → Bool) (t : RefreshSession)
      → find_where p xs ≡ some t
      → is_live t ≡ true
      → HasOneLive (
          save session_id
            (record t { revoked_at = some f.now; replaced_by_id = some f.session_id })
            (save session_id (create_refresh_session rt user t.family_id f) xs))
  unfolding create_refresh_session
  rotated-HasOneLive user p t e l =
      let n = create_refresh_session rt user t.family_id f in
      let c = record t { revoked_at = some f.now; replaced_by_id = some f.session_id } in
      let here : find_by session_id t.id xs ≡ some t =
        All-find_where (λ y. find_by session_id y.id xs ≡ some y) p xs
          (find_by-All session_id xs good.0) e in
      let fresh : IsNew rt f t = All-find_where (IsNew rt f) p xs new e in
      let closed : HasOneLive (save session_id c xs) = (
        save-Distinct_key session_id c xs good.0,
        save-Distinct session_id token_of c xs here refl good.1,
        save-Pairs session_id IsApart IsApart-swap c xs good.0
            (All-map _ _ xs (λ y _ _ lc. dead t f.now (some f.session_id) lc) new) good.2,
      ) in
      let alone : All (λ y. is_live y ≡ true → y.family_id ≢ t.family_id) (save session_id c xs) =
        All-save_others session_id (λ y. is_live y ≡ true → y.family_id ≢ t.family_id) c xs good.0
          (All-map _ _ xs (λ y h k ly q. h k l ly (sym q))
            (found-Pairs session_id IsApart IsApart-swap p xs e good.2))
          (λ lc. dead t f.now (some f.session_id) lc) in
      let new' : All (λ y. (y.id ≢ n.id) × (y.token_hash ≢ n.token_hash)) (save session_id c xs) =
        All-save session_id (λ y. (y.id ≢ n.id) × (y.token_hash ≢ n.token_hash)) c xs
          (All-map _ _ xs (λ y h. (h.0, h.2)) new) (fresh.0, fresh.2) in
      subst HasOneLive (sym (save_comm session_id c n xs (λ q. fresh.0 (sym q)) here)) (
        save-Distinct_key session_id n (save session_id c xs) closed.0,
        insert-Distinct token_of n (save session_id c xs) new' closed.1,
        save-Pairs session_id IsApart IsApart-swap n (save session_id c xs) closed.0
            (All-map _ _ (save session_id c xs) (λ y h _ _ ly q. h ly (sym q)) alone) closed.2,
      )

revoked-HasOneLive :
    (p : RefreshSession → Bool) (now : ℕ) (xs : List RefreshSession)
    → HasOneLive xs
    → HasOneLive (revoke_where p now xs)
unfolding revoke_where
revoked-HasOneLive p now xs good =
    let q : RefreshSession → Bool = λ r. p r && is_live r in
    (
      update_where-Distinct session_id q (revoked_by now) xs (λ a. refl) good.0,
      update_where-Distinct token_of q (revoked_by now) xs (λ a. refl) good.1,
      update_where-Pairs IsApart q (revoked_by now) xs (λ x y _ l. dead x now x.replaced_by_id l)
          (λ x y _ _ l. dead y now y.replaced_by_id l) good.2,
    )

-- Each move keeps the families at one live session, where what the call draws is new.
pub Move-HasOneLive :
    {rt : Runtime} {f : Draws} {xs ys : List RefreshSession}
    → All (IsNew rt f) xs
    → HasOneLive xs
    → Move rt f xs ys
    → HasOneLive ys
Move-HasOneLive new good kept = good
Move-HasOneLive {rt} {f} {xs} new good (issued user) = issued-HasOneLive rt f xs good new user
Move-HasOneLive {rt} {f} {xs} new good (rotated user p t e l) =
    rotated-HasOneLive rt f xs good new user p t e l
Move-HasOneLive {rt} {f} {xs} new good (revoked p now) = revoked-HasOneLive p now xs good

-- No session of that token is live.
abbrev pub IsClosed : String → List RefreshSession → Type 0
IsClosed hash xs = All (λ y. y.token_hash ≡ hash → is_live y ≡ false) xs

revoked-All :
    (Q : RefreshSession → Type 0) (p : RefreshSession → Bool) (now : ℕ) (xs : List RefreshSession)
    → All (λ y. Q y → is_live y ≡ false) xs
    → All (λ y. Q y → is_live y ≡ false) (revoke_where p now xs)
unfolding revoke_where
revoked-All Q p now xs h =
    All-update_where (λ y. Q y → is_live y ≡ false) (λ r. p r && is_live r) (revoked_by now) xs
      (λ y _ _ _. refl) h

-- A revocation leaves no row that it selects live.
pub revoke_where-IsDead :
    (Q : RefreshSession → Type 0) (p : RefreshSession → Bool) (now : ℕ) (xs : List RefreshSession)
    → ((y : RefreshSession) → Q y → p y ≡ true)
    → All (λ y. Q y → is_live y ≡ false) (revoke_where p now xs)
unfolding revoke_where
revoke_where-IsDead Q p now xs sel =
    update_where-All (λ y. Q y → is_live y ≡ false) (λ r. p r && is_live r) (revoked_by now) xs
      (λ y _ _. refl) (λ y h q. other (p y) (is_live y) (sel y q) h)
  where
    other : (a b : Bool) → a ≡ true → (a && b) ≡ false → b ≡ false
    other a b h k = ground arith

new_one-IsClosed :
    (rt : Runtime) (f : Draws) (hash : String)
    → rt.sha256 f.token ≢ hash
    → (user family : String) (xs : List RefreshSession) → IsClosed hash xs
    → IsClosed hash (save session_id (create_refresh_session rt user family f) xs)
unfolding create_refresh_session
new_one-IsClosed rt f hash ne user family xs h =
    All-save session_id (λ y. y.token_hash ≡ hash → is_live y ≡ false)
      (create_refresh_session rt user family f) xs h (λ e. absurd (ne e))

-- A token that is closed stays closed, whatever else is called, where no call draws it again.
pub Move-IsClosed :
    {rt : Runtime} {f : Draws} {xs ys : List RefreshSession} (hash : String)
    → rt.sha256 f.token ≢ hash
    → IsClosed hash xs
    → Move rt f xs ys
    → IsClosed hash ys
Move-IsClosed hash ne h kept = h
Move-IsClosed {rt} {f} {xs} hash ne h (issued user) =
    new_one-IsClosed rt f hash ne user f.family_id xs h
Move-IsClosed {rt} {f} {xs} hash ne h (rotated user p t e l) =
    All-save session_id (λ y. y.token_hash ≡ hash → is_live y ≡ false)
      (record t { revoked_at = some f.now; replaced_by_id = some f.session_id }) _
      (new_one-IsClosed rt f hash ne user t.family_id xs h) (λ _. refl)
Move-IsClosed {rt} {f} {xs} hash ne h (revoked p now) =
    revoked-All (λ y. y.token_hash ≡ hash) p now xs h

-- No session of that family is live.
abbrev pub IsEnded : String → List RefreshSession → Type 0
IsEnded family xs = All (λ y. y.family_id ≡ family → is_live y ≡ false) xs

-- A family that has ended stays so, whatever else is called, where no call draws it again.
pub Move-IsEnded :
    {rt : Runtime} {f : Draws} {xs ys : List RefreshSession} (family : String)
    → f.family_id ≢ family
    → IsEnded family xs
    → Move rt f xs ys
    → IsEnded family ys
unfolding create_refresh_session
Move-IsEnded family ne h kept = h
Move-IsEnded {rt} {f} {xs} family ne h (issued user) =
    All-save session_id (λ y. y.family_id ≡ family → is_live y ≡ false)
      (create_refresh_session rt user f.family_id f) xs h (λ e. absurd (ne e))
Move-IsEnded {rt} {f} {xs} family ne h (rotated user p t e l) =
    let Q : RefreshSession → Type 0 = λ y. y.family_id ≡ family → is_live y ≡ false in
    let still : t.family_id ≡ family → is_live t ≡ false = All-find_where Q p xs h e in
    All-save session_id Q (record t { revoked_at = some f.now; replaced_by_id = some f.session_id })
      _
      (All-save session_id Q (create_refresh_session rt user t.family_id f) xs h
        (λ q. absurd (let k : true ≡ false = sym l ∙ still q in cc)))
      (λ _. refl)
Move-IsEnded {rt} {f} {xs} family ne h (revoked p now) =
    revoked-All (λ y. y.family_id ≡ family) p now xs h
