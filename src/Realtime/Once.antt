-- ===== src/Realtime/Once.antt =====
-- How often a connection ticket is consumed (src/realtime/realtime-ticket.service.ts).
use jagalchi_api.Base.{
  ℕ, String, Bool, true, false, Option, none, some, List, [], ◌∷◌, ◌≡◌, ◌≢◌, refl, sym, ap, ◌∙◌,
  subst, inl, inr, str_eq, find_where, find_where_holds, All, All-map, All-find_where, save, eq_iff,
  str_ne, if_eq, if_ind, Option-cases, Distinct, arith,
}
use jagalchi_api.Realtime.{ConnectionTicket, ticket_id, is_usable, consume}

abbrev pub token_of : ConnectionTicket → String
token_of t = t.token_hash

none_found :
    (p : ConnectionTicket → Bool) (ts : List ConnectionTicket)
    → All (λ t. p t ≡ false) ts
    → find_where p ts ≡ none
unfolding find_where
none_found p [] h = refl
none_found p (t ∷ ts) h = rw h.0 (none_found p ts h.1)

some_eq : {a b : ConnectionTicket} → some a ≡ some b → a ≡ b
some_eq e = cc

differ : {C : Type 0} {b : Bool} → b ≡ true → b ≡ false → C
differ h k = cc

nobody :
    {C : Type 0} (ts ts' : List ConnectionTicket) (user : String)
    → ◌≡◌ {A = Option String × List ConnectionTicket} (none, ts) (some user, ts')
    → C
nobody ts ts' user h = cc

module _ (hash : String → String) (raw : String) where
  foreign :
      (audience : String) (now : ℕ) (t : ConnectionTicket)
      → t.token_hash ≢ hash raw
      → is_usable hash raw audience now t ≡ false
  unfolding is_usable
  foreign audience now t n = rw (str_ne n) refl

  used_up :
      (audience : String) (now at : ℕ) (t : ConnectionTicket)
      → is_usable hash raw audience now (record t { consumed_at = some at }) ≡ false
  unfolding is_usable
  used_up audience now at t = ground arith

  usable_token :
      (audience : String) (now : ℕ) (t : ConnectionTicket)
      → is_usable hash raw audience now t ≡ true
      → t.token_hash ≡ hash raw
  unfolding is_usable
  usable_token audience now t h = ground (arith, eq_iff t.token_hash (hash raw))

  none_left :
      (audience other : String) (asked later now : ℕ) (ts : List ConnectionTicket)
      {t : ConnectionTicket}
      → Distinct ticket_id ts
      → Distinct token_of ts
      → find_where (is_usable hash raw audience asked) ts ≡ some t
      → All
          (λ x. is_usable hash raw other later x ≡ false)
          (save ticket_id (record t { consumed_at = some now }) ts)
  unfolding find_where save
  none_left audience other asked later now [] ids tokens h = cc
  none_left audience other asked later now (x ∷ xs) {t} ids tokens h =
      if_eq (is_usable hash raw audience asked x) h
        (λ u e.
          let same : x ≡ t = some_eq e in
          let usable = usable_token audience asked x u in
          if_ind (All (λ y. is_usable hash raw other later y ≡ false)) (str_eq x.id t.id)
            (λ _. (
              used_up other later now t,
              All-map _ _ xs (λ y n. foreign other later y (λ k. n (k ∙ sym usable))) tokens.0,
            ))
            (λ n. differ ((eq_iff x.id t.id).1 (ap (λ y. y.id) same)) n))
        (λ u e.
          let held : is_usable hash raw audience asked t ≡ true =
            find_where_holds (is_usable hash raw audience asked) xs e in
          let ih = none_left audience other asked later now xs ids.1 tokens.1 e in
          let far : t.token_hash ≢ x.token_hash =
            All-find_where (λ y. y.token_hash ≢ x.token_hash) (is_usable hash raw audience asked) xs
              tokens.0 e in
          let apart : t.id ≢ x.id =
            All-find_where (λ y. y.id ≢ x.id) (is_usable hash raw audience asked) xs ids.0 e in
          if_ind (All (λ y. is_usable hash raw other later y ≡ false)) (str_eq x.id t.id)
            (λ k. absurd (apart (sym ((eq_iff x.id t.id).0 k))))
            (λ _.
              (foreign other later x (λ k. far (usable_token audience asked t held ∙ sym k)), ih)))

  -- A ticket opens one connection: where identifiers and hashes are unique, once a ticket has been
  -- consumed no later call with it succeeds, for any audience and at any time, and none writes.
  pub consume_once :
      (audience other : String) (asked now asked' now' : ℕ) (ts ts' : List ConnectionTicket)
      (user : String)
      → Distinct ticket_id ts
      → Distinct token_of ts
      → consume hash raw audience asked now ts ≡ (some user, ts')
      → consume hash raw other asked' now' ts' ≡ (none, ts')
  unfolding consume
  consume_once audience other asked now asked' now' ts ts' user ids tokens h =
      elim (Option-cases (find_where (is_usable hash raw audience asked) ts)) [
        | inl e ↦ nobody ts ts' user (rw (e, consume) at h)
        | inr (t, e) ↦
            let k : ◌≡◌ {A = Option String × List ConnectionTicket}
                (some t.user_id, save ticket_id (record t { consumed_at = some now }) ts)
                (some user, ts') =
              rw (e, consume) at h in
            subst (λ xs. consume hash raw other asked' now' xs ≡ (none, xs)) (ap (λ out. out.1) k)
              (rw
                (
                  none_found (is_usable hash raw other asked')
                      (save ticket_id (record t { consumed_at = some now }) ts)
                      (none_left audience other asked asked' now ts ids tokens e),
                  consume,
                )
                refl)
      ]
