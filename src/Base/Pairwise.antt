-- ===== src/Base/Pairwise.antt =====
-- A relation that holds between any two rows of a table.
use Prim.Native.String.{String}
use mathlib.Core.Path.{◌≡◌, refl, sym, subst, ap, ◌∙◌}
use mathlib.Core.Logic.{◌≢◌, inl, inr}
use mathlib.Core.Bool.{Bool, true, false}
use mathlib.Core.Option.{none, some}
use mathlib.Core.List.{List, [], ◌∷◌}
use native.Mathlib.Omega.{arith}
use text.Mathlib.TextEquality.{eq_iff}
use jagalchi_api.Base.Tests.{str_eq, if_ind, if_eq, Bool-cases}
use jagalchi_api.Base.Lists.{All, All-map, All-zip}
use jagalchi_api.Base.Table.{find_where, find_by, All-find_where, save, update_where}
use jagalchi_api.Base.Keys.{Distinct, str_ne}

abbrev pub Pairs {ℓ κ} : {A : Type ℓ} → (A → A → Type κ) → List A → Type κ
Pairs R [] = Unit
Pairs R (x ∷ xs) = All (λ y. R x y) xs × Pairs R xs

some-eq {ℓ} : {A : Type ℓ} {x y : A} → some x ≡ some y → x ≡ y
some-eq e = cc

module _ {ℓ} {A : Type ℓ} where
  -- A search that every row fails finds nothing.
  pub find_where-missing :
      (p : A → Bool) (xs : List A) → All (λ x. p x ≡ false) xs → find_where p xs ≡ none
  unfolding find_where
  find_where-missing p [] h = refl
  find_where-missing p (x ∷ xs) h = rw h.0 (find_where-missing p xs h.1)

module _ {ℓ} {A : Type ℓ} (key : A → String) where
  -- What holds of a row and of all rows of other keys holds after the row is saved.
  pub All-save_others {κ} :
      (P : A → Type κ) (r : A) (xs : List A)
      → Distinct key xs
      → All (λ y. key y ≢ key r → P y) xs
      → P r
      → All P (save key r xs)
  unfolding save
  All-save_others P r [] d h p = (p, tt)
  All-save_others P r (x ∷ xs) d h p = elim (Bool-cases (str_eq (key x) (key r))) [
    | inl e ↦
        let same = (eq_iff (key x) (key r)).0 e in
        rw e (p, All-map _ _ xs (λ y (f, n). f (λ q. n (q ∙ sym same))) (All-zip _ _ xs h.1 d.0))
    | inr e ↦ rw e (
      h.0 (λ q. absurd (let k : true ≡ false = sym ((eq_iff (key x) (key r)).1 q) ∙ e in cc)),
      All-save_others P r xs d.1 h.1 p,
    )
  ]

  -- A new row and the update of another one commute.
  pub save_comm :
      (r n : A) (xs : List A) {old : A}
      → key n ≢ key r
      → find_by key (key r) xs ≡ some old
      → save key r (save key n xs) ≡ save key n (save key r xs)
  unfolding save find_by find_where
  save_comm r n [] ne h = cc
  save_comm r n (x ∷ xs) {old} ne h = ground (
    arith,
    eq_iff (key x) (key r),
    eq_iff (key x) (key n),
    eq_iff (key n) (key r),
    eq_iff (key r) (key n),
    save_comm r n xs {old = old} ne,
  )

module _ {ℓ κ} {A : Type ℓ} (R : A → A → Type κ) where
  pub update_where-Pairs :
      (p : A → Bool) (f : A → A) (xs : List A)
      → ((x y : A) → R x y → R (f x) y)
      → ((x y : A) → R x y → R x (f y))
      → Pairs R xs
      → Pairs R (update_where p f xs)
  unfolding update_where
  update_where-Pairs p f [] l r h = tt
  update_where-Pairs p f (x ∷ xs) l r h = (
    if_ind (λ z. All (λ y. R z y) (update_where p f xs)) (p x)
        (λ _. off xs (f x) (All-map _ _ xs (l x) h.0)) (λ _. off xs x h.0),
    update_where-Pairs p f xs l r h.1,
  )
    where
      off : (ys : List A) (z : A) → All (λ y. R z y) ys → All (λ y. R z y) (update_where p f ys)
      off [] z a = tt
      off (y ∷ ys) z a = (if_ind (λ u. R z u) (p y) (λ _. r z y a.0) (λ _. a.0), off ys z a.1)

module _ {ℓ κ} {A : Type ℓ} (key : A → String) (R : A → A → Type κ)
    (swap : (x y : A) → R x y → R y x) where
  -- A row that agrees with all rows of other keys may be saved.
  pub save-Pairs :
      (r : A) (xs : List A)
      → Distinct key xs
      → All (λ y. key y ≢ key r → R r y) xs
      → Pairs R xs
      → Pairs R (save key r xs)
  unfolding save
  save-Pairs r [] d h p = (tt, tt)
  save-Pairs r (x ∷ xs) d h p = elim (Bool-cases (str_eq (key x) (key r))) [
    | inl e ↦
        let same = (eq_iff (key x) (key r)).0 e in
        rw e (All-map _ _ xs (λ y (f, n). f (λ q. n (q ∙ sym same))) (All-zip _ _ xs h.1 d.0), p.1)
    | inr e ↦
        let rx =
          h.0 (λ q. absurd (let k : true ≡ false = sym ((eq_iff (key x) (key r)).1 q) ∙ e in cc)) in
        rw e (
          All-save_others key (λ y. R x y) r xs d.1 (All-map _ _ xs (λ y a _. a) p.0) (swap r x rx),
          save-Pairs r xs d.1 h.1 p.1,
        )
  ]

  -- What a search finds is related to every row of another key.
  pub found-Pairs :
      (p : A → Bool) (xs : List A) {a : A}
      → find_where p xs ≡ some a
      → Pairs R xs
      → All (λ y. key y ≢ key a → R a y) xs
  unfolding find_where
  found-Pairs p [] e h = tt
  found-Pairs p (x ∷ xs) {a} e h =
      if_eq (p x) e
        (λ _ f.
          let same : x ≡ a = some-eq f in
          (
            (λ n. absurd (n (ap key same))),
            subst (λ z. All (λ y. key y ≢ key z → R z y) xs) same (All-map _ _ xs (λ y r _. r) h.0),
          ))
        (λ _ f. ((λ _. swap x a (All-find_where (λ y. R x y) p xs h.0 f)), found-Pairs p xs f h.1))

module _ {ℓ κ} {A : Type ℓ} {B : Type κ} (key : A → String) (f : A → B) where
  -- Where a column is distinct, no row of another key agrees with what a search finds.
  pub found-Distinct :
      (p : A → Bool) (xs : List A) {a : A}
      → find_where p xs ≡ some a
      → Distinct f xs
      → All (λ y. key y ≢ key a → f y ≢ f a) xs
  found-Distinct p xs e d =
      All-map _ _ xs (λ y h n q. h n (sym q))
        (found-Pairs key (λ x y. f x ≢ f y) (λ x y n q. n (sym q)) p xs e (pairs xs d))
    where
      pairs : (ys : List A) → Distinct f ys → Pairs (λ x y. f x ≢ f y) ys
      pairs [] d = tt
      pairs (y ∷ ys) d = (All-map _ _ ys (λ z n q. n (sym q)) d.0, pairs ys d.1)

module _ {ℓ} {A : Type ℓ} (key : A → String) where
  -- A saved row is what a search for its key finds, where it passes the test.
  pub find_where-save_key :
      (p : A → Bool) (r : A) (xs : List A)
      → ((x : A) → p x ≡ true → key x ≡ key r)
      → p r ≡ true
      → find_where p (save key r xs) ≡ some r
  unfolding find_where save
  find_where-save_key p r [] same h = rw h refl
  find_where-save_key p r (x ∷ xs) same h = elim (Bool-cases (str_eq (key x) (key r))) [
    | inl e ↦ rw (e, find_where, h) refl
    | inr e ↦ elim (Bool-cases (p x)) [
      | inl k ↦
          absurd (let w : true ≡ false = sym ((eq_iff (key x) (key r)).1 (same x k)) ∙ e in cc)
      | inr k ↦ rw (e, find_where, k) (find_where-save_key p r xs same h)
    ]
  ]

  -- A row that takes the place of what a search found is found by it, where it passes the test.
  pub find_where-save :
      (p : A → Bool) (r : A) (xs : List A) {a : A}
      → Distinct key xs
      → find_where p xs ≡ some a
      → key r ≡ key a
      → p r ≡ true
      → find_where p (save key r xs) ≡ some r
  unfolding find_where save
  find_where-save p r [] d e s h = cc
  find_where-save p r (x ∷ xs) {a} d e s h =
      if_eq (p x) e
        (λ _ f. rw ((eq_iff (key x) (key r)).1 (ap key (some-eq f) ∙ sym s), find_where, h) refl)
        (λ k f.
          let far : key a ≢ key x = All-find_where (λ y. key y ≢ key x) p xs d.0 f in
          rw (str_ne (λ q. far (sym s ∙ sym q)), find_where, k) (find_where-save p r xs d.1 f s h))
