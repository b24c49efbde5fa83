-- ===== src/Base/Keys.antt =====
-- Tables without two rows of one key: unique columns and primary keys.
use Prim.Native.String.{String}
use mathlib.Core.Path.{◌≡◌, sym, ◌∙◌, ap}
use mathlib.Core.Logic.{◌≢◌, inl, inr}
use mathlib.Core.Bool.{Bool, true, false}
use mathlib.Core.Option.{some}
use mathlib.Core.List.{List, [], ◌∷◌}
use native.Mathlib.Omega.{arith}
use text.Mathlib.TextEquality.{eq_iff}
use text.Mathlib.TextPositions.{eq_refl}
use jagalchi_api.Base.Tests.{str_eq, if_ind, if_eq, Bool-cases}
use jagalchi_api.Base.Lists.{All, All-map, All-zip, All-keep, keep}
use jagalchi_api.Base.Table.{
  find_by, find_where, save, insert_by, sort_by, All-sort_by, All-insert_by, update_where, All-save,
  All-find_by,
}

some-eq {ℓ} : {A : Type ℓ} {x y : A} → some x ≡ some y → x ≡ y
some-eq e = cc

pub str_ne : {s t : String} → s ≢ t → str_eq s t ≡ false
str_ne {s} {t} n = ground (arith, eq_iff s t)

module _ {ℓ κ} {A : Type ℓ} {B : Type κ} where
  -- No two rows agree on `f`.
  abbrev pub Distinct : (A → B) → List A → Type (ℓ ⊔ κ)
  Distinct f [] = Unit
  Distinct f (x ∷ xs) = All (λ y. f y ≢ f x) xs × Distinct f xs

  pub keep-Distinct :
      (f : A → B) (p : A → Bool) (xs : List A) → Distinct f xs → Distinct f (keep p xs)
  unfolding keep
  keep-Distinct f p [] d = tt
  keep-Distinct f p (x ∷ xs) d =
      let ih = keep-Distinct f p xs d.1 in
      if_ind (Distinct f) (p x) (λ _. (All-keep (λ y. f y ≢ f x) p xs d.0, ih)) (λ _. ih)

  insert_by-Distinct :
      (f : A → B) (before : A → A → Bool) (x : A) (xs : List A)
      → All (λ y. f y ≢ f x) xs
      → Distinct f xs
      → Distinct f (insert_by before x xs)
  unfolding insert_by
  insert_by-Distinct f before x [] a d = (tt, tt)
  insert_by-Distinct f before x (y ∷ ys) a d =
      let ih = insert_by-Distinct f before x ys a.1 d.1 in
      if_ind (Distinct f) (before y x)
        (λ _. (All-insert_by (λ z. f z ≢ f y) before x ys (λ e. a.0 (sym e)) d.0, ih)) (λ _. (a, d))

  pub sort_by-Distinct :
      (f : A → B) (before : A → A → Bool) (xs : List A)
      → Distinct f xs
      → Distinct f (sort_by before xs)
  unfolding sort_by
  sort_by-Distinct f before [] d = tt
  sort_by-Distinct f before (x ∷ xs) d =
      insert_by-Distinct f before x (sort_by before xs) (All-sort_by (λ y. f y ≢ f x) before xs d.0)
        (sort_by-Distinct f before xs d.1)

  pub update_where-Distinct :
      (f : A → B) (p : A → Bool) (g : A → A) (xs : List A)
      → ((a : A) → f (g a) ≡ f a)
      → Distinct f xs
      → Distinct f (update_where p g xs)
  unfolding update_where
  update_where-Distinct f p g [] same d = tt
  update_where-Distinct f p g (x ∷ xs) same d = (
    if_ind (λ z. All (λ y. f y ≢ f z) (update_where p g xs)) (p x)
        (λ _. off xs (g x) (All-map _ _ xs (λ y n e. n (e ∙ same x)) d.0)) (λ _. off xs x d.0),
    update_where-Distinct f p g xs same d.1,
  )
    where
      off :
          (ys : List A) (z : A)
          → All (λ y. f y ≢ f z) ys
          → All (λ y. f y ≢ f z) (update_where p g ys)
      off [] z a = tt
      off (y ∷ ys) z a =
          (if_ind (λ u. f u ≢ f z) (p y) (λ _ e. a.0 (sym (same y) ∙ e)) (λ _. a.0), off ys z a.1)

module _ {ℓ κ} {A : Type ℓ} {B : Type κ} (key : A → String) where
  -- An update of a row that keeps the value of `f` keeps the values distinct.
  pub save-Distinct :
      (f : A → B) (r : A) (xs : List A) {old : A}
      → find_by key (key r) xs ≡ some old
      → f r ≡ f old
      → Distinct f xs
      → Distinct f (save key r xs)
  unfolding save find_by find_where
  save-Distinct f r [] e s d = cc
  save-Distinct f r (x ∷ xs) {old} e s d =
      if_eq (str_eq (key x) (key r)) e
        (λ h g. rw h (All-map _ _ xs (λ y n q. n (q ∙ s ∙ ap f (sym (some-eq g)))) d.0, d.1))
        (λ h g. rw h (
          All-save key (λ y. f y ≢ f x) r xs d.0
              (λ q. All-find_by key (λ y. f y ≢ f x) (key r) xs d.0 g (sym s ∙ q)),
          save-Distinct f r xs g s d.1,
        ))

module _ {ℓ} {A : Type ℓ} (key : A → String) where
  -- Where the keys are distinct, every row is the one that its key finds.
  pub find_by-All : (xs : List A) → Distinct key xs → All (λ a. find_by key (key a) xs ≡ some a) xs
  unfolding find_by find_where
  find_by-All [] d = tt
  find_by-All (x ∷ xs) d = (
    rw (eq_refl (key x)),
    All-map _ _ xs (λ a (ne, e). rw (str_ne (λ q. ne (sym q))) e)
        (All-zip _ _ xs d.0 (find_by-All xs d.1)),
  )

module _ {ℓ} {A : Type ℓ} (key : A → String) where
  -- Saving a row keeps the keys distinct.
  pub save-Distinct_key : (r : A) (xs : List A) → Distinct key xs → Distinct key (save key r xs)
  unfolding save
  save-Distinct_key r [] d = (tt, tt)
  save-Distinct_key r (x ∷ xs) d = elim (Bool-cases (str_eq (key x) (key r))) [
    | inl e ↦
        let same = (eq_iff (key x) (key r)).0 e in
        rw e (All-map _ _ xs (λ y n q. n (q ∙ sym same)) d.0, d.1)
    | inr e ↦
        let other : key r ≢ key x =
          λ q. let k : true ≡ false = sym ((eq_iff (key x) (key r)).1 (sym q)) ∙ e in cc in
        rw e (All-save key (λ y. key y ≢ key x) r xs d.0 other, save-Distinct_key r xs d.1)
  ]
