-- ===== src/Base/Table.antt =====
-- A table of the database: its rows in the order of insertion. `find_where` is a `findOne`, and
-- `save` updates the row of the same primary key, or inserts.
use Prim.Native.Nat.{ℕ, suc}
use Prim.Native.String.{String}
use mathlib.Core.Path.{◌≡◌, refl, subst}
use mathlib.Core.Bool.{Bool, true, false}
use mathlib.Core.Option
use mathlib.Core.Option.{Option, none, some}
use mathlib.Core.List.{List, [], ◌∷◌}
use native.Mathlib.Omega.{arith}
use text.Mathlib.TextEquality.{eq_iff}
use jagalchi_api.Base.Tests.{str_eq, if◌then◌else◌, if_ind, if_eq}
use jagalchi_api.Base.Lists.{All}

module _ {ℓ} {A : Type ℓ} where
  unfoldable pub find_where : (A → Bool) → List A → Option A
  find_where p [] = none
  find_where p (x ∷ xs) = let rest = find_where p xs in if p x then some x else rest

  pub find_where_holds :
      (p : A → Bool) (xs : List A) {a : A} → find_where p xs ≡ some a → p a ≡ true
  unfolding find_where
  find_where_holds p [] h = cc
  find_where_holds p (x ∷ xs) {a} h =
      if_eq (p x) h (λ e f. subst (λ y. p y ≡ true) (cc) e) (λ _ f. find_where_holds p xs f)

  -- A search that fails has passed over every row.
  pub find_where-none :
      (p : A → Bool) (xs : List A) → find_where p xs ≡ none → All (λ x. p x ≡ false) xs
  unfolding find_where
  find_where-none p [] h = tt
  find_where-none p (x ∷ xs) h = if_eq (p x) h (λ _ f. cc) (λ e f. (e, find_where-none p xs f))

  pub All-find_where {κ} :
      (P : A → Type κ) (p : A → Bool) (xs : List A) {a : A}
      → All P xs
      → find_where p xs ≡ some a
      → P a
  unfolding find_where
  All-find_where P p [] h e = cc
  All-find_where P p (x ∷ xs) {a} h e =
      if_eq (p x) e (λ _ f. subst P (cc) h.0) (λ _ f. All-find_where P p xs h.1 f)

module _ {ℓ} {A : Type ℓ} (key : A → String) where
  unfoldable pub save : A → List A → List A
  save r [] = r ∷ []
  save r (x ∷ xs) = let rest = save r xs in if str_eq (key x) (key r) then r ∷ xs else x ∷ rest

  -- `findOne({ where: { id } })`
  unfoldable pub find_by : String → List A → Option A
  unfolding find_where
  find_by i = find_where (λ r. str_eq (key r) i)

  pub find_by-save :
      (i : String) (r : A) (xs : List A)
      → find_by i (save r xs) ≡ (if str_eq (key r) i then some r else find_by i xs)
  unfolding find_by save
  find_by-save i r [] = refl
  find_by-save i r (x ∷ xs) =
      ground
        (arith, eq_iff (key x) (key r), eq_iff (key x) i, eq_iff (key r) i, find_by-save i r xs)

  pub All-save {κ} : (P : A → Type κ) (r : A) (xs : List A) → All P xs → P r → All P (save r xs)
  unfolding save
  All-save P r [] h p = (p, tt)
  All-save P r (x ∷ xs) h p =
      let ih = All-save P r xs h.1 p in
      if_ind (All P) (str_eq (key x) (key r)) (λ _. (p, h.1)) (λ _. (h.0, ih))

  pub All-find_by {κ} :
      (P : A → Type κ) (i : String) (xs : List A) {a : A} → All P xs → find_by i xs ≡ some a → P a
  unfolding find_by
  All-find_by P i xs h e = All-find_where P (λ r. str_eq (key r) i) xs h e

  pub key-find_by : (i : String) (xs : List A) {a : A} → find_by i xs ≡ some a → key a ≡ i
  unfolding find_by
  key-find_by i xs {a} e = (eq_iff (key a) i).0 (find_where_holds (λ r. str_eq (key r) i) xs e)

module _ {ℓ} {A : Type ℓ} where
  -- `UPDATE … SET … WHERE`
  unfoldable pub update_where : (A → Bool) → (A → A) → List A → List A
  update_where p f [] = []
  update_where p f (x ∷ xs) = (if p x then f x else x) ∷ update_where p f xs

  -- The number of rows that a condition selects.
  unfoldable pub count_where : (A → Bool) → List A → ℕ
  count_where p [] = 0
  count_where p (x ∷ xs) = let rest = count_where p xs in if p x then suc rest else rest

  pub All-update_where {κ} :
      (P : A → Type κ) (p : A → Bool) (f : A → A) (xs : List A)
      → ((x : A) → p x ≡ true → P x → P (f x))
      → All P xs
      → All P (update_where p f xs)
  unfolding update_where
  All-update_where P p f [] h a = tt
  All-update_where P p f (x ∷ xs) h a =
      (if_ind P (p x) (λ e. h x e a.0) (λ _. a.0), All-update_where P p f xs h a.1)

  -- What holds of every row that is changed and of every row that is not holds of all.
  pub update_where-All {κ} :
      (P : A → Type κ) (p : A → Bool) (f : A → A) (xs : List A)
      → ((x : A) → p x ≡ true → P (f x))
      → ((x : A) → p x ≡ false → P x)
      → All P (update_where p f xs)
  unfolding update_where
  update_where-All P p f [] changed same = tt
  update_where-All P p f (x ∷ xs) changed same =
      (if_ind P (p x) (changed x) (same x), update_where-All P p f xs changed same)

  -- `ORDER BY`: a stable insertion sort by a strict order.
  unfoldable pub insert_by : (A → A → Bool) → A → List A → List A
  insert_by before x [] = x ∷ []
  insert_by before x (y ∷ ys) =
      let rest = insert_by before x ys in if before y x then y ∷ rest else x ∷ y ∷ ys

  unfoldable pub sort_by : (A → A → Bool) → List A → List A
  unfolding insert_by
  sort_by before [] = []
  sort_by before (x ∷ xs) = insert_by before x (sort_by before xs)

  pub All-insert_by {κ} :
      (P : A → Type κ) (before : A → A → Bool) (x : A) (xs : List A)
      → P x
      → All P xs
      → All P (insert_by before x xs)
  unfolding insert_by
  All-insert_by P before x [] p a = (p, tt)
  All-insert_by P before x (y ∷ ys) p a =
      let ih = All-insert_by P before x ys p a.1 in
      if_ind (All P) (before y x) (λ _. (a.0, ih)) (λ _. (p, a))

  pub All-sort_by {κ} :
      (P : A → Type κ) (before : A → A → Bool) (xs : List A) → All P xs → All P (sort_by before xs)
  unfolding sort_by
  All-sort_by P before [] a = tt
  All-sort_by P before (x ∷ xs) a =
      All-insert_by P before x (sort_by before xs) a.0 (All-sort_by P before xs a.1)

module _ {ℓ} {A : Type ℓ} (key : A → String) where
  -- An update that keeps the keys is seen by each look-up.
  pub find_by-update_where :
      (i : String) (p : A → Bool) (f : A → A) (xs : List A)
      → ((x : A) → key (f x) ≡ key x)
      → find_by key i (update_where p f xs)
        ≡ Option.map (λ x. if p x then f x else x) (find_by key i xs)
  unfolding find_by find_where update_where
  find_by-update_where i p f [] same = refl
  find_by-update_where i p f (x ∷ xs) same =
      ground (arith, find_by-update_where i p f xs same, same x)
