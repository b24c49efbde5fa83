-- ===== src/Roadmaps/Forest.antt =====
-- What a forest of directories is (src/roadmaps/roadmaps.service.ts), and lemmas on saving one.
use jagalchi_api.Base.{
  ℕ, zero, suc, String, Bool, true, false, Option, none, some, List, ◌≡◌, refl, sym, ap, ◌∙◌, subst,
  inl, inr, str_eq, eq_iff, if◌then◌else◌, if_ind, if_eq, Option-cases, Bool-cases, find_by,
  find_by-save, save, key-find_by, str_ne,
}
use jagalchi_api.Roadmaps.Types.{Directory, Outcome, ok, err}
use jagalchi_api.Roadmaps.Directories.{directory_id_of, require_directory, climb}

-- From a parent of the user's one reaches the root; `none` is the root.
pub data Rooted (user : String) (ds : List Directory) : Option String → Type 0 where
  root : Rooted user ds none
  up :
      {c : String} (d : Directory)
      → require_directory user c ds ≡ some d
      → Rooted user ds d.parent_id
      → Rooted user ds (some c)

-- Every directory that a user has leads to the root: there is no cycle, and no parent is missing.
abbrev pub IsForest : List Directory → Type 0
IsForest ds =
    (user id : String) (d : Directory)
    → require_directory user id ds ≡ some d
    → Rooted user ds d.parent_id

-- The same, over directories other than `id`.
pub data Avoids (user id : String) (ds : List Directory) : Option String → Type 0 where
  top : Avoids user id ds none
  step :
      {c : String} (d : Directory)
      → str_eq c id ≡ false
      → require_directory user c ds ≡ some d
      → Avoids user id ds d.parent_id
      → Avoids user id ds (some c)

abbrev pub Climbs : String → String → List Directory → Option String → Outcome (Unit {0}) → Type 0
Climbs user id ds cur (ok _) = Avoids user id ds cur
Climbs user id ds cur (err e) = Unit {0}

pub climb-Avoids :
    (n : ℕ) (user id : String) (ds : List Directory) (cur : Option String)
    → Climbs user id ds cur (climb n user id ds cur)
unfolding climb
climb-Avoids zero user id ds none = top
climb-Avoids zero user id ds (some c) = tt
climb-Avoids (suc n) user id ds none = top
climb-Avoids (suc n) user id ds (some c) =
    if_ind (Climbs user id ds (some c)) (str_eq c id) (λ _. tt)
      (λ h. elim (Option-cases (require_directory user c ds)) [
        | inl e ↦ rw e tt
        | inr (d, e) ↦
            rw e (
              onward d e h (climb n user id ds d.parent_id) (climb-Avoids n user id ds d.parent_id))
      ])
  where
    onward :
        (d : Directory)
        → require_directory user c ds ≡ some d
        → str_eq c id ≡ false
        → (out : Outcome (Unit {0})) → Climbs user id ds d.parent_id out
        → Climbs user id ds (some c) out
    onward d e h (ok _) a = step d h e a
    onward d e h (err _) a = tt

flip : (a b : String) → str_eq a b ≡ false → str_eq b a ≡ false
flip a b h = str_ne {s = b} {t = a} (λ e. true_false ((eq_iff a b).1 (sym e)) h)
  where
    true_false : {x : Bool} {C : Type 0} → x ≡ true → x ≡ false → C
    true_false g k = cc

-- A lookup after a row is saved.
require_directory-other :
    (user c : String) (d : Directory) (ds : List Directory)
    → str_eq c d.id ≡ false
    → require_directory user c (save directory_id_of d ds) ≡ require_directory user c ds
unfolding require_directory
require_directory-other user c d ds h =
    rw (find_by-save directory_id_of c d ds, require_directory) (rw (flip c d.id h) refl)

require_directory-same :
    (user c : String) (d : Directory) (ds : List Directory)
    → d.id ≡ c
    → d.user_id ≡ user
    → require_directory user c (save directory_id_of d ds) ≡ some d
unfolding require_directory
require_directory-same user c d ds e g =
    rw (find_by-save directory_id_of c d ds, require_directory)
      (rw ((eq_iff d.id c).1 e) (rw ((eq_iff d.user_id user).1 g) refl))

-- What a lookup that succeeds says of its row.
pub require_directory-found :
    (user c : String) (ds : List Directory) {d : Directory}
    → require_directory user c ds ≡ some d
    → (find_by directory_id_of c ds ≡ some d) × (d.user_id ≡ user) × (d.id ≡ c)
unfolding require_directory
require_directory-found user c ds {d} h = elim (Option-cases (find_by directory_id_of c ds)) [
  | inl e ↦ let k : none ≡ some d = rw (e, require_directory) at h in cc
  | inr (d', e) ↦
      let k : (if str_eq d'.user_id user then some d' else none) ≡ some d =
        rw (e, require_directory) at h in
      if_eq (str_eq d'.user_id user) k
        (λ b g.
          let same : d' ≡ d = cc in
          (
            e ∙ g,
            subst (λ x. x.user_id ≡ user) same ((eq_iff d'.user_id user).0 b),
            subst (λ x. x.id ≡ c) same (key-find_by directory_id_of c ds e),
          ))
        (λ _ g. cc)
]

-- Where a table looks up the same parents, it has the same roots.
pub Rooted-transfer :
    (user : String) (ds ds' : List Directory) (x : Option String)
    → ((c : String) (d : Directory)
        → require_directory user c ds ≡ some d
        → Rooted user ds' d.parent_id
        → Rooted user ds' (some c))
    → Rooted user ds x
    → Rooted user ds' x
Rooted-transfer user ds ds' _ again root = root
Rooted-transfer user ds ds' (some c) again (up d e r) =
    again c d e (Rooted-transfer user ds ds' d.parent_id again r)

module _ (user id : String) (ds : List Directory) (d d' : Directory)
    (e : require_directory user id ds ≡ some d) (same_id : d'.id ≡ d.id)
    (same_user : d'.user_id ≡ d.user_id) where
  abbrev pub ds' : List Directory
  ds' = save directory_id_of d' ds

  id_eq : d'.id ≡ id
  id_eq = same_id ∙ (require_directory-found user id ds e).2

  user_eq : d'.user_id ≡ user
  user_eq = same_user ∙ (require_directory-found user id ds e).1

  -- A chain that avoids the saved row is still there.
  pub Avoids-Rooted : (x : Option String) → Avoids user id ds x → Rooted user ds' x
  Avoids-Rooted _ top = root
  Avoids-Rooted (some c) (step q h f a) =
      up q
        (require_directory-other user c d' ds (subst (λ i. str_eq c i ≡ false) (sym id_eq) h) ∙ f)
        (Avoids-Rooted q.parent_id a)

  -- The saved row is what is found under its identifier, by its user only.
  found_new :
      (v c : String) (q : Directory)
      → str_eq c d'.id ≡ true
      → require_directory v c ds' ≡ some q
      → (d' ≡ q) × (user ≡ v)
  found_new v c q h f =
      let (g, w, _) = require_directory-found v c ds' f in
      let saved : some d' ≡ some q =
        sym (
          rw (find_by-save directory_id_of c d' ds)
            (rw ((eq_iff d'.id c).1 (sym ((eq_iff c d'.id).0 h))) refl))
        ∙ g in
      let same : d' ≡ q = some_eq saved in (same, sym user_eq ∙ ap (λ x. x.user_id) same ∙ w)
    where
      some_eq : {a b : Directory} → some a ≡ some b → a ≡ b
      some_eq k = cc

  found_old :
      (v c : String) (q : Directory)
      → str_eq c d'.id ≡ true
      → require_directory v c ds ≡ some q
      → (d ≡ q) × (user ≡ v)
  found_old v c q h f =
      let (g, w, _) = require_directory-found v c ds f in
      let (k, u, _) = require_directory-found user id ds e in
      let at_id : find_by directory_id_of id ds ≡ some q =
        subst (λ i. find_by directory_id_of i ds ≡ some q) ((eq_iff c d'.id).0 h ∙ id_eq) g in
      let same : d ≡ q = some_eq (sym k ∙ at_id) in (same, sym u ∙ ap (λ x. x.user_id) same ∙ w)
    where
      some_eq : {a b : Directory} → some a ≡ some b → a ≡ b
      some_eq k = cc

  -- Saving a row whose new parent leads to the root keeps a forest.
  pub save-IsForest : IsForest ds → Rooted user ds' d'.parent_id → IsForest ds'
  save-IsForest forest rooted v c q f = elim (Bool-cases (str_eq c d'.id)) [
    | inl h ↦
        let (same, w) = found_new v c q h f in
        subst (λ x. Rooted v ds' x.parent_id) same (subst (λ u. Rooted u ds' d'.parent_id) w rooted)
    | inr h ↦
        Rooted-transfer v ds ds' q.parent_id again
          (forest v c q (sym (require_directory-other v c d' ds h) ∙ f))
  ]
    where
      again :
          (c : String) (q : Directory)
          → require_directory v c ds ≡ some q
          → Rooted v ds' q.parent_id
          → Rooted v ds' (some c)
      again c q f r = elim (Bool-cases (str_eq c d'.id)) [
        | inl h ↦
            let (_, w) = found_old v c q h f in
            up d' (require_directory-same v c d' ds (sym ((eq_iff c d'.id).0 h)) (user_eq ∙ w))
              (subst (λ u. Rooted u ds' d'.parent_id) w rooted)
        | inr h ↦ up q (require_directory-other v c d' ds h ∙ f) r
      ]

  -- A row saved under the parent that it had.
  pub kept-Rooted : d'.parent_id ≡ d.parent_id → IsForest ds → Rooted user ds' d'.parent_id
  kept-Rooted p forest =
      subst (Rooted user ds') (sym p)
        (Rooted-transfer user ds ds' d.parent_id again (forest user id d e))
    where
      again :
          (c : String) (q : Directory)
          → require_directory user c ds ≡ some q
          → Rooted user ds' q.parent_id
          → Rooted user ds' (some c)
      again c q f r = elim (Bool-cases (str_eq c d'.id)) [
        | inl h ↦
            let (same, _) = found_old user c q h f in
            up d' (require_directory-same user c d' ds (sym ((eq_iff c d'.id).0 h)) user_eq)
              (subst (Rooted user ds') (ap (λ x. x.parent_id) (sym same) ∙ sym p) r)
        | inr h ↦ up q (require_directory-other user c d' ds h ∙ f) r
      ]
