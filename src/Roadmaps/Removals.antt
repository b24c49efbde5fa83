-- ===== src/Roadmaps/Removals.antt =====
-- Lemmas on `deleteDirectory` (src/roadmaps/roadmaps.service.ts).
use jagalchi_api.Base.{
  String, Bool, true, false, Option, none, some, List, [], ◌∷◌, ◌≡◌, refl, sym, ap, ◌∙◌, subst, inl,
  inr, ◌&&◌, not, any, str_eq, eq_iff, is_text, if◌then◌else◌, if_ind, Option-cases, Bool-cases,
  find_by, find_where, keep, arith, All-find_by, All,
}
use jagalchi_api.Roadmaps.Types.{Directory, Tables}
use jagalchi_api.Roadmaps.Directories.{
  directory_id_of, require_directory, delete_directory, is_child,
}
use jagalchi_api.Roadmaps.Forest.{Rooted, root, up, IsForest, require_directory-found}
use jagalchi_api.Roadmaps.Moves.{IsTree, none_some}

abbrev others_of : String → List Directory → List Directory
others_of id ds = keep (λ e. not (str_eq e.id id)) ds

-- What is kept of the rows, once one is gone, is found as before.
find_by-keep :
    (id c : String) (ds : List Directory)
    → str_eq c id ≡ false
    → find_by directory_id_of c (others_of id ds) ≡ find_by directory_id_of c ds
unfolding find_by find_where keep
find_by-keep id c [] h = refl
find_by-keep id c (e ∷ ds) h =
    if_ind
      (λ xs.
        find_where (λ r. str_eq r.id c) xs
        ≡ (if str_eq e.id c then some e else find_where (λ r. str_eq r.id c) ds))
      (not (str_eq e.id id))
      (λ _. ap (λ o. if str_eq e.id c then some e else o) (find_by-keep id c ds h))
      (λ g. rw (gone e.id id c g h) (find_by-keep id c ds h))
  where
    gone : (a b c : String) → not (str_eq a b) ≡ false → str_eq c b ≡ false → str_eq a c ≡ false
    gone a b c g h = ground (arith, eq_iff a b, eq_iff a c, eq_iff c b)

find_by-gone :
    (id : String) (ds : List Directory) → find_by directory_id_of id (others_of id ds) ≡ none
unfolding find_by find_where keep
find_by-gone id [] = refl
find_by-gone id (e ∷ ds) = elim (Bool-cases (str_eq e.id id)) [
  | inl h ↦ rw h (find_by-gone id ds)
  | inr h ↦ rw h (rw h (find_by-gone id ds))
]

any_none :
    (p : Directory → Bool) (ds : List Directory) → any p ds ≡ false → All (λ d. p d ≡ false) ds
unfolding any
any_none p [] h = tt
any_none p (d ∷ ds) h = (ground arith, any_none p ds (ground arith))

require_directory-keep :
    (user c id : String) (ds : List Directory)
    → str_eq c id ≡ false
    → require_directory user c (others_of id ds) ≡ require_directory user c ds
unfolding require_directory
require_directory-keep user c id ds h = rw (find_by-keep id c ds h, require_directory) refl

some_eq : {a b : Directory} → some a ≡ some b → a ≡ b
some_eq k = cc

left_true : (a b : Bool) → a ≡ true → (a && b) ≡ false → b ≡ false
left_true a b h g = ground arith

-- A directory that has no children, with its user.
module _ (user id : String) (ds : List Directory) {d : Directory}
    (e : require_directory user id ds ≡ some d)
    (childless : any (is_child user id) ds ≡ false) where
  -- The parent of a row that leads to the root is not the one that goes.
  no_child :
      (v c : String) (q : Directory)
      → require_directory v c ds ≡ some q
      → Rooted v ds q.parent_id
      → is_text q.parent_id id ≡ false
  no_child v c q f r = elim (Bool-cases (is_text q.parent_id id)) [
    | inr h ↦ h
    | inl h ↦ absurd_child (q.parent_id) refl r h
  ]
    where
      absurd_child :
          (x : Option String)
          → x ≡ q.parent_id
          → Rooted v ds x
          → is_text q.parent_id id ≡ true
          → is_text q.parent_id id ≡ false
      absurd_child _ k root h = subst (λ x. is_text x id ≡ false) k refl
      absurd_child (some i) k (up p g r) h =
          let is_id : i ≡ id = (eq_iff i id).0 (subst (λ x. is_text x id ≡ true) (sym k) h) in
          let (a, u, _) = require_directory-found user id ds e in
          let (b, w, _) = require_directory-found v i ds g in
          let (m, x, _) = require_directory-found v c ds f in
          let same : d ≡ p =
            some_eq (sym a ∙ subst (λ j. find_by directory_id_of j ds ≡ some p) is_id b) in
          let mine : q.user_id ≡ user = x ∙ sym w ∙ ap (λ y. y.user_id) (sym same) ∙ u in
          left_true (str_eq q.user_id user) (is_text q.parent_id id)
            ((eq_iff q.user_id user).1 mine)
            (All-find_by directory_id_of (λ y. is_child user id y ≡ false) c ds
              (any_none (is_child user id) ds childless) m)

  keep-Rooted :
      (v : String) (x : Option String)
      → is_text x id ≡ false
      → IsForest ds
      → Rooted v ds x
      → Rooted v (others_of id ds) x
  keep-Rooted v _ h forest root = root
  keep-Rooted v (some c) h forest (up q f r) =
      up q (require_directory-keep v c id ds h ∙ f)
        (keep-Rooted v q.parent_id (no_child v c q f r) forest r)

  keep-IsForest : IsForest ds → IsForest (others_of id ds)
  keep-IsForest forest v c q f = elim (Bool-cases (str_eq c id)) [
    | inl h ↦ none_some (find_by-gone id ds) (
        subst (λ i. find_by directory_id_of i (others_of id ds) ≡ some q) ((eq_iff c id).0 h)
          (require_directory-found v c (others_of id ds) f).0)
    | inr h ↦
        let g = sym (require_directory-keep v c id ds h) ∙ f in
        keep-Rooted v q.parent_id (no_child v c q g (forest v c q g)) forest (forest v c q g)
  ]

pub delete_directory-IsTree :
    (user id : String) (s : Tables) → IsTree s → IsTree (delete_directory user id s).1
unfolding delete_directory
delete_directory-IsTree user id s v =
    elim (Option-cases (require_directory user id s.directories)) [
      | inl e ↦ rw (e, delete_directory) v
      | inr (d, e) ↦
          rw (e, delete_directory)
            (if_ind (λ (_, s'). IsTree s') (any (is_child user id) s.directories) (λ _. v)
              (λ h. keep-IsForest user id s.directories e h v))
    ]
