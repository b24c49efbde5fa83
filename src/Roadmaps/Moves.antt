-- ===== src/Roadmaps/Moves.antt =====
-- Lemmas on creating, moving and renaming directories (src/roadmaps/roadmaps.service.ts).
use jagalchi_api.Base.{
  String, Bool, true, false, Option, none, some, List, [], ◌∷◌, ◌≡◌, refl, sym, ◌∙◌, subst, inl,
  inr, ◌&&◌, ◌||◌, not, any, str_eq, eq_iff, is_text, if◌then◌else◌, if_ind, if_eq, Option-cases,
  Bool-cases, find_by, find_where, save, arith,
}
use jagalchi_api.Roadmaps.Types.{Directory, Tables, Text, Outcome, ok, err}
use jagalchi_api.Roadmaps.Directories.{
  directory_id_of, require_directory, save_directory, create_directory, climb, move_directory,
  rename_directory, is_same_place, parent_available,
}
use jagalchi_api.Roadmaps.Forest.{
  Rooted, root, up, IsForest, Climbs, climb-Avoids, Rooted-transfer, require_directory-found,
  Avoids-Rooted, save-IsForest, kept-Rooted,
}

-- The directories of the tables are a forest.
abbrev pub IsTree : Tables → Type 0
IsTree s = IsForest s.directories

save_directory-IsTree :
    (user id : String) (s : Tables) (d d' : Directory)
    → require_directory user id s.directories ≡ some d
    → d'.id ≡ d.id
    → d'.user_id ≡ d.user_id
    → Rooted user (save directory_id_of d' s.directories) d'.parent_id
    → IsTree s
    → IsTree (save_directory d' s).1
unfolding save_directory
save_directory-IsTree user id s d d' e same_id same_user rooted v =
    if_ind (λ (_, s'). IsTree s')
      (any (λ x. not (str_eq x.id d'.id) && is_same_place d' x) s.directories) (λ _. v)
      (λ _. save-IsForest user id s.directories d d' e same_id same_user v rooted)

pub move_directory-IsTree :
    (user id : String) (parent : Option String) (s : Tables)
    → IsTree s
    → IsTree (move_directory user id parent s).1
unfolding move_directory
move_directory-IsTree user id parent s v =
    elim (Option-cases (require_directory user id s.directories)) [
      | inl e ↦ rw (e, move_directory) v
      | inr (d, e) ↦
          rw (e, move_directory)
            (if_ind (λ (_, s'). IsTree s') (is_text parent id) (λ _. v)
              (λ _.
                go d e (climb 100 user id s.directories parent)
                  (climb-Avoids 100 user id s.directories parent)))
    ]
  where
    go :
        (d : Directory)
        → require_directory user id s.directories ≡ some d
        → (out : Outcome (Unit {0})) → Climbs user id s.directories parent out
        → IsTree
            (elim out as (λ _. Outcome Directory × Tables) [
              | err e ↦ (err e, s)
              | ok _ ↦ save_directory (record d { parent_id = parent }) s
            ]).1
    go d e (ok _) a =
        save_directory-IsTree user id s d (record d { parent_id = parent }) e refl refl
          (Avoids-Rooted user id s.directories d (record d { parent_id = parent }) e refl refl
            parent a)
          v
    go d e (err _) a = v

pub rename_directory-IsTree :
    (text : Text) (user id name : String) (s : Tables)
    → IsTree s
    → IsTree (rename_directory text user id name s).1
unfolding rename_directory
rename_directory-IsTree text user id name s v =
    elim (Option-cases (require_directory user id s.directories)) [
      | inl e ↦ rw (e, rename_directory) v
      | inr (d, e) ↦
          rw (e, rename_directory)
            (save_directory-IsTree user id s d (record d { name = text.trim name }) e refl refl
              (kept-Rooted user id s.directories d (record d { name = text.trim name }) e refl refl
                refl v)
              v)
    ]

-- A new first row is found under its own identifier, and hides no other.
require_directory-new :
    (user c : String) (d : Directory) (ds : List Directory)
    → str_eq d.id c ≡ false
    → require_directory user c (d ∷ ds) ≡ require_directory user c ds
unfolding require_directory find_by find_where
require_directory-new user c d ds h = rw (h, require_directory) refl

or_false : (a b c : Bool) → (a || b || c) ≡ false → (a ≡ false) × (c ≡ false)
or_false a b c h = ground arith

pub none_some : {C : Type 0} {o : Option Directory} {d : Directory} → o ≡ none → o ≡ some d → C
none_some h k = cc

new_row :
    (d : Directory) (ds : List Directory)
    → any (λ e. str_eq e.id d.id || is_same_place d e) ds ≡ false
    → find_by directory_id_of d.id ds ≡ none
unfolding any find_by find_where
new_row d [] h = refl
new_row d (e ∷ ds) h =
    let (other, rest) =
      or_false (str_eq e.id d.id) (is_same_place d e)
        (any (λ e. str_eq e.id d.id || is_same_place d e) ds) h in
    rw other (new_row d ds rest)

create_IsForest :
    (d : Directory) (ds : List Directory)
    → find_by directory_id_of d.id ds ≡ none
    → Rooted d.user_id ds d.parent_id
    → IsForest ds
    → IsForest (d ∷ ds)
unfolding find_by find_where
create_IsForest d ds fresh rooted forest v c q f = elim (Bool-cases (str_eq d.id c)) [
  | inl h ↦
      let (g, w, _) = require_directory-found v c (d ∷ ds) f in
      let here : (if str_eq d.id c then some d else find_by directory_id_of c ds) ≡ some q = g in
      if_eq (str_eq d.id c) here
        (λ _ k.
          let same : d ≡ q = cc in
          Rooted-transfer v ds (d ∷ ds) q.parent_id again (
            subst (λ u. Rooted u ds q.parent_id) w
              (subst (λ x. Rooted x.user_id ds x.parent_id) same rooted)))
        (λ k _. cc)
  | inr h ↦
      Rooted-transfer v ds (d ∷ ds) q.parent_id again
        (forest v c q (sym (require_directory-new v c d ds h) ∙ f))
]
  where
    again :
        (c : String) (q : Directory)
        → require_directory v c ds ≡ some q
        → Rooted v (d ∷ ds) q.parent_id
        → Rooted v (d ∷ ds) (some c)
    again c q f r = elim (Bool-cases (str_eq d.id c)) [
      | inl h ↦ none_some fresh (
          subst (λ i. find_by directory_id_of i ds ≡ some q) (sym ((eq_iff d.id c).0 h))
            (require_directory-found v c ds f).0)
      | inr h ↦ up q (require_directory-new v c d ds h ∙ f) r
    ]

parent_Rooted :
    (user : String) (parent : Option String) (ds : List Directory)
    → not (parent_available user parent ds) ≡ false
    → IsForest ds
    → Rooted user ds parent
parent_Rooted user none ds h forest = root
parent_Rooted user (some p) ds h forest = elim (Option-cases (require_directory user p ds)) [
  | inl e ↦ let k : true ≡ false = rw (e, not) at h in cc
  | inr (q, e) ↦ up q e (forest user p q e)
]

pub create_directory-IsTree :
    (text : Text) (user : String) (parent : Option String) (name id : String) (s : Tables)
    → IsTree s
    → IsTree (create_directory text user parent name id s).1
unfolding create_directory
create_directory-IsTree text user parent name id s v =
    if_ind (λ (_, s'). IsTree s') (not (parent_available user parent s.directories)) (λ _. v)
      (λ h.
        let d : Directory = record {
          id = id;
          user_id = user;
          parent_id = parent;
          name = text.trim name;
        } in
        if_ind (λ (_, s'). IsTree s') (any (λ e. str_eq e.id id || is_same_place d e) s.directories)
          (λ _. v)
          (λ g.
            create_IsForest d s.directories (new_row d s.directories g)
              (parent_Rooted user parent s.directories h v) v))
