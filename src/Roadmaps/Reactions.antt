-- ===== src/Roadmaps/Reactions.antt =====
-- The like and favorite counts of src/roadmaps/roadmaps.service.ts, and the rows that they count.
use jagalchi_api.Base.{
  ℕ, String, Bool, true, false, Option, none, some, List, [], ◌∷◌, ◌≡◌, refl, sym, ap, ◌∙◌, subst,
  inl, inr, ◌+◌, ◌-◌, arith, ◌&&◌, not, str_eq, eq_iff, eq_refl, is_some, if◌then◌else◌, if_ind,
  if_eq, Option-cases, Bool-cases, find_by, find_by-save, find_where, find_where_holds, save,
  key-find_by,
}
use jagalchi_api.Roadmaps.Types.{
  Roadmap, ReactionType, like, favorite, Reaction, Tables, Outcome, ok, err,
}
use jagalchi_api.Roadmaps.Service.{
  roadmap_id_of, find_roadmap, get_readable, is_shared, same_type, is_reaction, count_of,
  with_count, react, set_reaction, drop_first, ReactionResult,
}

abbrev weight : String → ReactionType → Reaction → ℕ
weight id t x = if str_eq x.roadmap_id id && same_type x.type_of t then 1 else 0

-- The rows of a type on a roadmap.
unfoldable pub tally : String → ReactionType → List Reaction → ℕ
tally id t [] = 0
tally id t (x ∷ xs) = weight id t x + tally id t xs

-- Every roadmap's counts are what the rows add up to.
abbrev pub IsCounted : Tables → Type 0
IsCounted s =
    (t : ReactionType) (id : String) (r : Roadmap)
    → find_by roadmap_id_of id s.roadmaps ≡ some r
    → count_of t r ≡ tally id t s.reactions

tally-drop_first :
    (id : String) (t : ReactionType) (p : Reaction → Bool) (xs : List Reaction) {x : Reaction}
    → find_where p xs ≡ some x
    → tally id t (drop_first p xs) + weight id t x ≡ tally id t xs
unfolding tally drop_first find_where
tally-drop_first id t p [] h = cc
tally-drop_first id t p (y ∷ ys) {x} h =
    if_eq (p y) h
      (λ e f.
        let same : weight id t y ≡ weight id t x = ap (weight id t) {x = y} {y = x} (cc) in
        rw e (ground arith))
      (λ e f. let ih = tally-drop_first id t p ys f in rw e (ground arith))

with_count-id : (t : ReactionType) (n : ℕ) (r : Roadmap) → (with_count t n r).id ≡ r.id
with_count-id like n r = refl
with_count-id favorite n r = refl

react-id :
    (user roadmap : String) (t : ReactionType) (active : Bool) (id : String)
    (found : Option Reaction) (r : Roadmap) (xs : List Reaction)
    → (react user roadmap t active id found r xs).0.id ≡ r.id
unfolding react
react-id user roadmap t true id none r xs = with_count-id t (count_of t r + 1) r
react-id user roadmap t false id (some x) r xs = with_count-id t (count_of t r - 1) r
react-id user roadmap t true id (some x) r xs = refl
react-id user roadmap t false id none r xs = refl

abbrev unit_of : ReactionType → ReactionType → ℕ
unit_of t t' = if same_type t t' then 1 else 0

more_count :
    (t t' : ReactionType) (r : Roadmap)
    → count_of t' (with_count t (count_of t r + 1) r) ≡ unit_of t t' + count_of t' r
more_count like like r = omega arith
more_count like favorite r = omega arith
more_count favorite like r = omega arith
more_count favorite favorite r = omega arith

less_count :
    (t t' : ReactionType) (r : Roadmap)
    → count_of t' (with_count t (count_of t r - 1) r) ≡ count_of t' r - unit_of t t'
less_count like like r = omega arith
less_count like favorite r = omega arith
less_count favorite like r = omega arith
less_count favorite favorite r = omega arith

same_type-eq : (t t' : ReactionType) → same_type t t' ≡ true → t ≡ t'
same_type-eq like like h = refl
same_type-eq favorite favorite h = refl
same_type-eq like favorite h = cc
same_type-eq favorite like h = cc

and_both : (a b c : Bool) → (a && b && c) ≡ true → (b ≡ true) × (c ≡ true)
and_both a b c h = ground arith

taken : {c u w a b : ℕ} → c ≡ a → b + w ≡ a → w ≡ u → c - u ≡ b
taken h k e = omega arith

kept : {w a b : ℕ} → b + w ≡ a → w ≡ 0 → b ≡ a
kept k e = omega arith

-- What the found row counts for.
weight-found :
    (user roadmap : String) (t : ReactionType) (xs : List Reaction) {x : Reaction} (id : String)
    (t' : ReactionType)
    → find_where (is_reaction user roadmap t) xs ≡ some x
    → weight id t' x ≡ (if str_eq roadmap id && same_type t t' then 1 else 0)
weight-found user roadmap t xs {x} id t' e =
    let (at, of) =
      and_both (str_eq x.user_id user) (str_eq x.roadmap_id roadmap) (same_type x.type_of t)
        (find_where_holds (is_reaction user roadmap t) xs e) in
    subst (λ i. weight id t' x ≡ (if str_eq i id && same_type t t' then 1 else 0))
      ((eq_iff x.roadmap_id roadmap).0 at)
      (subst (λ k. weight id t' x ≡ (if str_eq x.roadmap_id id && same_type k t' then 1 else 0))
        (same_type-eq x.type_of t of) refl)

-- The counts after a request change as the rows do, on the roadmap and on no other.
react-counts :
    (user roadmap : String) (t : ReactionType) (active : Bool) (id : String) (r : Roadmap)
    (xs : List Reaction) (found : Option Reaction)
    → find_where (is_reaction user roadmap t) xs ≡ found
    → ((t' : ReactionType) → count_of t' r ≡ tally roadmap t' xs)
    → (t' : ReactionType)
    → count_of t' (react user roadmap t active id found r xs).0
      ≡ tally roadmap t' (react user roadmap t active id found r xs).1
unfolding react tally
react-counts user roadmap t true id r xs none e h t' =
    more_count t t' r ∙ rw (eq_refl roadmap, h t') refl
react-counts user roadmap t false id r xs (some x) e h t' =
    let w : weight roadmap t' x ≡ unit_of t t' =
      weight-found user roadmap t xs roadmap t' e ∙ rw (eq_refl roadmap) refl in
    let k = tally-drop_first roadmap t' (is_reaction user roadmap t) xs e in
    less_count t t' r ∙ taken (h t') k w
react-counts user roadmap t true id r xs (some x) e h t' = h t'
react-counts user roadmap t false id r xs none e h t' = h t'

react-others :
    (user roadmap : String) (t : ReactionType) (active : Bool) (id : String) (r : Roadmap)
    (xs : List Reaction) (found : Option Reaction) (other : String)
    → find_where (is_reaction user roadmap t) xs ≡ found
    → str_eq roadmap other ≡ false
    → (t' : ReactionType)
    → tally other t' (react user roadmap t active id found r xs).1 ≡ tally other t' xs
unfolding react tally
react-others user roadmap t true id r xs none other e n t' = rw n (omega arith)
react-others user roadmap t false id r xs (some x) other e n t' =
    let w : weight other t' x ≡ 0 = weight-found user roadmap t xs other t' e ∙ rw n refl in
    let k = tally-drop_first other t' (is_reaction user roadmap t) xs e in kept k w
react-others user roadmap t true id r xs (some x) other e n t' = refl
react-others user roadmap t false id r xs none other e n t' = refl

some_eq : {a b : Roadmap} → some a ≡ some b → a ≡ b
some_eq h = cc

abbrev Reads : String → Tables → Outcome Roadmap → Type 0
Reads id s (ok r) = find_by roadmap_id_of id s.roadmaps ≡ some r
Reads id s (err e) = Unit {0}

get_readable-Reads : (user id : String) (s : Tables) → Reads id s (get_readable user id s)
unfolding get_readable find_roadmap
get_readable-Reads user id s = elim (Option-cases (find_by roadmap_id_of id s.roadmaps)) [
  | inl e ↦ rw (e, get_readable, find_roadmap) tt
  | inr (r, e) ↦ elim (Bool-cases (is_some r.deleted_at)) [
    | inl h ↦ rw (e, get_readable, find_roadmap) (rw h tt)
    | inr h ↦
        rw (e, get_readable, find_roadmap)
          (rw h (
            if_ind (Reads id s) (not (str_eq r.owner_id user) && not (is_shared r.visibility))
              (λ _. tt) (λ _. e)))
  ]
]

module _ (user roadmap : String) (t : ReactionType) (active : Bool) (id : String) (s : Tables)
    (v : IsCounted s) where
  change : Roadmap → Roadmap × List Reaction
  change r =
      react user roadmap t active id (find_where (is_reaction user roadmap t) s.reactions) r
        s.reactions

  change-id :
      (r : Roadmap) → find_by roadmap_id_of roadmap s.roadmaps ≡ some r → (change r).0.id ≡ roadmap
  unfolding change
  change-id r e =
      react-id user roadmap t active id (find_where (is_reaction user roadmap t) s.reactions) r
        s.reactions
      ∙ key-find_by roadmap_id_of roadmap s.roadmaps e

  changed-IsCounted :
      (r : Roadmap)
      → find_by roadmap_id_of roadmap s.roadmaps ≡ some r
      → IsCounted (record s {
        roadmaps = save roadmap_id_of (change r).0 s.roadmaps;
        reactions = (change r).1;
      })
  unfolding change
  changed-IsCounted r e t' other q f =
      if_eq (str_eq (change r).0.id other)
        (sym (find_by-save roadmap_id_of other (change r).0 s.roadmaps) ∙ f)
        (λ h g.
          let here : roadmap ≡ other = sym (change-id r e) ∙ (eq_iff (change r).0.id other).0 h in
          let counted =
            react-counts user roadmap t active id r s.reactions
              (find_where (is_reaction user roadmap t) s.reactions) refl (λ k. v k roadmap r e)
              t' in
          subst (λ x. count_of t' x ≡ tally other t' (change r).1) {x = (change r).0} {y = q}
            (some_eq g)
            (subst (λ i. count_of t' (change r).0 ≡ tally i t' (change r).1) here counted))
        (λ h g.
          v t' other q g
          ∙ sym (
              react-others user roadmap t active id r s.reactions
                (find_where (is_reaction user roadmap t) s.reactions) other refl
                (subst (λ i. str_eq i other ≡ false) (change-id r e) h) t'))

  finish :
      (out : Outcome Roadmap)
      → Reads roadmap s out
      → IsCounted
          (elim out as (λ _. Outcome ReactionResult × Tables) [
            | err e ↦ (err e, s)
            | ok r ↦ (
              ok (record { active = active; count = count_of t (change r).0 }),
              record s {
                roadmaps = save roadmap_id_of (change r).0 s.roadmaps;
                reactions = (change r).1;
              },
            )
          ]).1
  finish (err e) h = v
  finish (ok r) h = changed-IsCounted r h

-- Setting or clearing a like or a favorite keeps every roadmap's two counts the numbers of the rows
-- of those types on it.
pub set_reaction-IsCounted :
    (user roadmap : String) (t : ReactionType) (active : Bool) (id : String) (s : Tables)
    → IsCounted s
    → IsCounted (set_reaction user roadmap t active id s).1
unfolding set_reaction change
set_reaction-IsCounted user roadmap t active id s v =
    finish user roadmap t active id s v (get_readable user roadmap s)
      (get_readable-Reads user roadmap s)
