-- ===== src/Social/Threads.antt =====
-- Replies and deleted comments (src/social/social.service.ts).
use jagalchi_api.Base.{
  ℕ, String, true, Option, none, some, List, ◌≡◌, refl, sym, ap, ◌∙◌, subst, inl, inr, ◌||◌, not,
  str_eq, is_some, find_by, find_by-save, key-find_by, save, All, All-map, All-save, Bool-cases,
  Option-cases, eq_iff, arith, ok, err, if◌then◌else◌,
}
use jagalchi_api.Social.Types.{Social, Comment, comment_id, parent_not_available, nested_too_deep}
use jagalchi_api.Social.Service.{find_parent, new_comment}

-- The parent that a comment names is in the table, answers no comment itself, and is of the same
-- roadmap.
abbrev pub IsPlaced : List Comment → Comment → Type 0
IsPlaced cs c =
    (p : String)
    → c.parent_id ≡ some p
    → (q : Comment) × ((find_by comment_id p cs ≡ some q)
        × (q.parent_id ≡ none)
        × (q.roadmap_id ≡ c.roadmap_id))

abbrev pub IsBlanked : Comment → Type 0
IsBlanked c = c.is_deleted ≡ true → c.content ≡ ""

abbrev pub IsThreaded : List Comment → Type 0
IsThreaded cs = All (λ c. IsPlaced cs c × IsBlanked c) cs

-- A row under an identifier that is in use keeps the place of the old row.
abbrev Fits : Comment → List Comment → Type 0
Fits x cs =
    (old : Comment)
    → find_by comment_id x.id cs ≡ some old
    → (x.parent_id ≡ old.parent_id) × (x.roadmap_id ≡ old.roadmap_id)

IsPlaced-save :
    (x : Comment) (cs : List Comment) (c : Comment)
    → Fits x cs
    → IsPlaced cs c
    → IsPlaced (save comment_id x cs) c
IsPlaced-save x cs c fits h p e =
    let (q, (found, top, same)) = h p e in
    elim (Bool-cases (str_eq x.id p)) [
      | inl k ↦
          let here = (eq_iff x.id p).0 k in
          let kept = fits q (subst (λ i. find_by comment_id i cs ≡ some q) (sym here) found) in
          (x, (rw (find_by-save comment_id p x cs, k) refl, kept.0 ∙ top, kept.1 ∙ same))
      | inr k ↦ (q, (rw (find_by-save comment_id p x cs, k) found, top, same))
    ]

pub save-IsThreaded :
    (x : Comment) (cs : List Comment)
    → Fits x cs
    → IsPlaced cs x
    → IsBlanked x
    → IsThreaded cs
    → IsThreaded (save comment_id x cs)
save-IsThreaded x cs fits placed blank h =
    All-save comment_id _ x cs (All-map _ _ cs (λ c k. (IsPlaced-save x cs c fits k.0, k.1)) h)
      (IsPlaced-save x cs x fits placed, blank)

-- A comment that passes the checks of its parent is placed.
pub find_parent-IsPlaced :
    (id roadmap author content : String) (now : ℕ) (parent_id : Option String)
    (parent : Option Comment) (s : Social)
    → find_parent parent_id roadmap s ≡ ok parent
    → IsPlaced s.comments (new_comment id roadmap author parent content now)
unfolding find_parent
find_parent-IsPlaced id roadmap author content now none parent s e =
    let alone : IsPlaced s.comments (new_comment id roadmap author none content now) = λ p f. cc in
    let k : none ≡ parent = cc in
    subst (λ o. IsPlaced s.comments (new_comment id roadmap author o content now)) k alone
find_parent-IsPlaced id roadmap author content now (some i) parent s e =
    elim (Option-cases (find_by comment_id i s.comments)) [
      | inl f ↦ let k : err parent_not_available ≡ ok parent = rw (find_parent, f) at e in cc
      | inr (p, f) ↦
          let k : (if not (str_eq p.roadmap_id roadmap) || p.is_deleted
                then err parent_not_available
                else if is_some p.parent_id
                then err nested_too_deep
                else ok (some p))
              ≡ ok parent =
            rw (find_parent, f) at e in
          let facts : (str_eq p.roadmap_id roadmap ≡ true)
              × (p.parent_id ≡ none)
              × (some p ≡ parent) =
            ground arith in
          let same = (eq_iff p.roadmap_id roadmap).0 facts.0 in
          let under : IsPlaced s.comments (new_comment id roadmap author (some p) content now) =
            λ j g.
              let here : i ≡ j = sym (key-find_by comment_id i s.comments f) ∙ (cc) in
              (p, (subst (λ y. find_by comment_id y s.comments ≡ some p) here f, facts.1, same)) in
          subst (λ o. IsPlaced s.comments (new_comment id roadmap author o content now)) facts.2
            under
    ]

-- A change of a row that was found fits.
pub found-Fits :
    (id : String) (cs : List Comment) (c : Comment)
    → find_by comment_id id cs ≡ some c
    → (old : Comment) → find_by comment_id c.id cs ≡ some old
    → (c.parent_id ≡ old.parent_id) × (c.roadmap_id ≡ old.roadmap_id)
found-Fits id cs c e old k =
    let l : find_by comment_id id cs ≡ some old =
      subst (λ i. find_by comment_id i cs ≡ some old) (key-find_by comment_id id cs e) k in
    let same : c ≡ old = cc in
    (ap (λ (x : Comment). x.parent_id) same, ap (λ (x : Comment). x.roadmap_id) same)
