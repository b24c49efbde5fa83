-- ===== src/Realtime/Edges.antt =====
-- Edges whose two ends are nodes of the graph (src/realtime/realtime.service.ts).
use mathlib.Core.List.{◌++◌}
use jagalchi_api.Base.{
  String, Bool, true, false, some, List, [], ◌∷◌, ◌≡◌, refl, sym, ◌∙◌, subst, inl, inr, ◌&&◌, ◌||◌,
  not, is_text, str_eq, any, keep, All, if_ind, Bool-cases, Option-cases, eq_iff, arith,
}
use jagalchi_api.Json.{Fields}
use jagalchi_api.Realtime.Graph.{
  EditedRoadmap, text_at, has_id, joins_two, edge_nodes_exist, replace_first, touches,
}

-- An edge joins two different nodes of the graph.
abbrev pub IsJoined : List Fields → Fields → Type 0
IsJoined nodes e = (edge_nodes_exist nodes e ≡ true) × (joins_two e ≡ true)

abbrev pub AllJoined : EditedRoadmap → Type 0
AllJoined r = All (λ e. IsJoined r.nodes e) r.edges

pub All-replace_first :
    (P : Fields → Type 0) (p : Fields → Bool) (x : Fields) (ys : List Fields)
    → P x
    → All P ys
    → All P (replace_first p x ys)
unfolding replace_first
All-replace_first P p x [] px h = tt
All-replace_first P p x (y ∷ ys) px h =
    let ih = All-replace_first P p x ys px h.1 in
    if_ind (All P) (p y) (λ _. (px, h.1)) (λ _. (h.0, ih))

-- The nodes of one list are found again in another.
abbrev Covers : List Fields → List Fields → Type 0
Covers new old = (s : String) → any (has_id s) old ≡ true → any (has_id s) new ≡ true

pub both : (a b : Bool) → (a && b) ≡ true → (a ≡ true) × (b ≡ true)
both a b h = ground arith

pub join : {a b : Bool} → a ≡ true → b ≡ true → (a && b) ≡ true
join h k = cc

clash : {C : Type 0} {b : Bool} → b ≡ true → b ≡ false → C
clash h k = cc

-- The two ends of an edge, and the nodes that they name.
EndsIn : List Fields → Fields → Type 0
EndsIn nodes e =
    (s : String) × (t : String) × (text_at "source" e ≡ some s)
    × (text_at "target" e ≡ some t)
    × (any (has_id s) nodes ≡ true)
    × (any (has_id t) nodes ≡ true)

edge_ends : (nodes : List Fields) (e : Fields) → edge_nodes_exist nodes e ≡ true → EndsIn nodes e
unfolding edge_nodes_exist EndsIn
edge_ends nodes e h = elim (Option-cases (text_at "source" e)) [
  | inl k ↦ clash (rw (k, edge_nodes_exist) at h) refl
  | inr (s, k) ↦ elim (Option-cases (text_at "target" e)) [
    | inl j ↦ clash (rw (k, edge_nodes_exist, j) at h) refl
    | inr (t, j) ↦
        let g : (any (has_id s) nodes && any (has_id t) nodes) ≡ true =
          rw (k, edge_nodes_exist, j) at h in
        let (hs, ht) = both _ _ g in (s, t, k, j, hs, ht)
  ]
]

ends_edge : (nodes : List Fields) (e : Fields) → EndsIn nodes e → edge_nodes_exist nodes e ≡ true
unfolding edge_nodes_exist EndsIn
ends_edge nodes e (s, t, k, j, hs, ht) = rw (k, edge_nodes_exist, j) (join hs ht)

pub covered :
    (new old : List Fields) (e : Fields) → Covers new old → IsJoined old e → IsJoined new e
unfolding EndsIn
covered new old e c h =
    let (s, t, k, j, hs, ht) = edge_ends old e h.0 in
    (ends_edge new e (s, t, k, j, c s hs, c t ht), h.1)

pub any-append :
    (p : Fields → Bool) (xs ys : List Fields) → any p xs ≡ true → any p (xs ++ ys) ≡ true
unfolding any
any-append p [] ys h = cc
any-append p (x ∷ xs) ys h = ground (arith, any-append p xs ys)

same_id : (s t : String) (fs : Fields) → has_id s fs ≡ true → has_id t fs ≡ true → s ≡ t
unfolding has_id
same_id s t fs h k = elim (Option-cases (text_at "id" fs)) [
  | inl e ↦ clash (rw (has_id, e) at h) refl
  | inr (u, e) ↦
      let hs : str_eq u s ≡ true = rw (has_id, e) at h in
      let ht : str_eq u t ≡ true = rw (has_id, e) at k in
      sym ((eq_iff u s).0 hs) ∙ (eq_iff u t).0 ht
]

pub any-replace_first :
    (t : String) (changed : Fields) (old : List Fields)
    → has_id t changed ≡ true
    → Covers (replace_first (has_id t) changed old) old
unfolding replace_first any
any-replace_first t changed [] same s h = cc
any-replace_first t changed (y ∷ ys) same s h =
    let ih = any-replace_first t changed ys same s in
    elim (Bool-cases (has_id t y)) [
      | inl e ↦
          rw (e, replace_first)
            (elim (Bool-cases (has_id s y)) [
              | inl k ↦
                  let found : has_id s changed ≡ true =
                    subst (λ u. has_id u changed ≡ true) (same_id t s y e k) same in
                  rw found refl
              | inr k ↦
                  let more : any (has_id s) ys ≡ true = rw (k, any) at h in
                  later (has_id s changed) more
            ])
      | inr e ↦
          rw (e, replace_first)
            (elim (Bool-cases (has_id s y)) [
              | inl k ↦ rw k refl
              | inr k ↦
                  let more : any (has_id s) ys ≡ true = rw (k, any) at h in
                  later (has_id s y) (ih more)
            ])
    ]
  where
    later : (a : Bool) {b : Bool} → b ≡ true → (a || b) ≡ true
    later true h = refl
    later false h = h

any-keep :
    (p q : Fields → Bool) (xs : List Fields)
    → ((x : Fields) → q x ≡ true → p x ≡ true)
    → any q xs ≡ true
    → any q (keep p xs) ≡ true
unfolding any keep
any-keep p q [] f h = h
any-keep p q (x ∷ xs) f h = elim (Bool-cases (q x)) [
  | inl e ↦ rw (f x e, keep) (rw (any, e) refl)
  | inr e ↦
      let more : any q xs ≡ true = rw (e, any) at h in
      let ih = any-keep p q xs f more in
      if_ind (λ ys. any q ys ≡ true) (p x) (λ _. rw (any, e) ih) (λ _. ih)
]

-- An edge that does not touch a node is joined without it.
pub removed_node :
    (target : String) (nodes : List Fields) (e : Fields)
    → touches target e ≡ false
    → IsJoined nodes e
    → IsJoined (keep (λ n. not (has_id target n)) nodes) e
unfolding EndsIn touches
removed_node target nodes e far h =
    let (s, t, k, j, hs, ht) = edge_ends nodes e h.0 in
    let parts =
      neither (is_text (text_at "source" e) target) (is_text (text_at "target" e) target) far in
    let fs : str_eq s target ≡ false = rw k at parts.0 in
    let ft : str_eq t target ≡ false = rw j at parts.1 in
    (
      ends_edge (keep (λ n. not (has_id target n)) nodes) e (
        s,
        t,
        k,
        j,
        any-keep (λ n. not (has_id target n)) (has_id s) nodes (λ n g. other s n fs g) hs,
        any-keep (λ n. not (has_id target n)) (has_id t) nodes (λ n g. other t n ft g) ht,
      ),
      h.1,
    )
  where
    neither : (a b : Bool) → (a || b) ≡ false → (a ≡ false) × (b ≡ false)
    neither a b g = ground arith

    other :
        (s : String) (n : Fields)
        → str_eq s target ≡ false
        → has_id s n ≡ true
        → not (has_id target n) ≡ true
    other s n ne g = elim (Bool-cases (has_id target n)) [
      | inl e' ↦ clash ((eq_iff s target).1 (same_id s target n g e')) ne
      | inr e' ↦ rw e' refl
    ]
