-- ===== src/Realtime/Sequence.antt =====
-- The numbers of the operations of a roadmap (src/realtime/realtime.service.ts).
use jagalchi_api.Base.{
  ℕ, zero, suc, String, Bool, List, [], ◌∷◌, ◌≡◌, refl, sym, ap, ◌∙◌, subst, inl, inr, ◌+◌, not,
  ◌==◌, str_eq, map, keep, find_where, find_by-save, save, All, All-save, All-find_where, if_ind,
  Bool-cases, Option-cases, eq_iff, arith, if◌then◌else◌,
}
use jagalchi_api.Realtime.Graph.{EditedRoadmap, TitleText, apply_operation}
use jagalchi_api.Realtime.Edges.{AllJoined}
use jagalchi_api.Realtime.Joined.{apply_operation-AllJoined}
use jagalchi_api.Realtime.Append.{
  RoadmapEvent, RoadmapSequence, Live, EditRequest, EditAck, Outcome, roadmap_key, sequence_key,
  is_owned, is_duplicate, current_of, can_edit, write_event, append_new, append,
}

-- n, n - 1, …, 1
abbrev pub countdown : ℕ → List ℕ
countdown zero = []
countdown (suc n) = suc n ∷ countdown n

abbrev of_roadmap : String → RoadmapEvent → Bool
of_roadmap roadmap e = str_eq e.roadmap_id roadmap

unfoldable pub numbers : String → List RoadmapEvent → List ℕ
unfolding keep
numbers roadmap es = map (λ (e : RoadmapEvent). e.sequence) (keep (of_roadmap roadmap) es)

-- The events of each roadmap are numbered from 1 to its current sequence, without a gap, and the edges
-- of each roadmap join two different nodes of it.
abbrev pub IsLogged : Live → Type 0
IsLogged s =
    ((roadmap : String) → numbers roadmap s.events ≡ countdown (current_of roadmap s.sequences))
    × All AllJoined s.roadmaps

count_one : (n : ℕ) → (n + 1) ∷ countdown n ≡ countdown (n + 1)
count_one n =
    let next : suc n ≡ n + 1 = omega arith in subst (λ k. k ∷ countdown n ≡ countdown k) next refl

current_of-save :
    (roadmap : String) (q : RoadmapSequence) (qs : List RoadmapSequence)
    → current_of roadmap (save sequence_key q qs)
      ≡ (if str_eq q.roadmap_id roadmap then q.current_sequence else current_of roadmap qs)
unfolding current_of
current_of-save roadmap q qs = elim (Bool-cases (str_eq q.roadmap_id roadmap)) [
  | inl e ↦ rw (current_of, find_by-save sequence_key roadmap q qs, e) refl
  | inr e ↦ rw (current_of, find_by-save sequence_key roadmap q qs, e) refl
]

write_event-numbered :
    (id actor : String) (req : EditRequest) (changed : EditedRoadmap) (s : Live) (roadmap : String)
    → numbers roadmap s.events ≡ countdown (current_of roadmap s.sequences)
    → (let s' = write_event id actor req changed (current_of req.roadmap_id s.sequences) s in
        numbers roadmap s'.events ≡ countdown (current_of roadmap s'.sequences))
unfolding write_event numbers keep
write_event-numbered id actor req changed s roadmap h =
    let current = current_of req.roadmap_id s.sequences in
    let q : RoadmapSequence = record {
      roadmap_id = req.roadmap_id;
      current_sequence = current + 1;
    } in
    elim (Bool-cases (str_eq req.roadmap_id roadmap)) [
      | inl e ↦
          let same = (eq_iff req.roadmap_id roadmap).0 e in
          let rest : numbers roadmap s.events ≡ countdown current =
            subst (λ r. numbers roadmap s.events ≡ countdown (current_of r s.sequences)) (sym same)
              h in
          rw (e, current_of-save roadmap q s.sequences, e)
            (ap (λ ns. (current + 1) ∷ ns) rest ∙ count_one current)
      | inr e ↦ rw (e, current_of-save roadmap q s.sequences, e) h
    ]

-- The answer and what was written.
abbrev Logs : Outcome EditAck × Live → Type 0
Logs out = IsLogged out.1

append_new-Logs :
    (texts : TitleText) (id actor : String) (req : EditRequest) (s : Live)
    → IsLogged s
    → Logs (append_new texts id actor req s)
unfolding append_new write_event
append_new-Logs texts id actor req s h =
    let current = current_of req.roadmap_id s.sequences in
    elim (Option-cases (find_where (is_owned actor req.roadmap_id) s.roadmaps)) [
      | inl e ↦
          rw (append_new, e) (if_ind Logs (not (current == req.base_sequence)) (λ _. h) (λ _. h))
      | inr (roadmap, e) ↦ elim (Option-cases (apply_operation texts req.operation roadmap)) [
        | inl k ↦
            rw (append_new, e, k)
              (if_ind Logs (not (current == req.base_sequence)) (λ _. h) (λ _. h))
        | inr (changed, k) ↦
            let sound : AllJoined changed =
              apply_operation-AllJoined texts req.operation roadmap changed
                (All-find_where AllJoined (is_owned actor req.roadmap_id) s.roadmaps h.1 e) k in
            rw (append_new, e, k)
              (if_ind Logs (not (current == req.base_sequence)) (λ _. h)
                (λ _. (
                  (λ r. write_event-numbered id actor req changed s r (h.0 r)),
                  All-save roadmap_key AllJoined changed s.roadmaps h.1 sound,
                )))
      ]
    ]

-- A call of append keeps the log of every roadmap numbered from 1 to its current sequence without a
-- gap, and every edge joining two different nodes of its roadmap.
pub append-IsLogged :
    (texts : TitleText) (id actor : String) (req : EditRequest) (s : Live)
    → IsLogged s
    → IsLogged (append texts id actor req s).1
unfolding append
append-IsLogged texts id actor req s h =
    elim (Option-cases (find_where (is_duplicate req) s.events)) [
      | inl e ↦
          rw (append, e)
            (if_ind Logs (not (can_edit actor req.roadmap_id s)) (λ _. h)
              (λ _. append_new-Logs texts id actor req s h))
      | inr (x, e) ↦
          rw (append, e) (if_ind Logs (not (can_edit actor req.roadmap_id s)) (λ _. h) (λ _. h))
    ]
