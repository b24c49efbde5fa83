-- ===== src/Realtime/Append.antt =====
-- `RealtimeService` (src/realtime/realtime.service.ts): the log of operations of each roadmap. The
-- roadmaps are those that are not deleted; events are kept newest first. A call that throws leaves
-- the tables as they were.
use jagalchi_api.Base.{
  ℕ, String, Bool, true, false, none, some, List, ◌∷◌, ◌+◌, ◌&&◌, not, str_eq, ltb, ◌==◌,
  if◌then◌else◌, find_by, find_where, save, keep, sort_by, take, min, max, Result, ok, err,
}
use jagalchi_api.Realtime.Graph.{EditedRoadmap, RoadmapOperation, TitleText, apply_operation}

pub record RoadmapEvent : Type 0 where
  pub id : String
  pub roadmap_id : String
  pub actor_id : String
  pub sequence : ℕ
  pub base_sequence : ℕ
  pub idempotency_key : String
  pub operation : RoadmapOperation

pub record RoadmapSequence : Type 0 where
  pub roadmap_id : String
  pub current_sequence : ℕ

pub record Live : Type 0 where
  pub roadmaps : List EditedRoadmap
  pub events : List RoadmapEvent
  pub sequences : List RoadmapSequence

pub record EditRequest : Type 0 where
  pub roadmap_id : String
  pub idempotency_key : String
  pub base_sequence : ℕ
  pub operation : RoadmapOperation

pub record EditAck : Type 0 where
  pub duplicate : Bool
  pub sequence : ℕ
  pub event_id : String

pub data Error : Type 0 where
  roadmap_not_found not_editable invalid_operation : Error
  sequence_conflict : ℕ → Error

abbrev pub Outcome : Type 0 → Type 0
Outcome A = Result Error A

abbrev pub roadmap_key : EditedRoadmap → String
roadmap_key r = r.id

abbrev pub sequence_key : RoadmapSequence → String
sequence_key q = q.roadmap_id

abbrev pub is_owned : String → String → EditedRoadmap → Bool
is_owned actor id r = str_eq r.id id && str_eq r.owner_id actor

abbrev pub is_duplicate : EditRequest → RoadmapEvent → Bool
is_duplicate req e =
    str_eq e.roadmap_id req.roadmap_id && str_eq e.idempotency_key req.idempotency_key

-- `sequence ? Number(sequence.currentSequence) : 0`
unfoldable pub current_of : String → List RoadmapSequence → ℕ
unfolding find_by
current_of roadmap qs = elim (find_by sequence_key roadmap qs) [
  | none ↦ 0
  | some q ↦ q.current_sequence
]

-- `assertCanEdit`
unfoldable pub can_edit : String → String → Live → Bool
unfolding find_where
can_edit actor roadmap s = elim (find_where (is_owned actor roadmap) s.roadmaps) [
  | none ↦ false
  | some _ ↦ true
]

unfoldable pub current_sequence : String → String → Live → Outcome ℕ
unfolding can_edit current_of
current_sequence actor roadmap s =
    if can_edit actor roadmap s then ok (current_of roadmap s.sequences) else err roadmap_not_found

abbrev pub new_event : String → String → EditRequest → ℕ → RoadmapEvent
new_event id actor req current = record {
  id = id;
  roadmap_id = req.roadmap_id;
  actor_id = actor;
  sequence = current + 1;
  base_sequence = current;
  idempotency_key = req.idempotency_key;
  operation = req.operation;
}

-- What the transaction of `append` writes; the row of the sequence is there, or inserted before.
unfoldable pub write_event : String → String → EditRequest → EditedRoadmap → ℕ → Live → Live
unfolding save
write_event id actor req changed current s = record s {
  roadmaps = save roadmap_key changed s.roadmaps;
  events = new_event id actor req current ∷ s.events;
  sequences =
      save sequence_key (record { roadmap_id = req.roadmap_id; current_sequence = current + 1 })
        s.sequences;
}

-- The transaction where the key is new.
unfoldable pub append_new :
    TitleText → String → String → EditRequest → Live → Outcome EditAck × Live
unfolding current_of find_where apply_operation write_event
append_new texts id actor req s =
    let current = current_of req.roadmap_id s.sequences in
    if not (current == req.base_sequence)
    then (err (sequence_conflict current), s)
    else elim (find_where (is_owned actor req.roadmap_id) s.roadmaps) [
      | none ↦ (err not_editable, s)
      | some roadmap ↦ elim (apply_operation texts req.operation roadmap) [
        | none ↦ (err invalid_operation, s)
        | some changed ↦ (
          ok (record { duplicate = false; sequence = current + 1; event_id = id }),
          write_event id actor req changed current s,
        )
      ]
    ]

-- `append`; `id` is that of the new event.
unfoldable pub append : TitleText → String → String → EditRequest → Live → Outcome EditAck × Live
unfolding can_edit find_where append_new
append texts id actor req s =
    if not (can_edit actor req.roadmap_id s)
    then (err roadmap_not_found, s)
    else elim (find_where (is_duplicate req) s.events) [
      | some e ↦ (ok (record { duplicate = true; sequence = e.sequence; event_id = e.id }), s)
      | none ↦ append_new texts id actor req s
    ]

-- `readSince`
unfoldable pub read_since : String → String → ℕ → ℕ → Live → Outcome (List RoadmapEvent × ℕ)
unfolding can_edit current_of keep sort_by
read_since actor roadmap after limit s =
    let bounded = min (max limit 1) 500 in
    let later = keep (λ e. str_eq e.roadmap_id roadmap && ltb after e.sequence) s.events in
    if can_edit actor roadmap s
    then ok (
      take bounded (sort_by (λ a b. ltb a.sequence b.sequence) later),
      current_of roadmap s.sequences,
    )
    else err roadmap_not_found
