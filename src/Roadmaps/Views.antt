-- ===== src/Roadmaps/Views.antt =====
-- What `RoadmapsService` (src/roadmaps/roadmaps.service.ts) shows of forks and of progress.
use jagalchi_api.Base.{
  ℕ, String, Bool, false, Option, none, some, List, [], ◌&&◌, ◌||◌, any, keep, map, length, str_eq,
  is_some, is_text, or_else, not, if◌then◌else◌, ltb,
}
use jagalchi_api.Roadmaps.Types.{Node, Roadmap, Tables, Outcome, ok, err}
use jagalchi_api.Roadmaps.Service.{get_public, find_roadmap}

pub record ForkStatus : Type 0 where
  pub roadmap_id : String
  pub fork_count : ℕ
  pub original_roadmap_id : Option String
  pub original_roadmap_title : Option String
  pub forked_by_current_user : Bool

abbrev is_fork_of : String → Roadmap → Bool
is_fork_of id r = is_text r.forked_from_id id && not (is_some r.deleted_at)

abbrev original_of : Option String → List Roadmap → Option Roadmap
original_of none rs = none
original_of (some id) rs = find_roadmap id rs

abbrev shown : (Roadmap → String) → Option Roadmap → Option String
shown f none = none
shown f (some r) = some (f r)

-- `getForkStatus`
unfoldable pub get_fork_status : String → String → Tables → Outcome ForkStatus
get_fork_status actor id s = elim (get_public id s) [
  | err e ↦ err e
  | ok r ↦
      let original = original_of r.forked_from_id s.roadmaps in
      ok (record {
        roadmap_id = r.id;
        fork_count = r.fork_count;
        original_roadmap_id = shown (λ o. o.id) original;
        original_roadmap_title = shown (λ o. o.title) original;
        forked_by_current_user = any (λ f. str_eq f.owner_id actor && is_fork_of id f) s.roadmaps;
      })
]

abbrev is_counted_node : Option Node → Bool
is_counted_node none = false
is_counted_node (some n) = str_eq n.kind "jagalchi-node" || str_eq n.kind "detail-node"

pub record ProgressSummary : Type 0 where
  pub roadmap_id : String
  pub total_nodes : ℕ
  pub completed_nodes : ℕ
  pub progress_percentage : ℕ
  pub completed_node_ids : List String

-- `getProgress`, without the time of the last change, which the ORM keeps, and with the entries in
-- the order in which they are given. `percentage c t` is `Math.round((c / t) * 100)`.
unfoldable pub get_progress : (ℕ → ℕ → ℕ) → String → String → Tables → Outcome ProgressSummary
get_progress percentage user id s = elim (get_public id s) [
  | err e ↦ err e
  | ok r ↦
      let entries = keep (λ p. str_eq p.user_id user && str_eq p.roadmap_id id) s.progress in
      let done = map (λ p. p.node_id) (keep (λ p. p.is_completed) entries) in
      let total = length (keep is_counted_node (or_else r.graph.nodes [])) in
      ok (record {
        roadmap_id = id;
        total_nodes = total;
        completed_nodes = length done;
        progress_percentage = if ltb 0 total then percentage (length done) total else 0;
        completed_node_ids = done;
      })
]
