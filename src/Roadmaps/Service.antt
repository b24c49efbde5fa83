-- ===== src/Roadmaps/Service.antt =====
-- Roadmaps, forks, reactions and progress: `RoadmapsService` (src/roadmaps/roadmaps.service.ts).
-- Each method returns the new tables with its answer, and the tables that it was given where it
-- throws. A removed roadmap stays in its table with the time of its removal; no lookup finds it.
use Prim.Native.String.{◌++◌}
use jagalchi_api.Base.{
  ℕ, String, Bool, true, false, Option, none, some, List, [], ◌∷◌, ◌+◌, ◌-◌, ◌&&◌, not, any, keep,
  map, str_eq, is_some, is_text, or_else, if◌then◌else◌, find_by, find_where, save,
}
use jagalchi_api.Roadmaps.Types.{
  Visibility, private_to_owner, Node, Graph, Roadmap, NodeProgress, ReactionType, like, favorite,
  Reaction, Tables, Text, Error, Outcome, ok, err, roadmap_not_found, directory_unavailable,
  project_run_read_only, node_not_in_roadmap,
}
use jagalchi_api.Roadmaps.Graph.{has, assert_valid_graph}
use jagalchi_api.Roadmaps.Directories.{require_directory}

abbrev pub roadmap_id_of : Roadmap → String
roadmap_id_of r = r.id

-- `findOne({ where: { id } })`
unfoldable pub find_roadmap : String → List Roadmap → Option Roadmap
find_roadmap id rs = elim (find_by roadmap_id_of id rs) [
  | none ↦ none
  | some r ↦ if is_some r.deleted_at then none else some r
]

abbrev pub is_shared : Visibility → Bool
is_shared private_to_owner = false
is_shared _ = true

-- `getPublic`
unfoldable pub get_public : String → Tables → Outcome Roadmap
get_public id s = elim (find_roadmap id s.roadmaps) [
  | none ↦ err roadmap_not_found
  | some r ↦ if is_shared r.visibility then ok r else err roadmap_not_found
]

-- `getOwned`
unfoldable pub get_owned : String → String → Tables → Outcome Roadmap
get_owned owner id s = elim (find_roadmap id s.roadmaps) [
  | none ↦ err roadmap_not_found
  | some r ↦ if str_eq r.owner_id owner then ok r else err roadmap_not_found
]

-- The test of `fork`, `setReaction` and `completeNode`.
unfoldable pub get_readable : String → String → Tables → Outcome Roadmap
get_readable user id s = elim (find_roadmap id s.roadmaps) [
  | none ↦ err roadmap_not_found
  | some r ↦
      if not (str_eq r.owner_id user) && not (is_shared r.visibility)
      then err roadmap_not_found
      else ok r
]

-- `[...new Set(tags)]`, in the order of the first occurrences.
unique_from : List String → List String → List String
unique_from seen [] = []
unique_from seen (t ∷ ts) =
    let rest = unique_from seen ts in
    let rest' = unique_from (t ∷ seen) ts in if has t seen then rest else t ∷ rest'

-- `normalizeTags`
unfoldable pub normalize_tags : Text → List String → List String
unfolding unique_from
normalize_tags text tags =
    unique_from [] (keep (λ t. not (str_eq t "")) (map (λ t. text.to_lower (text.trim t)) tags))

abbrev directory_available : String → Option String → Tables → Bool
directory_available user none s = true
directory_available user (some d) s = elim (require_directory user d s.directories) [
  | none ↦ false
  | some _ ↦ true
]

-- `CreateRoadmapDto`
pub record CreateRoadmap : Type 0 where
  pub title : String
  pub description : Option String
  pub tags : Option (List String)
  pub visibility : Visibility
  pub graph : Option Graph
  pub directory_id : Option String

abbrev pub empty_graph : Graph
empty_graph = record { schema_version = 1; nodes = some []; edges = some [] }

abbrev pub new_roadmap : Text → String → CreateRoadmap → String → Graph → Roadmap
new_roadmap text owner dto id graph = record {
  id = id;
  owner_id = owner;
  title = text.trim dto.title;
  description = text.trim (or_else dto.description "");
  tags = normalize_tags text (or_else dto.tags []);
  visibility = dto.visibility;
  graph = graph;
  directory_id = dto.directory_id;
  forked_from_id = none;
  fork_count = 0;
  like_count = 0;
  favorite_count = 0;
  deleted_at = none;
}

-- `create`
unfoldable pub create : Text → String → CreateRoadmap → String → Tables → Outcome Roadmap × Tables
create text owner dto id s =
    if not (directory_available owner dto.directory_id s)
    then (err directory_unavailable, s)
    else let graph = or_else dto.graph empty_graph in
      elim (assert_valid_graph graph) [
        | some e ↦ (err e, s)
        | none ↦
            let r = new_roadmap text owner dto id graph in
            (ok r, record s { roadmaps = r ∷ s.roadmaps })
      ]

-- `UpdateRoadmapDto`; `directory_id` is `some none` where the request gives null.
pub record UpdateRoadmap : Type 0 where
  pub title : Option String
  pub description : Option String
  pub tags : Option (List String)
  pub visibility : Option Visibility
  pub graph : Option Graph
  pub directory_id : Option (Option String)

abbrev check_graph : Option Graph → Option Error
check_graph none = none
check_graph (some g) = assert_valid_graph g

abbrev pub mapped : {A B : Type 0} → (A → B) → Option A → B → B
mapped f none b = b
mapped f (some a) b = f a

abbrev pub changed_roadmap : Text → UpdateRoadmap → Roadmap → Roadmap
changed_roadmap text dto r = record r {
  title = mapped text.trim dto.title r.title;
  description = mapped text.trim dto.description r.description;
  tags = mapped (normalize_tags text) dto.tags r.tags;
  visibility = or_else dto.visibility r.visibility;
  graph = or_else dto.graph r.graph;
  directory_id = or_else dto.directory_id r.directory_id;
}

-- `update`
unfoldable pub update : Text → String → String → UpdateRoadmap → Tables → Outcome Roadmap × Tables
update text owner id dto s = elim (get_owned owner id s) [
  | err e ↦ (err e, s)
  | ok r ↦
      if has id s.projections
      then (err project_run_read_only, s)
      else if not (directory_available owner (or_else dto.directory_id none) s)
      then (err directory_unavailable, s)
      else elim (check_graph dto.graph) [
        | some e ↦ (err e, s)
        | none ↦
            let r' = changed_roadmap text dto r in
            (ok r', record s { roadmaps = save roadmap_id_of r' s.roadmaps })
      ]
]

-- `remove`
unfoldable pub remove : String → String → ℕ → Tables → Outcome (Unit {0}) × Tables
remove owner id now s = elim (get_owned owner id s) [
  | err e ↦ (err e, s)
  | ok r ↦ if has id s.projections then (err project_run_read_only, s) else (
    ok tt,
    record s { roadmaps = save roadmap_id_of (record r { deleted_at = some now }) s.roadmaps },
  )
]

abbrev pub forked : String → String → Roadmap → Roadmap
forked actor id source = record {
  id = id;
  owner_id = actor;
  title = source.title ++ " 포크";
  description = source.description;
  tags = source.tags;
  visibility = private_to_owner;
  graph = source.graph;
  directory_id = none;
  forked_from_id = some source.id;
  fork_count = 0;
  like_count = 0;
  favorite_count = 0;
  deleted_at = none;
}

-- `fork`
unfoldable pub fork : String → String → String → Tables → Outcome Roadmap × Tables
fork actor id new_id s = elim (get_readable actor id s) [
  | err e ↦ (err e, s)
  | ok source ↦
      let copy = forked actor new_id source in
      let source' = record source { fork_count = source.fork_count + 1 } in
      (ok copy, record s { roadmaps = save roadmap_id_of source' (copy ∷ s.roadmaps) })
]

abbrev pub same_type : ReactionType → ReactionType → Bool
same_type like like = true
same_type favorite favorite = true
same_type _ _ = false

abbrev pub is_reaction : String → String → ReactionType → Reaction → Bool
is_reaction user roadmap t r =
    str_eq r.user_id user && str_eq r.roadmap_id roadmap && same_type r.type_of t

abbrev pub count_of : ReactionType → Roadmap → ℕ
count_of like r = r.like_count
count_of favorite r = r.favorite_count

abbrev pub with_count : ReactionType → ℕ → Roadmap → Roadmap
with_count like n r = record r { like_count = n }
with_count favorite n r = record r { favorite_count = n }

-- Removing the row that `findOne` found.
unfoldable pub drop_first : (Reaction → Bool) → List Reaction → List Reaction
drop_first p [] = []
drop_first p (x ∷ xs) = let rest = drop_first p xs in if p x then xs else x ∷ rest

pub record ReactionResult : Type 0 where
  pub active : Bool
  pub count : ℕ

-- The reactions and the roadmap after the request: `Math.max(0, n - 1)` is subtraction that stops.
unfoldable pub react :
    String
    → String
    → ReactionType
    → Bool
    → String
    → Option Reaction
    → Roadmap
    → List Reaction
    → Roadmap × List Reaction
unfolding drop_first
react user roadmap t true id none r xs = (
  with_count t (count_of t r + 1) r,
  record { id = id; user_id = user; roadmap_id = roadmap; type_of = t } ∷ xs,
)
react user roadmap t false id (some x) r xs =
    (with_count t (count_of t r - 1) r, drop_first (is_reaction user roadmap t) xs)
react user roadmap t _ id _ r xs = (r, xs)

-- `setReaction`
unfoldable pub set_reaction :
    String → String → ReactionType → Bool → String → Tables → Outcome ReactionResult × Tables
set_reaction user roadmap t active id s = elim (get_readable user roadmap s) [
  | err e ↦ (err e, s)
  | ok r ↦
      let (r', xs) =
        react user roadmap t active id (find_where (is_reaction user roadmap t) s.reactions) r
          s.reactions in
      (
        ok (record { active = active; count = count_of t r' }),
        record s { roadmaps = save roadmap_id_of r' s.roadmaps; reactions = xs },
      )
]

abbrev is_node : String → Option Node → Bool
is_node id none = false
is_node id (some n) = is_text n.id id

abbrev pub has_node : String → Graph → Bool
has_node id g = any (is_node id) (or_else g.nodes [])

abbrev pub progress_id_of : NodeProgress → String
progress_id_of p = p.id

abbrev is_progress : String → String → String → NodeProgress → Bool
is_progress user roadmap node p =
    str_eq p.user_id user && str_eq p.roadmap_id roadmap && str_eq p.node_id node

abbrev nonempty : Option String → Option String
nonempty none = none
nonempty (some s) = if str_eq s "" then none else some s

abbrev trimmed : Text → Option String → Option String
trimmed text none = none
trimmed text (some s) = nonempty (some (text.trim s))

-- The row that `completeNode` changes, a new one where there is none.
abbrev current_progress : String → String → String → String → Option NodeProgress → NodeProgress
current_progress user roadmap node id (some p) = p
current_progress user roadmap node id none = record {
  id = id;
  user_id = user;
  roadmap_id = roadmap;
  node_id = node;
  is_completed = false;
  note = none;
  link = none;
  completed_at = none;
}

-- `completeNode`
unfoldable pub complete_node :
    Text
    → String
    → String
    → String
    → Bool
    → Option String
    → Option String
    → String
    → ℕ
    → Tables
    → Outcome NodeProgress × Tables
complete_node text user roadmap node completed note link id now s =
    elim (get_readable user roadmap s) [
      | err e ↦ (err e, s)
      | ok r ↦
          if not (has_node node r.graph)
          then (err node_not_in_roadmap, s)
          else let current =
              current_progress user roadmap node id
                (find_where (is_progress user roadmap node) s.progress) in
            let p = record current {
              is_completed = completed;
              note = trimmed text note;
              link = link;
              completed_at = if completed then some now else none;
            } in
            (ok p, record s { progress = save progress_id_of p s.progress })
    ]
