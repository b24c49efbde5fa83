-- ===== src/Roadmaps/Types.antt =====
-- The rows of src/roadmaps/entities/roadmap.entities.ts, and what the service is given.
-- `created_at`, `updated_at` and `version` are set by the ORM.
use jagalchi_api.Base.{ℕ, String, Bool, Option, List}

pub data Visibility : Type 0 where
  public_to_all unlisted private_to_owner : Visibility

-- `x` or `y` of a position: a finite number, as it is written, or what is none.
pub data Coordinate : Type 0 where
  finite : String → Coordinate
  not_finite : Coordinate

pub record Position : Type 0 where
  pub x : Coordinate
  pub y : Coordinate

-- `RoadmapGraphNode` as a request gives it: an `id` that is no string is `none`, and a missing
-- position too. The `data` of nodes and edges is carried along unread.
pub record Node : Type 0 where
  pub id : Option String
  pub kind : String
  pub position : Option Position
  pub content : String

pub record Edge : Type 0 where
  pub id : Option String
  pub source : String
  pub target : String
  pub content : String

-- `RoadmapGraph` as a request gives it: `nodes` and `edges` that are no arrays are `none`, and so is
-- an element that is null.
pub record Graph : Type 0 where
  pub schema_version : ℕ
  pub nodes : Option (List (Option Node))
  pub edges : Option (List (Option Edge))

pub record Roadmap : Type 0 where
  pub id : String
  pub owner_id : String
  pub title : String
  pub description : String
  pub tags : List String
  pub visibility : Visibility
  pub graph : Graph
  pub directory_id : Option String
  pub forked_from_id : Option String
  pub fork_count : ℕ
  pub like_count : ℕ
  pub favorite_count : ℕ
  pub deleted_at : Option ℕ

pub record Directory : Type 0 where
  pub id : String
  pub user_id : String
  pub parent_id : Option String
  pub name : String

pub record NodeProgress : Type 0 where
  pub id : String
  pub user_id : String
  pub roadmap_id : String
  pub node_id : String
  pub is_completed : Bool
  pub note : Option String
  pub link : Option String
  pub completed_at : Option ℕ

pub data ReactionType : Type 0 where
  like favorite : ReactionType

pub record Reaction : Type 0 where
  pub id : String
  pub user_id : String
  pub roadmap_id : String
  pub type_of : ReactionType

-- The tables; `projections` holds the roadmaps that belong to a project run.
pub record Tables : Type 0 where
  pub roadmaps : List Roadmap
  pub directories : List Directory
  pub reactions : List Reaction
  pub progress : List NodeProgress
  pub projections : List String

-- `String.prototype.trim` and `toLowerCase`.
pub record Text : Type 0 where
  pub trim : String → String
  pub to_lower : String → String

pub data Error : Type 0 where
  roadmap_not_found directory_unavailable project_run_read_only : Error
  invalid_graph invalid_node invalid_edge node_not_in_roadmap : Error
  directory_exists contains_itself cycle_detected too_deep has_children unique_violation : Error

pub data Outcome (A : Type 0) : Type 0 where
  ok : A → Outcome A
  err : Error → Outcome A
