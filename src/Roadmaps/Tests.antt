-- ===== src/Roadmaps/Tests.antt =====
-- Examples of directories and reactions (src/roadmaps), at which the theorems on them apply.
use jagalchi_api.Base.{
  true, none, some, List, [], ◌∷◌, ◌≡◌, refl, subst, find_by, find_where, str_eq, if_eq,
}
use jagalchi_api.Roadmaps.Types.{
  Graph, Position, finite, invalid_edge, Roadmap, ReactionType, like, favorite, Tables, Text,
  public_to_all,
}
use jagalchi_api.Roadmaps.Graph.{assert_valid_graph}
use jagalchi_api.Roadmaps.Shape.{IsWellFormed, assert_valid_graph-IsWellFormed}
use jagalchi_api.Roadmaps.Service.{empty_graph, set_reaction, count_of}
use jagalchi_api.Roadmaps.Directories.{require_directory}
use jagalchi_api.Roadmaps.Moves.{IsTree}
use jagalchi_api.Roadmaps.Tree.{Action, make, move, rename, delete, run, run-IsTree}
use jagalchi_api.Roadmaps.Reactions.{IsCounted, tally, set_reaction-IsCounted}

abbrev text : Text
text = record { trim = λ s. s; to_lower = λ s. s }

abbrev plan : Roadmap
plan = record {
  id = "r1";
  owner_id = "ada";
  title = "Rust";
  description = "";
  tags = [];
  visibility = public_to_all;
  graph = empty_graph;
  directory_id = none;
  forked_from_id = none;
  fork_count = 0;
  like_count = 0;
  favorite_count = 0;
  deleted_at = none;
}

abbrev tables : Tables
tables = record {
  roadmaps = plan ∷ [];
  directories = [];
  reactions = [];
  progress = [];
  projections = [];
}

tables-IsTree : IsTree tables
unfolding require_directory find_by find_where
tables-IsTree user id d e = cc

abbrev calls : List Action
calls =
    make "ada" none "Languages" "d1"
    ∷ make "ada" (some "d1") "Rust" "d2"
    ∷ move "ada" "d1" (some "d2")
    ∷ rename "ada" "d2" "Rust 2024"
    ∷ delete "ada" "d2"
    ∷ []

run-IsTree_example : IsTree (run text calls tables)
run-IsTree_example = run-IsTree text calls tables tables-IsTree

none_counted : (t : ReactionType) → count_of t plan ≡ 0
none_counted like = refl
none_counted favorite = refl

some_eq : {a b : Roadmap} → some a ≡ some b → a ≡ b
some_eq e = cc

tables-IsCounted : IsCounted tables
unfolding tally find_by find_where
tables-IsCounted t id r e =
    if_eq (str_eq "r1" id) e (λ _ g. subst (λ x. count_of t x ≡ 0) (some_eq g) (none_counted t))
      (λ _ g. cc)

set_reaction-IsCounted_example : IsCounted (set_reaction "ben" "r1" like true "x1" tables).1
set_reaction-IsCounted_example =
    set_reaction-IsCounted "ben" "r1" like true "x1" tables tables-IsCounted

abbrev here : Position
here = record { x = finite "0"; y = finite "1.5" }

abbrev sample : Graph
sample = record {
  schema_version = 1;
  nodes = some (
      some (record { id = some "a"; kind = "jagalchi-node"; position = some here; content = "" })
      ∷ some (record { id = some "b"; kind = "detail-node"; position = some here; content = "" })
      ∷ []);
  edges = some (some (record { id = some "e"; source = "a"; target = "b"; content = "" }) ∷ []);
}

assert_valid_graph-IsWellFormed_example : IsWellFormed sample
unfolding assert_valid_graph
assert_valid_graph-IsWellFormed_example = assert_valid_graph-IsWellFormed sample refl

-- The same with an edge from a node to itself.
self_loop :
    assert_valid_graph (record sample {
      edges = some (some (record { id = some "e"; source = "a"; target = "a"; content = "" }) ∷ []);
    })
    ≡ some invalid_edge
unfolding assert_valid_graph
self_loop = refl
