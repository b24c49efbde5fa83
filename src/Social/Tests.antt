-- ===== src/Social/Tests.antt =====
-- Examples of comments (src/social/social.service.ts).
use jagalchi_api.Base.{none, some, List, [], ◌∷◌, ◌≡◌, refl, length}
use jagalchi_api.Roadmaps.Types.{Roadmap, public_to_all}
use jagalchi_api.Social.Types.{Social}
use jagalchi_api.Social.Service.{
  CommentText, create_comment, update_comment, delete_comment, follow,
}
use jagalchi_api.Roadmaps.Service.{find_roadmap}
use jagalchi_api.Social.Threads.{IsThreaded}
use jagalchi_api.Social.Run.{
  IsFreshRun, Request, comment, edit, remove, start_following, run, run-IsThreaded,
}

abbrev texts : CommentText
texts = record { trim = λ s. s; first_160 = λ s. s }

abbrev plan : Roadmap
plan = record {
  id = "r1";
  owner_id = "ada";
  title = "Rust";
  description = "";
  tags = [];
  visibility = public_to_all;
  graph = record { schema_version = 1; nodes = some []; edges = some [] };
  directory_id = none;
  forked_from_id = none;
  fork_count = 0;
  like_count = 0;
  favorite_count = 0;
  deleted_at = none;
}

abbrev start : Social
start = record {
  roadmaps = record {
    roadmaps = plan ∷ [];
    directories = [];
    reactions = [];
    progress = [];
    projections = [];
  };
  users = [];
  comments = [];
  follows = [];
  notifications = [];
  preferences = [];
}

-- A comment and a reply; the comment is then deleted, and a second reply to it is refused.
abbrev requests : List Request
requests =
    comment "bob" "r1" "Where to start?" none "c1" "n1" 1
    ∷ start_following "bob" "ada" "f1" "n2" 2
    ∷ comment "ada" "r1" "At the top." (some "c1") "c2" "n3" 3
    ∷ edit "ada" "c2" "With ownership."
    ∷ remove "bob" "c1"
    ∷ comment "ada" "r1" "Good luck." (some "c1") "c3" "n4" 5
    ∷ []

two_comments : length (run texts requests start).comments ≡ 2
unfolding run create_comment find_roadmap delete_comment update_comment follow
two_comments = refl

run-IsThreaded_example : IsThreaded (run texts requests start).comments
unfolding IsFreshRun run create_comment find_roadmap delete_comment update_comment follow
run-IsThreaded_example =
    run-IsThreaded texts requests start (refl, (tt, (refl, (tt, (tt, (refl, tt)))))) tt
