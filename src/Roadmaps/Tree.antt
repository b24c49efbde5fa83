-- ===== src/Roadmaps/Tree.antt =====
-- Any sequence of calls on the directories of src/roadmaps/roadmaps.service.ts, by any users.
use jagalchi_api.Base.{String, Option, List, [], ◌∷◌}
use jagalchi_api.Roadmaps.Types.{Tables, Text}
use jagalchi_api.Roadmaps.Directories.{
  create_directory, move_directory, rename_directory, delete_directory,
}
use jagalchi_api.Roadmaps.Moves.{
  IsTree, create_directory-IsTree, move_directory-IsTree, rename_directory-IsTree,
}
use jagalchi_api.Roadmaps.Removals.{delete_directory-IsTree}

-- One call by a user, with the identifier of the row that it may insert.
pub data Action : Type 0 where
  make : String → Option String → String → String → Action
  move : String → String → Option String → Action
  rename : String → String → String → Action
  delete : String → String → Action

module _ (text : Text) where
  unfoldable pub perform : Action → Tables → Tables
  perform (make user parent name id) s = (create_directory text user parent name id s).1
  perform (move user id parent) s = (move_directory user id parent s).1
  perform (rename user id name) s = (rename_directory text user id name s).1
  perform (delete user id) s = (delete_directory user id s).1

  unfoldable pub run : List Action → Tables → Tables
  unfolding perform
  run [] s = s
  run (c ∷ cs) s = run cs (perform c s)

  perform-IsTree : (c : Action) (s : Tables) → IsTree s → IsTree (perform c s)
  unfolding perform
  perform-IsTree (make user parent name id) s v =
      create_directory-IsTree text user parent name id s v
  perform-IsTree (move user id parent) s v = move_directory-IsTree user id parent s v
  perform-IsTree (rename user id name) s v = rename_directory-IsTree text user id name s v
  perform-IsTree (delete user id) s v = delete_directory-IsTree user id s v

  -- Where every directory leads by its parents, all of them its user's, to a directory without a
  -- parent, this is so after any sequence of creations, moves, renamings and deletions: no cycle
  -- comes about, and no parent goes missing.
  pub run-IsTree : (calls : List Action) (s : Tables) → IsTree s → IsTree (run calls s)
  unfolding run
  run-IsTree [] s v = v
  run-IsTree (c ∷ cs) s v = run-IsTree cs (perform c s) (perform-IsTree c s v)
