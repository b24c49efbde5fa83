-- ===== src/Roadmaps/Directories.antt =====
-- The directories of `RoadmapsService` (src/roadmaps/roadmaps.service.ts). Each method returns the
-- new tables with its answer, and the tables that it was given where it throws.
use jagalchi_api.Base.{
  ℕ, zero, suc, String, Bool, true, false, Option, none, some, List, ◌∷◌, ◌&&◌, ◌||◌, not, any, map,
  str_eq, is_text, if◌then◌else◌, find_by, save, keep,
}
use jagalchi_api.Roadmaps.Types.{
  Directory, Roadmap, Tables, Text, Outcome, ok, err, directory_unavailable, directory_exists,
  contains_itself, cycle_detected, too_deep, has_children, unique_violation,
}

abbrev pub directory_id_of : Directory → String
directory_id_of d = d.id

-- `requireDirectory`; the identifier is the primary key.
unfoldable pub require_directory : String → String → List Directory → Option Directory
require_directory user id ds = elim (find_by directory_id_of id ds) [
  | none ↦ none
  | some d ↦ if str_eq d.user_id user then some d else none
]

-- The unique index on the user, the parent and the name, under which NULL equals NULL.
abbrev same_parent : Option String → Option String → Bool
same_parent none none = true
same_parent (some a) (some b) = str_eq a b
same_parent _ _ = false

abbrev pub is_same_place : Directory → Directory → Bool
is_same_place d e =
    str_eq e.user_id d.user_id && same_parent e.parent_id d.parent_id && str_eq e.name d.name

-- An UPDATE of a directory: `err` where another one has its place.
unfoldable pub save_directory : Directory → Tables → Outcome Directory × Tables
save_directory d s =
    if any (λ e. not (str_eq e.id d.id) && is_same_place d e) s.directories
    then (err unique_violation, s)
    else (ok d, record s { directories = save directory_id_of d s.directories })

abbrev pub parent_available : String → Option String → List Directory → Bool
parent_available user none ds = true
parent_available user (some p) ds = elim (require_directory user p ds) [
  | none ↦ false
  | some _ ↦ true
]

-- `createDirectory`; any failure of the INSERT is a conflict.
unfoldable pub create_directory :
    Text → String → Option String → String → String → Tables → Outcome Directory × Tables
create_directory text user parent name id s =
    if not (parent_available user parent s.directories)
    then (err directory_unavailable, s)
    else let d : Directory = record {
      id = id;
      user_id = user;
      parent_id = parent;
      name = text.trim name;
    } in
      if any (λ e. str_eq e.id id || is_same_place d e) s.directories
      then (err directory_exists, s)
      else (ok d, record s { directories = d ∷ s.directories })

-- The loop of `moveDirectory`, from the new parent towards the root.
unfoldable pub climb : ℕ → String → String → List Directory → Option String → Outcome (Unit {0})
climb zero user id ds none = ok tt
climb zero user id ds (some c) = err too_deep
climb (suc n) user id ds none = ok tt
climb (suc n) user id ds (some c) =
    if str_eq c id then err cycle_detected else elim (require_directory user c ds) [
      | none ↦ err directory_unavailable
      | some parent ↦ climb n user id ds parent.parent_id
    ]

-- `moveDirectory`
unfoldable pub move_directory :
    String → String → Option String → Tables → Outcome Directory × Tables
move_directory user id parent s = elim (require_directory user id s.directories) [
  | none ↦ (err directory_unavailable, s)
  | some d ↦
      if is_text parent id
      then (err contains_itself, s)
      else elim (climb 100 user id s.directories parent) [
        | err e ↦ (err e, s)
        | ok _ ↦ save_directory (record d { parent_id = parent }) s
      ]
]

-- `renameDirectory`
unfoldable pub rename_directory :
    Text → String → String → String → Tables → Outcome Directory × Tables
rename_directory text user id name s = elim (require_directory user id s.directories) [
  | none ↦ (err directory_unavailable, s)
  | some d ↦ save_directory (record d { name = text.trim name }) s
]

abbrev pub is_child : String → String → Directory → Bool
is_child user id d = str_eq d.user_id user && is_text d.parent_id id

abbrev leave_directory : String → String → Roadmap → Roadmap
leave_directory user id r =
    if str_eq r.owner_id user && is_text r.directory_id id
    then record r { directory_id = none }
    else r

-- `deleteDirectory`
unfoldable pub delete_directory : String → String → Tables → Outcome (Unit {0}) × Tables
delete_directory user id s = elim (require_directory user id s.directories) [
  | none ↦ (err directory_unavailable, s)
  | some d ↦ if any (is_child user id) s.directories then (err has_children, s) else (
    ok tt,
    record s {
      roadmaps = map (leave_directory user id) s.roadmaps;
      directories = keep (λ e. not (str_eq e.id id)) s.directories;
    },
  )
]
