-- ===== src/Auth/Profiles.antt =====
-- `updateProfile` of `AuthService` (src/auth/auth.service.ts).
use jagalchi_api.Base.{
  String, Option, none, some, List, [], ◌∷◌, ◌||◌, str_eq, ltb, if◌then◌else◌, find_where, save,
  length, units, ok, err,
}
use jagalchi_api.Auth.Types.{
  Auth, Runtime, User, Outcome, user_id, is_active_user, user_not_active, too_many_links,
  link_not_valid, link_not_web,
}
use jagalchi_api.Auth.Passwords.{is_empty}

-- `UpdateProfileDto`; a link that is no string is `none`.
pub record ProfileUpdate : Type 0 where
  pub name : Option String
  pub bio : Option String
  pub profile_image_url : Option String
  pub external_links : Option (List (String × Option String))

pub record Profile : Type 0 where
  pub id : String
  pub name : String
  pub bio : Option String
  pub profile_image_url : Option String
  pub external_links : List (String × String)

abbrev profile_of : User → Profile
profile_of u = record {
  id = u.id;
  name = u.name;
  bio = u.bio;
  profile_image_url = u.profile_image_url;
  external_links = u.external_links;
}

-- `s || null`
abbrev non_empty : String → Option String
non_empty s = if is_empty s then none else some s

-- `links[label] = url`
unfoldable pub set_link : String → String → List (String × String) → List (String × String)
set_link label url [] = (label, url) ∷ []
set_link label url ((l, u) ∷ rest) =
    let more = set_link label url rest in
    if str_eq l label then (label, url) ∷ rest else (l, u) ∷ more

module _ (rt : Runtime) where
  -- The body of the loop over the links.
  unfoldable pub check_link : String → Option String → Outcome (String × String)
  check_link label none = err link_not_valid
  check_link label (some raw) =
      let normalized = rt.trim label in
      if is_empty normalized || ltb 40 (length (units normalized))
      then err link_not_valid
      else elim (rt.parse_url raw) [
        | none ↦ err link_not_valid
        | some url ↦
            if str_eq url.protocol "http:" || str_eq url.protocol "https:"
            then ok (normalized, url.href)
            else err link_not_web
      ]

  unfoldable pub check_links :
      List (String × Option String) → List (String × String) → Outcome (List (String × String))
  unfolding check_link set_link
  check_links [] links = ok links
  check_links ((label, raw) ∷ rest) links = elim (check_link label raw) [
    | err e ↦ err e
    | ok (l, u) ↦ check_links rest (set_link l u links)
  ]

  unfoldable pub new_links :
      Option (List (String × Option String))
      → List (String × String)
      → Outcome (List (String × String))
  unfolding check_links
  new_links none old = ok old
  new_links (some entries) old =
      if ltb 5 (length entries) then err too_many_links else check_links entries []

  unfoldable pub update_profile : String → ProfileUpdate → Auth → Outcome Profile × Auth
  unfolding new_links find_where save
  update_profile id dto s = elim (find_where (is_active_user id) s.users) [
    | none ↦ (err user_not_active, s)
    | some user ↦ elim (new_links dto.external_links user.external_links) [
      | err e ↦ (err e, s)
      | ok links ↦
          let changed = record user {
            name = elim dto.name [ none ↦ user.name | some n ↦ rt.trim n ];
            bio = elim dto.bio [ none ↦ user.bio | some b ↦ non_empty (rt.trim b) ];
            profile_image_url = elim dto.profile_image_url [
              | none ↦ user.profile_image_url
              | some p ↦ non_empty p
            ];
            external_links = links;
          } in
          (ok (profile_of changed), record s { users = save user_id changed s.users })
    ]
  ]
