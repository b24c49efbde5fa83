-- ===== src/Social/Views.antt =====
-- The reads of `SocialService` (src/social/social.service.ts): notifications, preferences, and the lists
-- of followers. Follows are kept in the order of their creation.
use jagalchi_api.Base.{
  ℕ, String, Bool, true, false, Option, none, some, List, [], ◌∷◌, ◌≡◌, refl, ◌*◌, ◌-◌, ◌&&◌, not,
  str_eq, is_some, ltb, if◌then◌else◌, find_by, keep, sort_by, take, length, map, inl, inr,
  Bool-cases, arith, update_where,
}
use mathlib.Core.List.{◌++◌}
use jagalchi_api.Auth.Types.{User, user_id}
use jagalchi_api.Social.Types.{
  Social, Follow, Notification, NotificationPreference, preference_user,
}
use jagalchi_api.Social.Service.{skip}
use jagalchi_api.Social.Notices.{mark_all_read}

abbrev pub is_for : String → Notification → Bool
is_for user n = str_eq n.recipient_id user

abbrev pub is_unread : String → Notification → Bool
is_unread user n = str_eq n.recipient_id user && not (is_some n.read_at)

pub record NotificationPage : Type 0 where
  pub items : List Notification
  pub total : ℕ
  pub unread : ℕ

-- `listNotifications`
unfoldable pub list_notifications : String → Bool → ℕ → ℕ → Social → NotificationPage
unfolding keep sort_by skip
list_notifications user unread_only page size s =
    let wanted = keep (if unread_only then is_unread user else is_for user) s.notifications in
    let sorted = sort_by (λ a b. ltb b.created_at a.created_at) wanted in
    record {
      items = take size (skip ((page - 1) * size) sorted);
      total = length wanted;
      unread = length (keep (is_unread user) s.notifications);
    }

-- `getPreferences`: a row, or a new object that has only the user.
pub data Preferences : Type 0 where
  stored : NotificationPreference → Preferences
  unsaved : String → Preferences

unfoldable pub get_preferences : String → Social → Preferences
unfolding find_by
get_preferences user s = elim (find_by preference_user user s.preferences) [
  | none ↦ unsaved user
  | some p ↦ stored p
]

pub data FollowListType : Type 0 where
  followers followings : FollowListType

pub record FollowedUser : Type 0 where
  pub id : String
  pub name : String
  pub profile_image : Option String
  pub is_following : Bool

pub record FollowList : Type 0 where
  pub user_id : String
  pub kind : FollowListType
  pub total_count : ℕ
  pub users : List FollowedUser

-- `type === 'FOLLOWINGS'`
abbrev pub is_followings : FollowListType → Bool
is_followings followers = false
is_followings followings = true

-- The `flatMap` of `followList`.
unfoldable pub followed_users : FollowListType → List User → List String → List FollowedUser
unfolding find_by
followed_users kind users [] = []
followed_users kind users (id ∷ ids) =
    let rest = followed_users kind users ids in
    elim (find_by user_id id users) [
      | none ↦ rest
      | some u ↦
          record {
            id = u.id;
            name = u.name;
            profile_image = u.profile_image_url;
            is_following = is_followings kind;
          }
          ∷ rest
    ]

-- `followList`
unfoldable pub follow_list :
    String → FollowListType → List Follow → (Follow → String) → Social → FollowList
unfolding followed_users
follow_list user kind follows id_field s = record {
  user_id = user;
  kind = kind;
  total_count = length follows;
  users = followed_users kind s.users (map id_field follows);
}

-- `ORDER BY created_at DESC`
unfoldable pub newest_first : List Follow → List Follow
newest_first [] = []
newest_first (f ∷ fs) = newest_first fs ++ (f ∷ [])

-- `listFollowers`
unfoldable pub list_followers : String → Social → FollowList
unfolding follow_list keep newest_first
list_followers user s =
    follow_list user followers (newest_first (keep (λ f. str_eq f.followee_id user) s.follows))
      (λ f. f.follower_id) s

-- `listFollowing`
unfoldable pub list_following : String → Social → FollowList
unfolding follow_list keep newest_first
list_following user s =
    follow_list user followings (newest_first (keep (λ f. str_eq f.follower_id user) s.follows))
      (λ f. f.followee_id) s

-- Once its unread rows are marked, a user has none.
none_unread :
    (user : String) (now : ℕ) (ns : List Notification)
    → keep
        (is_unread user)
        (update_where (is_unread user) (λ n. record n { read_at = some now }) ns)
      ≡ []
unfolding keep update_where
none_unread user now [] = refl
none_unread user now (n ∷ ns) =
    let rest = none_unread user now ns in
    elim (Bool-cases (is_unread user n)) [
      | inl e ↦
          let off : (str_eq n.recipient_id user && false) ≡ false = ground arith in rw (e, off) rest
      | inr e ↦ rw (e, e) rest
    ]

-- After markAllRead the count of unread notifications is zero.
pub list_notifications-mark_all_read :
    (user : String) (unread_only : Bool) (page size now : ℕ) (s : Social)
    → (list_notifications user unread_only page size (mark_all_read user now s)).unread ≡ 0
unfolding list_notifications mark_all_read
list_notifications-mark_all_read user unread_only page size now s =
    rw (none_unread user now s.notifications) refl
