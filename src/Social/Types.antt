-- ===== src/Social/Types.antt =====
-- The rows of src/social/entities/social.entities.ts. `updated_at`, and the `created_at` of follows, are
-- set by the ORM.
use jagalchi_api.Base.{ℕ, String, Bool, Option, List, Result}
use jagalchi_api.Roadmaps.Types.{Tables}
use jagalchi_api.Auth.Types.{User}

pub record Comment : Type 0 where
  pub id : String
  pub roadmap_id : String
  pub author_id : String
  pub parent_id : Option String
  pub content : String
  pub is_deleted : Bool
  pub created_at : ℕ

pub record Follow : Type 0 where
  pub id : String
  pub follower_id : String
  pub followee_id : String

pub data NotificationType : Type 0 where
  comment_type reply_type follow_type fork_type like_type ai_complete_type learning_reminder_type
        system_type :
      NotificationType

pub record Notification : Type 0 where
  pub id : String
  pub recipient_id : String
  pub actor_id : Option String
  pub kind : NotificationType
  pub resource_type : Option String
  pub resource_id : Option String
  pub title : String
  pub body : String
  pub read_at : Option ℕ
  pub created_at : ℕ

pub record NotificationPreference : Type 0 where
  pub user_id : String
  pub comments : Bool
  pub replies : Bool
  pub follows : Bool
  pub forks : Bool
  pub likes : Bool
  pub ai_complete : Bool
  pub learning_reminders : Bool

-- `NotificationInput`
pub record NotificationInput : Type 0 where
  pub recipient_id : String
  pub actor_id : Option String
  pub kind : NotificationType
  pub resource_type : Option String
  pub resource_id : Option String
  pub title : String
  pub body : String

-- The tables; the roadmaps are those of src/roadmaps, the users those of src/auth.
pub record Social : Type 0 where
  pub roadmaps : Tables
  pub users : List User
  pub comments : List Comment
  pub follows : List Follow
  pub notifications : List Notification
  pub preferences : List NotificationPreference

pub data Error : Type 0 where
  roadmap_not_found parent_not_available nested_too_deep comment_not_found not_author : Error
  comment_deleted follows_oneself notification_not_found : Error

abbrev pub Outcome : Type 0 → Type 0
Outcome A = Result Error A

abbrev pub comment_id : Comment → String
comment_id c = c.id

abbrev pub follow_id : Follow → String
follow_id f = f.id

abbrev pub notification_id : Notification → String
notification_id n = n.id

abbrev pub preference_user : NotificationPreference → String
preference_user p = p.user_id
