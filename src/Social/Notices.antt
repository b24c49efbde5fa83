-- ===== src/Social/Notices.antt =====
-- Notifications and their preferences: the part of `SocialService` (src/social/social.service.ts) that
-- writes them.
use jagalchi_api.Base.{
  ℕ, String, Bool, true, Option, none, some, ◌&&◌, not, str_eq, is_some, or_else, if◌then◌else◌,
  find_by, find_where, save, update_where, ok, err,
}
use jagalchi_api.Social.Types.{
  Social, Notification, NotificationType, NotificationPreference, NotificationInput, comment_type,
  reply_type, follow_type, fork_type, like_type, ai_complete_type, learning_reminder_type,
  system_type, Outcome, notification_id, preference_user, notification_not_found,
}

-- `isNotificationEnabled`
unfoldable pub is_notification_enabled : NotificationPreference → NotificationType → Bool
is_notification_enabled p comment_type = p.comments
is_notification_enabled p reply_type = p.replies
is_notification_enabled p follow_type = p.follows
is_notification_enabled p fork_type = p.forks
is_notification_enabled p like_type = p.likes
is_notification_enabled p ai_complete_type = p.ai_complete
is_notification_enabled p learning_reminder_type = p.learning_reminders
is_notification_enabled p system_type = true

abbrev pub new_notification : String → NotificationInput → ℕ → Notification
new_notification id i now = record {
  id = id;
  recipient_id = i.recipient_id;
  actor_id = i.actor_id;
  kind = i.kind;
  resource_type = i.resource_type;
  resource_id = i.resource_id;
  title = i.title;
  body = i.body;
  read_at = none;
  created_at = now;
}

unfoldable pub wants : NotificationInput → Social → Bool
unfolding find_by is_notification_enabled
wants i s = elim (find_by preference_user i.recipient_id s.preferences) [
  | none ↦ true
  | some p ↦ is_notification_enabled p i.kind
]

-- `notify`
unfoldable pub notify : NotificationInput → String → ℕ → Social → Social
unfolding wants save
notify i id now s =
    if wants i s
    then record s {
      notifications = save notification_id (new_notification id i now) s.notifications;
    }
    else s

-- `markRead`
unfoldable pub mark_read : String → String → ℕ → Social → Outcome (Unit {0}) × Social
unfolding find_where save
mark_read user id now s =
    elim (find_where (λ n. str_eq n.id id && str_eq n.recipient_id user) s.notifications) [
      | none ↦ (err notification_not_found, s)
      | some n ↦
          let read = record n { read_at = some now } in
          (
            ok tt,
            if is_some n.read_at
                then s
                else record s { notifications = save notification_id read s.notifications },
          )
    ]

-- `markAllRead`
unfoldable pub mark_all_read : String → ℕ → Social → Social
unfolding update_where
mark_all_read user now s = record s {
  notifications =
      update_where (λ n. str_eq n.recipient_id user && not (is_some n.read_at))
        (λ n. record n { read_at = some now }) s.notifications;
}

-- `UpdateNotificationPreferencesDto`, and what `Object.assign` makes of a row; a new row has the
-- defaults of its columns.
pub record PreferenceUpdate : Type 0 where
  pub comments : Option Bool
  pub replies : Option Bool
  pub follows : Option Bool
  pub forks : Option Bool
  pub likes : Option Bool
  pub ai_complete : Option Bool
  pub learning_reminders : Option Bool

abbrev pub default_preference : String → NotificationPreference
default_preference user = record {
  user_id = user;
  comments = true;
  replies = true;
  follows = true;
  forks = true;
  likes = true;
  ai_complete = true;
  learning_reminders = true;
}

unfoldable pub update_preferences :
    String → PreferenceUpdate → Social → NotificationPreference × Social
unfolding find_by save
update_preferences user dto s =
    let old = or_else (find_by preference_user user s.preferences) (default_preference user) in
    let changed = record old {
      comments = or_else dto.comments old.comments;
      replies = or_else dto.replies old.replies;
      follows = or_else dto.follows old.follows;
      forks = or_else dto.forks old.forks;
      likes = or_else dto.likes old.likes;
      ai_complete = or_else dto.ai_complete old.ai_complete;
      learning_reminders = or_else dto.learning_reminders old.learning_reminders;
    } in
    (changed, record s { preferences = save preference_user changed s.preferences })
