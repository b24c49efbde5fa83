-- ===== src/Social/Service.antt =====
-- `SocialService` (src/social/social.service.ts). Each method is taken to run alone; identifiers and
-- the time of new rows are arguments.
use jagalchi_api.Base.{
  ℕ, zero, suc, String, Bool, true, false, Option, none, some, List, [], ◌∷◌, ◌*◌, ◌-◌, ◌&&◌, ◌||◌,
  not, str_eq, is_some, ltb, if◌then◌else◌, find_by, find_where, save, keep, sort_by, take, length,
  map, ok, err,
}
use jagalchi_api.Roadmaps.Types
use jagalchi_api.Roadmaps.Types.{Roadmap}
use jagalchi_api.Roadmaps.Service.{get_public, get_owned}
use jagalchi_api.Social.Types.{
  Social, Comment, Follow, NotificationInput, comment_type, reply_type, follow_type, Outcome,
  comment_id, follow_id, roadmap_not_found, parent_not_available, nested_too_deep,
  comment_not_found, not_author, comment_deleted, follows_oneself,
}
use jagalchi_api.Social.Notices.{notify}

-- What the platform does with texts: `trim`, and `slice(0, 160)`.
pub record CommentText : Type 0 where
  pub trim : String → String
  pub first_160 : String → String

-- `requireAccessibleRoadmap`; what the two reads throw is a missing roadmap.
unfoldable pub require_accessible_roadmap : String → String → Social → Option Roadmap
unfolding get_public get_owned
require_accessible_roadmap actor id s = elim (get_public id s.roadmaps) [
  | Types.ok r ↦ some r
  | Types.err _ ↦ elim (get_owned actor id s.roadmaps) [ Types.ok r ↦ some r | Types.err _ ↦ none ]
]

-- The checks of the parent in `createComment`.
unfoldable pub find_parent : Option String → String → Social → Outcome (Option Comment)
unfolding find_by
find_parent none roadmap s = ok none
find_parent (some id) roadmap s = elim (find_by comment_id id s.comments) [
  | none ↦ err parent_not_available
  | some p ↦
      if not (str_eq p.roadmap_id roadmap) || p.is_deleted
      then err parent_not_available
      else if is_some p.parent_id
      then err nested_too_deep
      else ok (some p)
]

abbrev pub new_comment : String → String → String → Option Comment → String → ℕ → Comment
new_comment id roadmap author parent content now = record {
  id = id;
  roadmap_id = roadmap;
  author_id = author;
  parent_id = elim parent [ none ↦ none | some p ↦ some p.id ];
  content = content;
  is_deleted = false;
  created_at = now;
}

abbrev pub comment_note : String → String → String → Option Comment → String → NotificationInput
comment_note recipient actor roadmap parent body = record {
  recipient_id = recipient;
  actor_id = some actor;
  kind = elim parent [ none ↦ comment_type | some _ ↦ reply_type ];
  resource_type = some "roadmap";
  resource_id = some roadmap;
  title = elim parent [ none ↦ "새 댓글이 도착했어요" | some _ ↦ "새 답글이 도착했어요" ];
  body = body;
}

-- `createComment`; a parent that is the empty text counts as none.
unfoldable pub create_comment :
    CommentText
    → String
    → String
    → String
    → Option String
    → String
    → String
    → ℕ
    → Social
    → Outcome Comment × Social
unfolding require_accessible_roadmap find_parent save notify
create_comment texts actor roadmap content parent_id id note now s =
    elim (require_accessible_roadmap actor roadmap s) [
      | none ↦ (err roadmap_not_found, s)
      | some r ↦ elim (find_parent parent_id roadmap s) [
        | err e ↦ (err e, s)
        | ok parent ↦
            let made = new_comment id roadmap actor parent (texts.trim content) now in
            let saved = record s { comments = save comment_id made s.comments } in
            let recipient : String = elim parent [ none ↦ r.owner_id | some p ↦ p.author_id ] in
            let note_of =
              comment_note recipient actor roadmap parent (texts.first_160 made.content) in
            (ok made, if str_eq recipient actor then saved else notify note_of note now saved)
      ]
    ]

-- `updateComment`
unfoldable pub update_comment :
    CommentText → String → String → String → Social → Outcome Comment × Social
unfolding find_by save
update_comment texts actor id content s = elim (find_by comment_id id s.comments) [
  | none ↦ (err comment_not_found, s)
  | some c ↦
      if not (str_eq c.author_id actor)
      then (err not_author, s)
      else if c.is_deleted
      then (err comment_deleted, s)
      else let changed = record c { content = texts.trim content } in
        (ok changed, record s { comments = save comment_id changed s.comments })
]

-- `deleteComment`
unfoldable pub delete_comment : String → String → Social → Outcome (Unit {0}) × Social
unfolding find_by save
delete_comment actor id s = elim (find_by comment_id id s.comments) [
  | none ↦ (err comment_not_found, s)
  | some c ↦
      if not (str_eq c.author_id actor)
      then (err not_author, s)
      else if c.is_deleted
      then (ok tt, s)
      else let blank = record c { is_deleted = true; content = "" } in
        (ok tt, record s { comments = save comment_id blank s.comments })
]

-- `skip`
unfoldable pub skip {ℓ} : {A : Type ℓ} → ℕ → List A → List A
skip zero cs = cs
skip (suc n) [] = []
skip (suc n) (c ∷ cs) = skip n cs

-- `listPublicComments`: a page of comments, and their number.
unfoldable pub list_public_comments : String → ℕ → ℕ → Social → Outcome (List Comment × ℕ)
unfolding get_public keep sort_by skip
list_public_comments roadmap page size s = elim (get_public roadmap s.roadmaps) [
  | Types.err _ ↦ err roadmap_not_found
  | Types.ok _ ↦
      let all_of = keep (λ c. str_eq c.roadmap_id roadmap) s.comments in
      let sorted = sort_by (λ a b. ltb a.created_at b.created_at) all_of in
      let shown : List Comment = take size (skip ((page - 1) * size) sorted) in
      ok (map (λ c. if c.is_deleted then record c { content = "" } else c) shown, length all_of)
]

abbrev pub is_follow : String → String → Follow → Bool
is_follow follower followee f = str_eq f.follower_id follower && str_eq f.followee_id followee

abbrev pub follow_note : String → String → NotificationInput
follow_note follower followee = record {
  recipient_id = followee;
  actor_id = some follower;
  kind = follow_type;
  resource_type = some "profile";
  resource_id = some follower;
  title = "새 팔로워가 생겼어요";
  body = "프로필에서 새로운 팔로워를 확인해 보세요.";
}

-- `follow`
unfoldable pub follow : String → String → String → String → ℕ → Social → Outcome (Unit {0}) × Social
unfolding find_where save notify
follow follower followee id note now s =
    if str_eq follower followee
    then (err follows_oneself, s)
    else elim (find_where (is_follow follower followee) s.follows) [
      | some _ ↦ (ok tt, s)
      | none ↦
          let made : Follow = record { id = id; follower_id = follower; followee_id = followee } in
          let saved = record s { follows = save follow_id made s.follows } in
          (ok tt, notify (follow_note follower followee) note now saved)
    ]

-- `unfollow`
unfoldable pub unfollow : String → String → Social → Social
unfolding keep
unfollow follower followee s = record s {
  follows = keep (λ f. not (is_follow follower followee f)) s.follows;
}
