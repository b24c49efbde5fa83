-- ===== src/Social/Run.antt =====
-- Sequences of calls of `SocialService` (src/social/social.service.ts), and what they keep of the
-- comments.
use jagalchi_api.Base.{
  ℕ, String, true, false, Option, none, some, List, [], ◌∷◌, ◌≡◌, refl, inl, inr, not, str_eq,
  is_some, ◌&&◌, find_where, find_by, All-find_by, save, if_ind, Option-cases, Result-cases,
}
use jagalchi_api.Social.Types.{
  Social, Comment, Follow, Notification, follow_id, Outcome, comment_id, NotificationInput,
}
use jagalchi_api.Social.Service.{
  comment_note, follow_note, is_follow, CommentText, create_comment, update_comment, delete_comment,
  follow, unfollow, find_parent, new_comment, require_accessible_roadmap,
}
use jagalchi_api.Social.Notices.{
  PreferenceUpdate, notify, mark_read, mark_all_read, update_preferences, wants,
}
use jagalchi_api.Social.Threads.{IsThreaded, save-IsThreaded, find_parent-IsPlaced, found-Fits}

abbrev Kept {ℓ} : {A : Type ℓ} → A × Social → Type 0
Kept out = IsThreaded out.1.comments

notify-comments :
    (i : NotificationInput) (id : String) (now : ℕ) (s : Social)
    → (notify i id now s).comments ≡ s.comments
unfolding notify
notify-comments i id now s =
    if_ind (λ (t : Social). t.comments ≡ s.comments) (wants i s) (λ _. refl) (λ _. refl)

create_comment-Kept :
    (texts : CommentText) (actor roadmap content : String) (parent_id : Option String)
    (id note : String) (now : ℕ) (s : Social)
    → find_by comment_id id s.comments ≡ none
    → IsThreaded s.comments
    → Kept (create_comment texts actor roadmap content parent_id id note now s)
unfolding create_comment
create_comment-Kept texts actor roadmap content parent_id id note now s fresh h =
    elim (Option-cases (require_accessible_roadmap actor roadmap s)) [
      | inl e ↦ rw (create_comment, e) h
      | inr (r, e) ↦ elim (Result-cases (find_parent parent_id roadmap s)) [
        | inr (x, f) ↦ rw (create_comment, e, f) h
        | inl (parent, f) ↦
            let made = new_comment id roadmap actor parent (texts.trim content) now in
            let sound : IsThreaded (save comment_id made s.comments) =
              save-IsThreaded made s.comments (λ old k. cc)
                (find_parent-IsPlaced id roadmap actor (texts.trim content) now parent_id parent s
                  f)
                (λ k. cc) h in
            let saved = record s { comments = save comment_id made s.comments } in
            let recipient : String = elim parent [ none ↦ r.owner_id | some p ↦ p.author_id ] in
            let i = comment_note recipient actor roadmap parent (texts.first_160 made.content) in
            rw (create_comment, e, f)
              (if_ind (λ (t : Social). IsThreaded t.comments) (str_eq recipient actor) (λ _. sound)
                (λ _. rw (notify-comments i note now saved) sound))
      ]
    ]

update_comment-Kept :
    (texts : CommentText) (actor id content : String) (s : Social)
    → IsThreaded s.comments
    → Kept (update_comment texts actor id content s)
unfolding update_comment
update_comment-Kept texts actor id content s h =
    elim (Option-cases (find_by comment_id id s.comments)) [
      | inl e ↦ rw (update_comment, e) h
      | inr (c, e) ↦
          let old = All-find_by comment_id _ id s.comments h e in
          let changed = record c { content = texts.trim content } in
          let sound : c.is_deleted ≡ false → IsThreaded (save comment_id changed s.comments) = λ k.
            save-IsThreaded changed s.comments (found-Fits id s.comments c e) old.0 (λ l. cc) h in
          rw (update_comment, e)
            (if_ind (Kept {A = Outcome Comment}) (not (str_eq c.author_id actor)) (λ _. h)
              (λ _. if_ind (Kept {A = Outcome Comment}) c.is_deleted (λ _. h) sound))
    ]

delete_comment-Kept :
    (actor id : String) (s : Social) → IsThreaded s.comments → Kept (delete_comment actor id s)
unfolding delete_comment
delete_comment-Kept actor id s h = elim (Option-cases (find_by comment_id id s.comments)) [
  | inl e ↦ rw (delete_comment, e) h
  | inr (c, e) ↦
      let old = All-find_by comment_id _ id s.comments h e in
      let blank = record c { is_deleted = true; content = "" } in
      let sound : IsThreaded (save comment_id blank s.comments) =
        save-IsThreaded blank s.comments (found-Fits id s.comments c e) old.0 (λ _. refl) h in
      rw (delete_comment, e)
        (if_ind (Kept {A = Outcome (Unit {0})}) (not (str_eq c.author_id actor)) (λ _. h)
          (λ _. if_ind (Kept {A = Outcome (Unit {0})}) c.is_deleted (λ _. h) (λ _. sound)))
]

follow-Kept :
    (follower followee id note : String) (now : ℕ) (s : Social)
    → IsThreaded s.comments
    → Kept (follow follower followee id note now s)
unfolding follow
follow-Kept follower followee id note now s h =
    elim (Option-cases (find_where (is_follow follower followee) s.follows)) [
      | inr (x, e) ↦
          rw (follow, e)
            (if_ind (Kept {A = Outcome (Unit {0})}) (str_eq follower followee) (λ _. h) (λ _. h))
      | inl e ↦
          let made : Follow = record { id = id; follower_id = follower; followee_id = followee } in
          let saved = record s { follows = save follow_id made s.follows } in
          rw (follow, e)
            (if_ind (Kept {A = Outcome (Unit {0})}) (str_eq follower followee) (λ _. h)
              (λ _. rw (notify-comments (follow_note follower followee) note now saved) h))
    ]

mark_read-Kept :
    (user id : String) (now : ℕ) (s : Social)
    → IsThreaded s.comments
    → Kept (mark_read user id now s)
unfolding mark_read
mark_read-Kept user id now s h =
    elim (Option-cases (
      find_where (λ (n : Notification). str_eq n.id id && str_eq n.recipient_id user)
        s.notifications)) [
          | inl e ↦ rw (mark_read, e) h
          | inr (n, e) ↦
              rw (mark_read, e)
                (if_ind (λ (t : Social). IsThreaded t.comments) (is_some n.read_at) (λ _. h)
                  (λ _. h))
        ]

-- The methods that write.
pub data Request : Type 0 where
  comment : String → String → String → Option String → String → String → ℕ → Request
  edit : String → String → String → Request
  remove : String → String → Request
  start_following : String → String → String → String → ℕ → Request
  stop_following : String → String → Request
  read_one : String → String → ℕ → Request
  read_all : String → ℕ → Request
  prefer : String → PreferenceUpdate → Request

unfoldable pub perform : CommentText → Request → Social → Social
perform texts (comment actor roadmap content parent id note now) s =
    (create_comment texts actor roadmap content parent id note now s).1
perform texts (edit actor id content) s = (update_comment texts actor id content s).1
perform texts (remove actor id) s = (delete_comment actor id s).1
perform texts (start_following follower followee id note now) s =
    (follow follower followee id note now s).1
perform texts (stop_following follower followee) s = unfollow follower followee s
perform texts (read_one user id now) s = (mark_read user id now s).1
perform texts (read_all user now) s = mark_all_read user now s
perform texts (prefer user dto) s = (update_preferences user dto s).1

unfoldable pub run : CommentText → List Request → Social → Social
unfolding perform
run texts [] s = s
run texts (q ∷ qs) s = run texts qs (perform texts q s)

-- The identifier that the database draws for a comment is not in use.
abbrev IsFresh : Request → Social → Type 0
IsFresh (comment actor roadmap content parent id note now) s =
    find_by comment_id id s.comments ≡ none
IsFresh _ s = Unit

unfoldable pub IsFreshRun : CommentText → List Request → Social → Type 0
unfolding perform
IsFreshRun texts [] s = Unit
IsFreshRun texts (q ∷ qs) s = IsFresh q s × IsFreshRun texts qs (perform texts q s)

perform-IsThreaded :
    (texts : CommentText) (q : Request) (s : Social)
    → IsFresh q s
    → IsThreaded s.comments
    → IsThreaded (perform texts q s).comments
unfolding perform unfollow mark_all_read update_preferences
perform-IsThreaded texts (comment actor roadmap content parent id note now) s fresh h =
    create_comment-Kept texts actor roadmap content parent id note now s fresh h
perform-IsThreaded texts (edit actor id content) s fresh h =
    update_comment-Kept texts actor id content s h
perform-IsThreaded texts (remove actor id) s fresh h = delete_comment-Kept actor id s h
perform-IsThreaded texts (start_following follower followee id note now) s fresh h =
    follow-Kept follower followee id note now s h
perform-IsThreaded texts (stop_following follower followee) s fresh h = h
perform-IsThreaded texts (read_one user id now) s fresh h = mark_read-Kept user id now s h
perform-IsThreaded texts (read_all user now) s fresh h = h
perform-IsThreaded texts (prefer user dto) s fresh h = h

-- Whatever the calls, with new identifiers for new comments: each reply stands under a comment of the
-- same roadmap that is itself no reply, and a deleted comment has no content.
pub run-IsThreaded :
    (texts : CommentText) (qs : List Request) (s : Social)
    → IsFreshRun texts qs s
    → IsThreaded s.comments
    → IsThreaded (run texts qs s).comments
unfolding run IsFreshRun
run-IsThreaded texts [] s fresh h = h
run-IsThreaded texts (q ∷ qs) s fresh h =
    run-IsThreaded texts qs (perform texts q s) fresh.1 (perform-IsThreaded texts q s fresh.0 h)
