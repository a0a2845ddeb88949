-- ===== src/Meetings/Cascade.antt =====
-- What deleting a meeting takes along, and what it leaves.
use voter_api.Prelude.{ℕ, ◌≡◌, none, some, arith, find-modify, count_where-modify_none, ok}
use voter_api.Users.{User}
use voter_api.Meetings.Db.{Db, MeetingAttachment, MeetingVideoEmbed}
use voter_api.Meetings.Service.{
  delete_meeting, get_child_counts, item_of, attachment_of, embed_of, mark_item, mark_attachment,
  mark_embed,
}
use voter_api.Meetings.Service.Runs.{delete_meeting-ok}
use voter_api.Meetings.Attachments.{get_attachment, attachment_at}
use voter_api.Meetings.Embeds.{get_embed, embed_at}

module _ (db db' : Db) (now i : ℕ) (user : User)
    (deleted : delete_meeting db now i user ≡ ok (tt, db')) where
  -- After a meeting is deleted, it has no active agenda item, no active attachment of its own and
  -- no active video embed of its own.
  pub get_child_counts-delete_meeting : get_child_counts db' i ≡ (0, 0, 0)
  unfolding get_child_counts
  get_child_counts-delete_meeting =
      let (m, _, _, e) = delete_meeting-ok db now i user tt db' deleted in
      rw (
        e,
        count_where-modify_none (item_of i) (mark_item now) db.items (λ a h. ground arith),
        count_where-modify_none (attachment_of i) (mark_attachment now) db.attachments
            (λ a h. ground arith),
        count_where-modify_none (embed_of i) (mark_embed now) db.embeds (λ a h. ground arith),
      )

  -- An attachment or an embed that has no meeting of its own, as those of agenda items, is not deleted
  -- with a meeting, nor changed: it is still served under its key.
  pub item_children-delete_meeting :
      ((k : ℕ) (a : MeetingAttachment)
        → get_attachment db k ≡ some a
        → a.meeting_id ≡ none
        → get_attachment db' k ≡ some a)
      × ((k : ℕ) (v : MeetingVideoEmbed)
          → get_embed db k ≡ some v
          → v.meeting_id ≡ none
          → get_embed db' k ≡ some v)
  unfolding get_attachment get_embed
  item_children-delete_meeting =
      let (m, _, _, e) = delete_meeting-ok db now i user tt db' deleted in
      rw e (
        (λ k a served no_meeting.
            find-modify (attachment_at k) (attachment_of i) (mark_attachment now) db.attachments
              (λ b h. ground arith) served (ground arith)),
        (λ k v served no_meeting.
            find-modify (embed_at k) (embed_of i) (mark_embed now) db.embeds (λ b h. ground arith)
              served (ground arith)),
      )
