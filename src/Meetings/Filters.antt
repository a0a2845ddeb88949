-- ===== src/Meetings/Filters.antt =====
-- services/meeting_service.py: the conditions on a meeting that its queries and handlers share.
use voter_api.Prelude.{
  ℕ, Bool, true, false, not, ◌&&◌, ◌||◌, is_true, Option, none, some, ◌==◌, leb, is_eq,
}
use voter_api.Users.{User, is_admin}
use voter_api.Meetings.Db.{
  Meeting, MeetingType, MeetingType-discrete, MeetingStatus-discrete, MeetingStatus, ApprovalStatus,
}

abbrev pub is_approved : ApprovalStatus → Bool
is_approved ApprovalStatus.approved = true
is_approved _ = false

abbrev pub is_pending : ApprovalStatus → Bool
is_pending ApprovalStatus.pending = true
is_pending _ = false

abbrev pub same_type : MeetingType → MeetingType → Bool
same_type a b = is_true (MeetingType-discrete a b)

abbrev pub same_status : MeetingStatus → MeetingStatus → Bool
same_status a b = is_true (MeetingStatus-discrete a b)

-- `current_user and current_user.role != "admin"`
abbrev pub is_restricted : Option User → Bool
is_restricted none = false
is_restricted (some u) = not (is_admin u.role)

-- approved, or submitted by the user
abbrev pub is_visible_to : Option User → Meeting → Bool
is_visible_to none m = true
is_visible_to (some u) m = is_approved m.approval_status || is_eq m.submitted_by u.id

-- An optional filter of a listing: it passes everything where it is not given.
abbrev pub unless_given {ℓ} : {A : Type ℓ} → Option A → (A → Bool) → Bool
unless_given none p = true
unless_given (some a) p = p a

pub record MeetingFilter : Type 0 where
  pub governing_body_id : Option ℕ
  pub date_from : Option ℕ
  pub date_to : Option ℕ
  pub meeting_type : Option MeetingType
  pub status : Option MeetingStatus

abbrev pub passes : MeetingFilter → Meeting → Bool
passes f m =
    unless_given f.governing_body_id (λ i. m.governing_body_id == i)
    && unless_given f.date_from (λ d. leb d m.meeting_date)
    && unless_given f.date_to (λ d. leb m.meeting_date d)
    && unless_given f.meeting_type (same_type m.meeting_type)
    && unless_given f.status (same_status m.status)
