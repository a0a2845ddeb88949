-- ===== src/Examples/MeetingRuns.antt =====
-- The theorems on the meeting records at concrete tables and requests.
use mathlib.Core.List.Permᴰ
use voter_api.Prelude.{
  ℕ, String, ◌≡◌, refl, true, none, some, List, [], ◌∷◌, ◌≤◌, arith, All, Extends, ok, err, inr,
  count_where, is_true, length,
}
use voter_api.Text.{codes}
use voter_api.Meetings.Db.{Db, MeetingAttachment, MeetingVideoEmbed, Platform, integrity_error}
use voter_api.Meetings.Service.{
  is_listed, list_meetings, approve, delete_meeting, cascade_delete, replace_meeting,
  approve_meeting,
}
use voter_api.Meetings.Service.Evolution.{Grows}
use voter_api.Meetings.Service.Visibility.{
  IsShown, IsShown-dec, IsDescending, list_meetings-IsShown,
}
use voter_api.Meetings.Service.Rights.{Untouched, Request, request, request-Untouched}
use voter_api.Meetings.Agenda.{OrderUpdate, reorder_items}
use voter_api.Meetings.Agenda.Reorder.{reorder_items-taken}
use voter_api.Meetings.Attachments.{get_attachment}
use voter_api.Meetings.Embeds.{get_embed}
use voter_api.Meetings.Validators.{
  detect_video_platform, validate_file_extension, validate_video_timestamps,
}
use voter_api.Meetings.Cascade.{item_children-delete_meeting}
use voter_api.Meetings.Steps.{run}
use voter_api.Meetings.Steps.History.{run-Grows}
use voter_api.Meetings.Steps.Decisions.{AreDecided, run-AreDecided}
use voter_api.Meetings.Steps.Links.{IsLinked}
use voter_api.Meetings.Steps.Links.Runs.{run-IsLinked}
use voter_api.Meetings.Steps.Once.{decide, IsRefused, decide-run}
use voter_api.Meetings.Steps.Videos.{HasEmbeds, IsEmbed, run-HasEmbeds}
use voter_api.Examples.MeetingOrder.{latest_first, latest_first-IsOrderBy}
use voter_api.Examples.MeetingTables.{
  boss, clerk, tables, requests, everything, submitted, published, recording,
}

-- The UPDATEs go out in the order of the ids, and a file is stored under its name.
abbrev as_listed : List OrderUpdate → List OrderUpdate
as_listed us = us

abbrev by_name : List ℕ → String → String
by_name content name = name

accepts_short_link :
    detect_video_platform (codes "https://YouTu.be/abc?t=1") ≡ some Platform.youtube
unfolding detect_video_platform
accepts_short_link = refl

rejects_other_host : detect_video_platform (codes "https://youtube.com@evil.test/vimeo.com") ≡ none
unfolding detect_video_platform
rejects_other_host = refl

accepts_pdf : validate_file_extension (codes "notes.2026.PDF") ≡ true
unfolding validate_file_extension
accepts_pdf = refl

run-Grows_example : Grows tables (run as_listed by_name requests tables)
run-Grows_example = run-Grows as_listed by_name requests tables

tables-AreDecided : AreDecided tables
tables-AreDecided = ground arith

run-AreDecided_example : AreDecided (run as_listed by_name requests tables)
run-AreDecided_example = run-AreDecided as_listed by_name requests tables tables-AreDecided

tables-IsLinked : IsLinked tables
tables-IsLinked = record {
  meetings = (λ _. refl, (λ _. refl, tt));
  items = (λ _. refl, (λ _. refl, tt));
}

run-IsLinked_example : IsLinked (run as_listed by_name requests tables)
run-IsLinked_example = run-IsLinked as_listed by_name requests tables tables-IsLinked

recording-IsEmbed : IsEmbed recording
unfolding detect_video_platform validate_video_timestamps
recording-IsEmbed = record { platform = refl; seconds = refl; parent = refl }

run-HasEmbeds_example : HasEmbeds (run as_listed by_name requests tables)
run-HasEmbeds_example = run-HasEmbeds as_listed by_name requests tables (recording-IsEmbed, tt)

-- the two items of the clerk's meeting change places
reorder_items-taken_example : reorder_items as_listed tables 7 (21 ∷ 20 ∷ []) ≡ err integrity_error
reorder_items-taken_example =
    reorder_items-taken as_listed (λ us. Permᴰ.refl us) tables 7 (21 ∷ 20 ∷ []) refl refl refl refl
      (λ e. cc) (refl, (refl, tt))

request-Untouched_example :
    Extends (Untouched clerk) tables.meetings (request tables clerk (Request.delete 5 8)).meetings
request-Untouched_example = request-Untouched tables clerk (Request.delete 5 8) refl

abbrev approved_tables : Db
approved_tables = replace_meeting 7 (approve 110 boss) tables

approves_submitted :
    decide tables 110 7 boss none ≡ ok (approve 110 boss submitted, approved_tables)
unfolding decide approve_meeting
approves_submitted = refl

-- the clerk's meeting is approved, then the requests run, of which none creates a meeting 7
decide-run_example :
    IsRefused (decide (run as_listed by_name requests approved_tables) 111 7 boss (some "late"))
decide-run_example =
    decide-run as_listed by_name requests tables approved_tables 110 111 7 boss boss none
      (some "late") (approve 110 boss submitted) (inr (ground arith, approves_submitted))
      (ground arith)

lists_both :
    list_meetings latest_first tables everything 1 20 (some clerk)
    ≡ ok (submitted ∷ published ∷ [], 2)
unfolding list_meetings is_listed
lists_both = refl

list_meetings-IsShown_example :
    All (IsShown everything (some clerk)) (submitted ∷ published ∷ [])
    × IsDescending (submitted ∷ published ∷ [])
    × (length (submitted ∷ published ∷ []) ≤ 20)
    × (2 ≡ count_where (λ m. is_true (IsShown-dec everything (some clerk) m)) tables.meetings)
list_meetings-IsShown_example =
    list_meetings-IsShown latest_first tables everything (some clerk) 1 20
      (submitted ∷ published ∷ []) 2 latest_first-IsOrderBy lists_both

deletes_submitted : delete_meeting tables 115 7 clerk ≡ ok (tt, cascade_delete 115 7 tables)
unfolding delete_meeting
deletes_submitted = refl

item_children-delete_meeting_example :
    ((k : ℕ) (a : MeetingAttachment)
      → get_attachment tables k ≡ some a
      → a.meeting_id ≡ none
      → get_attachment (cascade_delete 115 7 tables) k ≡ some a)
    × ((k : ℕ) (v : MeetingVideoEmbed)
        → get_embed tables k ≡ some v
        → v.meeting_id ≡ none
        → get_embed (cascade_delete 115 7 tables) k ≡ some v)
item_children-delete_meeting_example =
    item_children-delete_meeting tables (cascade_delete 115 7 tables) 115 7 clerk deletes_submitted
