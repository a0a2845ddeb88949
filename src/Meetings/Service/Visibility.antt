-- ===== src/Meetings/Service/Visibility.antt =====
-- What `list_meetings` and `get_meeting` show to whom.
use mathlib.Core.List.{Permᴰ}
use voter_api.Prelude.{
  ℕ, zero, suc, ◌*◌, ◌-◌, ◌≤◌, ◌≡◌, ◌⊎◌, ◌↔◌, inl, inr, refl, Bool, true, not, ◌||◌, ◌==◌, leb,
  Option, none, some, List, [], ◌∷◌, arith, find, length-take_le, select, select-pass, count_where,
  count_where-same, length, All, All-imp, All-take, All-drop, All-Permᴰ, take, drop, ok, ◌∙◌,
  is_none, is_true, is_true_iff, same_test, &&_iff, ==_iff, leb_iff, Bool-cases,
}
use voter_api.Users.{User, Role}
use voter_api.Meetings.Db.{
  Db, Meeting, ApprovalStatus, MeetingType-discrete, MeetingStatus-discrete, meeting_at,
}
use voter_api.Meetings.Service.{list_meetings, get_meeting, is_listed}
use voter_api.Meetings.Filters.{
  MeetingFilter, passes, unless_given, same_type, same_status, is_restricted, is_visible_to,
}

-- A restricted reader sees what is approved or his own.
abbrev pub MaySee : Option User → Meeting → Type 0
MaySee none m = Unit
MaySee (some u) m =
    (u.role ≡ Role.admin)
    ⊎ (m.approval_status ≡ ApprovalStatus.approved)
    ⊎ (m.submitted_by ≡ some u.id)

-- `get_meeting` returns the active row of the key exactly if the reader may see it: what it returns
-- is that row and may be seen, and where the active row of the key may be seen, it is returned.
pub get_meeting-MaySee :
    (db : Db) (i : ℕ) (user : Option User) (m : Meeting)
    → (get_meeting db i user ≡ some m → (find (meeting_at i) db.meetings ≡ some m) × MaySee user m)
      × (find (meeting_at i) db.meetings ≡ some m → MaySee user m → get_meeting db i user ≡ some m)
unfolding get_meeting
get_meeting-MaySee db i none m = (λ h. ground arith, λ h k. ground arith)
get_meeting-MaySee db i (some u) m = (λ h. ground arith, λ h k. ground arith)

-- What an optional filter asks for: nothing where it is not given.
abbrev pub Asks : {A : Type 0} → Option A → (A → Type 0) → Type 0
Asks none P = Unit
Asks (some a) P = P a

-- The meeting is what the filter asks for.
abbrev pub Passes : MeetingFilter → Meeting → Type 0
Passes f m =
    Asks f.governing_body_id (λ i. m.governing_body_id ≡ i)
    × Asks f.date_from (λ d. d ≤ m.meeting_date)
    × Asks f.date_to (λ d. m.meeting_date ≤ d)
    × Asks f.meeting_type (λ t. m.meeting_type ≡ t)
    × Asks f.status (λ s. m.status ≡ s)

unless_given_iff :
    {A : Type 0} (o : Option A) (p : A → Bool) (P : A → Type 0)
    → ((a : A) → (p a ≡ true) ↔ P a)
    → (unless_given o p ≡ true) ↔ Asks o P
unless_given_iff none p P k = (λ _. tt, λ _. refl)
unless_given_iff (some a) p P k = k a

passes_iff : (f : MeetingFilter) (m : Meeting) → (passes f m ≡ true) ↔ Passes f m
passes_iff f m =
    let by_body =
      unless_given_iff f.governing_body_id (λ i. m.governing_body_id == i)
        (λ i. m.governing_body_id ≡ i) (λ i. ==_iff m.governing_body_id i) in
    let by_from =
      unless_given_iff f.date_from (λ d. leb d m.meeting_date) (λ d. d ≤ m.meeting_date)
        (λ d. leb_iff d m.meeting_date) in
    let by_to =
      unless_given_iff f.date_to (λ d. leb m.meeting_date d) (λ d. m.meeting_date ≤ d)
        (λ d. leb_iff m.meeting_date d) in
    let by_type =
      unless_given_iff f.meeting_type (same_type m.meeting_type) (λ t. m.meeting_type ≡ t)
        (λ t. is_true_iff (MeetingType-discrete m.meeting_type t)) in
    let by_status =
      unless_given_iff f.status (same_status m.status) (λ s. m.status ≡ s)
        (λ s. is_true_iff (MeetingStatus-discrete m.status s)) in
    let all = &&_iff (&&_iff (&&_iff (&&_iff by_body by_from) by_to) by_type) by_status in
    (
      λ h. let ((((a, b), c), d), e) = all.0 h in (a, b, c, d, e),
      λ (a, b, c, d, e). all.1 ((((a, b), c), d), e),
    )

is_seen_iff :
    (user : Option User) (m : Meeting)
    → ((not (is_restricted user) || is_visible_to user m) ≡ true) ↔ MaySee user m
is_seen_iff none m = (λ h. tt, λ h. refl)
is_seen_iff (some u) m = (λ h. ground arith, λ h. ground arith)

is_none_iff : (o : Option ℕ) → (is_none o ≡ true) ↔ (o ≡ none)
is_none_iff o = (λ h. ground arith, λ h. ground arith)

-- The rows stand by their date, the latest first.
abbrev pub IsDescending : List Meeting → Type 0
IsDescending [] = Unit
IsDescending (m ∷ rows) = All (λ a. a.meeting_date ≤ m.meeting_date) rows × IsDescending rows

IsDescending-take : (n : ℕ) (rows : List Meeting) → IsDescending rows → IsDescending (take n rows)
IsDescending-take zero rows h = tt
IsDescending-take (suc n) [] h = tt
IsDescending-take (suc n) (m ∷ rows) h =
    (All-take (λ a. a.meeting_date ≤ m.meeting_date) n rows h.0, IsDescending-take n rows h.1)

IsDescending-drop : (n : ℕ) (rows : List Meeting) → IsDescending rows → IsDescending (drop n rows)
IsDescending-drop zero rows h = h
IsDescending-drop (suc n) [] h = tt
IsDescending-drop (suc n) (m ∷ rows) h = IsDescending-drop n rows h.1

-- What the database promises of `ORDER BY meeting_date DESC`: all rows, the latest first.
abbrev pub IsOrderBy : (List Meeting → List Meeting) → Type 0
IsOrderBy order = (rows : List Meeting) → Permᴰ (order rows) rows × IsDescending (order rows)

-- The meeting is active, may be seen by the reader and is what the filter asks for.
abbrev pub IsShown : MeetingFilter → Option User → Meeting → Type 0
IsShown f user m = (m.deleted_at ≡ none) × MaySee user m × Passes f m

pub is_listed_iff :
    (f : MeetingFilter) (user : Option User) (m : Meeting)
    → (is_listed user f m ≡ true) ↔ IsShown f user m
unfolding is_listed
is_listed_iff f user m =
    let all = &&_iff (&&_iff (is_none_iff m.deleted_at) (is_seen_iff user m)) (passes_iff f m) in
    (λ h. let ((a, b), c) = all.0 h in (a, b, c), λ (a, b, c). all.1 ((a, b), c))

pub IsShown-dec : (f : MeetingFilter) (user : Option User) (m : Meeting) → Dec (IsShown f user m)
IsShown-dec f user m = elim (Bool-cases (is_listed user f m)) [
  | inl e ↦ yes ((is_listed_iff f user m).0 e)
  | inr e ↦ no (λ h. absurd (ground (arith, (is_listed_iff f user m).1 h)))
]

module _ (order : List Meeting → List Meeting) (db : Db) (f : MeetingFilter)
    (user : Option User) where
  -- A page has at most `page_size` meetings, the latest first, each of which is active, may be seen by
  -- the reader and is what the filter asks for; and the total is the number of all such meetings of
  -- the table, on whatever page. The order of the database is any that keeps the rows and puts later
  -- dates first.
  pub list_meetings-IsShown :
      (page page_size : ℕ) (rows : List Meeting) (total : ℕ)
      → IsOrderBy order
      → list_meetings order db f page page_size user ≡ ok (rows, total)
      → All (IsShown f user) rows
        × IsDescending rows
        × (length rows ≤ page_size)
        × (total ≡ count_where (λ m. is_true (IsShown-dec f user m)) db.meetings)
  unfolding list_meetings
  list_meetings-IsShown page page_size rows total ordered h =
      let listing = select (is_listed user f) db.meetings in
      let start = (page - 1) * page_size in
      let e : rows ≡ take page_size (drop start (order listing)) = ground arith in
      let t : total ≡ count_where (is_listed user f) db.meetings = ground arith in
      let all : All (IsShown f user) (order listing) =
        All-Permᴰ (IsShown f user) (ordered listing).0 (
          All-imp (λ m. is_listed user f m ≡ true) (IsShown f user)
            (λ m. (is_listed_iff f user m).0) listing
            (select-pass (is_listed user f) db.meetings)) in
      (
        rw e (
            All-take (IsShown f user) page_size (drop start (order listing))
              (All-drop (IsShown f user) start (order listing) all)),
        rw e (
            IsDescending-take page_size (drop start (order listing))
              (IsDescending-drop start (order listing) (ordered listing).1)),
        rw e (length-take_le page_size (drop start (order listing))),
        t
            ∙ count_where-same (is_listed user f) (λ m. is_true (IsShown-dec f user m)) db.meetings
                (λ m.
                  same_test (is_listed user f m) (IsShown-dec f user m) (is_listed_iff f user m)),
      )
