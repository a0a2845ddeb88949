-- ===== src/Elections/Service.antt =====
-- services/election_service.py: the records of elections. A handler is a function from the tables to
-- what it returns and commits, or to the exception; `fresh` is the UUID of a new row.
use voter_api.Prelude.{
  ℕ, Bool, true, false, not, ◌&&◌, ◌==◌, Option, none, some, List, [], ◌∷◌, ◌++◌, leb, length,
  is_none, is_some, if◌then◌else◌, find, select, write, exists_where, Result, ok, err, ◌>>=◌, ◌>>◌,
  guard,
}
use voter_api.Text.{Text}
use voter_api.Elections.Db.{
  Db, Election, ElectionSource, ElectionStatus, ElectionInfo, Boundary, Error, election_at,
  named_on, fed_by, boundary_at, one_or_none, is_manual, duplicate_election, boundary_required,
  no_such_boundary, not_manual, integrity_error, data_error,
}
use voter_api.Elections.Link.{link_election_to_boundary}

-- a request that the schema has let through
pub record ElectionCreateRequest : Type 0 where
  pub name : Text
  pub election_date : ℕ
  pub election_type : Text
  pub district : Text
  pub source : ElectionSource
  pub data_source_url : Option Text
  pub boundary_id : Option ℕ
  pub refresh_interval_seconds : ℕ
  pub ballot_item_id : Option Text
  pub status : ElectionStatus

abbrev no_info : ElectionInfo
no_info = record {
  description = none;
  purpose = none;
  eligibility_description = none;
  registration_deadline = none;
  early_voting_start = none;
  early_voting_end = none;
  absentee_request_deadline = none;
  qualifying_start = none;
  qualifying_end = none;
}

abbrev pub new_election : ℕ → ElectionCreateRequest → Election
new_election fresh request = record {
  id = fresh;
  name = request.name;
  election_date = request.election_date;
  election_type = request.election_type;
  district = request.district;
  data_source_url = request.data_source_url;
  source = request.source;
  ballot_item_id = request.ballot_item_id;
  status = request.status;
  last_refreshed_at = none;
  refresh_interval_seconds = request.refresh_interval_seconds;
  info = no_info;
  boundary_id = none;
  district_type = none;
  district_identifier = none;
  district_party = none;
  eligible_county = none;
  eligible_municipality = none;
  election_event_id = none;
  deleted_at = none;
}

-- the primary key
abbrev pub has_id : ℕ → Election → Bool
has_id i e = e.id == i

-- `String(n)`: a value in the column, if there is one, has at most n characters.
abbrev pub is_within : ℕ → Option Text → Bool
is_within n none = true
is_within n (some t) = leb (length t) n

-- The row fits its columns: the texts their widths and the interval an INTEGER. PostgreSQL refuses
-- any other before it looks at a constraint.
unfoldable pub fits : Election → Bool
fits e =
    leb e.refresh_interval_seconds 2147483647
    && leb (length e.name) 500
    && leb (length e.election_type) 50
    && leb (length e.district) 200
    && is_within 50 e.ballot_item_id
    && is_within 50 e.district_type
    && is_within 50 e.district_identifier
    && is_within 10 e.district_party
    && is_within 100 e.eligible_county
    && is_within 100 e.eligible_municipality

-- The row has no key of another row in the two unique indexes, and passes
-- `ck_election_refresh_interval`.
abbrev pub feed_clash : Option Text → Option Text → List Election → Bool
feed_clash (some url) (some item) rows = exists_where (fed_by url item) rows
feed_clash _ _ rows = false

unfoldable pub may_store : Election → List Election → Bool
may_store e others =
    leb 60 e.refresh_interval_seconds
    && not (is_none e.deleted_at && exists_where (named_on e.name e.election_date) others)
    && not (feed_clash e.data_source_url e.ballot_item_id others)

-- an election of this feed and ballot item, if the request names both
unfoldable pub check_feed : List Election → Option Text → Option Text → Result Error (Unit {0})
check_feed rows (some url) (some item) = do
  existing ← one_or_none (fed_by url item) rows
  guard (is_none existing) duplicate_election
check_feed rows _ _ = ok tt

-- the boundary of a manual election, or the one that the district names
unfoldable pub place_election : List Boundary → Option ℕ → Election → Result Error Election
place_election boundaries boundary_id e = elim (is_manual e.source) [
  | true ↦ elim boundary_id [
    | none ↦ err boundary_required
    | some i ↦
        if is_some (find (boundary_at i) boundaries)
        then ok (record e { boundary_id = some i })
        else err no_such_boundary
  ]
  | false ↦ ok (link_election_to_boundary boundaries e).0
]

unfoldable pub create_election : Db → ℕ → ElectionCreateRequest → Result Error (Election × Db)
create_election db fresh request = do
  check_feed db.elections request.data_source_url request.ballot_item_id
  existing ← one_or_none (named_on request.name request.election_date) db.elections
  guard (is_none existing) duplicate_election
  e ← place_election db.boundaries request.boundary_id (new_election fresh request)
  guard (fits e) data_error
  guard (not (exists_where (has_id fresh) db.elections)) integrity_error
  guard (may_store e db.elections) integrity_error
  ok (e, record db { elections = db.elections ++ e ∷ [] })

unfoldable pub get_election_by_id : Db → ℕ → Option Election
get_election_by_id db i = find (election_at i) db.elections

-- One field of a partial update, of which each stands at most once; a field may be set to null.
pub data ElectionField : Type 0 where
  name : Option Text → ElectionField
  data_source_url ballot_item_id : Option Text → ElectionField
  status : Option ElectionStatus → ElectionField
  refresh_interval_seconds : Option ℕ → ElectionField
  description purpose eligibility_description : Option Text → ElectionField
  registration_deadline early_voting_start early_voting_end : Option ℕ → ElectionField
  absentee_request_deadline qualifying_start qualifying_end : Option ℕ → ElectionField

-- `setattr`; a null in a column that is NOT NULL is refused at the commit
unfoldable pub set_field : Election → ElectionField → Result Error Election
set_field e (ElectionField.name none) = err integrity_error
set_field e (ElectionField.name (some v)) = ok (record e { name = v })
set_field e (ElectionField.data_source_url v) = ok (record e { data_source_url = v })
set_field e (ElectionField.ballot_item_id v) = ok (record e { ballot_item_id = v })
set_field e (ElectionField.status none) = err integrity_error
set_field e (ElectionField.status (some v)) = ok (record e { status = v })
set_field e (ElectionField.refresh_interval_seconds none) = err integrity_error
set_field e (ElectionField.refresh_interval_seconds (some v)) =
    ok (record e { refresh_interval_seconds = v })
set_field e (ElectionField.description v) =
    ok (record e { info = record (e.info) { description = v } })
set_field e (ElectionField.purpose v) = ok (record e { info = record (e.info) { purpose = v } })
set_field e (ElectionField.eligibility_description v) =
    ok (record e { info = record (e.info) { eligibility_description = v } })
set_field e (ElectionField.registration_deadline v) =
    ok (record e { info = record (e.info) { registration_deadline = v } })
set_field e (ElectionField.early_voting_start v) =
    ok (record e { info = record (e.info) { early_voting_start = v } })
set_field e (ElectionField.early_voting_end v) =
    ok (record e { info = record (e.info) { early_voting_end = v } })
set_field e (ElectionField.absentee_request_deadline v) =
    ok (record e { info = record (e.info) { absentee_request_deadline = v } })
set_field e (ElectionField.qualifying_start v) =
    ok (record e { info = record (e.info) { qualifying_start = v } })
set_field e (ElectionField.qualifying_end v) =
    ok (record e { info = record (e.info) { qualifying_end = v } })

unfoldable pub set_fields : Election → List ElectionField → Result Error Election
set_fields e [] = ok e
set_fields e (f ∷ fs) = do e' ← set_field e f; set_fields e' fs

-- the other rows
abbrev pub others : ℕ → List Election → List Election
others i rows = select (λ e. not (has_id i e)) rows

-- the update of the row that was found
abbrev pub update_row :
    Db → ℕ → List ElectionField → Option Election → Result Error (Option Election × Db)
update_row db i fields none = ok (none, db)
update_row db i fields (some e) = do
  e' ← set_fields e fields
  guard (fits e') data_error
  guard (may_store e' (others i db.elections)) integrity_error
  ok (some e', record db { elections = write (election_at i) (λ _. e') db.elections })

unfoldable pub update_election : Db → ℕ → List ElectionField → Result Error (Option Election × Db)
update_election db i fields = update_row db i fields (get_election_by_id db i)

abbrev pub delete_row : Db → ℕ → ℕ → Option Election → Bool × Db
delete_row db now i none = (false, db)
delete_row db now i (some e) = (
  true,
  record db {
    elections = write (election_at i) (λ r. record r { deleted_at = some now }) db.elections;
  },
)

unfoldable pub soft_delete_election : Db → ℕ → ℕ → Bool × Db
soft_delete_election db now i = delete_row db now i (get_election_by_id db i)

-- the feed and the ballot item of a request to link
abbrev pub linked_to : Text → Option Text → Election → Election
linked_to url none e = record e { source = ElectionSource.linked; data_source_url = some url }
linked_to url (some item) e = record e {
  source = ElectionSource.linked;
  data_source_url = some url;
  ballot_item_id = some item;
}

abbrev pub link_row :
    Db → ℕ → Text → Option Text → Option Election → Result Error (Option Election × Db)
link_row db i url item none = ok (none, db)
link_row db i url item (some e) = do
  guard (is_manual e.source) not_manual
  check_feed (others i db.elections) (some url) item
  let e' = linked_to url item e
  guard (fits e') data_error
  guard (may_store e' (others i db.elections)) integrity_error
  ok (some e', record db { elections = write (election_at i) (λ _. e') db.elections })

unfoldable pub link_election : Db → ℕ → Text → Option Text → Result Error (Option Election × Db)
link_election db i url item = link_row db i url item (get_election_by_id db i)
