-- ===== src/Elections/Steps/Reimport.antt =====
-- `import_feed` again: nothing is left to create.
use voter_api.Prelude.{
  ℕ, suc, ◌≡◌, refl, ◌∙◌, ap, ◌⊎◌, inl, inr, true, false, Option, none, some, List, [], ◌∷◌, ◌+◌,
  arith, exists_where, All, All-imp, Result, Result-cases, ok, err, Bool-cases, length, ◌==◌,
  >>=-eq-ok, or_raise,
}
use mathlib.Core.Path.{subst}
use voter_api.Text.{Text}
use voter_api.Elections.Db.{
  Db, ElectionStatus, Error, validation_error, invalid_date, named_on, fed_by,
}
use voter_api.Elections.Ingest.{SosFeed, BallotItem}
use voter_api.Elections.Refresh.{Fetch}
use voter_api.Elections.Feed.{
  FeedImportRequest, FeedImportResponse, Turn, report, import_item, import_items, import_feed,
  import_fetched, race_request, race_name, is_valid_race, resolve_feed_metadata, type_or_detected,
  status_on,
}
use voter_api.Elections.Unique.{HasUniqueRows}
use voter_api.Elections.Unique.Create.{create_election-known}
use voter_api.Elections.Steps.Unique.{import_item-HasUniqueRows, import_items-HasUniqueRows}
use voter_api.Elections.Steps.Known.{
  KeepsElections, KeepsElections-refl, KeepsElections-trans, is_known, is_known-KeepsElections,
  import_item-IsTaken,
}

-- A loop that returns has stopped at no turn, and counts this one.
report-ok :
    (turn : Turn) (db : Db) (rest : Result Error FeedImportResponse × Db) (r : FeedImportResponse)
    (last : Db)
    → report turn db rest ≡ (ok r, last)
    → ((e : Error) → turn ≡ Turn.stopped e → ⊥)
      × (s : FeedImportResponse) × (rest ≡ (ok s, last))
      × (r.elections_skipped + length r.elections ≡ suc (s.elections_skipped + length s.elections))
report-ok (Turn.stopped e) db rest r last h = cc
report-ok (Turn.created e) db (err raised, end) r last h = cc
report-ok (Turn.created e) db (ok s, end) r last h =
    (λ raised stopped. cc, s, ground arith, ground arith)
report-ok Turn.skipped db (err raised, end) r last h = cc
report-ok Turn.skipped db (ok s, end) r last h =
    (λ raised stopped. cc, s, ground arith, ground arith)

module _ (fetch : Fetch) (feed : SosFeed) (request : FeedImportRequest) (date : ℕ)
    (election_type : Text) (status : ElectionStatus) (draw clock : ℕ → ℕ) where
  -- what the second import finds
  abbrev pub IsDone : Db → BallotItem → Type 0
  IsDone db item =
      (is_valid_race feed item ≡ true)
      × (is_known request.data_source_url feed date item db.elections ≡ true)

  -- only a race that the schema refuses stops before it is looked at
  import_item-valid :
      (k : ℕ) (item : BallotItem) (db : Db)
      → ((e : Error)
          → (import_item fetch feed request date election_type status draw clock k item db).0
            ≡ Turn.stopped e
          → ⊥)
      → is_valid_race feed item ≡ true
  unfolding import_item
  import_item-valid k item db not_stopped = elim (Bool-cases (is_valid_race feed item)) [
    | inl h ↦ h
    | inr h ↦ absurd (not_stopped validation_error (rw h refl))
  ]

  import_items-IsDone :
      (items : List BallotItem) (k : ℕ) (db : Db) (r : FeedImportResponse) (last : Db)
      → HasUniqueRows db
      → import_items fetch feed request date election_type status draw clock k items db
        ≡ (ok r, last)
      → KeepsElections db.elections last.elections
        × All (IsDone last) items
        × (r.elections_skipped + length r.elections ≡ length items)
  unfolding import_items
  import_items-IsDone [] k db r last u h =
      let same : db ≡ last = ground arith in
      (rw same (KeepsElections-refl last.elections), tt, ground arith)
  import_items-IsDone (item ∷ items) k db r last u h =
      let turn = import_item fetch feed request date election_type status draw clock k item db in
      let (not_stopped, s, rest, count) =
        report-ok turn.0 turn.1
          (import_items fetch feed request date election_type status draw clock (suc k) items
            turn.1)
          r last h in
      let taken =
        import_item-IsTaken fetch feed request date election_type status draw clock k item db u in
      let v =
        import_item-HasUniqueRows fetch feed request date election_type status draw clock k item db
          u in
      let (kept, done, counted) = import_items-IsDone items (suc k) turn.1 s last v rest in
      (
        KeepsElections-trans db.elections turn.1.elections last.elections taken.keeps kept,
        (
          (
            import_item-valid k item db not_stopped,
            is_known-KeepsElections request.data_source_url feed date item turn.1.elections
                last.elections kept (taken.now_known not_stopped),
          ),
          done,
        ),
        omega arith,
      )

  -- a race that is known is skipped
  import_items-known :
      (items : List BallotItem) (k : ℕ) (db : Db)
      → HasUniqueRows db
      → All (IsDone db) items
      → import_items fetch feed request date election_type status draw clock k items db
        ≡ (ok (record { elections_skipped = length items; elections = [] }), db)
  unfolding import_items import_item
  import_items-known [] k db u h = refl
  import_items-known (item ∷ items) k db u ((valid, known), rest) =
      let race = race_request feed request date election_type status item in
      let here : (exists_where (fed_by request.data_source_url item.id) db.elections ≡ true)
          ⊎ (exists_where (named_on (race_name feed item) date) db.elections ≡ true) =
        ground arith in
      let dup = create_election-known db (draw k) race u here in
      rw (valid, dup, import_items-known items (suc k) db u rest) (ground arith)

or_raise-ok : (o : Option ℕ) (e : Error) (a : ℕ) → or_raise o e ≡ ok a → o ≡ some a
or_raise-ok none e a h = cc
or_raise-ok (some b) e a h = cc

resolve_feed_metadata-ok :
    (today : ℕ) (feed : SosFeed) (t : Option Text) (date : ℕ) (kind : Text)
    (status : ElectionStatus)
    → resolve_feed_metadata today feed t ≡ ok (date, kind, status)
    → feed.election_date ≡ some date
unfolding resolve_feed_metadata
resolve_feed_metadata-ok today feed t date kind status h =
    let (d, dated, rest) = >>=-eq-ok (or_raise feed.election_date invalid_date) _ h in
    let same = or_raise-ok feed.election_date invalid_date d dated in same ∙ ap some (ground arith)

resolve_feed_metadata-dated :
    (today : ℕ) (feed : SosFeed) (t : Option Text) (date : ℕ)
    → feed.election_date ≡ some date
    → resolve_feed_metadata today feed t ≡ ok (date, type_or_detected feed t, status_on today date)
unfolding resolve_feed_metadata
resolve_feed_metadata-dated today feed t date h = rw h refl

module _ (fetch : Fetch) (db : Db) (today : ℕ) (draw clock : ℕ → ℕ) (request : FeedImportRequest)
    (feed : SosFeed) where
  import_feed-ok :
      (r : FeedImportResponse) (db' : Db)
      → fetch request.data_source_url ≡ ok feed
      → import_feed fetch db today draw clock request ≡ (ok r, db')
      → ((length feed.ballot_items == 0) ≡ false)
        × (date : ℕ) × (kind : Text) × (status : ElectionStatus) × (feed.election_date ≡ some date)
        × (import_items fetch feed request date kind status draw clock 0 feed.ballot_items db
            ≡ (ok r, db'))
  unfolding import_feed
  import_feed-ok r db' fetched h = elim (Bool-cases (length feed.ballot_items == 0)) [
    | inl e ↦ let left = rw (fetched, import_fetched, e) at h in cc
    | inr e ↦ elim (Result-cases (resolve_feed_metadata today feed request.election_type)) [
      | inr (raised, m) ↦ let left = rw (fetched, import_fetched, e, m) at h in cc
      | inl ((date, kind, status), m) ↦ (
        e,
        date,
        kind,
        status,
        resolve_feed_metadata-ok today feed request.election_type date kind status m,
        rw (fetched, import_fetched, e, m) at h,
      )
    ]
  ]

-- From tables in which the unique indexes hold, a feed import that returns has created or skipped
-- every ballot item of the feed once. If the same feed is imported again from the same address, at
-- any time and with any other options, every item is skipped and the tables stay as they are.
pub import_feed-again :
    (fetch fetch' : Fetch) (db db' : Db) (today today' : ℕ) (draw draw' clock clock' : ℕ → ℕ)
    (request request' : FeedImportRequest) (feed : SosFeed) (r : FeedImportResponse)
    → HasUniqueRows db
    → fetch request.data_source_url ≡ ok feed
    → fetch' request'.data_source_url ≡ ok feed
    → request'.data_source_url ≡ request.data_source_url
    → import_feed fetch db today draw clock request ≡ (ok r, db')
    → (r.elections_skipped + length r.elections ≡ length feed.ballot_items)
      × (import_feed fetch' db' today' draw' clock' request'
          ≡ (ok (record { elections_skipped = length feed.ballot_items; elections = [] }), db'))
unfolding import_feed
import_feed-again fetch fetch' db db' today today' draw draw' clock clock' request request' feed r u
      fetched fetched' same h =
    let (some_items, date, kind, status, dated, loop) =
      import_feed-ok fetch db today draw clock request feed r db' fetched h in
    let (kept, done, counted) =
      import_items-IsDone fetch feed request date kind status draw clock feed.ballot_items 0 db r
        db' u loop in
    let after =
      import_items-HasUniqueRows fetch feed request date kind status draw clock feed.ballot_items 0
        db u in
    let v : HasUniqueRows db' = subst HasUniqueRows (ap (λ p. p.1) loop) after in
    let kind' = type_or_detected feed request'.election_type in
    let status' = status_on today' date in
    (
      counted,
      rw
          (
            fetched',
            some_items,
            resolve_feed_metadata-dated today' feed request'.election_type date dated,
          )
          (import_items-known fetch' feed request' date kind' status' draw' clock' feed.ballot_items
            0 db' v
            (All-imp (IsDone fetch feed request date kind status draw clock db')
              (IsDone fetch' feed request' date kind' status' draw' clock' db')
              (λ item d. (d.0, rw same (d.1))) feed.ballot_items done)),
    )
