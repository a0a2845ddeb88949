-- ===== src/Elections/Steps/Known.antt =====
-- A feed that is imported again: each of its races is known.
use voter_api.Prelude.{
  ℕ, ◌≡◌, refl, ◌∙◌, ap, ◌⊎◌, inl, inr, Bool, true, false, ◌||◌, some, List, [], ◌∷◌, arith,
  exists_where, exists_where-append, exists_where-append_right, exists_where-write_imp,
  Result-cases, ok, err, Bool-cases,
}
use voter_api.Text.{Text}
use voter_api.Text.Equal.{same_text_refl}
use voter_api.Elections.Db.{
  Db, Election, ElectionStatus, Error, duplicate_election, validation_error, named_on, fed_by,
  election_at,
}
use voter_api.Elections.Ingest.{SosFeed, BallotItem, IngestionResult, ingest_election_results}
use voter_api.Elections.Service.{ElectionCreateRequest, create_election}
use voter_api.Elections.Results.{refreshed}
use voter_api.Elections.Refresh.{Fetch, persist_ingestion_result, refresh_single_election}
use voter_api.Elections.Feed.{
  FeedImportRequest, Turn, after_create, first_refresh, import_item, race_request, race_name,
  is_valid_race,
}
use voter_api.Elections.Unique.{HasUniqueRows}
use voter_api.Elections.Unique.Handlers.{create_election-ok}
use voter_api.Elections.Unique.Create.{create_election-duplicate}
use voter_api.Elections.Steps.Unique.{refresh_single_election-ok}

-- An election that a test on a feed or a name finds is still found.
pub record KeepsElections (before after : List Election) : Type 0 where
  pub fed :
      (u t : Text)
      → exists_where (fed_by u t) before ≡ true
      → exists_where (fed_by u t) after ≡ true
  pub named :
      (n : Text) (d : ℕ)
      → exists_where (named_on n d) before ≡ true
      → exists_where (named_on n d) after ≡ true

pub KeepsElections-refl : (rows : List Election) → KeepsElections rows rows
KeepsElections-refl rows = record { fed = λ u t h. h; named = λ n d h. h }

pub KeepsElections-trans :
    (a b c : List Election) → KeepsElections a b → KeepsElections b c → KeepsElections a c
KeepsElections-trans a b c h k = record {
  fed = λ u t l. k.fed u t (h.fed u t l);
  named = λ n d l. k.named n d (h.named n d l);
}

refreshed-KeepsElections :
    (now i : ℕ) (rows : List Election) → KeepsElections rows (refreshed now i rows)
refreshed-KeepsElections now i rows = record {
  fed = λ u t. exists_where-write_imp (fed_by u t) (election_at i) _ rows (λ e is_e h. h);
  named = λ n d. exists_where-write_imp (named_on n d) (election_at i) _ rows (λ e is_e h. h);
}

persist_ingestion_result-elections :
    (db : Db) (now i : ℕ) (ingestion : IngestionResult)
    → (persist_ingestion_result db now i ingestion).elections ≡ db.elections
unfolding persist_ingestion_result
persist_ingestion_result-elections db now i ingestion = refl

stored-KeepsElections :
    (db : Db) (now i j : ℕ) (ingestion : IngestionResult)
    → KeepsElections db.elections
        (refreshed now i (persist_ingestion_result db now j ingestion).elections)
stored-KeepsElections db now i j ingestion =
    rw (persist_ingestion_result-elections db now j ingestion)
      (refreshed-KeepsElections now i db.elections)

first_refresh-KeepsElections :
    (fetch : Fetch) (feed : SosFeed) (auto : Bool) (status : ElectionStatus) (now : ℕ)
    (item : BallotItem) (e : Election) (db : Db)
    → KeepsElections db.elections (first_refresh fetch feed auto status now item e db).1.elections
unfolding first_refresh
first_refresh-KeepsElections fetch feed false status now item e db =
    KeepsElections-refl db.elections
first_refresh-KeepsElections fetch feed true ElectionStatus.active now item e db =
    elim (Result-cases (refresh_single_election fetch db now e.id)) [
      | inr (raised, h) ↦ rw h (KeepsElections-refl db.elections)
      | inl ((r, db'), h) ↦
          let (j, ingestion, after) = refresh_single_election-ok fetch db now e.id r db' h in
          rw (h, after) (stored-KeepsElections db now e.id j ingestion)
    ]
first_refresh-KeepsElections fetch feed true ElectionStatus.finalized now item e db =
    elim (Result-cases (ingest_election_results feed (some item.id))) [
      | inr (raised, h) ↦ rw h (KeepsElections-refl db.elections)
      | inl (ingestion, h) ↦ rw h (stored-KeepsElections db now e.id e.id ingestion)
    ]

-- An election of the feed and ballot item is there, or one of the name and date that is not deleted.
abbrev pub is_known : Text → SosFeed → ℕ → BallotItem → List Election → Bool
is_known url feed date item rows =
    exists_where (fed_by url item.id) rows
    || exists_where (named_on (race_name feed item) date) rows

pub is_known-KeepsElections :
    (url : Text) (feed : SosFeed) (date : ℕ) (item : BallotItem) (a b : List Election)
    → KeepsElections a b
    → is_known url feed date item a ≡ true
    → is_known url feed date item b ≡ true
is_known-KeepsElections url feed date item a b k h =
    ground (arith, k.fed url item.id, k.named (race_name feed item) date)

module _ (fetch : Fetch) (feed : SosFeed) (request : FeedImportRequest) (date : ℕ)
    (election_type : Text) (status : ElectionStatus) (draw clock : ℕ → ℕ) where
  abbrev pub race : BallotItem → ElectionCreateRequest
  race item = race_request feed request date election_type status item

  abbrev pub IsKnown : BallotItem → Db → Type 0
  IsKnown item db = is_known request.data_source_url feed date item db.elections ≡ true

  -- a turn that does not stop leaves the race known, and all others that were
  pub record IsTaken (item : BallotItem) (db : Db) (turn : Turn) (db' : Db) : Type 0 where
    pub keeps : KeepsElections db.elections db'.elections
    pub now_known : ((e : Error) → turn ≡ Turn.stopped e → ⊥) → IsKnown item db'

  created-IsTaken :
      (k : ℕ) (item : BallotItem) (db : Db) (e : Election) (db' : Db)
      → create_election db (draw k) (race item) ≡ ok (e, db')
      → (turn : Turn) (db'' : Db) → KeepsElections db'.elections db''.elections
      → IsTaken item db turn db''
  created-IsTaken k item db e db' made turn db'' later =
      let (_, url, id, _, _, after) = create_election-ok db (draw k) (race item) e db' made in
      let own : fed_by request.data_source_url item.id e ≡ true =
        rw (url, id, same_text_refl request.data_source_url, same_text_refl item.id) refl in
      let here : exists_where (fed_by request.data_source_url item.id) (e ∷ []) ≡ true =
        rw own refl in
      let there =
        exists_where-append_right (fed_by request.data_source_url item.id) db.elections (e ∷ [])
          here in
      let grown : KeepsElections db.elections db'.elections = rw after (record {
        fed = λ u t. exists_where-append (fed_by u t) db.elections (e ∷ []);
        named = λ n d. exists_where-append (named_on n d) db.elections (e ∷ []);
      }) in
      record {
        keeps = KeepsElections-trans db.elections db'.elections db''.elections grown later;
        now_known = λ _.
            is_known-KeepsElections request.data_source_url feed date item db'.elections
              db''.elections later (rw after (rw there refl));
      }

  raised-cases :
      (k : ℕ) (item : BallotItem) (db : Db) (raised : Error)
      → ((raised ≡ duplicate_election)
          × (after_create fetch feed request date election_type status draw clock k item db
                (err raised)
              ≡ (Turn.skipped, db)))
        ⊎ (after_create fetch feed request date election_type status draw clock k item db
              (err raised)
            ≡ (Turn.stopped raised, db))
  raised-cases k item db duplicate_election = inl (refl, refl)
  raised-cases k item db _ = inr refl

  pub import_item-IsTaken :
      (k : ℕ) (item : BallotItem) (db : Db)
      → HasUniqueRows db
      → let r = import_item fetch feed request date election_type status draw clock k item db in
        IsTaken item db r.0 r.1
  unfolding import_item
  import_item-IsTaken k item db u = elim (Bool-cases (is_valid_race feed item)) [
    | inr h ↦ rw h (record {
      keeps = KeepsElections-refl db.elections;
      now_known = λ not_stopped. absurd (not_stopped validation_error refl);
    })
    | inl h ↦ rw h (elim (Result-cases (create_election db (draw k) (race item))) [
      | inl ((e, db'), made) ↦ rw made (
          created-IsTaken k item db e db' made _ _ (
            first_refresh-KeepsElections fetch feed request.auto_refresh status (clock k) item e
              db'))
      | inr (raised, made) ↦ rw made (elim (raised-cases k item db raised) [
        | inl (dup, done) ↦ rw done (record {
          keeps = KeepsElections-refl db.elections;
          now_known = λ _.
              let there = create_election-duplicate db (draw k) (race item) u (made ∙ ap err dup) in
              ground arith;
        })
        | inr done ↦ rw done (record {
          keeps = KeepsElections-refl db.elections;
          now_known = λ not_stopped. absurd (not_stopped raised refl);
        })
      ])
    ])
  ]
