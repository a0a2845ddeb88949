-- ===== src/Elections/Unique/Stores.antt =====
-- The writes of results keep the unique indexes.
use voter_api.Prelude.{
  ℕ, ◌≡◌, refl, inl, inr, List, [], ◌∷◌, arith, find, IsKey, IsKey-append, IsKey-write, Bool-cases,
  count_where-none, committed, Option-cases, map,
}
use voter_api.Text.{Text}
use voter_api.Text.Equal.{same_text→≡}
use voter_api.Elections.Db.{
  Db, Election, ElectionResult, ElectionCountyResult, election_at, result_of, county_result,
  is_manual,
}
use voter_api.Elections.Ingest.{CountyResultData, IngestionResult}
use voter_api.Elections.Service.{get_election_by_id}
use voter_api.Elections.Results.{
  ManualResultSubmitRequest, upsert_result, refreshed, set_result, store_candidate,
  submit_manual_results,
}
use voter_api.Elections.Refresh.{
  new_county, set_county, upsert_county, upsert_counties, persist_ingestion_result,
}
use voter_api.Elections.Unique.{KeepsRows, UniqueElections, UniqueElections-keep}

module _ (i : ℕ) (f : ElectionResult → ElectionResult) (new : ElectionResult)
    (keeps : (r : ElectionResult) → (f r).election_id ≡ r.election_id)
    (own : new.election_id ≡ i) where
  upsert_result-IsKey :
      (rows : List ElectionResult) (j : ℕ)
      → IsKey (result_of j) rows
      → IsKey (result_of j) (upsert_result i f new rows)
  upsert_result-IsKey rows j u = elim (Option-cases (find (result_of i) rows)) [
    | inl e ↦ rw e (
        IsKey-append (result_of j) rows new
          (λ h. count_where-none (result_of i) (result_of j) rows (λ a l. ground arith) e) u)
    | inr (r, e) ↦ rw e (
        IsKey-write (result_of j) (result_of i) f rows (λ a is_a now. inl (ground (arith, keeps a)))
          u)
  ]

upsert_county-IsKey :
    (i : ℕ) (county : CountyResultData) (rows : List ElectionCountyResult) (j : ℕ) (name : Text)
    → IsKey (county_result j name) rows
    → IsKey (county_result j name) (upsert_county i county rows)
unfolding upsert_county
upsert_county-IsKey i county rows j name u =
    elim (Option-cases (find (county_result i county.county_name) rows)) [
      | inl e ↦ rw e (
          IsKey-append (county_result j name) rows (new_county i county)
            (λ h.
              let same = same_text→≡ county.county_name name (ground arith) in
              count_where-none (county_result i county.county_name) (county_result j name) rows
                (λ a l. rw same (ground arith)) e)
            u)
      | inr (r, e) ↦ rw e (
          IsKey-write (county_result j name) (county_result i county.county_name)
            (set_county county) rows (λ a is_a now. inl (ground arith)) u)
    ]

upsert_counties-IsKey :
    (i : ℕ) (counties : List CountyResultData) (rows : List ElectionCountyResult) (j : ℕ)
    (name : Text)
    → IsKey (county_result j name) rows
    → IsKey (county_result j name) (upsert_counties i counties rows)
unfolding upsert_counties
upsert_counties-IsKey i [] rows j name u = u
upsert_counties-IsKey i (c ∷ cs) rows j name u =
    upsert_counties-IsKey i cs (upsert_county i c rows) j name
      (upsert_county-IsKey i c rows j name u)

refreshed-UniqueElections :
    (now i : ℕ) (rows : List Election)
    → UniqueElections rows
    → UniqueElections (refreshed now i rows)
refreshed-UniqueElections now i rows u =
    UniqueElections-keep (election_at i) _ rows (λ e. refl) (λ n d e h. h) (λ url item e h. h) u

pub submit_manual_results-HasUniqueRows :
    (db : Db) (now i : ℕ) (request : ManualResultSubmitRequest)
    → KeepsRows db (committed db (submit_manual_results db now i request))
unfolding submit_manual_results get_election_by_id
submit_manual_results-HasUniqueRows db now i request u =
    elim (Option-cases (find (election_at i) db.elections)) [
      | inl e ↦ rw e u
      | inr (old, e) ↦ rw e (elim (Bool-cases (is_manual old.source)) [
        | inr g ↦ rw g u
        | inl g ↦ rw g (record {
          elections = refreshed-UniqueElections now i db.elections u.elections;
          results = λ j.
              upsert_result-IsKey i
                (set_result request.precincts_participating request.precincts_reporting
                  (map store_candidate request.candidates) now)
                _ (λ r. refl) refl db.results j (u.results j);
          counties = u.counties;
        })
      ])
    ]

pub persist_ingestion_result-HasUniqueRows :
    (db : Db) (now i : ℕ) (ingestion : IngestionResult)
    → KeepsRows db (persist_ingestion_result db now i ingestion)
unfolding persist_ingestion_result
persist_ingestion_result-HasUniqueRows db now i ingestion u = record {
  elections = u.elections;
  results = λ j. upsert_result-IsKey i _ _ (λ r. refl) refl db.results j (u.results j);
  counties = λ j name.
      upsert_counties-IsKey i ingestion.counties db.county_results j name (u.counties j name);
}

pub refreshed-HasUniqueRows :
    (db : Db) (now i : ℕ) → KeepsRows db (record db { elections = refreshed now i db.elections })
refreshed-HasUniqueRows db now i u = record {
  elections = refreshed-UniqueElections now i db.elections u.elections;
  results = u.results;
  counties = u.counties;
}
