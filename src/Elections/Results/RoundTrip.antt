-- ===== src/Elections/Results/RoundTrip.antt =====
-- Results that are submitted by hand, read back.
use voter_api.Prelude.{
  ℕ, ◌≡◌, refl, inl, inr, Bool, true, Option, none, some, List, [], ◌∷◌, ◌++◌, map, arith, find,
  find-pass, find-write, ok, >>=-eq-ok, or_raise, guard, Option-cases, is_some, Bool-cases,
}
use voter_api.Elections.Db.{
  Db, Election, ElectionResult, election_at, result_of, election_not_found, manual_result_conflict,
  is_manual,
}
use voter_api.Elections.Service.{get_election_by_id}
use voter_api.Elections.Results.{
  ManualResultSubmitRequest, ElectionResultsResponse, submit_manual_results, get_election_results,
  submitted_response, submitted_db, upsert_result, set_result, new_result, store_candidate,
  county_summary, county_rows,
}

find-append_new :
    (i : ℕ) (rows : List ElectionResult) (new : ElectionResult)
    → find (result_of i) rows ≡ none
    → result_of i new ≡ true
    → find (result_of i) (rows ++ new ∷ []) ≡ some new
find-append_new i [] new h own = rw own refl
find-append_new i (r ∷ rows) new h own = elim (Bool-cases (result_of i r)) [
  | inl e ↦ cc (rw e at h)
  | inr e ↦ rw e (find-append_new i rows new (rw e at h) own)
]

-- the row of the election behind an upsert: the old one as written, or the new one
find-upsert_result :
    (i : ℕ) (f : ElectionResult → ElectionResult) (new : ElectionResult)
    (rows : List ElectionResult)
    → ((r : ElectionResult) → (f r).election_id ≡ r.election_id)
    → new.election_id ≡ i
    → find (result_of i) (upsert_result i f new rows)
      ≡ elim (find (result_of i) rows) as (λ _. Option ElectionResult) [
        | none ↦ some new
        | some r ↦ some (f r)
      ]
find-upsert_result i f new rows keeps own = elim (Option-cases (find (result_of i) rows)) [
  | inl e ↦ rw e (find-append_new i rows new e (ground arith))
  | inr (r, e) ↦ rw e (find-write (result_of i) f rows (λ a h. ground (arith, keeps a)) e)
]

module _ (db : Db) (now i : ℕ) (request : ManualResultSubmitRequest) where
  submit_manual_results-ok :
      (response : ElectionResultsResponse) (flag : Bool) (db' : Db)
      → submit_manual_results db now i request ≡ ok ((response, flag), db')
      → (e : Election) × (find (election_at i) db.elections ≡ some e)
        × (response ≡ submitted_response now request e)
        × (flag ≡ is_some (find (result_of i) db.results))
        × (db' ≡ submitted_db db now i request)
  unfolding submit_manual_results get_election_by_id
  submit_manual_results-ok response flag db' h =
      let (e, found, h1) =
        >>=-eq-ok (or_raise (find (election_at i) db.elections) election_not_found) _ h in
      let (_, by_hand, h2) = >>=-eq-ok (guard (is_manual e.source) manual_result_conflict) _ h1 in
      (e, ground arith, ground arith, ground arith, ground arith)

  read_back :
      (e : Election)
      → find (election_at i) db.elections ≡ some e
      → get_election_results (submitted_db db now i request) i
        ≡ some (record (submitted_response now request e) {
          county_results = map county_summary (county_rows i db.county_results);
        })
  unfolding get_election_results get_election_by_id
  read_back e there =
      let id : e.id ≡ i = ground (arith, find-pass (election_at i) db.elections there) in
      let stamp = λ (r : Election). record r { last_refreshed_at = some now } in
      let options = map store_candidate request.candidates in
      let read_e = find-write (election_at i) stamp db.elections (λ a l. l) there in
      let read_r =
        find-upsert_result i
          (set_result request.precincts_participating request.precincts_reporting options now)
          (new_result i request.precincts_participating request.precincts_reporting options none
            now)
          db.results (λ r. refl) refl in
      elim (Option-cases (find (result_of i) db.results)) [
        | inl none_there ↦ rw (read_e, id, read_r, none_there) refl
        | inr (r, is_there) ↦ rw (read_e, id, read_r, is_there) refl
      ]

  -- The response to a submission of results is what `get_election_results` then returns for the
  -- election, with the results of counties that were there before in place of none; the flag tells
  -- whether results of the election were there.
  pub submit_manual_results-get :
      (response : ElectionResultsResponse) (flag : Bool) (db' : Db)
      → submit_manual_results db now i request ≡ ok ((response, flag), db')
      → (get_election_results db' i
          ≡ some (record response {
            county_results = map county_summary (county_rows i db.county_results);
          }))
        × (flag ≡ is_some (find (result_of i) db.results))
  submit_manual_results-get response flag db' h =
      let (e, there, answer, was, after) = submit_manual_results-ok response flag db' h in
      rw (answer, after) (read_back e there, was)
