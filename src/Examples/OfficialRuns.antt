-- ===== src/Examples/OfficialRuns.antt =====
-- The theorems on elected officials at concrete tables.
use voter_api.Prelude.{
  ℕ, String, ◌≡◌, refl, true, none, some, [], ◌∷◌, ◌++◌, arith, count_where, exists_where,
  IsKey-append, count_where-none, All, Extends, ok,
}
use voter_api.Officials.Db.{
  Db, OfficialStatus, Details, ElectedOfficial, ElectedOfficialSource, OfficialRecord, has_key,
}
use voter_api.Officials.Service.{
  approve_official, approve, promote, upsert_record, upsert_source_records, find_matching_official,
  new_source, link, is_unlinked, official_of, link_source, link_sources,
  auto_create_officials_from_sources,
}
use voter_api.Officials.Sources.{UniqueSources, is_stored, same_key, upsert_source_records-stored}
use voter_api.Officials.Links.{IsAuto, Relinks, auto_create_officials_from_sources-IsLinked}

abbrev no_details : Details
no_details = record {
  first_name = none;
  last_name = none;
  party = none;
  title = none;
  photo_url = none;
  term_start_date = none;
  term_end_date = none;
  website = none;
  email = none;
  phone = none;
  office_address = none;
}

abbrev smith : ElectedOfficial
smith = record {
  id = 1;
  boundary_type = "state_senate";
  district_identifier = "18";
  full_name = "Jo Smith";
  details = no_details;
  last_election_date = none;
  next_election_date = none;
  external_ids = none;
  status = OfficialStatus.manual;
  approved_by_id = none;
  approved_at = none;
}

-- the provider's view of that official, and of one who is not there yet
abbrev smith_source : ElectedOfficialSource
smith_source = record {
  id = 10;
  elected_official_id = some 1;
  source_name = "open_states";
  source_record_id = "a";
  boundary_type = "state_senate";
  district_identifier = "18";
  raw_data = none;
  full_name = "Joan Smith";
  details = record no_details { party = some "R" };
  fetched_at = 5;
  is_current = true;
}

abbrev jones_source : ElectedOfficialSource
jones_source = record smith_source {
  id = 11;
  elected_official_id = none;
  source_record_id = "b";
  full_name = "Al Jones";
}

abbrev tables : Db
tables = record { officials = smith ∷ []; sources = smith_source ∷ jones_source ∷ [] }

abbrev joan : ElectedOfficial
joan = approve 50 9 (promote smith_source smith)

abbrev after_approval : Db
after_approval = record tables { officials = joan ∷ [] }

approves_smith : approve_official tables 50 smith 9 (some 10) ≡ ok (joan, after_approval)
unfolding approve_official
approves_smith = refl

-- names are compared as they are, and a source draws 100
abbrev as_is : String → String
as_is name = name

abbrev hundred : ℕ → ℕ
hundred source = 100

abbrev jones : ElectedOfficial
jones = official_of 100 jones_source

abbrev after_linking : Db
after_linking = record {
  officials = smith ∷ jones ∷ [];
  sources = smith_source ∷ record jones_source { elected_official_id = some 100 } ∷ [];
}

creates_jones :
    auto_create_officials_from_sources as_is hundred tables "state_senate" "18"
    ≡ ok (jones ∷ [], after_linking)
unfolding auto_create_officials_from_sources link_sources link_source find_matching_official
creates_jones = refl

auto_create_officials_from_sources-IsLinked_example :
    (count_where (is_unlinked "state_senate" "18") after_linking.sources ≡ 0)
    × Extends (Relinks as_is after_linking.officials) tables.sources after_linking.sources
    × (after_linking.officials ≡ tables.officials ++ jones ∷ [])
    × All IsAuto (jones ∷ [])
auto_create_officials_from_sources-IsLinked_example =
    auto_create_officials_from_sources-IsLinked as_is hundred tables "state_senate" "18"
      (jones ∷ []) after_linking creates_jones

abbrev news : OfficialRecord
news = record {
  source_name = "open_states";
  source_record_id = "c";
  boundary_type = "state_senate";
  district_identifier = "18";
  full_name = "Jo Smith";
  details = no_details;
  raw_data = none;
}

abbrev news_row : ElectedOfficialSource
news_row = link as_is (some 1) (new_source as_is 60 12 news)

abbrev after_fetch : Db
after_fetch = record tables { sources = smith_source ∷ jones_source ∷ news_row ∷ [] }

fetches : upsert_source_records as_is tables 60 ((12, news) ∷ []) ≡ ok (news_row ∷ [], after_fetch)
unfolding upsert_source_records upsert_record find_matching_official
fetches = refl

tables-UniqueSources : UniqueSources tables.sources
tables-UniqueSources n r =
    IsKey-append (has_key n r) (smith_source ∷ []) jones_source
      (λ p.
        count_where-none (has_key "open_states" "b") (has_key n r) (smith_source ∷ [])
          (λ t l. same_key "open_states" "b" n r jones_source t refl p l) refl)
      (ground arith)

upsert_source_records-stored_example :
    UniqueSources after_fetch.sources
    × All
        (λ (r : ℕ × OfficialRecord).
          (count_where (has_key r.1.source_name r.1.source_record_id) after_fetch.sources ≡ 1)
          × (exists_where (is_stored r.1) after_fetch.sources ≡ true))
        ((12, news) ∷ [])
upsert_source_records-stored_example =
    upsert_source_records-stored as_is ((12, news) ∷ []) tables 60 (news_row ∷ []) after_fetch
      tables-UniqueSources fetches
