-- ===== src/Elections/Unique/Handlers.antt =====
-- What each handler of services/election_service.py does to the unique indexes.
use voter_api.Prelude.{
  ℕ, ◌≡◌, refl, sym, ◌∙◌, inl, inr, true, false, Option, none, some, List, [], ◌∷◌, ◌++◌, arith,
  find, write, exists_where, Bool-cases, Result-cases, ok, >>=-eq-ok, committed, if_committed,
  Option-cases, is_none, guard,
}
use voter_api.Text.{Text}
use voter_api.Elections.Db.{
  Db, Election, Boundary, election_at, named_on, one_or_none, duplicate_election, is_manual,
  not_manual,
}
use voter_api.Elections.Link.{link_election_to_boundary, with_district}
use voter_api.Elections.Service.{
  ElectionCreateRequest, ElectionField, has_id, may_store, fits, others, check_feed, new_election,
  place_election, create_election, get_election_by_id, set_field, set_fields, update_election,
  soft_delete_election, linked_to, link_election,
}
use voter_api.Elections.Unique.{
  KeepsRows, HasUniqueRows, UniqueElections-append, UniqueElections-write, UniqueElections-keep,
}

link_election_to_boundary-id :
    (boundaries : List Boundary) (e : Election)
    → (link_election_to_boundary boundaries e).0.id ≡ e.id
unfolding link_election_to_boundary with_district
link_election_to_boundary-id boundaries e = ground arith

place_election-id :
    (boundaries : List Boundary) (b : Option ℕ) (e e' : Election)
    → place_election boundaries b e ≡ ok e'
    → e'.id ≡ e.id
unfolding place_election
place_election-id boundaries b e e' h = ground (arith, link_election_to_boundary-id boundaries e)

-- the columns that the checks on a new row read
pub place_election-keys :
    (boundaries : List Boundary) (b : Option ℕ) (e e' : Election)
    → place_election boundaries b e ≡ ok e'
    → (e'.name ≡ e.name)
      × (e'.election_date ≡ e.election_date)
      × (e'.data_source_url ≡ e.data_source_url)
      × (e'.ballot_item_id ≡ e.ballot_item_id)
      × (e'.refresh_interval_seconds ≡ e.refresh_interval_seconds)
unfolding place_election link_election_to_boundary with_district
place_election-keys boundaries b e e' h = ground arith

pub create_election-ok :
    (db : Db) (fresh : ℕ) (request : ElectionCreateRequest) (e : Election) (db' : Db)
    → create_election db fresh request ≡ ok (e, db')
    → (e.id ≡ fresh)
      × (e.data_source_url ≡ request.data_source_url)
      × (e.ballot_item_id ≡ request.ballot_item_id)
      × (exists_where (has_id fresh) db.elections ≡ false)
      × (may_store e db.elections ≡ true)
      × (db' ≡ record db { elections = db.elections ++ e ∷ [] })
unfolding create_election
create_election-ok db fresh request e db' h =
    let (_, fed, h1) =
      >>=-eq-ok (check_feed db.elections request.data_source_url request.ballot_item_id) _ h in
    let (existing, read, h2) =
      >>=-eq-ok (one_or_none (named_on request.name request.election_date) db.elections) _ h1 in
    let (_, free, h3) = >>=-eq-ok (guard (is_none existing) duplicate_election) _ h2 in
    let (placed, place, h4) =
      >>=-eq-ok (place_election db.boundaries request.boundary_id (new_election fresh request)) _
        h3 in
    let id =
      place_election-id db.boundaries request.boundary_id (new_election fresh request) placed
        place in
    let (_, _, url, item, _) =
      place_election-keys db.boundaries request.boundary_id (new_election fresh request) placed
        place in
    (ground arith, ground arith, ground arith, ground arith, ground arith, ground arith)

set_field-id : (e e' : Election) (f : ElectionField) → set_field e f ≡ ok e' → e'.id ≡ e.id
unfolding set_field
set_field-id e e' (ElectionField.name none) h = cc
set_field-id e e' (ElectionField.status none) h = cc
set_field-id e e' (ElectionField.refresh_interval_seconds none) h = cc
set_field-id e e' (ElectionField.name (some v)) h = ground arith
set_field-id e e' (ElectionField.status (some v)) h = ground arith
set_field-id e e' (ElectionField.refresh_interval_seconds (some v)) h = ground arith
set_field-id e e' _ h = ground arith

set_fields-id : (fs : List ElectionField) (e e' : Election) → set_fields e fs ≡ ok e' → e'.id ≡ e.id
unfolding set_fields
set_fields-id [] e e' h = ground arith
set_fields-id (f ∷ fs) e e' h =
    let (mid, first, rest) = >>=-eq-ok (set_field e f) (λ m. set_fields m fs) h in
    set_fields-id fs mid e' rest ∙ set_field-id e mid f first

pub create_election-HasUniqueRows :
    (db : Db) (fresh : ℕ) (request : ElectionCreateRequest) (e : Election) (db' : Db)
    → create_election db fresh request ≡ ok (e, db')
    → KeepsRows db db'
create_election-HasUniqueRows db fresh request e db' h u =
    let (id, _, _, unused, stored, after) = create_election-ok db fresh request e db' h in
    rw after (record {
      elections = UniqueElections-append e db.elections stored (rw (sym id) at unused) u.elections;
      results = u.results;
      counties = u.counties;
    })

pub update_election-HasUniqueRows :
    (db : Db) (i : ℕ) (fields : List ElectionField)
    → KeepsRows db (committed db (update_election db i fields))
unfolding update_election get_election_by_id
update_election-HasUniqueRows db i fields u =
    elim (Option-cases (find (election_at i) db.elections)) [
      | inl e ↦ rw e u
      | inr (old, e) ↦ rw e (elim (Result-cases (set_fields old fields)) [
        | inr (raised, f) ↦ rw f u
        | inl (new, f) ↦ rw f (elim (Bool-cases (fits new)) [
          | inr k ↦ rw k u
          | inl k ↦ rw k (elim (Bool-cases (may_store new (others i db.elections))) [
            | inr g ↦ rw g u
            | inl g ↦ rw g (record {
              elections =
                  UniqueElections-write i old new db.elections u.elections e
                    (set_fields-id fields old new f) g;
              results = u.results;
              counties = u.counties;
            })
          ])
        ])
      ])
    ]

linked_to-id : (url : Text) (item : Option Text) (e : Election) → (linked_to url item e).id ≡ e.id
linked_to-id url none e = refl
linked_to-id url (some t) e = refl

link_election-none :
    (db : Db) (i : ℕ) (url : Text) (item : Option Text)
    → find (election_at i) db.elections ≡ none
    → (r : Option Election) (db' : Db) → link_election db i url item ≡ ok (r, db')
    → db ≡ db'
unfolding link_election get_election_by_id
link_election-none db i url item e r db' h = ground arith

link_election-ok :
    (db : Db) (i : ℕ) (url : Text) (item : Option Text) (old : Election)
    → find (election_at i) db.elections ≡ some old
    → (r : Option Election) (db' : Db) → link_election db i url item ≡ ok (r, db')
    → (may_store (linked_to url item old) (others i db.elections) ≡ true)
      × (db' ≡ record db {
        elections = write (election_at i) (λ _. linked_to url item old) db.elections;
      })
unfolding link_election get_election_by_id
link_election-ok db i url item old e r db' h =
    let (_, is_manual', h1) = >>=-eq-ok (guard (is_manual old.source) not_manual) _ (rw e at h) in
    let (_, free, h2) = >>=-eq-ok (check_feed (others i db.elections) (some url) item) _ h1 in
    (ground arith, ground arith)

pub link_election-HasUniqueRows :
    (db : Db) (i : ℕ) (url : Text) (item : Option Text)
    → KeepsRows db (committed db (link_election db i url item))
link_election-HasUniqueRows db i url item u =
    if_committed HasUniqueRows db (link_election db i url item) u (λ r db' h.
      elim (Option-cases (find (election_at i) db.elections)) [
        | inl e ↦ rw (← link_election-none db i url item e r db' h) u
        | inr (old, e) ↦
            let (stored, after) = link_election-ok db i url item old e r db' h in
            rw after (record {
              elections =
                  UniqueElections-write i old (linked_to url item old) db.elections u.elections e
                    (linked_to-id url item old) stored;
              results = u.results;
              counties = u.counties;
            })
      ])

pub soft_delete_election-HasUniqueRows :
    (db : Db) (now i : ℕ) → KeepsRows db (soft_delete_election db now i).1
unfolding soft_delete_election get_election_by_id
soft_delete_election-HasUniqueRows db now i u =
    elim (Option-cases (find (election_at i) db.elections)) [
      | inl e ↦ rw e u
      | inr (old, e) ↦ rw e (record {
        elections =
            UniqueElections-keep (election_at i) (λ r. record r { deleted_at = some now })
              db.elections (λ r. refl) (λ n d r h. absurd (ground arith)) (λ url item r h. h)
              u.elections;
        results = u.results;
        counties = u.counties;
      })
    ]
