-- ===== src/Elections/Unique/Create.antt =====
-- `create_election` where the unique indexes hold.
use voter_api.Prelude.{
  ℕ, ◌≡◌, refl, sym, ◌∙◌, ◌⊎◌, inl, inr, Bool, true, false, not, ◌||◌, Option, none, some, List, [],
  ◌∷◌, ◌++◌, ◌≤◌, arith, find, exists_where, Result, Result-cases, ok, err, leb, is_none, guard,
  count_where, Bool-cases, find-exists, ◌>>=◌, ◌>>◌,
}
use voter_api.Text.{Text}
use voter_api.Elections.Db.{
  Db, Election, Boundary, Error, duplicate_election, boundary_required, no_such_boundary,
  integrity_error, data_error, one_or_none, named_on, fed_by,
}
use voter_api.Elections.Service.{
  ElectionCreateRequest, create_election, check_feed, place_election, new_election, may_store, fits,
  has_id, feed_clash,
}
use voter_api.Elections.Unique.{HasUniqueRows}
use voter_api.Elections.Unique.Columns.{IsFitting, fits_iff}
use voter_api.Elections.Unique.Handlers.{place_election-keys}

one_or_none-ok :
    (p : Election → Bool) (rows : List Election)
    → count_where p rows ≤ 1
    → one_or_none p rows ≡ ok (find p rows)
unfolding one_or_none
one_or_none-ok p rows h = ground arith

-- with a key, the guard on the row that is found is a guard on the key
check_none :
    (p : Election → Bool) (rows : List Election) → is_none (find p rows) ≡ not (exists_where p rows)
check_none p rows = ground (arith, find-exists p rows)

check_feed-guard :
    (url item : Option Text) (rows : List Election)
    → ((u t : Text) → count_where (fed_by u t) rows ≤ 1)
    → check_feed rows url item ≡ guard (not (feed_clash url item rows)) duplicate_election
unfolding check_feed
check_feed-guard none item rows h = refl
check_feed-guard (some u) none rows h = refl
check_feed-guard (some u) (some t) rows h =
    rw (one_or_none-ok (fed_by u t) rows (h u t), check_none (fed_by u t) rows) refl

place_election-raises :
    (boundaries : List Boundary) (b : Option ℕ) (e : Election) (raised : Error)
    → place_election boundaries b e ≡ err raised
    → (raised ≡ boundary_required) ⊎ (raised ≡ no_such_boundary)
unfolding place_election
place_election-raises boundaries b e raised h = ground arith

module _ (db : Db) (fresh : ℕ) (request : ElectionCreateRequest) (u : HasUniqueRows db) where
  abbrev clash : Bool
  clash = feed_clash request.data_source_url request.ballot_item_id db.elections

  abbrev is_named : Bool
  is_named = exists_where (named_on request.name request.election_date) db.elections

  abbrev placed : Result Error Election
  placed = place_election db.boundaries request.boundary_id (new_election fresh request)

  -- the rows that the queries find, as tests
  create_election-eq : create_election db fresh request ≡ (
      guard (not clash) duplicate_election
      >> (guard (not is_named) duplicate_election
          >> (placed >>= λ e.
              guard (fits e) data_error
              >> (guard (not (exists_where (has_id fresh) db.elections)) integrity_error
                  >> (guard (may_store e db.elections) integrity_error
                      >> ok (e, record db { elections = db.elections ++ e ∷ [] }))))))
  unfolding create_election
  create_election-eq =
      rw
        (
          check_feed-guard request.data_source_url request.ballot_item_id db.elections
              u.elections.feeds,
          one_or_none-ok (named_on request.name request.election_date) db.elections
              (u.elections.names request.name request.election_date),
          check_none (named_on request.name request.election_date) db.elections,
        )
        refl

  -- a request for a race that is there
  pub create_election-known :
      (clash ≡ true) ⊎ (is_named ≡ true) → create_election db fresh request ≡ err duplicate_election
  create_election-known (inl h) = create_election-eq ∙ rw h refl
  create_election-known (inr h) =
      create_election-eq ∙ elim (Bool-cases clash) [ inl g ↦ rw g refl | inr g ↦ rw (g, h) refl ]

  may_store-placed :
      (e : Election)
      → 60 ≤ request.refresh_interval_seconds
      → clash ≡ false
      → is_named ≡ false
      → placed ≡ ok e
      → may_store e db.elections ≡ true
  unfolding may_store
  may_store-placed e long no_clash free is_placed =
      let (n, d, s, t, r) =
        place_election-keys db.boundaries request.boundary_id (new_election fresh request) e
          is_placed in
      let enough : leb 60 request.refresh_interval_seconds ≡ true = ground arith in
      rw (n, d, s, t, r, no_clash, free, enough) (ground arith)

  -- a request that is refused as a duplicate is for a race that is there
  pub create_election-duplicate :
      create_election db fresh request ≡ err duplicate_election → (clash ≡ true) ⊎ (is_named ≡ true)
  create_election-duplicate raised = elim (Bool-cases clash) [
    | inl h ↦ inl h
    | inr h ↦ elim (Bool-cases is_named) [
      | inl g ↦ inr g
      | inr g ↦
          let other = sym create_election-eq ∙ raised in
          elim (Result-cases placed) [
            | inl (e, p) ↦ let left = rw (h, g, p) at other in absurd (ground arith)
            | inr (b, p) ↦
                let left = rw (h, g, p) at other in
                absurd (
                  ground (
                    arith,
                    place_election-raises db.boundaries request.boundary_id
                        (new_election fresh request) b p,
                  ))
          ]
    ]
  ]

-- an election of the same feed and ballot item, or one of the same name and date, not deleted
abbrev pub is_duplicate : Db → ElectionCreateRequest → Bool
is_duplicate db request =
    feed_clash request.data_source_url request.ballot_item_id db.elections
    || exists_where (named_on request.name request.election_date) db.elections

-- `create_election` stores the election, or raises for a reason that it or a column knows.
abbrev pub IsAnswered : Db → ℕ → ElectionCreateRequest → Type 0
IsAnswered db fresh request =
    ((is_duplicate db request ≡ true) × (create_election db fresh request ≡ err duplicate_election))
    ⊎ ((is_duplicate db request ≡ false)
        × (((e : Election) × (place_election db.boundaries request.boundary_id
                  (new_election fresh request)
                ≡ ok e)
              × ((IsFitting e
                    × (create_election db fresh request
                        ≡ ok (e, record db { elections = db.elections ++ e ∷ [] })))
                  ⊎ ((¬ IsFitting e) × (create_election db fresh request ≡ err data_error))))
            ⊎ (create_election db fresh request ≡ err boundary_required)
            ⊎ (create_election db fresh request ≡ err no_such_boundary)))

-- Where the unique indexes hold, a request with a new id and an interval of at least 60 seconds is
-- refused as a duplicate exactly if an election of the same feed and ballot item exists, or one of
-- the same name and date that is not deleted. Otherwise the election is stored if it fits its
-- columns, and refused with a DataError if its interval or a text does not; or its boundary is
-- missing: no IntegrityError and no MultipleResultsFound gets out.
pub create_election-IsAnswered :
    (db : Db) (fresh : ℕ) (request : ElectionCreateRequest)
    → HasUniqueRows db
    → exists_where (has_id fresh) db.elections ≡ false
    → 60 ≤ request.refresh_interval_seconds
    → IsAnswered db fresh request
create_election-IsAnswered db fresh request u unused long =
    let clash = feed_clash request.data_source_url request.ballot_item_id db.elections in
    let is_named = exists_where (named_on request.name request.election_date) db.elections in
    let placed = place_election db.boundaries request.boundary_id (new_election fresh request) in
    let eq = create_election-eq db fresh request u in
    elim (Bool-cases clash) [
      | inl h ↦ inl (rw h refl, create_election-known db fresh request u (inl h))
      | inr h ↦ elim (Bool-cases is_named) [
        | inl g ↦ inl (rw (h, g) refl, create_election-known db fresh request u (inr g))
        | inr g ↦ inr (
          rw (h, g) refl,
          elim (Result-cases placed) [
            | inl (e, p) ↦
                let stored = may_store-placed db fresh request u e long h g p in
                inl (
                  e,
                  p,
                  elim (Bool-cases (fits e)) [
                    | inl k ↦ inl ((fits_iff e).0 k, eq ∙ rw (h, g, p, k, unused, stored) refl)
                    | inr k ↦ inr (
                      (λ fit. absurd (ground (arith, (fits_iff e).1 fit))),
                      eq ∙ rw (h, g, p, k) refl,
                    )
                  ],
                )
            | inr (raised, p) ↦
                inr
                  (elim (place_election-raises db.boundaries request.boundary_id
                    (new_election fresh request) raised p) [
                      | inl b ↦ inl (eq ∙ rw (h, g, p, b) refl)
                      | inr b ↦ inr (eq ∙ rw (h, g, p, b) refl)
                    ])
          ],
        )
      ]
    ]
