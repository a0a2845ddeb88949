-- ===== src/Officials/Links.antt =====
-- `auto_create_officials_from_sources` of services/elected_official_service.py: the sources of a
-- district and the officials that they are linked to.
use mathlib.Core.List.{append_assoc, append-nil}
use text.Mathlib.TextPositions.{eq_refl}
use voter_api.Prelude.{
  ℕ, String, ◌≡◌, refl, sym, ◌∙◌, ◌⊎◌, inl, inr, Bool, true, false, ◌&&◌, none, some, List, [], ◌∷◌,
  ◌++◌, arith, find, exists_where, exists_where-append, exists_where-append_right, ==_refl, ◌>>=◌,
  count_where, All, All-append, Extends, ok, >>=-eq-ok, is_none, is_eq, Bool-cases, Option-cases,
}
use voter_api.Officials.Db.{Db, OfficialStatus, ElectedOfficial, ElectedOfficialSource}
use voter_api.Officials.Service.{
  Linking, find_matching_official, is_match, is_unlinked, official_of, link_source, link_sources,
  auto_create_officials_from_sources,
}

abbrev pub IsAuto : ElectedOfficial → Type 0
IsAuto o = (o.status ≡ OfficialStatus.auto) × (o.approved_by_id ≡ none)

module _ (upper : String → String) where
  -- an official that a source is linked to, of its district and its name
  abbrev pub is_link : ElectedOfficialSource → ElectedOfficial → Bool
  is_link s o =
      is_eq s.elected_official_id o.id
      && is_match upper s.boundary_type s.district_identifier s.full_name o

  abbrev pub HasLink : List ElectedOfficial → ElectedOfficialSource → Type 0
  HasLink officials s = exists_where (is_link s) officials ≡ true

  -- a row is as it was, or it was without a link and has one now
  abbrev pub Relinks : List ElectedOfficial → ElectedOfficialSource → ElectedOfficialSource → Type 0
  Relinks officials a b =
      (a ≡ b)
      ⊎ ((a.elected_official_id ≡ none)
          × (b ≡ record a { elected_official_id = b.elected_official_id })
          × HasLink officials b)

  found_link :
      (officials : List ElectedOfficial) (s : ElectedOfficialSource) (o : ElectedOfficial)
      → find (is_match upper s.boundary_type s.district_identifier s.full_name) officials ≡ some o
      → HasLink officials (record s { elected_official_id = some o.id })
  found_link [] s o h = absurd (ground arith)
  found_link (x ∷ xs) s o h =
      elim (Bool-cases (is_match upper s.boundary_type s.district_identifier s.full_name x)) [
        | inl e ↦ let same : x ≡ o = ground arith in ground arith
        | inr e ↦ ground (arith, found_link xs s o)
      ]

  -- an official that is made for a source fits it
  own_link :
      (s : ElectedOfficialSource) (i : ℕ)
      → is_link (record s { elected_official_id = some i }) (official_of i s) ≡ true
  own_link s i =
      rw
        (
          eq_refl s.boundary_type,
          eq_refl s.district_identifier,
          eq_refl (upper s.full_name),
          ==_refl i,
        )
        refl

  module _ (draw : ℕ → ℕ) where
    link_source-ok :
        (officials : List ElectedOfficial) (s s' : ElectedOfficialSource)
        (new : List ElectedOfficial)
        → link_source upper draw officials s ≡ ok (s', new)
        → (is_none s'.elected_official_id ≡ false)
          × (s' ≡ record s { elected_official_id = s'.elected_official_id })
          × HasLink (officials ++ new) s'
          × All IsAuto new
    unfolding link_source find_matching_official
    link_source-ok officials s s' new h =
        elim (Option-cases
          (find (is_match upper s.boundary_type s.district_identifier s.full_name) officials)) [
            | inl e ↦
                let s'_is : s' ≡ record s { elected_official_id = some (draw s.id) } =
                  ground arith in
                let new_is : new ≡ official_of (draw s.id) s ∷ [] = ground arith in
                let own : exists_where
                      (is_link (record s { elected_official_id = some (draw s.id) }))
                      (official_of (draw s.id) s ∷ [])
                    ≡ true =
                  rw (own_link s (draw s.id)) refl in
                rw (s'_is, new_is)
                  (
                    refl,
                    refl,
                    exists_where-append_right
                        (is_link (record s { elected_official_id = some (draw s.id) })) officials
                        (official_of (draw s.id) s ∷ []) own,
                    ((refl, refl), tt),
                  )
            | inr (o, e) ↦
                let s'_is : s' ≡ record s { elected_official_id = some o.id } = ground arith in
                let new_is : new ≡ [] = ground arith in
                rw (s'_is, new_is)
                  (
                    refl,
                    refl,
                    exists_where-append (is_link (record s { elected_official_id = some o.id }))
                        officials [] (found_link officials s o e),
                    tt,
                  )
          ]

    -- what the loop has done, for the officials that it began with
    pub record IsLinked (boundary_type district : String) (rows : List ElectedOfficialSource)
        (officials : List ElectedOfficial) (done : Linking) : Type 0 where
      pub relinks : Extends (Relinks done.officials) rows done.sources
      pub none_left : count_where (is_unlinked boundary_type district) done.sources ≡ 0
      pub adds : done.officials ≡ officials ++ done.created
      pub auto : All IsAuto done.created

    link_sources-IsLinked :
        (boundary_type district : String) (rows : List ElectedOfficialSource)
        (officials : List ElectedOfficial) (done : Linking)
        → link_sources upper draw boundary_type district rows officials ≡ ok done
        → IsLinked boundary_type district rows officials done
    unfolding link_sources
    link_sources-IsLinked b d [] officials done h =
        let is_done : done ≡ record { sources = []; officials = officials; created = [] } =
          ground arith in
        rw is_done
          (record { relinks = tt; none_left = refl; adds = sym (append-nil officials); auto = tt })
    link_sources-IsLinked b d (s ∷ rest) officials done h = elim (Bool-cases (is_unlinked b d s)) [
      | inl e ↦
          let run : (do
            (s', new) ← link_source upper draw officials s
            done' ← link_sources upper draw b d rest (officials ++ new)
            ok (record {
              sources = s' ∷ done'.sources;
              officials = done'.officials;
              created = new ++ done'.created;
            }))
              ≡ ok done =
            ground arith in
          let ((s', new), first, next) = >>=-eq-ok (link_source upper draw officials s) _ run in
          let (after, others, last) =
            >>=-eq-ok (link_sources upper draw b d rest (officials ++ new)) _ next in
          let ih = link_sources-IsLinked b d rest (officials ++ new) after others in
          let (given, kept, has, autos) = link_source-ok officials s s' new first in
          let is_done : done ≡ record {
            sources = s' ∷ after.sources;
            officials = after.officials;
            created = new ++ after.created;
          } =
            ground arith in
          let was : s.elected_official_id ≡ none = ground arith in
          let still : HasLink after.officials s' =
            rw ih.adds (exists_where-append (is_link s') (officials ++ new) after.created has) in
          let zero : count_where (is_unlinked b d) (s' ∷ after.sources) ≡ 0 =
            ground (arith, ih.none_left) in
          rw is_done (record {
            relinks = (inr (was, kept, still), ih.relinks);
            none_left = zero;
            adds = ih.adds ∙ append_assoc officials new after.created;
            auto = All-append IsAuto new after.created autos ih.auto;
          })
      | inr e ↦
          let run : (do
            after ← link_sources upper draw b d rest officials
            ok (record after { sources = s ∷ after.sources }))
              ≡ ok done =
            ground arith in
          let (after, others, last) =
            >>=-eq-ok (link_sources upper draw b d rest officials) _ run in
          let ih = link_sources-IsLinked b d rest officials after others in
          let is_done : done ≡ record after { sources = s ∷ after.sources } = ground arith in
          let zero : count_where (is_unlinked b d) (s ∷ after.sources) ≡ 0 =
            ground (arith, ih.none_left) in
          rw is_done (record {
            relinks = (inl refl, ih.relinks);
            none_left = zero;
            adds = ih.adds;
            auto = ih.auto;
          })
    ]

    -- When the officials of a district are created from its sources, no current source of the district
    -- is left without an official. A source that had one is as it was; any other is as it was, or has a
    -- link to an official of its district and name with nothing else changed. The officials are the
    -- old ones, unchanged, followed by the created ones, which nobody has approved.
    pub auto_create_officials_from_sources-IsLinked :
        (db : Db) (boundary_type district : String) (created : List ElectedOfficial) (db' : Db)
        → auto_create_officials_from_sources upper draw db boundary_type district
          ≡ ok (created, db')
        → (count_where (is_unlinked boundary_type district) db'.sources ≡ 0)
          × Extends (Relinks db'.officials) db.sources db'.sources
          × (db'.officials ≡ db.officials ++ created)
          × All IsAuto created
    unfolding auto_create_officials_from_sources
    auto_create_officials_from_sources-IsLinked db b d created db' h =
        let (done, run, last) =
          >>=-eq-ok (link_sources upper draw b d db.sources db.officials) _ h in
        let all = link_sources-IsLinked b d db.sources db.officials done run in
        let is_created : created ≡ done.created = ground arith in
        let is_db : db' ≡ record { officials = done.officials; sources = done.sources } =
          ground arith in
        rw (is_created, is_db) (all.none_left, all.relinks, all.adds, all.auto)
