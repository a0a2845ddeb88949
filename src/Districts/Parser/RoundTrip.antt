-- ===== src/Districts/Parser/RoundTrip.antt =====
-- The texts of the feed for a numbered district, and what `parse_election_district` makes of them.
use voter_api.Prelude.{
  ℕ, Bool, true, false, ◌&&◌, not, ◌≡◌, refl, ap, ◌∙◌, [], ◌∷◌, ◌++◌, Option, none, some, arith,
  ◌==◌,
}
use voter_api.Text.{Text, codes, is_digit, is_space, has_char, lower, before, from}
use voter_api.Text.Search.{find_number, number_after, leading_digits}
use voter_api.Districts.Parser.{
  bare_district, classify_district, find_party, party_here, parse_election_district, parse_bare,
}

abbrev pub all_digits : Text → Bool
all_digits [] = true
all_digits (c ∷ s) = is_digit c && all_digits s

-- an office of the feed
pub data Office : Type 0 where
  state_house congressional state_senate psc : Office

abbrev pub office_text : Office → Text
office_text Office.state_house = codes "State House of Representatives"
office_text Office.congressional = codes "US House of Representatives"
office_text Office.state_senate = codes "State Senate"
office_text Office.psc = codes "PSC"

abbrev pub office_type : Office → Text
office_type Office.state_house = codes "state_house"
office_type Office.congressional = codes "congressional"
office_type Office.state_senate = codes "state_senate"
office_type Office.psc = codes "psc"

pub data Party : Type 0 where
  dem rep : Party

abbrev pub party_text : Party → Text
party_text Party.dem = codes "Dem"
party_text Party.rep = codes "Rep"

abbrev pub party_suffix : Option Party → Text
party_suffix none = []
party_suffix (some p) = codes " - " ++ party_text p

abbrev pub special_prefix : Bool → Text
special_prefix true = codes "Special "
special_prefix false = []

-- "Special PSC - District 3 - Dem"
abbrev pub district_text : Bool → Office → Text → Option Party → Text
district_text special office n party =
    special_prefix special
    ++ (office_text office ++ (codes " - District " ++ (n ++ party_suffix party)))

has_char-digits :
    (n : Text) (party : Option Party)
    → all_digits n ≡ true
    → has_char b'/' (n ++ party_suffix party) ≡ false
has_char-digits [] none h = refl
has_char-digits [] (some Party.dem) h = refl
has_char-digits [] (some Party.rep) h = refl
has_char-digits (c ∷ n) party h = ground (arith, has_char-digits n party)

-- the digits end where the suffix begins
before-digits :
    (n : Text) (party : Option Party)
    → all_digits n ≡ true
    → before (λ d. not (is_digit d)) (n ++ party_suffix party) ≡ n
before-digits [] none h = refl
before-digits [] (some Party.dem) h = refl
before-digits [] (some Party.rep) h = refl
before-digits (c ∷ n) party h =
    let here : is_digit c ≡ true = ground arith in
    rw here (ap (λ t. c ∷ t) (before-digits n party (ground arith)))

find_party-skip : (c : ℕ) (s : Text) → (c == b'-') ≡ false → find_party (c ∷ s) ≡ find_party s
unfolding find_party
find_party-skip c s h =
    let none_here : party_here (c ∷ s) ≡ none = ground arith in
    ap (λ o. elim o [ none ↦ find_party s | some p ↦ some p ]) none_here

find_party-digits :
    (n : Text) (party : Option Party)
    → all_digits n ≡ true
    → find_party (n ++ party_suffix party)
      ≡ elim party [ none ↦ none | some p ↦ some (party_text p) ]
find_party-digits [] none h = unfold find_party in refl
find_party-digits [] (some Party.dem) h = unfold find_party in refl
find_party-digits [] (some Party.rep) h = unfold find_party in refl
find_party-digits (c ∷ n) party h =
    find_party-skip c (n ++ party_suffix party) (ground arith)
    ∙ find_party-digits n party (ground arith)

-- behind "Special "
abbrev bare_text : Office → Text → Option Party → Text
bare_text office n party = office_text office ++ (codes " - District " ++ (n ++ party_suffix party))

module _ (c : ℕ) (n : Text) (party : Option Party) (digits : all_digits (c ∷ n) ≡ true) where
  bare_district-text :
      (special : Bool) (office : Office)
      → bare_district (district_text special office (c ∷ n) party) ≡ bare_text office (c ∷ n) party
  unfolding bare_district lower
  bare_district-text true Office.state_house = rw (has_char-digits (c ∷ n) party digits) refl
  bare_district-text true Office.congressional = rw (has_char-digits (c ∷ n) party digits) refl
  bare_district-text true Office.state_senate = rw (has_char-digits (c ∷ n) party digits) refl
  bare_district-text true Office.psc = rw (has_char-digits (c ∷ n) party digits) refl
  bare_district-text false Office.state_house = rw (has_char-digits (c ∷ n) party digits) refl
  bare_district-text false Office.congressional = rw (has_char-digits (c ∷ n) party digits) refl
  bare_district-text false Office.state_senate = rw (has_char-digits (c ∷ n) party digits) refl
  bare_district-text false Office.psc = rw (has_char-digits (c ∷ n) party digits) refl

  here : is_digit c ≡ true
  here = ground arith

  solid : is_space c ≡ false
  solid = ground arith

  rest : before (λ d. not (is_digit d)) (n ++ party_suffix party) ≡ n
  rest = before-digits n party (ground arith)

  classify_district-text :
      (office : Office)
      → classify_district (bare_text office (c ∷ n) party) ≡ some (office_type office, none)
  unfolding classify_district lower
  classify_district-text Office.state_house = refl
  classify_district-text Office.congressional = refl
  classify_district-text Office.state_senate = refl
  classify_district-text Office.psc = refl

  spaces_end :
      from (λ d. not (is_space d)) ((c ∷ n) ++ party_suffix party) ≡ (c ∷ n) ++ party_suffix party
  spaces_end = rw solid refl

  leading_digits-text : leading_digits ((c ∷ n) ++ party_suffix party) ≡ some (c ∷ n)
  leading_digits-text = rw (here, rest) refl

  number_after-text :
      number_after (codes "district") (codes "District " ++ ((c ∷ n) ++ party_suffix party))
      ≡ some (c ∷ n)
  number_after-text = ap leading_digits spaces_end ∙ leading_digits-text

  abbrev tail : Text
  tail = codes "istrict " ++ ((c ∷ n) ++ party_suffix party)

  -- the search, once it has come to the word
  abbrev found_or : Text → Option Text → Option Text
  found_or s o = elim (elim o as (λ _. Option Text) [ none ↦ none | some m ↦ some m ]) [
    | none ↦ find_number (codes "district" ∷ []) s
    | some m ↦ some m
  ]

  find_number-text :
      (office : Office)
      → find_number (codes "district" ∷ []) (bare_text office (c ∷ n) party) ≡ some (c ∷ n)
  unfolding find_number
  find_number-text Office.state_house = ap (found_or tail) number_after-text
  find_number-text Office.congressional = ap (found_or tail) number_after-text
  find_number-text Office.state_senate = ap (found_or tail) number_after-text
  find_number-text Office.psc = ap (found_or tail) number_after-text

  find_party-text :
      (office : Office)
      → find_party (bare_text office (c ∷ n) party) ≡ find_party ((c ∷ n) ++ party_suffix party)
  unfolding find_party
  find_party-text Office.state_house = refl
  find_party-text Office.congressional = refl
  find_party-text Office.state_senate = refl
  find_party-text Office.psc = refl

-- A text of the feed for a district of one of its four kinds of office, with any number of digits,
-- with or without "Special " before it and a party behind it, is read back into that office, that
-- number and that party.
pub parse_election_district-text :
    (special : Bool) (office : Office) (c : ℕ) (n : Text) (party : Option Party)
    → all_digits (c ∷ n) ≡ true
    → parse_election_district (district_text special office (c ∷ n) party) ≡ record {
      district_type = some (office_type office);
      district_identifier = some (c ∷ n);
      party = elim party [ none ↦ none | some p ↦ some (party_text p) ];
      county = none;
      raw = district_text special office (c ∷ n) party;
    }
unfolding parse_election_district
parse_election_district-text special office c n party digits =
    let raw = district_text special office (c ∷ n) party in
    ap (parse_bare raw) (bare_district-text c n party digits special office)
    ∙ rw
        (
          classify_district-text c n party digits office,
          find_number-text c n party digits office,
          find_party-text c n party digits office,
          find_party-digits (c ∷ n) party digits,
        )
        refl
