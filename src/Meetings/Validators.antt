-- ===== src/Meetings/Validators.antt =====
-- lib/meetings/validators.py, with what it uses of Python's urllib.parse.
use voter_api.Prelude.{
  ℕ, Bool, true, false, ◌&&◌, ◌||◌, Option, none, some, List, [], ◌∷◌, ◌==◌, leb, is_some,
  if◌then◌else◌, ℤ, pos, ltb_ℤ,
}
use voter_api.Text.{
  Text, codes, is_in, is_upper, is_lower, is_digit, lower, strip, before, from, after_last,
}
use voter_api.Meetings.Db.{Platform, youtube, vimeo}

abbrev pub allowed_mime_types : List Text
allowed_mime_types =
    codes "application/pdf"
    ∷ codes "application/msword"
    ∷ codes "application/vnd.openxmlformats-officedocument.wordprocessingml.document"
    ∷ codes "application/vnd.ms-excel"
    ∷ codes "application/vnd.openxmlformats-officedocument.spreadsheetml.sheet"
    ∷ codes "text/csv"
    ∷ codes "image/png"
    ∷ codes "image/jpeg"
    ∷ codes "image/gif"
    ∷ codes "image/tiff"
    ∷ []

abbrev pub allowed_extensions : List Text
allowed_extensions =
    codes ".pdf"
    ∷ codes ".doc"
    ∷ codes ".docx"
    ∷ codes ".xls"
    ∷ codes ".xlsx"
    ∷ codes ".csv"
    ∷ codes ".png"
    ∷ codes ".jpg"
    ∷ codes ".jpeg"
    ∷ codes ".gif"
    ∷ codes ".tif"
    ∷ codes ".tiff"
    ∷ []

abbrev pub youtube_domains : List Text
youtube_domains =
    codes "youtube.com" ∷ codes "www.youtube.com" ∷ codes "youtu.be" ∷ codes "m.youtube.com" ∷ []

abbrev pub vimeo_domains : List Text
vimeo_domains = codes "vimeo.com" ∷ codes "www.vimeo.com" ∷ codes "player.vimeo.com" ∷ []

unfoldable pub validate_file_content_type : Text → Bool
unfolding strip lower
validate_file_content_type content_type =
    is_in (lower (strip (before (λ c. c == b';') content_type))) allowed_mime_types

-- `filename[filename.rfind("."):].lower()`, or nothing where there is no dot
unfoldable pub extract_extension : Text → Text
unfolding lower after_last
extract_extension filename = elim (from (λ c. c == b'.') filename) [
  | [] ↦ []
  | c ∷ r ↦ lower (b'.' ∷ after_last b'.' filename)
]

unfoldable pub validate_file_extension : Text → Bool
unfolding extract_extension
validate_file_extension filename = is_in (extract_extension filename) allowed_extensions

-- What `urlsplit` removes first: leading controls and spaces, then each tab and line break.
abbrev lstrip_control : Text → Text
lstrip_control [] = []
lstrip_control (c ∷ s) = let rest = lstrip_control s in if leb c 32 then rest else c ∷ s

abbrev without_breaks : Text → Text
without_breaks [] = []
without_breaks (c ∷ s) =
    let rest = without_breaks s in if c == 9 || c == 10 || c == 13 then rest else c ∷ rest

abbrev pub is_letter : ℕ → Bool
is_letter c = is_upper c || is_lower c

abbrev are_scheme_chars : Text → Bool
are_scheme_chars [] = true
are_scheme_chars (c ∷ s) =
    (is_letter c || is_digit c || c == b'+' || c == b'-' || c == b'.') && are_scheme_chars s

abbrev is_scheme : Text → Bool
is_scheme [] = false
is_scheme (c ∷ s) = is_letter c && are_scheme_chars s

-- the url behind `scheme:`
abbrev after_scheme : Text → Text
after_scheme url = elim (from (λ c. c == b':') url) [
  | [] ↦ url
  | c ∷ r ↦ if is_scheme (before (λ c. c == b':') url) then r else url
]

abbrev pub ends_netloc : ℕ → Bool
ends_netloc c = c == b'/' || c == b'?' || c == b'#'

abbrev netloc : Text → Text
netloc (c ∷ d ∷ r) = if c == b'/' && d == b'/' then before ends_netloc r else []
netloc _ = []

-- A host in brackets is an address of IPv6 or an error, and neither is among the domains.
abbrev has_bracket : Text → Bool
has_bracket [] = false
has_bracket (c ∷ s) = c == b'[' || c == b']' || has_bracket s

-- `(urlparse(url).hostname or "").lower()`
unfoldable pub hostname : Text → Text
unfolding after_last lower
hostname url =
    let place = netloc (after_scheme (without_breaks (lstrip_control url))) in
    if has_bracket place then [] else lower (before (λ c. c == b':') (after_last b'@' place))

unfoldable pub platform_of_host : Text → Option Platform
platform_of_host host =
    if is_in host youtube_domains
    then some youtube
    else if is_in host vimeo_domains
    then some vimeo
    else none

unfoldable pub detect_video_platform : Text → Option Platform
unfolding hostname platform_of_host
detect_video_platform url = platform_of_host (hostname url)

-- `(is_valid, platform)`
unfoldable pub validate_video_url : Text → Bool × Option Platform
validate_video_url url = (is_some (detect_video_platform url), detect_video_platform url)

abbrev is_negative : Option ℤ → Bool
is_negative none = false
is_negative (some n) = ltb_ℤ n (pos 0)

abbrev in_order : Option ℤ → Option ℤ → Bool
in_order (some start) (some end) = ltb_ℤ start end
in_order _ _ = true

unfoldable pub validate_video_timestamps : Option ℤ → Option ℤ → Bool
validate_video_timestamps start_seconds end_seconds =
    if is_negative start_seconds
    then false
    else if is_negative end_seconds
    then false
    else in_order start_seconds end_seconds
