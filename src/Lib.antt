-- ===== src/Lib.antt =====
-- A model of the core services of voter-api, the backend of an elections and public records site
-- (a FastAPI application over PostgreSQL), and the theorems that make them correct.
--
-- Nine parts are modelled. The meeting records: governing bodies hold meetings, a meeting has
-- agenda items, and a meeting or an agenda item has attachments and video embeds; contributors
-- submit meetings, which an admin approves or rejects; rows are deleted by setting `deleted_at`.
-- The accounts: login with a password and a second factor, password resets and invites; the user
-- that a login returns is whom the meeting records authorise. The checks that a route makes on a
-- request: whose token it carries, which role that user has, and which fields the response may
-- show. The elected officials: providers deliver sources, from which officials are created, and an
-- admin approves them. The elections: their records, linked to boundaries, and their results, which
-- an admin submits or a feed delivers, and the resolution that finds the election and the event of
-- each record of who voted. The districts that the texts of a feed and of a list of candidates
-- name; the elections are linked to boundaries by them. The locations of voters: a geocoder or a
-- user gives them, one is primary, and the official one follows the best unless an admin overrides
-- it. The runner of background jobs. The comparison of the boundaries that a voter is registered in
-- with those of the address. The services of the directory src/voter_api/services call the
-- libraries of src/voter_api/lib and read and write the tables of src/voter_api/models.
--
-- The files:
--   Prelude        shared helpers: Boolean tests, lists, results, integers, tables as lists of rows
--                  (Prelude/Rows), and how a table may grow (Prelude/Growth)
--   Text           Python's str as its code points, and the methods that the services call; Text/Search
--                  the searches that stand for regular expressions, on ASCII text
--   Users          src/voter_api/models/user.py
--   Meetings/Db    the tables: src/voter_api/models/governing_body.py, meeting.py, agenda_item.py,
--                  meeting_attachment.py and meeting_video_embed.py
--   Meetings/Service      src/voter_api/services/meeting_service.py, with Meetings/Filters
--   Meetings/Bodies       src/voter_api/services/governing_body_service.py
--   Meetings/Agenda       src/voter_api/services/agenda_item_service.py
--   Meetings/Attachments  src/voter_api/services/meeting_attachment_service.py
--   Meetings/Embeds       src/voter_api/services/meeting_video_embed_service.py
--   Meetings/Parents      the checks on a parent that the last two share
--   Meetings/Validators   src/voter_api/lib/meetings/validators.py
--   Meetings/Steps        all write handlers as one system: a command is a call of a handler, a run is
--                         any sequence of them; its children hold the invariants over runs
--   Meetings/Cascade      what deleting a meeting takes along
--   Auth/Db        the tables of accounts: src/voter_api/models/totp.py and auth_tokens.py, the settings
--                  that the login reads, and the parameters
--   Auth/Login     `authenticate_user` of src/voter_api/services/auth_service.py, with the recovery codes
--                  of src/voter_api/lib/totp/manager.py
--   Auth/Accounts  the accounts of that service, Auth/Totp the enrolment of a second factor, and
--                  Auth/Tokens its password resets and invites
--   Auth/Steps     all of these as one system, with the invariants over runs
--   Background/Runner     src/voter_api/core/background.py as a step relation, with Background/Slots and
--                         Background/Progress
--   Officials/Db          src/voter_api/models/elected_official.py and src/voter_api/lib/officials/base.py
--   Officials/Service     src/voter_api/services/elected_official_service.py, with Officials/Sources,
--                         Officials/Links and Officials/Approval
--   Access                src/voter_api/core/dependencies.py and src/voter_api/core/sensitivity.py, with
--                         Access/Guards; Access/Tokens src/voter_api/core/security.py and the login
--                         options of a passkey of src/voter_api/services/auth_service.py
--   Analysis/Comparator   src/voter_api/lib/analyzer/comparator.py
--   Districts/Parser      src/voter_api/lib/district_parser/parser.py: the districts of a feed, with
--                         Districts/Contest, those of a list of candidates, and Districts/Psc, the
--                         counties of the Public Service Commission
--   Elections/Db          src/voter_api/models/election.py and boundary.py
--   Elections/Ingest      src/voter_api/lib/election_tracker: a parsed feed and the results in it
--   Elections/Link        `link_election_to_boundary` and its backfill, of
--                         src/voter_api/services/election_resolution_service.py
--   Elections/Service     src/voter_api/services/election_service.py, with Elections/Results and
--                         Elections/Refresh, and the import of a feed in Elections/Feed
--   Elections/Resolve     the resolution of the history of voters, of
--                         src/voter_api/services/election_resolution_service.py: its tables in Tables,
--                         the tiers in Events, Single and Multiple, with the bulk updates in Updates,
--                         and all of it in Run; Reach says whom an election reaches
--   Elections/Unique      the unique indexes of the elections; Elections/Steps all write handlers as one
--                         system, with the invariants over runs
--   Locations/Db          src/voter_api/models/geocoded_location.py, the official location of voter.py
--                         and geocoding_job.py
--   Locations/Service     the locations of voters, the start and the end of geocoding jobs, of
--                         src/voter_api/services/geocoding_service.py; Locations/Steps its
--                         requests as one system, with the jobs that are ended in Ended and Reopened
--   Examples              concrete tables and requests, at which the theorems are applied
--
-- A handler keeps its name. It is a function from the tables and its arguments to what it returns and
-- the tables that it commits, or to the error that it raises; `committed` is the tables after a
-- request, which are those before it where the handler raises. The clock (`now`) and the UUID or the
-- token that a handler draws are its arguments. A UUID and an instant are natural numbers. `select`,
-- `find` and `count_where` are the queries, `write` and `modify` the assignments to the attributes of
-- rows; a partial unique index, a foreign key or a NOT NULL column that a statement may violate is a
-- guard of the handler, with the error that the service makes of it, and so are the widths of the
-- columns of an election. Requests run one at a time: two
-- transactions that interleave are not modelled. The tasks of the runner do interleave, in any order.
--
-- Parameters of the model: the order in which SQLAlchemy emits the UPDATE statements of a flush, the
-- order that the database gives to rows that a listing leaves tied, and the storage of files; bcrypt, the TOTP codes of pyotp with Fernet, and SHA-256 (the record
-- Crypto of Auth/Db); PyJWT (the record Jwt of Access/Tokens); whether a mail is delivered; `upper`
-- of the database; what the HTTP fetch of a feed gives. All recursion is structural, so no fuel is
-- used.
--
-- Not modelled: the routes of src/voter_api/api and their Pydantic schemas (a handler is given any
-- arguments, but for the bounds that import_feed checks by building a request), logging, the eager
-- loading of relationships, the listings of elections, and the other services and libraries
-- (imports, the providers of geocoding, boundaries, publishing and the command line).
pub mod Prelude
pub mod Users
pub mod Text
pub mod Meetings
pub mod Access
pub mod Analysis
pub mod Auth
pub mod Background
pub mod Districts
pub mod Elections
pub mod Locations
pub mod Officials
pub mod Examples
