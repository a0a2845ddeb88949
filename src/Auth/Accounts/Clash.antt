-- ===== src/Auth/Accounts/Clash.antt =====
-- `create_user` where two accounts stand in the way.
use voter_api.Prelude.{ℕ, ◌≡◌, ◌≢◌, some, arith, find, count_where-two, err}
use voter_api.Users.{User}
use voter_api.Auth.Db.{Db, Crypto, named, mailed, multiple_results}
use voter_api.Auth.Accounts.{UserCreateRequest, create_user, one_or_none, is_same_user}

-- Where one account has the username of the request and another account has its email, the query
-- of `create_user` finds two rows, and the request raises SQLAlchemy's MultipleResultsFound in
-- place of the ValueError that it raises for one.
pub create_user-two :
    (crypto : Crypto) (db : Db) (fresh salt : ℕ) (request : UserCreateRequest) (a b : User)
    → find (named request.username) db.users ≡ some a
    → find (mailed request.email) db.users ≡ some b
    → a ≢ b
    → create_user crypto db fresh salt request ≡ err multiple_results
unfolding create_user one_or_none
create_user-two crypto db fresh salt request a b has_name has_email other =
    let two =
      count_where-two (named request.username) (mailed request.email)
        (is_same_user request.username request.email) db.users (λ c p. ground arith)
        (λ c p. ground arith) has_name has_email other in
    ground arith
