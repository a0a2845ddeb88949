-- ===== src/Auth.antt =====
-- The accounts: services/auth_service.py over models/user.py, models/totp.py and
-- models/auth_tokens.py.
pub mod Db
pub mod Login
pub mod Accounts
pub mod Totp
pub mod Tokens
pub mod Steps
