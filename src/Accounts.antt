-- ===== src/Accounts.antt =====
-- SenSa/accounts: `Login` is the login page and the API that gives tokens, with the serializer that
-- both call; `Password` the change of a password.
pub mod Users
pub mod Login
pub mod Password
pub mod Examples
