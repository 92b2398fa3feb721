-- ===== src/App.antt =====
-- The web application's libraries under app/src/lib.
pub mod OauthState
