-- ===== src/Admin.antt =====
-- The admin console of server/admin/src: its records, the client of the admin API, the session gate
-- with the login screen, and the theme.
pub mod Records
pub mod Api
pub mod Session
pub mod Theme
pub mod Pages
