-- ===== src/Admin.antt =====
-- internal/admin: the pages for the administrator of the server.
pub mod Auth
pub mod Fixed
pub mod Page
pub mod Markup
pub mod Sections
pub mod Inert
pub mod Token
pub mod Handler
pub mod Dashboard
pub mod Cookies
pub mod Access
mod Tests
