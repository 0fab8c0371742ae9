-- ===== src/Api.antt =====
-- apps/api: the services behind the HTTP routes, and the checks that guard the routes.
pub mod Workflows
pub mod Accounts
pub mod Access
pub mod Routes
