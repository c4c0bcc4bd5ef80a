-- ===== src/Rest.antt =====
-- internal/api/rest: the routes of server.go and the handlers. A request is the route that it matches and
-- what the handler reads of it; gin, JSON and HTTP are left out.
pub mod Routes
pub mod Access
pub mod Accounts
pub mod Workflows
