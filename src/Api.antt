-- ===== src/Api.antt =====
-- api/internal/api/v1: the handlers of the HTTP interface.
pub mod Access
pub mod Events
