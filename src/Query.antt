-- ===== src/Query.antt =====
-- internal/server/query.go, `query_data`: how a query is read, run and answered.
pub mod Parse
pub mod Sheets
pub mod Search
pub mod Handler
pub mod Kinds
pub mod Json
pub mod Results
pub mod Limits
pub mod Fresh
