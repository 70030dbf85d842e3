-- ===== src/Navigation.antt =====
-- internal/server/navigation.go, `build_navigation_map`: the index of a page of sheets.
pub mod Sheets
pub mod Paging
pub mod Handler
pub mod SearchIndex
pub mod Zones
pub mod Density
pub mod Pages
pub mod Panics
