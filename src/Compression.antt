-- ===== src/Compression.antt =====
-- internal/compression/manager.go: answers that are too long are compressed, and the longest are cut.
pub mod Values
pub mod Truncation
pub mod Manager
pub mod Strings
pub mod Slices
pub mod RoundTrip
pub mod Maps
