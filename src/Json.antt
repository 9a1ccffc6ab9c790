-- ===== src/Json.antt =====
-- src/json_writer.cpp: an R value is written as JSON, or refused as a whole.
pub mod Leaves
pub mod Escape
pub mod Writer
pub mod Document
pub mod Refinement
pub mod Reader
pub mod RoundTrip
