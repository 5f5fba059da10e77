-- ===== src/Filters.antt =====
-- The filters of a table's view, ui/src/lib/filters.ts.
pub mod Values
pub mod Dates
pub mod Matching
pub mod Weeks
pub mod Rows
pub mod Operators
mod Tests
