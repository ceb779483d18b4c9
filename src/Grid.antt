-- ===== src/Grid.antt =====
-- The data grid of the web interface: packages/webui/hooks/use-data-grid.ts and
-- packages/webui/lib/data-grid.ts.
pub mod Columns
pub mod Copy
pub mod Edit
pub mod Key
pub mod Keyboard
pub mod Mouse
pub mod Navigate
pub mod Paste
pub mod Rows
mod Sample
pub mod Scroll
pub mod Search
pub mod Select
pub mod State
pub mod Store
mod Tests
pub mod Tsv
pub mod Update
pub mod Url
pub mod Values
