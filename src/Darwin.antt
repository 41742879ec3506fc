-- ===== src/Darwin.antt =====
-- The backend for macOS: src/hid_darwin.c, src/monitor_darwin.c and src/platform_darwin.c.
pub mod HidReports
pub mod Open
pub mod Location
pub mod Platform
pub mod Discovery
pub mod Events
pub mod Create
mod Tests
