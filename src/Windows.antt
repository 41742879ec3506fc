-- ===== src/Windows.antt =====
-- src/monitor_win32.c and src/platform_win32.c: how the devices of Windows are found, and how a
-- monitor learns of those that come and go. What the calls of Windows answer are arguments.
pub mod Ids
pub mod Notifications
pub mod Controllers
pub mod Location
pub mod Strings
pub mod Reading
pub mod Refresh
pub mod Create
pub mod Platform
mod Tests
