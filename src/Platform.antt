-- ===== src/Platform.antt =====
-- src/platform.c and src/platform_posix.c: the clock and its timeouts, the descriptor set and
-- `hs_poll`, the Linux version.
pub mod Timeout
pub mod LinuxVersion
pub mod DescriptorSet
pub mod Poll
mod Tests
