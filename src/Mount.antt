-- ===== src/Mount.antt =====
-- src/mount.rs: where the root filesystem is, with which options it is mounted, and mounting.
pub mod Samples
mod Tests
pub mod Source
pub mod Options
pub mod Mounting
pub mod Efi
pub mod Moving
