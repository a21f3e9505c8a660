-- ===== src/Util.antt =====
-- src/util.rs: the checks on the environment, the deletion of the initramfs, the kind of the target's
-- init, and the emergency shell.
pub mod Sanity
pub mod Ramfs
pub mod Systemd
pub mod Pivot
pub mod Shell
mod Tests
