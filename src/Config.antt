-- ===== src/Config.antt =====
-- src/config.rs: the configuration file and the command line.
pub mod Cmdline
pub mod Current
pub mod Runtime
mod Tests
