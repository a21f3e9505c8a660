-- ===== src/Module.antt =====
-- src/module.rs: kernel modules, their aliases, their parameters and their loading.
pub mod Params
pub mod Loading
pub mod Aliases
pub mod Finit
mod Tests
