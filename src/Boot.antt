-- ===== src/Boot.antt =====
-- src/main.rs: what the system gives it (World), its functions (Init, Target, Evloop, Main), and what
-- becomes of them: where they end (Ends), what they log (Silent, Report), and the hand-over (HandOver).
pub mod Exit
pub mod Evloop
pub mod World
pub mod Target
pub mod Init
pub mod Ends
pub mod Main
pub mod Silent
pub mod Switched
pub mod HandOver
pub mod CStrings
pub mod Report
pub mod Samples
mod Tests
