-- ===== src/Sched.antt =====
-- src/app: the schedulers and what they share.
pub mod Table
pub mod Primitives
pub mod Info
pub mod Helper
pub mod Preprocessor
pub mod Flexible
pub mod Eicic
pub mod Remote
