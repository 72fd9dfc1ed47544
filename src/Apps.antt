-- ===== src/Apps.antt =====
-- src/app: the managers that ask for statistics and that delegate control.
pub mod Stats
pub mod Delegation
